-- ===== src/ChargeModePolicy/Start.antt =====
-- `async_start`, `_async_start_intent` and `async_stop` of charge_mode_policy.py.
use goodwe_wallbox_sems_home.Prelude.{
  ℕ, zero, suc, ◌+◌, Bool, true, false, not, ◌||◌, Option, none, some, List, [], ◌∷◌, leb, ◌==◌,
  if◌then◌else◌,
}
use goodwe_wallbox_sems_home.ChargeModePolicy.World.{
  Policy, Answer, World, M, Outcome, ok, fail, stuck, verification, superseded,
  start_not_acknowledged, power_kept_changing, stop_not_acknowledged, continue, ◌>>=◌, ◌>>◌, pure,
  raise, gets, modify, check, send, send_start, let_others, acquire, invalidate, stop,
}
use goodwe_wallbox_sems_home.ChargeModePolicy.Verify.{verify, run_budgeted}

abbrev pub restored_mode : Policy → Option ℕ
restored_mode p = if p.remember_mode then p.desired_mode else none

abbrev pub contains : ℕ → List ℕ → Bool
contains n [] = false
contains n (m ∷ ms) = n == m || contains n ms

abbrev pub discard : ℕ → List ℕ → List ℕ
discard n [] = []
discard n (m ∷ ms) = if n == m then discard n ms else m ∷ discard n ms

-- `self._closed or start_intent != self._start_intent_version`
abbrev pub is_outdated : ℕ → Policy → Bool
is_outdated intent p = p.closed || not (intent == p.start_intent_version)

module _ (env : ℕ → Answer) (intent : ℕ) where
  -- Once the wallbox is verified: nothing if it charges already, else the one Start.
  unfoldable pub start_after : Bool → M (Unit {0})
  start_after already = if already then pure tt else (do
    acknowledged ← run_budgeted (send_start env)
    if acknowledged then pure tt else raise (verification start_not_acknowledged))

  -- The `try` block of a round, with the version that was read before it.
  unfoldable pub attempt : ℕ → M (Unit {0})
  attempt version = do
    acquire env
    policy ← gets (λ w. w.policy)
    if is_outdated intent policy then raise superseded else (do
      already ← verify env version (restored_mode policy) false
      check version
      start_after already)

  -- The handler of RequestSuperseded, with the rounds that are left.
  unfoldable pub retry : ℕ → M (Unit {0}) → M (Unit {0})
  retry deadline again w =
      if is_outdated intent w.policy
      then (fail superseded, w)
      else if leb deadline w.now
      then (fail (verification power_kept_changing), w)
      else continue (let_others env w) (λ _. again)

  abbrev pub handled : ℕ → M (Unit {0}) → Outcome (Unit {0}) × World → Outcome (Unit {0}) × World
  handled deadline again (fail superseded, w) = retry deadline again w
  handled deadline again r = r

  unfoldable pub start_rounds : ℕ → ℕ → M (Unit {0})
  start_rounds zero deadline w = (stuck, w)
  start_rounds (suc fuel) deadline w =
      handled deadline (start_rounds fuel deadline) (attempt w.policy.version w)

-- `finally` of a block: what it does to the object, whatever the block came to.
abbrev pub finally : {A : Type 0} → (Policy → Policy) → M A → M A
finally f m w = let r = m w in (r.0, record r.1 { policy = f r.1.policy })

unfoldable pub start_intent : (ℕ → Answer) → ℕ → M (Unit {0})
start_intent env intent =
    finally (λ p. record p { starting = false; active_start_intent = none })
      (λ w.
        let w' = record w {
          policy = record w.policy { starting = true; active_start_intent = some intent };
        } in
        start_rounds env intent (w.policy.timeout + 2) (w.now + w.policy.timeout) w')

unfoldable pub async_start : (ℕ → Answer) → M (Unit {0})
async_start env w =
    let intent = w.policy.start_intent_version in
    if w.policy.closed
    then (fail superseded, w)
    else if contains intent w.policy.pending_start_intents
    then (ok tt, w)
    else finally (λ p. record p { pending_start_intents = discard intent p.pending_start_intents })
        (do
          acquire env
          policy ← gets (λ w. w.policy)
          if is_outdated intent policy then raise superseded else start_intent env intent)
        (record w {
          policy = record w.policy {
            pending_start_intents = intent ∷ w.policy.pending_start_intents;
          };
        })

unfoldable pub async_stop : (ℕ → Answer) → M (Unit {0})
async_stop env = do
  modify (invalidate true)
  acquire env
  policy ← gets (λ w. w.policy)
  acknowledged ← send env (stop policy)
  if acknowledged then pure tt else raise (verification stop_not_acknowledged)
