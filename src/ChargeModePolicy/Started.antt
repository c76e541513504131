-- ===== src/ChargeModePolicy/Started.antt =====
-- When ChargeModePolicy sends a Start, and that `async_start` ends.
use mathlib.Core.Path.{subst}
use goodwe_wallbox_sems_home.Prelude.{
  refl, ◌≡◌, none, some, ℕ, zero, suc, ◌+◌, ◌-◌, ◌<◌, List, ◌∷◌, arith, inl, leb, true, false,
  if◌then◌else◌, ◌≡◌, sym,
}
use goodwe_wallbox_sems_home.ChargeModePolicy.World.{
  continue, verification, Policy, Answer, Reply, got, configuration_unavailable, World, M, Outcome,
  ok, fail, stuck, superseded, Command, pass, from_reply, acquire, ◌>>◌, gets, ◌>>=◌, raise,
  let_others, pass_unlocked,
}
use goodwe_wallbox_sems_home.ChargeModePolicy.Start.{
  is_outdated, attempt, retry, handled, start_rounds, start_intent, async_start, finally, contains,
  discard,
}
use goodwe_wallbox_sems_home.ChargeModePolicy.Monad.{
  Ensures-weaken, Ensures, Ensures-if, Ensures-branch, Persists-refl, pass_unlocked-Persists,
}
use goodwe_wallbox_sems_home.ChargeModePolicy.Attempt.{
  unwritten, History, IsDone, IsQuiet, Tried, attempt-Tried, quiet-IsDone, pass_unlocked-IsQuiet,
  Writes,
}

abbrev pub Any : Unit {0} → World → Type 0
Any u w = Unit

module _ (env : ℕ → Answer) (intent : ℕ) (p : Policy) (s : List Command)
    (moving : (n : ℕ) → 0 < (env n).elapsed) where
  -- A superseded attempt is repeated at a later time, if at all.
  retry-Ensures :
      (deadline start : ℕ) (again : M (Unit {0})) (w : World)
      → IsQuiet env intent start p s w
      → ((v : World)
          → start < v.now
          → start < deadline
          → IsQuiet env intent v.now p s v
          → Ensures (IsDone env intent p s) Any (again v))
      → Ensures (IsDone env intent p s) Any (retry env intent deadline again w)
  unfolding retry let_others
  retry-Ensures deadline start again w q f =
      Ensures-if (IsDone env intent p s) Any (is_outdated intent w.policy) _ _ (λ old. done)
        λ valid.
          Ensures-if (IsDone env intent p s) Any (leb deadline w.now) _ _ (λ late. done)
            λ early. go (env w.awaits).slept (ground (arith, q.time_passes))
    where
      done : IsDone env intent p s w
      done = quiet-IsDone env intent start p s w q

      v : World
      v = pass_unlocked (env w.awaits) w

      q' : IsQuiet env intent start p s v
      q' = pass_unlocked-IsQuiet env intent start p s (env w.awaits) w q

      quiet : IsQuiet env intent v.now p s v
      quiet = record {
        time_passes = omega arith;
        policy_persists = q'.policy_persists;
        only_writes = q'.only_writes;
      }

      go :
          (r : Reply (Unit {0}))
          → start < deadline
          → Ensures (IsDone env intent p s) Any (continue (from_reply r, v) (λ _. again))
      go (got u) lt =
          f v (unfold pass_unlocked pass in omega (arith, moving w.awaits, q.time_passes)) lt quiet
      go configuration_unavailable lt = quiet-IsDone env intent start p s v q'
      go _ lt = quiet-IsDone env intent start p s v q'

  rounds-Ensures :
      (fuel deadline : ℕ) (w : World)
      → 0 < p.interval
      → deadline - w.now < fuel
      → IsQuiet env intent w.now p s w
      → Ensures (IsDone env intent p s) Any (start_rounds env intent fuel deadline w)
  unfolding start_rounds
  rounds-Ensures zero deadline w pace enough q = elim enough [ ]
  rounds-Ensures (suc fuel) deadline w pace enough q =
      go (attempt env intent w.policy.version w) (attempt-Tried env intent w.now p s w pace q)
        (λ v later early q'. rounds-Ensures fuel deadline v pace (omega arith) q')
    where
      go :
          (r : Outcome (Unit {0}) × World)
          → Tried env intent w.now p s r
          → ((v : World)
              → w.now < v.now
              → w.now < deadline
              → IsQuiet env intent v.now p s v
              → Ensures (IsDone env intent p s) Any (start_rounds env intent fuel deadline v))
          → Ensures
              (IsDone env intent p s)
              Any
              (handled env intent deadline (start_rounds env intent fuel deadline) r)
      go (fail superseded, v) t again =
          retry-Ensures deadline w.now (start_rounds env intent fuel deadline) v t again
      go (ok u, v) t again = (t, tt)
      go (fail (verification c), v) t again = t
      go (fail _, v) t again = t
      go (stuck, v) t again = t

-- The commands between two worlds.
abbrev pub Sends : (ℕ → Answer) → ℕ → World → World → Type 0
Sends env intent w v = History env intent w.sent v.sent

finally-Ensures :
    {A : Type 0} (R : World → Type 0) (Q : A → World → Type 0) (f : Policy → Policy) (m : M A)
    (w : World)
    → Ensures R Q (m w)
    → ((v : World) → R v → R (record v { policy = f v.policy }))
    → ((a : A) (v : World) → Q a v → Q a (record v { policy = f v.policy }))
    → Ensures R Q (finally f m w)
finally-Ensures {A} R Q f m w h g k = go (m w) h
  where
    go :
        (r : Outcome A × World)
        → Ensures R Q r
        → Ensures R Q (r.0, record r.1 { policy = f r.1.policy })
    go (ok a, v) e = (g v e.0, k a v e.1)
    go (fail x, v) e = g v e
    go (stuck, v) e = e

start_intent-Ensures :
    (env : ℕ → Answer) (intent : ℕ) (w : World)
    → ((n : ℕ) → 0 < (env n).elapsed)
    → 0 < w.policy.interval
    → Ensures (Sends env intent w) Any (start_intent env intent w)
unfolding start_intent
start_intent-Ensures env intent w moving pace =
    finally-Ensures (Sends env intent w) Any
      (λ p. record p { starting = false; active_start_intent = none })
      (λ v. start_rounds env intent (v.policy.timeout + 2) (v.now + v.policy.timeout) (record v {
        policy = record v.policy { starting = true; active_start_intent = some intent };
      }))
      w
      (Ensures-weaken (IsDone env intent w'.policy w'.sent) (Sends env intent w) Any Any
        (start_rounds env intent (w.policy.timeout + 2) (w.now + w.policy.timeout) w')
        (rounds-Ensures env intent w'.policy w'.sent moving (w.policy.timeout + 2)
          (w.now + w.policy.timeout) w' pace (omega arith)
          (record {
            time_passes = omega arith;
            policy_persists = Persists-refl w'.policy;
            only_writes = unwritten;
          }))
        (λ v d. d.history) (λ u v d a. a))
      (λ v h. h) (λ u v h. h)
  where
    w' : World
    w' = record w {
      policy = record w.policy { starting = true; active_start_intent = some intent };
    }

-- With a polling interval of 1 ms or more and awaits that take time, `async_start` ends, however
-- the device answers and whatever the other tasks do meanwhile, which while it waits for a lock or
-- between two rounds includes changes of the mode and the power to keep. Besides mode writes it
-- sends at most one Start, as its last command, and only while the object is open and this Start is
-- still the one wanted, and when the await right before it was a read of the wallbox that has seen
-- it idle, in the mode to restore and at the power to keep then, where the mode preserves it.
pub async_start-safe :
    (env : ℕ → Answer) (w : World)
    → ((n : ℕ) → 0 < (env n).elapsed)
    → 0 < w.policy.interval
    → Ensures (Sends env w.policy.start_intent_version w) Any (async_start env w)
unfolding async_start acquire
async_start-safe env w moving pace =
    Ensures-if R Any w.policy.closed _ _ (λ shut. inl unwritten)
      λ alive.
        Ensures-if R Any (contains intent w.policy.pending_start_intents) _ _
          (λ waiting. (inl unwritten, tt))
          λ new.
            finally-Ensures R Any
              (λ p. record p { pending_start_intents = discard intent p.pending_start_intents })
              (acquire env
                >> (gets (λ v. v.policy) >>= λ policy.
                    if is_outdated intent policy
                    then raise superseded
                    else start_intent env intent))
              w₀ (go (env w₀.awaits).slept) (λ v h. h) (λ u v h. h)
  where
    intent : ℕ
    intent = w.policy.start_intent_version

    R : World → Type 0
    R = Sends env intent w

    w₀ : World
    w₀ = record w {
      policy = record w.policy { pending_start_intents = intent ∷ w.policy.pending_start_intents };
    }

    w₁ : World
    w₁ = pass_unlocked (env w₀.awaits) w₀

    same : w₁.sent ≡ w.sent
    same = unfold pass_unlocked pass in refl

    none_sent : R w₁
    none_sent = inl (subst (Writes w.sent) (sym same) unwritten)

    entered :
        Ensures R Any
          ((if is_outdated intent w₁.policy then raise superseded else start_intent env intent) w₁)
    entered =
        Ensures-branch R Any (is_outdated intent w₁.policy) _ _ w₁ (λ old. none_sent)
          λ valid.
            subst (λ s. Ensures (λ v. History env intent s v.sent) Any (start_intent env intent w₁))
              same
              (start_intent-Ensures env intent w₁ moving
                (ground (arith, pace, pass_unlocked-Persists (env w₀.awaits) w₀)))

    go :
        (r : Reply (Unit {0}))
        → Ensures R Any (
            continue
              (from_reply r, w₁)
              (λ _ v.
                (if is_outdated intent v.policy then raise superseded else start_intent env intent)
                  v))
    go (got u) = entered
    go configuration_unavailable = none_sent
    go _ = none_sent
