-- ===== src/CloudRequests/Budget.antt =====
-- The budget of an operation (operation_budget.py). Times are microseconds of the monotonic clock.
use goodwe_wallbox_sems_home.Prelude.{
  String, ℕ, zero, suc, ◌+◌, ◌-◌, min, Bool, false, not, ◌&&◌, ◌||◌, Option, none, some, List, [],
  ◌∷◌, if◌then◌else◌, leb,
}

-- What a call raises: CloudRateLimitedError with `retry_after`, BudgetCancelled, TimeoutError, a
-- ConnectionError of the HTTP library, or another exception. `stuck` is the end of the fuel.
pub data Raised : Type 0 where
  rate_limited : ℕ → Raised
  cancelled timed_out connection other stuck : Raised

pub data Outcome (A : Type 0) : Type 0 where
  ok : A → Outcome A
  raised : Raised → Outcome A

-- CloudRequestGate: the end of the cooldown, and the next delay without `Retry-After`.
pub record Gate : Type 0 where
  pub retry_at : ℕ
  pub delay : ℕ

-- What happened, newest first: a request was sent at a time with a timeout, or a response came at
-- a time with its status and `Retry-After`.
pub data Entry : Type 0 where
  sent : ℕ → Option ℕ → Entry
  heard : ℕ → ℕ → Option String → Entry

-- The thread: `deadline` is that of CURRENT_BUDGET, and `dropped` says that its operation is
-- cancelled; `scope` is the `cancelled` of _CONTROL_READ_RETRIES, if there is one.
pub record World : Type 0 where
  pub now : ℕ
  pub deadline : Option ℕ
  pub dropped : Bool
  pub scope : Option Bool
  pub gate : Gate
  pub log : List Entry
  pub calls : ℕ

-- What the others do during a call that takes a while.
pub record Answer : Type 0 where
  pub elapsed : ℕ
  pub drops : Bool
  pub cancels : Bool
  pub acquired : Bool

abbrev pub M : Type 0 → Type 0
M A = World → Outcome A × World

abbrev pub continue : {A B : Type 0} → Outcome A × World → (A → M B) → Outcome B × World
continue (ok a, w) k = k a w
continue (raised r, w) k = (raised r, w)

abbrev pub cancel_scope : Bool → Option Bool → Option Bool
cancel_scope c none = none
cancel_scope c (some s) = some (s || c)

unfoldable pub pass : Answer → World → World
pass a w = record w {
  now = w.now + a.elapsed;
  dropped = w.dropped || a.drops;
  scope = cancel_scope a.cancels w.scope;
  calls = suc w.calls;
}

-- `OperationBudget.remaining`.
unfoldable pub remaining : ℕ → M ℕ
remaining deadline w =
    if w.dropped
    then (raised cancelled, w)
    else if leb deadline w.now
    then (raised timed_out, w)
    else (ok (deadline - w.now), w)

abbrev pub is_cancelled : Option Bool → Bool
is_cancelled none = false
is_cancelled (some c) = c

abbrev pub bounded : ℕ → Option ℕ → M ℕ
unfolding remaining
bounded default none w = (ok default, w)
bounded default (some deadline) w =
    continue (remaining deadline w) (λ left v. (ok (min default left), v))

-- `request_timeout`.
unfoldable pub request_timeout : ℕ → M ℕ
unfolding remaining
request_timeout default w =
    if is_cancelled w.scope then (raised cancelled, w) else bounded default w.deadline w

-- `_ControlReadRetries.delays` as `control_read_operation` chooses them, in seconds: automatic
-- fallback is enabled, paused, blocked, or there is none.
unfoldable pub control_delays : Option (Bool × Bool × Bool) → List ℕ
control_delays none = 2 ∷ 5 ∷ 10 ∷ []
control_delays (some (enabled, pausing, blocked)) =
    if enabled && (not pausing && not blocked) then 2 ∷ 5 ∷ [] else 2 ∷ 5 ∷ 10 ∷ []

-- `cloud_detail_retry_delays`, for the delays of the scope if there is one.
unfoldable pub cloud_detail_retry_delays : Option (List ℕ) → List ℕ
cloud_detail_retry_delays none = 2 ∷ 5 ∷ []
cloud_detail_retry_delays (some delays) = delays

module _ (env : ℕ → Answer) where
  abbrev pub slept : ℕ → M (Unit {0})
  unfolding remaining pass
  slept deadline w = continue (remaining deadline (pass (env w.calls) w)) (λ left v. (ok tt, v))

  abbrev pub delayed : Option ℕ → M (Unit {0})
  unfolding remaining pass
  delayed none w = (ok tt, pass (env w.calls) w)
  delayed (some deadline) w = continue (remaining deadline w) (λ left. slept deadline)

  -- `retry_delay`: how long the pause takes is the environment's.
  unfoldable pub retry_delay : M (Unit {0})
  unfolding remaining pass
  retry_delay w = delayed w.deadline w

  -- `while not lock.acquire(timeout=min(0.1, budget.remaining()))`.
  unfoldable pub acquire : ℕ → ℕ → M (Unit {0})
  unfolding remaining pass
  acquire deadline zero w = (raised stuck, w)
  acquire deadline (suc fuel) w = continue (remaining deadline w) (λ left v.
      let again = acquire deadline fuel (pass (env v.calls) v) in
      if (env v.calls).acquired
      then continue (remaining deadline (pass (env v.calls) v)) (λ left' u. (ok tt, u))
      else again)

  -- `serialized_request` up to its `yield`; the fuel is for the rounds of a lock that is taken.
  abbrev pub locked : Option ℕ → M (Unit {0})
  unfolding acquire pass
  locked none w = (ok tt, pass (env w.calls) w)
  locked (some deadline) w = acquire deadline (suc (deadline - w.now)) w

  unfoldable pub serialized : M (Unit {0})
  unfolding acquire pass
  serialized w = locked w.deadline w
