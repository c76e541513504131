-- ===== src/ControlFallback/State.antt =====
-- What ControlFallback reads and writes, and its awaits. Times are ms of the monotonic clock.
use goodwe_wallbox_sems_home.Prelude.{
  ℕ, suc, ◌+◌, Bool, false, not, ◌&&◌, Option, none, some, List, ◌∷◌, ltb,
}
use goodwe_wallbox_sems_home.AutomaticFallback.State.{
  Fallback, retry_delay, cloud_control_unavailable,
}

-- The owner's fields. `matched` says that its report agrees with the requested state.
pub record Owner : Type 0 where
  pub closed : Bool
  pub local : Bool
  pub transitioning : Bool
  pub has_cloud : Bool
  pub routing_epoch : ℕ
  pub last_update_success : Bool
  pub available : Bool
  pub matched : Bool

-- LatestIntent as the owner's `pending_intent`.
pub record Pending : Type 0 where
  pub blackout : Bool
  pub waiting : Bool
  pub executing : Bool
  pub batch_deadline : Option ℕ
  pub version : ℕ
  pub closed : Bool

-- What the tasks share. `closed` is that of ControlFallback, `policy_closed` that of the policy.
pub record Shared : Type 0 where
  pub closed : Bool
  pub policy_closed : Bool
  pub fallback : Fallback
  pub owner : Owner
  pub pending : Pending

-- NativeStatus as the recovery reads it.
pub record Status : Type 0 where
  pub stopped : Bool
  pub charging : Bool
  pub fault_code : ℕ
  pub state : ℕ
  pub connection : ℕ

-- What an await raises: RequestSuperseded, CancelledError, CloudAuthenticationError,
-- CloudIdentityError, one of OSError, ValueError and RuntimeError, or another exception.
pub data Failure : Type 0 where
  superseded cancelled authentication identity unavailable other : Failure

-- The configuration of the cloud: none, or one that is for the owner's serial or not.
pub record Answer : Type 0 where
  pub elapsed : ℕ
  pub after : Shared
  pub failure : Option Failure
  pub status : Status
  pub configuration : Option Bool

-- What was begun: a handover to TCP, or the operation of the request, with the number of awaits
-- before it and the shared state and the time then.
pub data Entry : Type 0 where
  handed : Entry
  operated : ℕ → Shared → ℕ → Entry

pub record World : Type 0 where
  pub shared : Shared
  pub preparing : Bool
  pub failed : Bool
  pub now : ℕ
  pub awaits : ℕ
  pub log : List Entry

pub data Outcome (A : Type 0) : Type 0 where
  ok : A → Outcome A
  raised : Failure → Outcome A
  stuck : Outcome A  -- the end of the fuel

abbrev pub M : Type 0 → Type 0
M A = World → Outcome A × World

abbrev pub continue : {A B : Type 0} → Outcome A × World → (A → M B) → Outcome B × World
continue (ok a, w) k = k a w
continue (raised f, w) k = (raised f, w)
continue (stuck, w) k = (stuck, w)

abbrev pub replied : Option Failure → Answer → Outcome Answer
replied none a = ok a
replied (some f) a = raised f

unfoldable pub pass : Answer → World → World
pass a w = record w { shared = a.after; now = w.now + a.elapsed; awaits = suc w.awaits }

unfoldable pub await : (ℕ → Answer) → M Answer
unfolding pass
await env w = (replied (env w.awaits).failure (env w.awaits), pass (env w.awaits) w)

abbrev pub unexpired : ℕ → Option ℕ → Bool
unexpired now none = false
unexpired now (some deadline) = ltb now deadline

-- Automatic fallback may act.
abbrev pub is_usable : Fallback → Bool
is_usable f = f.enabled && (not f.paused && not f.blocked)

unfoldable pub log_entry : Entry → World → World
log_entry e w = record w { log = e ∷ w.log }

abbrev pub set_fallback : (Fallback → Fallback) → World → World
set_fallback f w = record w { shared = record w.shared { fallback = f w.shared.fallback } }

unfoldable pub begin_handover : World → World
unfolding log_entry
begin_handover w =
    log_entry handed (set_fallback (λ f. record f { next_attempt = w.now + retry_delay }) w)

-- The end of a handover that was verified.
unfoldable pub verified : World → World
verified w =
    set_fallback
      (λ f. record f {
        reason = some cloud_control_unavailable;
        trial_deadline = none;
        next_attempt = w.now + f.return_delay;
      })
      w

-- `owner._set_local(True)` and `connection_intent.async_automatic(True)`.
unfoldable pub set_local : (ℕ → Answer) → M Answer
unfolding begin_handover await
set_local env w = continue (await env (begin_handover w)) (λ a v. await env v)
