-- ===== src/AutomaticFallback/State.antt =====
-- The state of AutomaticFallback, and what its awaits can meet. Times are ms of the monotonic clock.
use goodwe_wallbox_sems_home.Prelude.{
  ℕ, ◌+◌, Bool, true, false, String, Option, none, some, List, [], ◌∷◌, is_some, if◌then◌else◌,
}

pub data Reason : Type 0 where
  manual_override handover_failed local_unavailable authentication_failed
        cloud_preflight_unavailable cloud_return_trial cloud_return_failed
        cloud_control_unavailable :
      Reason
  reported : String → Reason

pub record Fallback : Type 0 where
  pub enabled : Bool
  pub paused : Bool
  pub reason : Option Reason
  pub failures : ℕ
  pub failed_since : Option ℕ
  pub local_failures : ℕ
  pub local_failed_since : Option ℕ
  pub next_attempt : ℕ
  pub trial_deadline : Option ℕ
  pub return_delay : ℕ
  pub closed : Bool
  pub blocked : Bool
  pub recovery_retry : ℕ

abbrev pub failure_delay : ℕ
failure_delay = 90000

abbrev pub trial_delay : ℕ
trial_delay = 1800000

abbrev pub trial_timeout : ℕ
trial_timeout = 60000

abbrev pub retry_delay : ℕ
retry_delay = 300000

unfoldable pub new : Bool → Fallback
new enabled = record {
  enabled = enabled;
  paused = false;
  reason = none;
  failures = 0;
  failed_since = none;
  local_failures = 0;
  local_failed_since = none;
  next_attempt = 0;
  trial_deadline = none;
  return_delay = trial_delay;
  closed = false;
  blocked = false;
  recovery_retry = 0;
}

abbrev pub first : Option ℕ → ℕ → Option ℕ
first none now = some now
first (some t) now = some t

unfoldable pub observation : Bool → Option Reason → Bool → ℕ → Fallback → Fallback
observation true reason blocked now f = record f {
  failures = 0;
  failed_since = none;
  blocked = false;
  trial_deadline = none;
  return_delay = if is_some f.trial_deadline then trial_delay else f.return_delay;
  reason = none;
}
observation false reason blocked now f = record f {
  blocked = blocked;
  reason = reason;
  failures = f.failures + 1;
  failed_since = first f.failed_since now;
}

unfoldable pub local_observation : Bool → ℕ → Fallback → Fallback
local_observation true now f = record f { local_failures = 0; local_failed_since = none }
local_observation false now f = record f {
  local_failures = f.local_failures + 1;
  local_failed_since = first f.local_failed_since now;
}

unfoldable pub pause : Fallback → Fallback
pause f = record f { paused = true; reason = some manual_override }

-- `close`, whose task ends by its cancellation.
unfoldable pub close : Fallback → Fallback
close f = record f { closed = true }

-- What the other tasks do to the object while a tick awaits. The last three are ControlFallback's.
pub data Event : Type 0 where
  observes : Bool → Option Reason → Bool → ℕ → Event
  observes_local : Bool → ℕ → Event
  pauses closes blocks : Event
  control_handover control_verified : ℕ → Event

unfoldable pub apply : Event → Fallback → Fallback
unfolding observation local_observation pause close
apply (observes success reason blocked now) f = observation success reason blocked now f
apply (observes_local success now) f = local_observation success now f
apply pauses f = pause f
apply closes f = close f
apply blocks f = record f { blocked = true; reason = some authentication_failed }
apply (control_handover now) f = record f { next_attempt = now + retry_delay }
apply (control_verified now) f = record f {
  reason = some cloud_control_unavailable;
  trial_deadline = none;
  next_attempt = now + f.return_delay;
}

unfoldable pub apply_all : List Event → Fallback → Fallback
apply_all [] f = f
apply_all (e ∷ es) f = apply_all es (apply e f)

-- What the object reads of its owner: `charging` is `charging_active` of its values, `starting`
-- that the session guard's phase is "starting" or "waiting".
pub record Owner : Type 0 where
  pub closed : Bool
  pub transitioning : Bool
  pub local : Bool
  pub last_update_success : Bool
  pub transport_available : Bool
  pub charging : Option Bool
  pub starting : Bool
  pub routing_epoch : ℕ

-- What an await comes to: a result, TimeoutError, CloudAuthenticationError, one of OSError,
-- ValueError and RuntimeError, or another exception.
pub data Reply : Type 0 where
  got : Bool → Reply
  timed_out authentication unavailable other : Reply

pub record Answer : Type 0 where
  pub meanwhile : List Event
  pub owner_after : Owner
  pub elapsed : ℕ
  pub reply : Reply

-- A call of `owner._set_local`, with the state in which it is made and the time.
pub record Handover : Type 0 where
  pub to_local : Bool
  pub recovery : Bool
  pub fallback : Fallback
  pub owner : Owner
  pub now : ℕ

pub record World : Type 0 where
  pub fallback : Fallback
  pub owner : Owner
  pub now : ℕ
  pub awaits : ℕ
  pub handovers : List Handover

pub data Failure : Type 0 where
  raised : Reply → Failure
  handover_superseded charging_changed : Failure

pub data Outcome (A : Type 0) : Type 0 where
  ok : A → Outcome A
  fail : Failure → Outcome A

abbrev pub M : Type 0 → Type 0
M A = World → Outcome A × World

abbrev pub continue : {A B : Type 0} → Outcome A × World → (A → M B) → Outcome B × World
continue (ok a, w) k = k a w
continue (fail f, w) k = (fail f, w)

abbrev pub set : (Fallback → Fallback) → World → World
set f w = record w { fallback = f w.fallback }

unfoldable pub pass : Answer → World → World
pass a w = record w {
  fallback = apply_all a.meanwhile w.fallback;
  owner = a.owner_after;
  now = w.now + a.elapsed;
  awaits = w.awaits + 1;
}

abbrev pub from_reply : Reply → Outcome Bool
from_reply (got b) = ok b
from_reply r = fail (raised r)

-- An await of a call outside this file.
unfoldable pub await : (ℕ → Answer) → M Bool
await env w = (from_reply (env w.awaits).reply, pass (env w.awaits) w)
