-- ===== src/ChargeModePolicy/World.antt =====
-- The state of ChargeModePolicy, and what an await of its coroutines can meet. Powers are counted
-- in mW, times in ms of the monotonic clock. A report marker is its source and its time.
use goodwe_wallbox_sems_home.Prelude.{
  ℕ, ◌+◌, Bool, true, false, not, ◌||◌, String, Option, none, some, List, [], ◌∷◌, ◌==◌,
  if◌then◌else◌,
}

-- The mode is the one that the adapter has checked to be an int; the code checks its range again.
pub record ModeObservation : Type 0 where
  pub mode : ℕ
  pub power : Option ℕ
  pub minimum_power : Option ℕ
  pub maximum_power : Option ℕ
  pub report_marker : Option (String × ℕ)
  pub requires_advance : Bool
  pub active : Bool
  pub charging : Bool

-- The fields of the object, and the adapter's `preserves_power_all_modes`. `budget` is the
-- current operation's budget with its cancellation flag.
pub record Policy : Type 0 where
  pub enabled : Bool
  pub remember_mode : Bool
  pub preserves_power_all_modes : Bool
  pub desired_mode : Option ℕ
  pub desired_power : Option ℕ
  pub timeout : ℕ
  pub interval : ℕ
  pub version : ℕ
  pub start_intent_version : ℕ
  pub pending_power_request : Option (ℕ × ℕ)
  pub closed : Bool
  pub starting : Bool
  pub active_start_intent : Option ℕ
  pub pending_start_intents : List ℕ
  pub budget : Option Bool

abbrev pub signal : Option Bool → Option Bool
signal none = none
signal (some flag) = some true

unfoldable pub invalidate : Bool → Policy → Policy
invalidate cancel_start p = record p {
  version = p.version + 1;
  budget = signal p.budget;
  start_intent_version =
      if cancel_start then p.start_intent_version + 1 else p.start_intent_version;
}

-- What the other tasks of the event loop can do to the object while an operation that holds the
-- lock awaits: the parts of the public methods that run before they take the lock. Only
-- `async_seed_power` takes none; it is called at set-up, before the first operation.
pub data Interruption : Type 0 where
  choice : Interruption  -- Stop, a mode selection, an adoption, a setting without a power
  power_request : ℕ → Interruption
  withdrawal : Interruption  -- of the power request that waits last, by a cancellation
  closing : Interruption

unfoldable pub interrupt : Interruption → Policy → Policy
unfolding invalidate
interrupt choice p = invalidate true p
interrupt (power_request power) p =
    let q = invalidate false p in record q { pending_power_request = some (q.version, power) }
interrupt withdrawal p = record p { pending_power_request = none }
interrupt closing p = invalidate true (record p { closed = true })

unfoldable pub interrupt_all : List Interruption → Policy → Policy
interrupt_all [] p = p
interrupt_all (i ∷ is) p = interrupt_all is (interrupt i p)

-- What a call of the adapter comes to: a value, the exceptions that the policy handles, or any
-- other.
pub data Reply (A : Type 0) : Type 0 where
  got : A → Reply A
  configuration_unavailable budget_cancelled request_superseded timed_out other_error : Reply A

-- One await: what the other tasks did and how long it took, and what it comes to, for each kind
-- of call. While the operation does not hold the lock, the others may also have changed the mode
-- and the power to keep: `intent_then` has what they left.
pub record Answer : Type 0 where
  pub meanwhile : List Interruption
  pub intent_then : Option (Option ℕ × Option ℕ)
  pub elapsed : ℕ
  pub observation : Reply ModeObservation
  pub acknowledged : Reply Bool
  pub slept : Reply (Unit {0})  -- a pause, a wait for a lock, or a call of the store

-- A command that reached the adapter, with the object as it was when it was sent.
pub data Command : Type 0 where
  write_mode : ℕ → Option ℕ → Command
  start : ℕ → Policy → Command  -- and after how many awaits it was sent
  stop : Policy → Command

-- `sent` has the commands of this operation, the last one first.
pub record World : Type 0 where
  pub policy : Policy
  pub now : ℕ
  pub awaits : ℕ
  pub sent : List Command
  pub saved : List (Option ℕ × Option ℕ)  -- the intents given to the store, the last one first

pub data Cause : Type 0 where
  read_exceeded_deadline invalid_mode stop_not_confirmed mode_rejected no_fresh_confirmation
        start_not_acknowledged power_kept_changing stop_not_acknowledged invalid_power expired :
      Cause

-- What an operation raises.
pub data Failure : Type 0 where
  verification : Cause → Failure
  superseded preparation_unavailable unavailable cancelled time_out other value_error : Failure

-- `stuck` is the end of the fuel.
pub data Outcome (A : Type 0) : Type 0 where
  ok : A → Outcome A
  fail : Failure → Outcome A
  stuck : Outcome A

abbrev pub M : Type 0 → Type 0
M A = World → Outcome A × World

abbrev pub continue : {A B : Type 0} → Outcome A × World → (A → M B) → Outcome B × World
continue (ok a, w) k = k a w
continue (fail f, w) k = (fail f, w)
continue (stuck, w) k = (stuck, w)

infixl 10 ◌>>=◌ ◌>>◌
abbrev pub ◌>>=◌ : {A B : Type 0} → M A → (A → M B) → M B
◌>>=◌ m k w = continue (m w) k

abbrev pub ◌>>◌ : {A B : Type 0} → M A → M B → M B
◌>>◌ m k w = continue (m w) (λ _. k)

abbrev pub pure : {A : Type 0} → A → M A
pure a w = (ok a, w)

abbrev pub raise : {A : Type 0} → Failure → M A
raise f w = (fail f, w)

abbrev pub modify : (Policy → Policy) → M (Unit {0})
modify f w = (ok tt, record w { policy = f w.policy })

abbrev pub gets : {A : Type 0} → (World → A) → M A
gets f w = (ok (f w), w)

unfoldable pub check : ℕ → M (Unit {0})
check version w =
    if w.policy.closed || not (w.policy.version == version)
    then (fail superseded, w)
    else (ok tt, w)

abbrev pub from_reply : {A : Type 0} → Reply A → Outcome A
from_reply (got a) = ok a
from_reply configuration_unavailable = fail unavailable
from_reply budget_cancelled = fail cancelled
from_reply request_superseded = fail superseded
from_reply timed_out = fail time_out
from_reply other_error = fail other

abbrev pub deliver : Reply Bool → Command → List Command → List Command
deliver budget_cancelled c commands = commands
deliver request_superseded c commands = commands
deliver _ c commands = c ∷ commands

-- The world after an await of `elapsed` more ms.
unfoldable pub pass : Answer → ℕ → World → World
unfolding interrupt_all interrupt
pass a least w = record w {
  policy = interrupt_all a.meanwhile w.policy;
  now = w.now + least + a.elapsed;
  awaits = w.awaits + 1;
}

abbrev pub with_intent : Option (Option ℕ × Option ℕ) → Policy → Policy
with_intent none p = p
with_intent (some (mode, power)) p = record p { desired_mode = mode; desired_power = power }

-- The same without the lock, which the others may take meanwhile.
unfoldable pub pass_unlocked : Answer → World → World
unfolding pass
pass_unlocked a w = pass a 0 (record w { policy = with_intent a.intent_then w.policy })

-- The calls of an environment that answers the n-th await by `env n`.
module _ (env : ℕ → Answer) where
  unfoldable pub read : M ModeObservation
  read w = let a = env w.awaits in (from_reply a.observation, pass a 0 w)

  unfoldable pub send : Command → M Bool
  send c w =
      let a = env w.awaits in (from_reply a.acknowledged, pass a 0 (record w { sent = c ∷ w.sent }))

  -- `self.adapter.start()`. BudgetCancelled and RequestSuperseded come before a request: the Start
  -- was not sent then.
  unfoldable pub send_start : M Bool
  send_start w =
      let a = env w.awaits in
      (
        from_reply a.acknowledged,
        pass a 0 (record w { sent = deliver a.acknowledged (start w.awaits w.policy) w.sent }),
      )

  -- The store's `async_save` of the intent.
  unfoldable pub save : M (Unit {0})
  save w =
      let a = env w.awaits in
      (
        from_reply a.slept,
        pass a 0 (record w { saved = (w.policy.desired_mode, w.policy.desired_power) ∷ w.saved }),
      )

  -- `asyncio.sleep(ms)` takes `ms` or more.
  unfoldable pub sleep : ℕ → M (Unit {0})
  sleep ms w = let a = env w.awaits in (from_reply a.slept, pass a ms w)

  -- Waiting for a lock.
  unfoldable pub acquire : M (Unit {0})
  unfolding pass_unlocked
  acquire w = (from_reply (env w.awaits).slept, pass_unlocked (env w.awaits) w)

  -- `asyncio.sleep(0)` without the lock.
  unfoldable pub let_others : M (Unit {0})
  unfolding pass_unlocked
  let_others w = (from_reply (env w.awaits).slept, pass_unlocked (env w.awaits) w)
