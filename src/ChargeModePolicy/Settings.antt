-- ===== src/ChargeModePolicy/Settings.antt =====
-- The intent of charge_mode_policy.py: loading, seeding, selecting, settings and closing.
use goodwe_wallbox_sems_home.Prelude.{
  ℕ, ◌*◌, Bool, true, false, not, ◌&&◌, Option, none, some, leb, ltb, ◌==◌, if◌then◌else◌,
}
use goodwe_wallbox_sems_home.Prelude.Value.{Value, integer, real, pos, finite, int_up_to}
use goodwe_wallbox_sems_home.ChargeModePolicy.World.{
  Policy, Answer, World, M, Outcome, ok, fail, verification, value_error, invalid_power,
  invalid_mode, continue, ◌>>=◌, ◌>>◌, pure, raise, gets, modify, check, read, save, acquire,
  invalidate,
}
use goodwe_wallbox_sems_home.ChargeModePolicy.Verify.{verify, run_budgeted}
use goodwe_wallbox_sems_home.ChargeModePolicy.Start.{finally}

-- `_valid_power`: a positive finite number of kW that is not a bool, in mW.
abbrev pub positive : ℕ → Option ℕ
positive n = if ltb 0 n then some n else none

unfoldable pub valid_power : Value → Option ℕ
valid_power (integer (pos n)) = positive (n * 1000000)
valid_power (real (finite (pos n))) = positive n
valid_power _ = none

-- The constructor's check of `initial_mode`; `none` is its ValueError.
unfoldable pub initial_mode : Option Value → Option (Option ℕ)
initial_mode none = some none
initial_mode (some v) = elim (int_up_to 2 v) [ none ↦ none | some m ↦ some (some m) ]

-- A stored document: the mode and the power, if they are there.
pub record Saved : Type 0 where
  pub mode : Option Value
  pub power : Option Value

-- `async_load` on what the store returned. A bad mode leaves the object as it was; a bad power
-- is found after the mode was taken over.
abbrev pub load_power : Option Value → Policy → Outcome (Unit {0}) × Policy
load_power none p = (ok tt, p)
load_power (some v) p = elim (valid_power v) [
  | none ↦ (fail (verification invalid_power), p)
  | some power ↦ (ok tt, record p { desired_power = some power })
]

unfoldable pub load : Option Saved → Policy → Outcome (Unit {0}) × Policy
load none p = (ok tt, p)
load (some saved) p = elim (initial_mode saved.mode) [
  | none ↦ (fail (verification invalid_mode), p)
  | some mode ↦ load_power saved.power (record p { desired_mode = mode })
]

unfoldable pub seed_power : (ℕ → Answer) → Option Value → M (Unit {0})
seed_power env none w = (ok tt, w)
seed_power env (some v) w = elim w.policy.desired_power [
  | some power ↦ (ok tt, w)
  | none ↦ elim (valid_power v) [
    | none ↦ (ok tt, w)
    | some power ↦ save env (record w { policy = record w.policy { desired_power = some power } })
  ]
]

-- The part that the operations on intent share: supersede what is pending, take the lock, and
-- check that nothing newer came.
unfoldable pub fenced : {A : Type 0} → (ℕ → Answer) → Bool → (ℕ → M A) → M A
fenced env cancel_start body = do
  modify (invalidate cancel_start)
  version ← gets (λ w. w.policy.version)
  acquire env
  check version
  body version

-- The saving of an adopted mode, which restores the old one if it fails.
abbrev pub restore_on_failure : Option ℕ → Outcome (Unit {0}) × World → Outcome (Unit {0}) × World
restore_on_failure previous (fail f, w) =
    (fail f, record w { policy = record w.policy { desired_mode = previous } })
restore_on_failure previous r = r

unfoldable pub capture : (ℕ → Answer) → ℕ → M (Unit {0})
capture env version = do
  observation ← read env
  check version
  previous ← gets (λ w. w.policy.desired_mode)
  if not (leb observation.mode 2) then raise (verification invalid_mode) else (λ w.
      restore_on_failure previous
        (save env (record w { policy = record w.policy { desired_mode = some observation.mode } })))

unfoldable pub adopt_current_mode : (ℕ → Answer) → M (Unit {0})
adopt_current_mode env = fenced env true (λ version. run_budgeted (capture env version))

abbrev pub store_mode : (ℕ → Answer) → ℕ → ℕ → M (Unit {0})
store_mode env mode version = do
  modify (λ p. record p { desired_mode = some mode })
  save env
  check version

unfoldable pub remember_mode : (ℕ → Answer) → Value → M (Unit {0})
remember_mode env v = elim (int_up_to 2 v) [
  | none ↦ raise value_error
  | some mode ↦ fenced env true (store_mode env mode)
]

unfoldable pub select_mode : (ℕ → Answer) → Value → M Bool
select_mode env v = elim (int_up_to 2 v) [
  | none ↦ raise value_error
  | some mode ↦
      fenced env true
        (λ version. store_mode env mode version >> verify env version (some mode) true)
]

-- The setting of `async_setting_write` that an identical pending Start already serves.
abbrev pub latest_power : Policy → Option ℕ
latest_power p = elim p.pending_power_request [
  | none ↦ p.desired_power
  | some (version, power) ↦ if version == p.version then some power else p.desired_power
]

abbrev pub same_option : Option ℕ → Option ℕ → Bool
same_option none none = true
same_option (some a) (some b) = a == b
same_option _ _ = false

abbrev pub implied : Option ℕ → Option ℕ → Bool
implied none desired = true
implied (some mode) desired = same_option (some mode) desired

unfoldable pub is_repeated : Option ℕ → ℕ → Policy → Bool
is_repeated desired_mode power p =
    p.starting
    && (same_option p.active_start_intent (some p.start_intent_version)
        && (same_option (some power) (latest_power p) && implied desired_mode p.desired_mode))

abbrev pub override : Option ℕ → Option ℕ → Option ℕ
override none old = old
override (some new) old = some new

abbrev pub has_intent : Option ℕ → Option ℕ → Bool
has_intent none none = false
has_intent _ _ = true

module _ (env : ℕ → Answer) (operation : M Bool) (desired_mode desired_power : Option ℕ) where
  -- Under the lock: take the intent over, save it, and run the write.
  unfoldable pub apply_setting : ℕ → M Bool
  apply_setting version = do
    check version
    modify (λ p. record p {
      desired_mode = override desired_mode p.desired_mode;
      desired_power = override desired_power p.desired_power;
    })
    if has_intent desired_mode desired_power then (save env >> check version) else pure tt
    run_budgeted operation

  abbrev pub clear_request : Option (ℕ × ℕ) → Option (ℕ × ℕ) → Option (ℕ × ℕ)
  clear_request (some (v, p)) (some (v', p')) = if v == v' && p == p' then none else some (v', p')
  clear_request _ pending = pending

  abbrev pub marked : Option ℕ → ℕ → Option (ℕ × ℕ)
  marked none version = none
  marked (some power) version = some (version, power)

  abbrev pub either_request : Option (ℕ × ℕ) → Option (ℕ × ℕ) → Option (ℕ × ℕ)
  either_request none pending = pending
  either_request (some m) pending = some m

  abbrev pub is_none : Option ℕ → Bool
  is_none none = true
  is_none (some n) = false

  unfoldable pub write_setting : M Bool
  write_setting w =
      let p = invalidate (is_none desired_power) w.policy in
      let marker = marked desired_power p.version in
      finally
        (λ q. record q { pending_power_request = clear_request marker q.pending_power_request })
        (do acquire env; apply_setting p.version)
        (record w {
          policy = record p {
            pending_power_request = either_request marker p.pending_power_request;
          };
        })

-- `async_setting_write`: `none` is the early return for a repeated power request. The operation
-- is the caller's write.
unfoldable pub setting_write :
    (ℕ → Answer) → M Bool → Option ℕ → Option Value → World → Outcome (Option Bool) × World
setting_write env operation mode none w =
    continue (write_setting env operation mode none w) (λ b. pure (some b))
setting_write env operation mode (some v) w = elim (valid_power v) [
  | none ↦ (fail (verification invalid_power), w)
  | some power ↦
      if is_repeated mode power w.policy
      then (ok none, w)
      else continue (write_setting env operation mode (some power) w) (λ b. pure (some b))
]

unfoldable pub close : (ℕ → Answer) → M (Unit {0})
close env = do modify (λ p. invalidate true (record p { closed = true })); acquire env
