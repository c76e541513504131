-- ===== src/WriteConfirmation/Decorators.antt =====
-- `confirm_write` and `confirmation_read` of write_confirmation.py.
use goodwe_wallbox_sems_home.Prelude.{
  ℕ, ◌≡◌, ◌↔◌, refl, Bool, true, false, not, ◌&&◌, ◌||◌, String, str_eq, Option, none, some, List,
  if◌then◌else◌, arith,
}
use goodwe_wallbox_sems_home.Prelude.Value.{Value, Real}
use goodwe_wallbox_sems_home.WriteConfirmation.Match.{Report, is_nothing}
use goodwe_wallbox_sems_home.WriteConfirmation.Defs.{
  Source, telemetry, settings, Uncertainty, Owner, Monitor, begin, accepted, rejected,
}
use goodwe_wallbox_sems_home.WriteConfirmation.Schedule.{Event, steps, observed, failed}

-- An exception of a write: what the decorator reads of it.
pub record Raised : Type 0 where
  pub is_timeout_error : Bool
  pub translation_key : Option String
  pub cloud_command_uncertain : Bool

pub data Called : Type 0 where
  returned : Called
  raised : Raised → Called

-- What the service call comes to: the result, the exception of the write, or the error that says
-- that the outcome of a setting is unknown.
pub data Service : Type 0 where
  succeeded propagated outcome_unknown : Service

abbrev pub is_key : String → Option String → Bool
is_key key none = false
is_key key (some k) = str_eq k key

unfoldable pub timed_out : Raised → Bool
timed_out e = e.is_timeout_error || is_key "operation_timeout" e.translation_key

unfoldable pub is_uncertain : Raised → Bool
is_uncertain e =
    e.cloud_command_uncertain
    || (is_key "cloud_command_outcome_unknown" e.translation_key
        || is_key "cloud_setting_outcome_unknown" e.translation_key)

-- The write as the decorator sees it: the owner and the time at its start and at its end, and what
-- happens to the monitor in between.
pub record Write : Type 0 where
  pub owner : Owner
  pub now : ℕ
  pub during : List Event
  pub called : Called
  pub owner_after : Owner
  pub ended : ℕ

abbrev pub source_of : Bool → String → Source
source_of has_settings key =
    if has_settings && not (str_eq key "charging") then settings else telemetry

-- The handler, for a ticket.
unfoldable pub handle :
    Write → String → Value → ℕ × ℕ → Source → Raised → Monitor → Service × Monitor
handle w key expected ticket source e m =
    let armed =
      accepted w.owner_after w.ended key expected ticket source true Uncertainty.timeout m in
    if not m.modbus && is_uncertain e
    then (
      propagated,
      (accepted w.owner_after w.ended key expected ticket source true Uncertainty.error m).1,
    )
    else if not (str_eq key "charging") && (not m.modbus && timed_out e)
    then (if armed.0 then (outcome_unknown, armed.1) else (propagated, rejected key ticket armed.1))
    else (propagated, rejected key ticket m)

abbrev pub concluded :
    Called → Write → String → Value → ℕ × ℕ → Source → Monitor → Service × Monitor
concluded returned w key expected ticket source m = (
  succeeded,
  (accepted w.owner_after w.ended key expected ticket source false Uncertainty.timeout m).1,
)
concluded (raised e) w key expected ticket source m = handle w key expected ticket source e m

abbrev pub unmonitored : Called → Service
unmonitored returned = succeeded
unmonitored (raised e) = propagated

-- `confirm_write` for the key and the value that it has resolved: local writes and those without
-- a value are not watched.
unfoldable pub confirm_write :
    (String → Option Real) → Write → String → Value → Bool → Monitor → Service × Monitor
confirm_write parse w key expected has_settings m =
    if str_eq key "" || (w.owner.local || is_nothing expected)
    then (unmonitored w.called, steps parse w.during m)
    else let b = begin w.owner w.now key m in
      concluded w.called w key expected b.0 (source_of has_settings key) (steps parse w.during b.1)

-- `confirmation_read`: `none` is a read that raised.
unfoldable pub confirmation_read :
    (String → Option Real) → Owner → ℕ → ℕ → Option Report → Monitor → Monitor
confirmation_read parse o started now none m = failed o now m
confirmation_read parse o started now (some report) m =
    observed parse o now report telemetry (some started) m

handle-fails :
    (w : Write) (key : String) (expected : Value) (ticket : ℕ × ℕ) (source : Source) (e : Raised)
    (m : Monitor)
    → ¬ ((handle w key expected ticket source e m).0 ≡ succeeded)
unfolding handle
handle-fails w key expected ticket source e m =
    go (not m.modbus && is_uncertain e)
      (not (str_eq key "charging") && (not m.modbus && timed_out e)) armed.0
  where
    armed : Bool × Monitor
    armed = accepted w.owner_after w.ended key expected ticket source true Uncertainty.timeout m

    go :
        (a b c : Bool)
        → let r : Service × Monitor =
            if a
            then (
              propagated,
              (accepted w.owner_after w.ended key expected ticket source true Uncertainty.error
                  m).1,
            )
            else if b
            then (if c
                then (outcome_unknown, armed.1)
                else (propagated, rejected key ticket armed.1))
            else (propagated, rejected key ticket m) in
          ¬ (r.0 ≡ succeeded)
    go true b c h = absurd (ground (arith, h))
    go false true true h = absurd (ground (arith, h))
    go false true false h = absurd (ground (arith, h))
    go false false c h = absurd (ground (arith, h))

-- The readback never hides the failure of a write: the service call succeeds just when the write
-- returned, watched or not, whatever the readback observes meanwhile.
pub confirm_write-honest :
    (parse : String → Option Real) (w : Write) (key : String) (expected : Value)
    (has_settings : Bool) (m : Monitor)
    → ((confirm_write parse w key expected has_settings m).0 ≡ succeeded) ↔ (w.called ≡ returned)
unfolding confirm_write
confirm_write-honest parse w key expected has_settings m =
    go w.called (str_eq key "" || (w.owner.local || is_nothing expected))
  where
    b : (ℕ × ℕ) × Monitor
    b = begin w.owner w.now key m

    go :
        (c : Called) (a : Bool)
        → let r : Service × Monitor =
            if a
            then (unmonitored c, steps parse w.during m)
            else concluded c w key expected b.0
                (source_of has_settings key)
                (steps parse w.during b.1) in
          (r.0 ≡ succeeded) ↔ (c ≡ returned)
    go returned true = ((λ h. refl), (λ h. refl))
    go returned false = ((λ h. refl), (λ h. refl))
    go (raised e) true = ((λ h. ground (arith, h)), (λ h. ground (arith, h)))
    go (raised e) false =
        ((λ h. absurd (handle-fails w key expected b.0 _ e _ h)), (λ h. ground (arith, h)))
