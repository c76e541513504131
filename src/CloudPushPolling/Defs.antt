-- ===== src/CloudPushPolling/Defs.antt =====
-- CloudPushPolling, and `report_age` of native_fallback.py. Times are ms, of the monotonic clock
-- or, for reports, of the wall clock.
use goodwe_wallbox_sems_home.Prelude.{
  ℕ, ◌+◌, ◌-◌, ◌*◌, Bool, true, false, not, ◌&&◌, ◌||◌, Option, none, some, String, min, ltb, leb,
  ◌==◌, str_eq, if◌then◌else◌,
}
use goodwe_wallbox_sems_home.Prelude.Value.{
  Value, nothing, boolean, text, Real, finite, to_float, is_number,
}
use goodwe_wallbox_sems_home.Prelude.Maps.{Map, get}

-- `stamp` is what `_marker` and datetime make of the report's time; `none` is a ValueError.
unfoldable pub report_age : Option ℕ → ℕ → Option ℕ
report_age none now = none
report_age (some stamp) now = if ltb (now + 5000) stamp then none else some (now - stamp)

pub record Polling : Type 0 where
  pub base_seconds : Option ℕ
  pub last_verified_at : Option ℕ
  pub last_marker : Option ℕ
  pub hint : ℕ
  pub consumed_hint : ℕ
  pub hint_at : Option ℕ
  pub samples : ℕ
  pub extended : Bool
  pub epoch : ℕ

-- What the object reads of the push connection and of the coordinator.
pub record Push : Type 0 where
  pub connected : Bool
  pub eligible : Bool
  pub epoch : ℕ
  pub last_update_success : Bool
  pub polling_disabled : Bool

unfoldable pub new : Push → Polling
new push = record {
  base_seconds = none;
  last_verified_at = none;
  last_marker = none;
  hint = 0;
  consumed_hint = 0;
  hint_at = none;
  samples = 0;
  extended = false;
  epoch = push.epoch;
}

unfoldable pub telemetry_hint : ℕ → Polling → Polling
telemetry_hint now p = record p { hint = p.hint + 1; hint_at = some now }

unfoldable pub reset : Polling → Polling
reset p = record p {
  samples = 0;
  last_verified_at = none;
  consumed_hint = p.hint;
  last_marker = none;
  extended = false;
}

-- What `observed` finds out about a report: its marker if it has an age, and whether it is fresh
-- and complete. An exception makes it neither.
pub record Report : Type 0 where
  pub marker : Option ℕ
  pub fresh : Bool
  pub complete : Bool

-- `not isinstance(value, bool) and math.isfinite(float(value))`; `none` is an exception.
abbrev pub finite_real : Option Real → Option Bool
finite_real none = none
finite_real (some (finite n)) = some true
finite_real (some r) = some false

abbrev pub numeric : (String → Option Real) → Option Value → Option Bool
numeric parse none = none
numeric parse (some (boolean b)) = some false
numeric parse (some v) = finite_real (to_float parse v)

-- `all(…)`, which stops at the first False.
abbrev pub and_then : Option Bool → Option Bool → Option Bool
and_then none b = none
and_then (some false) b = some false
and_then (some true) b = b

-- `bool(data.get("status"))`
abbrev pub has_status : Option Value → Bool
has_status none = false
has_status (some nothing) = false
has_status (some (text t)) = not (str_eq t "")
has_status (some v) = not (is_number 0 v)

unfoldable pub is_complete : (String → Option Real) → Map Value → Option Bool
is_complete parse report = and_then (numeric parse (get "power" report)) (
    and_then (numeric parse (get "set_charge_power" report)) (
      and_then (numeric parse (get "chargeMode" report)) (some (has_status (get "status" report)))))

abbrev pub judged : Option Bool → ℕ → ℕ → ℕ → Report
judged none age wall seconds = record {
  marker = some (wall - age);
  fresh = false;
  complete = false;
}
judged (some complete) age wall seconds = record {
  marker = some (wall - age);
  fresh = leb age seconds;
  complete = complete;
}

unfoldable pub read_report : (String → Option Real) → Map Value → Option ℕ → ℕ → ℕ → Report
read_report parse report stamp wall seconds = elim (report_age stamp wall) [
  | none ↦ record { marker = none; fresh = false; complete = false }
  | some age ↦ judged (is_complete parse report) age wall seconds
]

abbrev pub newer : Option ℕ → Option ℕ → Bool
newer marker none = true
newer none (some last) = false
newer (some marker) (some last) = ltb last marker

-- `now - since <= span`, and `now - since >= span`, for a time that is known.
abbrev pub within : ℕ → Option ℕ → ℕ → Bool
within now none span = false
within now (some start) span = leb now (start + span)

abbrev pub silent : ℕ → Option ℕ → ℕ → Bool
silent now none span = true
silent now (some start) span = leb (start + span) now

unfoldable pub qualifies : Push → ℕ → ℕ → Report → Polling → Bool
qualifies push now seconds r p =
    push.connected
    && (push.eligible
        && (r.fresh
            && (r.complete
                && (ltb p.consumed_hint p.hint
                    && (within now p.hint_at (min seconds 10000)
                        && newer r.marker p.last_marker)))))

-- The base interval of the call; a changed one or another epoch revokes the trust.
abbrev pub same_base : Option ℕ → ℕ → Bool
same_base none seconds = false
same_base (some base) seconds = base == seconds

unfoldable pub rebase : Push → ℕ → Polling → Polling
rebase push seconds p =
    record (if not (same_base p.base_seconds seconds) || not (p.epoch == push.epoch)
      then record (reset p) { epoch = push.epoch }
      else p) { base_seconds = some seconds }

unfoldable pub count : Push → ℕ → ℕ → Report → Polling → Polling
count push now seconds r p =
    if qualifies push now seconds r p
    then record p {
      consumed_hint = p.hint;
      samples = min ((if within now p.last_verified_at seconds then p.samples else 0) + 1) 3;
      last_verified_at = some now;
      last_marker = r.marker;
    }
    else if not r.fresh
        || (not r.complete || (not push.connected || silent now p.last_verified_at seconds))
    then reset (record p { consumed_hint = p.hint })
    else record p { consumed_hint = p.hint }

unfoldable pub extend : ℕ → Polling → ℕ × Polling
extend seconds p =
    (seconds * (if leb 3 p.samples then 2 else 1), record p { extended = leb 3 p.samples })

-- `observed`: the interval, and the object.
unfoldable pub observed : Push → ℕ → ℕ → Report → Polling → ℕ × Polling
observed push now seconds r p = extend seconds (count push now seconds r (rebase push seconds p))

-- `failed`: the interval that is given to the owner, if one is.
unfoldable pub failed : Push → Polling → Option ℕ × Polling
failed push p = (if push.eligible then p.base_seconds else none, reset p)

abbrev pub base_silent : ℕ → Option ℕ → Option ℕ → Bool
base_silent now last none = true
base_silent now last (some base) = silent now last base

unfoldable pub is_expired : Push → ℕ → Polling → Bool
is_expired push now p =
    not push.connected
    || (not push.eligible
        || (not push.last_update_success
            || (not (p.epoch == push.epoch) || base_silent now p.last_verified_at p.base_seconds)))

-- `check`: whether to poll now, the interval that is given to the owner, and the object.
unfoldable pub check : Push → ℕ → Polling → (Bool × Option ℕ) × Polling
check push now p =
    if not p.extended
    then ((false, none), p)
    else if not (is_expired push now p)
    then ((false, none), p)
    else if not push.eligible
    then ((false, none), reset p)
    else ((push.last_update_success && not push.polling_disabled, p.base_seconds), reset p)
