-- ===== src/ModeAdapter/Report.antt =====
-- What the adapter reads of a report, a dict of values.
use goodwe_wallbox_sems_home.Prelude.{
  ℕ, Bool, true, false, not, ◌&&◌, ◌||◌, Option, none, some, List, [], ◌∷◌, String, map, ltb, ◌==◌,
  str_eq, lower, codes, starts_with, ◌*◌,
}
use goodwe_wallbox_sems_home.Prelude.Maps.{Map, get}
use goodwe_wallbox_sems_home.Prelude.Value.{
  ℤ, pos, Real, finite, Value, nothing, boolean, integer, real, text, to_float,
}
use goodwe_wallbox_sems_home.ObservedState.Defs.{Cloud}

-- A report time as `_observation_marker` writes it: the text before the colon, and the rest, which
-- is ordered like the time.
pub record Marker : Type 0 where
  pub source : String
  pub at : ℕ

abbrev pub Report : Type 0
Report = Map Value

abbrev pub is_text : String → Option Value → Bool
is_text t (some (text s)) = str_eq s t
is_text t _ = false

abbrev pub is_true : Option Value → Bool
is_true (some (boolean b)) = b
is_true _ = false

abbrev pub is_false : Option Value → Bool
is_false (some (boolean b)) = not b
is_false _ = false

-- `value == n` for an int n, where the value is an int or a bool.
abbrev pub equals : ℕ → Option Value → Bool
equals n (some (integer (pos m))) = m == n
equals n (some (boolean true)) = n == 1
equals n (some (boolean false)) = n == 0
equals n (some (real (finite (pos m)))) = m == n * 1000000
equals n _ = false

abbrev pub is_int : ℕ → Option Value → Bool
is_int n (some (integer (pos m))) = m == n
is_int n _ = false

abbrev pub is_missing : Option Value → Bool
is_missing none = true
is_missing (some nothing) = true
is_missing _ = false

abbrev pub of_real : Option Real → Option ℤ
of_real (some (finite z)) = some z
of_real _ = none

-- `_number`, in millionths; None is no number.
abbrev pub number : (String → Option Real) → Option Value → Option ℤ
number parse none = none
number parse (some v) = of_real (to_float parse v)

abbrev pub is_positive : Option ℤ → Bool
is_positive (some (pos n)) = ltb 0 n
is_positive _ = false

abbrev pub is_zero : Option ℤ → Bool
is_zero (some (pos n)) = n == 0
is_zero _ = false

abbrev pub is_measured : Option ℤ → Bool
is_measured (some (pos n)) = true
is_measured _ = false

abbrev pub is_boolean : Option Value → Bool
is_boolean (some (boolean b)) = true
is_boolean _ = false

-- `str(value).lower()` is compared with names only, which no value but a text can be.
abbrev pub status_text : Option Value → String
status_text (some (text s)) = s
status_text _ = ""

unfoldable pub contains : List ℕ → List ℕ → Bool
contains part [] = starts_with part []
contains part (c ∷ s) = starts_with part (c ∷ s) || contains part s

unfoldable pub is_offline : String → Bool
unfolding contains
is_offline s = contains (codes "offline") (map lower (codes s))

abbrev pub cloud_of : Report → Cloud
cloud_of d = record {
  status = get "status" d;
  power = get "power" d;
  work_state = get "workstate" d;
  connection = get "vehConnStu" d;
}

-- `_modern_idle_report`
unfoldable pub modern_idle : Report → Bool
modern_idle d =
    (is_text "semsplus_equipment" (get "observation_source" d)
      && (is_true (get "_cloud_session_idle" d) && is_int 8 (get "last_charge_work_status" d)))
    && (is_text "standby" (get "status" d) && is_missing (get "power" d))

abbrev pub from_equipment : Bool → Option Marker → Option Marker
from_equipment true (some m) = some (record m { source = "equipment" })
from_equipment e m = m

-- `_observation_marker`, where `stamp` is `_marker`: what `datetime` makes of a value.
abbrev pub marked : (Value → Option Marker) → Option Value → Option Marker
marked stamp none = none
marked stamp (some v) = stamp v

unfoldable pub observation_marker : (Value → Option Marker) → Report → Option Marker
observation_marker stamp d =
    from_equipment (is_text "semsplus_equipment" (get "observation_source" d))
      (marked stamp (get "lastUpdate" d))
