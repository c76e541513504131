-- ===== src/ModeAdapter/Examples.antt =====
-- A Stop that later telemetry confirms.
use goodwe_wallbox_sems_home.Prelude.{
  ℕ, ◌≡◌, refl, true, false, Option, none, some, List, [], ◌∷◌, String,
}
use goodwe_wallbox_sems_home.Prelude.Maps.{get}
use goodwe_wallbox_sems_home.Prelude.Value.{Value, text, integer, pos, Real}
use goodwe_wallbox_sems_home.ObservedState.Defs.{charging_cloud}
use goodwe_wallbox_sems_home.ModeAdapter.Report.{
  Marker, Report, is_text, observation_marker, modern_idle, is_offline, contains,
}
use goodwe_wallbox_sems_home.ModeAdapter.Read.{
  Reading, ok, timestamped, read, modbus_active, timestamped_active, legacy_active, configured,
}
use goodwe_wallbox_sems_home.ModeAdapter.Idle.{IsRead, read-IsRead}
use goodwe_wallbox_sems_home.ModeAdapter.Stop.{
  Read, came, confirmed, confirm_stopped, confirm, is_stopped, Proves, confirm_stopped-Proves,
}

abbrev parse : String → Option Real
parse t = none

abbrev stamp : Value → Option Marker
stamp (integer (pos n)) = some (record { source = "utc"; at = n })
stamp v = none

abbrev report : ℕ → Report
report at =
    ("sn", text "97000HCA00000001")
    ∷ ("status", text "Waiting")
    ∷ ("power", integer (pos 0))
    ∷ ("chargeMode", integer (pos 1))
    ∷ ("lastUpdate", integer (pos at))
    ∷ []

abbrev reads : List Read
reads = came (report 100) ∷ came (report 100) ∷ came (report 105) ∷ []

abbrev serial : String
serial = "97000HCA00000001"

stopped : confirm_stopped parse stamp serial reads ≡ confirmed true
unfolding confirm_stopped confirm is_stopped observation_marker modern_idle charging_cloud
stopped = refl

-- The same cached report does not confirm anything.
cached :
    confirm_stopped parse stamp serial (came (report 100) ∷ came (report 100) ∷ [])
    ≡ confirmed false
unfolding confirm_stopped confirm is_stopped observation_marker modern_idle charging_cloud
cached = refl

confirm_stopped-Proves_example :
    (d : Report) × (rs : List Read) × (b : Marker) × (reads ≡ came d ∷ rs)
    × (is_text serial (get "sn" d) ≡ true)
    × (observation_marker stamp d ≡ some b)
    × Proves parse stamp serial b rs
confirm_stopped-Proves_example = confirm_stopped-Proves parse stamp serial reads stopped

abbrev settings : Report
settings = ("sn", text serial) ∷ ("_reported_charge_mode", integer (pos 1)) ∷ []

abbrev idle : Reading
idle = record {
  mode = 1;
  power = none;
  minimum_power = none;
  maximum_power = none;
  marker = some (record { source = "utc"; at = 100 });
  requires_advance = true;
  active = false;
  charging = false;
}

read_idle : read parse stamp timestamped serial (some (report 100)) (some settings) none ≡ ok idle
unfolding read modbus_active timestamped_active legacy_active configured observation_marker
    modern_idle is_offline contains charging_cloud
read_idle = refl

read-IsRead_example : IsRead parse stamp serial (report 100) idle
read-IsRead_example =
    read-IsRead parse stamp serial (report 100) (some settings) none idle read_idle
