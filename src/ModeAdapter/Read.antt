-- ===== src/ModeAdapter/Read.antt =====
-- `ModeTransportAdapter.read` and `write_mode`. An argument that is a reply is none for a result
-- that is no dict.
use goodwe_wallbox_sems_home.Prelude.{
  ℕ, Bool, true, false, not, ◌&&◌, ◌||◌, Option, none, some, [], ◌∷◌, String, ltb, ◌==◌,
  if◌then◌else◌, lower_in,
}
use goodwe_wallbox_sems_home.Prelude.Maps.{get, has}
use goodwe_wallbox_sems_home.Prelude.Value.{ℤ, pos, negsuc, Real, Value, int_up_to}
use goodwe_wallbox_sems_home.ObservedState.Defs.{charging_cloud}
use goodwe_wallbox_sems_home.ModeAdapter.Report.{
  Marker, Report, is_text, is_true, is_false, equals, is_int, number, is_positive, is_zero,
  is_measured, is_boolean, status_text, is_offline, cloud_of, modern_idle, observation_marker,
}

-- ModeVerificationError and CloudConfigurationUnavailable.
pub data Failure : Type 0 where
  unverified unavailable : Failure

pub data Outcome (A : Type 0) : Type 0 where
  ok : A → Outcome A
  raised : Failure → Outcome A

-- ModeObservation, with powers in millionths.
pub record Reading : Type 0 where
  pub mode : ℕ
  pub power : Option ℤ
  pub minimum_power : Option ℤ
  pub maximum_power : Option ℤ
  pub marker : Option Marker
  pub requires_advance : Bool
  pub active : Bool
  pub charging : Bool

pub data Transport : Type 0 where
  modbus timestamped legacy : Transport

abbrev pub is_modbus : Transport → Bool
is_modbus modbus = true
is_modbus t = false

abbrev pub mode_of : Option Value → Option ℕ
mode_of none = none
mode_of (some v) = int_up_to 2 v

-- `data.get("_reported_charge_mode", data.get("chargeMode"))`
abbrev pub reported_mode : Transport → Report → Option ℕ
reported_mode modbus d = mode_of (get "chargeMode" d)
reported_mode t d =
    if has "_reported_charge_mode" d
    then mode_of (get "_reported_charge_mode" d)
    else mode_of (get "chargeMode" d)

abbrev pub is_active_name : String → Bool
is_active_name s = lower_in s ("charging" ∷ "preparing" ∷ "evdetail_status_title_charging" ∷ [])

abbrev pub is_waiting_name : String → Bool
is_waiting_name s =
    lower_in s ("waiting" ∷ "standby" ∷ "available" ∷ "evdetail_status_title_waiting" ∷ [])

module _ (parse : String → Option Real) (stamp : Value → Option Marker) where
  -- Firmware can keep the raw state of charging after the vehicle has gone.
  unfoldable pub modbus_active : Report → Bool
  modbus_active d =
      let raw = get "modbus_status_raw" d in
      let measured = number parse (get "modbus_power" d) in
      let connected = get "modbus_car_connected" d in
      if equals 1 connected && (is_zero measured && equals 3 raw)
      then false
      else if equals 2 connected || is_positive measured
      then true
      else equals 2 raw || equals 3 raw

  unfoldable pub legacy_active : Report → Option Report → Bool
  legacy_active d last =
      is_active_name (status_text (get "status" d))
      || (is_true (get "startStatus" d) || worked last)
    where
      worked : Option Report → Bool
      worked none = false
      worked (some l) = equals 6 (get "last_charge_work_status" l)

  -- Whether a timestamped report is active; none without a valid measured power.
  unfoldable pub timestamped_active : Report → Option Bool
  timestamped_active d =
      let measured = number parse (get "power" d) in
      if modern_idle d
      then some false
      else if is_measured measured
      then some (is_positive measured || not (is_waiting_name (status_text (get "status" d))))
      else none

  abbrev pub charging_of : Transport → Report → Bool
  charging_of modbus d =
      equals 2 (get "modbus_car_connected" d) && is_positive (number parse (get "modbus_power" d))
  charging_of t d =
      is_charging (charging_cloud (cloud_of d)) && is_positive (number parse (get "power" d))
    where
      is_charging : Option Bool → Bool
      is_charging (some b) = b
      is_charging none = false

  abbrev pub reading : Transport → Report → ℕ → Option Marker → Bool → Option ℤ → Reading
  reading t d mode marker active power = record {
    mode = mode;
    power = power;
    minimum_power = number parse (get "min_charge_power" d);
    maximum_power = number parse (get "max_charge_power" d);
    marker = marker;
    requires_advance = not (is_modbus t);
    active = active;
    charging = charging_of t d;
  }

  -- The configured ceiling counts only if the configuration is of the mode that was reported.
  unfoldable pub configured : ℕ → Report → Option ℤ
  configured mode settings =
      if is_int mode (get "_reported_charge_mode" settings)
        && not (is_boolean (get "set_charge_power" settings))
      then number parse (get "set_charge_power" settings)
      else none

  -- `get_data_gen2` for the ceiling: none is None, a report for another serial is refused.
  abbrev pub with_settings :
      String → Report → ℕ → Option Marker → Bool → Option Report → Outcome Reading
  with_settings serial d mode marker active none = raised unavailable
  with_settings serial d mode marker active (some s) =
      if not (is_text serial (get "sn" s))
      then raised unverified
      else ok (reading timestamped d mode marker active (configured mode s))

  abbrev pub timestamped_read :
      String → Report → ℕ → Option Marker → Option Bool → Option Report → Outcome Reading
  timestamped_read serial d mode marker none settings = raised unverified
  timestamped_read serial d mode marker (some active) settings =
      with_settings serial d mode marker active settings

  abbrev pub by_transport :
      Transport
      → String
      → Report
      → ℕ
      → Option Marker
      → Option Report
      → Option Report
      → Outcome Reading
  unfolding modbus_active timestamped_active legacy_active configured
  by_transport modbus serial d mode marker settings last =
      ok (reading modbus d mode marker (modbus_active d) (number parse (get "set_charge_power" d)))
  by_transport legacy serial d mode marker settings last = ok (
      reading legacy d mode marker (legacy_active d last) (number parse (get "set_charge_power" d)))
  by_transport timestamped serial d mode marker settings last =
      timestamped_read serial d mode marker (timestamped_active d) settings

  abbrev pub has_marker : Option Marker → Bool
  has_marker none = false
  has_marker (some m) = true

  abbrev pub with_mode :
      Transport → String → Report → Option ℕ → Option Report → Option Report → Outcome Reading
  unfolding modbus_active timestamped_active legacy_active configured
  with_mode t serial d none settings last = raised unverified
  with_mode t serial d (some mode) settings last =
      let marker = if is_modbus t then none else observation_marker stamp d in
      if is_offline (status_text (get "status" d)) || (not (is_modbus t) && not (has_marker marker))
      then raised unverified
      else by_transport t serial d mode marker settings last

  -- `settings` is what `get_data_gen2` and `last` what `fetch_last_charge` returns.
  unfoldable pub read :
      Transport → String → Option Report → Option Report → Option Report → Outcome Reading
  unfolding modbus_active timestamped_active legacy_active configured
  read t serial none settings last = raised unverified
  read t serial (some d) settings last =
      if not (is_text serial (get "sn" d))
      then raised unverified
      else if not (is_modbus t) && is_false (get "_cloud_detail_available" d)
      then raised unavailable
      else with_mode t serial d (reported_mode t d) settings last

-- What `write_mode` sends: the mode, and the power with it; a Modbus client then writes the power
-- by itself.
pub record Sending : Type 0 where
  pub mode : ℕ
  pub power : Option ℤ

abbrev pub below : ℤ → Option ℤ → Bool
below p none = false
below (pos n) (some (pos m)) = ltb n m
below (negsuc n) (some (pos m)) = true
below (pos n) (some (negsuc m)) = false
below (negsuc n) (some (negsuc m)) = ltb m n

abbrev pub above : ℤ → Option ℤ → Bool
above p none = false
above p (some q) = below q (some p)

abbrev pub fast_power : Transport → Reading → Option ℤ → Outcome Sending
fast_power t before none = raised unverified
fast_power t before (some p) =
    if not (is_positive (some p))
      || (not (is_modbus t) && (below p before.minimum_power || above p before.maximum_power))
    then raised unverified
    else ok (record { mode = 0; power = some p })

unfoldable pub write_mode : Transport → ℕ → Reading → Outcome Sending
write_mode t mode before =
    if mode == 0
    then fast_power t before before.power
    else ok (record { mode = mode; power = none })
