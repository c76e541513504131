-- ===== src/ObservedState/Defs.antt =====
-- `charging_active`, `energy_flow_active` and `vehicle_state`, for the two kinds of reports.
use goodwe_wallbox_sems_home.Prelude.{
  ℕ, Bool, true, false, not, ◌&&◌, ◌||◌, Option, none, some, List, [], ◌∷◌, String, length, ltb,
  ◌==◌, bool_eq, lower_in, str_eq, if◌then◌else◌,
}
use goodwe_wallbox_sems_home.Prelude.Value.{
  Value, boolean, text, pos, Real, finite, to_float, int_up_to,
}

-- A native report: the adapter fills it from NativeStatus, so that its numbers are not negative.
-- The power is in W, the currents in mA.
pub record Local : Type 0 where
  pub raw_state : Option ℕ
  pub power : Option ℕ
  pub currents : Option (List ℕ)
  pub connection : Option ℕ

abbrev pub any : List ℕ → Bool
any [] = false
any (c ∷ cs) = ltb 0 c || any cs

abbrev pub active_if : Bool → Bool → Option Bool
active_if condition answer = if condition then some answer else none

unfoldable pub local_active : ℕ → ℕ → List ℕ → Option Bool
local_active state power currents =
    if state == 2
    then active_if (ltb 0 power && any currents) true
    else if (state == 0 || state == 3) && power == 0
    then active_if (not (any currents)) false
    else none

-- `charging_active` of a native report.
unfoldable pub charging_local : Local → Option Bool
charging_local r = elim r.raw_state [
  | none ↦ none
  | some state ↦ elim r.power [
    | none ↦ none
    | some power ↦ elim r.currents [
      | none ↦ none
      | some currents ↦ local_active state power currents
    ]
  ]
]

unfoldable pub flow : ℕ → List ℕ → Option Bool
flow power currents =
    if not (length currents == 3)
    then none
    else if not (bool_eq (ltb 0 power) (any currents))
    then none
    else some (ltb 0 power)

-- `energy_flow_active` of a native report.
unfoldable pub energy_local : Local → Option Bool
energy_local r = elim r.power [
  | none ↦ none
  | some power ↦ elim r.currents [ none ↦ none | some currents ↦ flow power currents ]
]

-- A cloud report; a key that is missing is `none`.
pub record Cloud : Type 0 where
  pub status : Option Value
  pub power : Option Value
  pub work_state : Option Value
  pub connection : Option Value  -- vehConnStu

unfoldable pub charging_cloud : Cloud → Option Bool
charging_cloud r = elim r.status [
  | some (text s) ↦
      if lower_in s ("charging" ∷ "evdetail_status_title_charging" ∷ [])
      then some true
      else if lower_in s
          ("waiting" ∷ "available" ∷ "standby" ∷ "evdetail_status_title_waiting" ∷ [])
      then some false
      else none
  | _ ↦ none
]

-- `number(raw)`: a finite float that is not negative, in millionths.
abbrev pub real_number : Option Real → Option ℕ
real_number (some (finite (pos n))) = some n
real_number r = none

unfoldable pub number : (String → Option Real) → Option Value → Option ℕ
number parse none = none
number parse (some (boolean b)) = none
number parse (some v) = real_number (to_float parse v)

unfoldable pub energy_cloud : (String → Option Real) → Cloud → Option Bool
energy_cloud parse r = elim (number parse r.power) [ none ↦ none | some n ↦ some (ltb 0 n) ]

pub data Vehicle : Type 0 where
  not_plugged_in connected finished_charging : Vehicle

abbrev pub plugged : ℕ → Option Vehicle
plugged n = if n == 0 then some not_plugged_in else if n == 1 then some connected else none

abbrev pub is_active : Option Bool → Bool
is_active (some true) = true
is_active a = false

abbrev pub is_inactive : Option Bool → Bool
is_inactive (some false) = true
is_inactive a = false

abbrev pub is_equal : ℕ → Option ℕ → Bool
is_equal n none = false
is_equal n (some m) = m == n

abbrev pub plug : Option ℕ → Option Vehicle
plug none = none
plug (some n) = plugged n

unfoldable pub vehicle_local : Local → Option Vehicle
vehicle_local r =
    if is_active (charging_local r)
    then some connected
    else if is_equal 2 r.raw_state && (is_equal 1 r.connection && is_inactive (energy_local r))
    then some connected
    else if is_equal 0 r.raw_state && is_inactive (charging_local r)
    then plug r.connection
    else none

-- The table of the `workstate` texts.
abbrev pub text_in : String → List String → Bool
text_in s [] = false
text_in s (t ∷ ts) = str_eq s t || text_in s ts

unfoldable pub legacy_state : Option Value → Option Vehicle
legacy_state (some (text s)) =
    if text_in s (
      "EVDetail_Status_Waiting_Stat00" ∷ "available_gun_no_insered" ∷ "available_gun_no_inserted"
      ∷ [])
    then some not_plugged_in
    else if text_in s (
        "EVDetail_Status_Waiting_Stat01" ∷ "available_gun_insered" ∷ "available_gun_inserted"
        ∷ "prepare" ∷ [])
    then some connected
    else if text_in s ("EVDetail_Status_Waiting_Stat02" ∷ "finishing" ∷ "finish" ∷ [])
    then some finished_charging
    else none
legacy_state v = none

abbrev pub or_finished : Option Vehicle → Vehicle
or_finished (some finished_charging) = finished_charging
or_finished v = connected

abbrev pub by_connection : Option Vehicle → Option ℕ → Option Vehicle
by_connection legacy none = none
by_connection legacy (some n) =
    if n == 0
    then some not_plugged_in
    else if n == 2
    then some connected
    else some (or_finished legacy)

unfoldable pub vehicle_cloud : Cloud → Option Vehicle
vehicle_cloud r = if is_active (charging_cloud r) then some connected else elim r.connection [
  | none ↦ legacy_state r.work_state
  | some v ↦ by_connection (legacy_state r.work_state) (int_up_to 2 v)
]
