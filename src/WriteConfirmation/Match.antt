-- ===== src/WriteConfirmation/Match.antt =====
-- `matches` of write_confirmation.py: whether a report shows what a control asked for.
use goodwe_wallbox_sems_home.Prelude.{
  Bool, true, false, not, ◌&&◌, ◌||◌, String, Option, none, some, [], ◌∷◌, ltb, bool_eq, lower_in,
  str_eq, if◌then◌else◌, List,
}
use goodwe_wallbox_sems_home.Prelude.Value.{
  Value, nothing, other, boolean, integer, real, text, Real, finite, is_number, number_in, to_float,
  distance,
}
use goodwe_wallbox_sems_home.Prelude.Maps.{Map, get}

-- A report; what it holds under a key, None if it has no such key.
abbrev pub Report : Type 0
Report = Map Value

abbrev pub at : String → Report → Value
at key report = elim (get key report) [ none ↦ nothing | some v ↦ v ]

abbrev pub is_nothing : Value → Bool
is_nothing nothing = true
is_nothing _ = false

-- The truth of a value; the code looks into no object whose truth the model does not know.
abbrev pub truthy : Value → Bool
truthy nothing = false
truthy other = true
truthy (boolean b) = b
truthy (integer n) = not (is_number 0 (integer n))
truthy (real r) = not (is_number 0 (real r))
truthy (text t) = not (str_eq t "")

-- `str(data.get("status", "")).lower()` in a list of lower-case texts, none of which is the text
-- of a value of another type.
abbrev pub status_in : Option Value → List String → Bool
status_in (some (text s)) names = lower_in s names
status_in _ names = false

-- `not status`
abbrev pub lacks_status : Option Value → Bool
lacks_status none = true
lacks_status (some (text s)) = str_eq s ""
lacks_status _ = false

-- The state of the charging session: `modbus_status_raw` first, then SEMS+ or the status text.
unfoldable pub session_matches : Bool → Report → Bool → Bool
session_matches expected report cloud_session =
    let raw = at "modbus_status_raw" report in
    let work = at "last_charge_work_status" report in
    let status = get "status" report in
    if not (is_nothing raw)
    then (if expected then is_number 3 raw else number_in (0 ∷ 1 ∷ 4 ∷ 5 ∷ 7 ∷ 8 ∷ 10 ∷ []) raw)
    else if cloud_session
    then (if expected then is_number 6 work else number_in (8 ∷ 10 ∷ []) work)
    else if expected
    then status_in status ("charging" ∷ "evdetail_status_title_charging" ∷ [])
      || (lacks_status status && is_number 6 work)
    else status_in status
        ("standby" ∷ "idle" ∷ "waiting" ∷ "available" ∷ "evdetail_status_title_waiting" ∷ [])

-- `actual == expected` of two values of which one has no float. Texts and None are compared; an
-- object equals nothing that the code asks for.
abbrev pub same_value : Value → Value → Bool
same_value nothing nothing = true
same_value (text s) (text t) = str_eq s t
same_value _ _ = false

abbrev pub close_reals : Real → Real → Bool
close_reals (finite a) (finite b) = ltb (distance a b) 1000
close_reals _ _ = false

abbrev pub close_floats : Option Real → Option Real → Value → Value → Bool
close_floats (some a) (some b) actual expected = close_reals a b
close_floats _ _ actual expected = same_value actual expected

unfoldable pub value_matches : (String → Option Real) → Value → Value → Bool
value_matches parse expected nothing = false
value_matches parse (boolean b) (boolean c) = bool_eq c b
value_matches parse (boolean b) actual = false
value_matches parse expected actual =
    close_floats (to_float parse actual) (to_float parse expected) actual expected

abbrev pub reported : String → Report → Value
reported field report =
    if str_eq field "chargeMode"
    then elim (get "_reported_charge_mode" report) [ none ↦ at field report | some v ↦ v ]
    else at field report

unfoldable pub matches : (String → Option Real) → String → Value → Report → Bool → Bool
matches parse field expected report cloud_session =
    if str_eq field "charging"
    then session_matches (truthy expected) report cloud_session
    else value_matches parse expected (reported field report)
