-- ===== src/NativeProtocol/Status.antt =====
-- NativeStatus, `check_serial`, `identifies` and `decode_status` of native_protocol.py.
-- kW, A, V and kWh are counted in thousandths, in which the code's quotients by 10 and 100 of
-- integers are exact.
use goodwe_wallbox_sems_home.Prelude.{
  ℕ, ◌+◌, ◌-◌, ◌*◌, Bool, true, false, not, ◌&&◌, ◌||◌, Option, none, some, List, [], ◌∷◌, ltb, leb,
  ◌==◌, if◌then◌else◌, length, get_or, slice, list_eq,
}
use goodwe_wallbox_sems_home.NativeProtocol.Frame.{
  NativeFrame, Result, ok, err, value_error, ◌>>=◌, from_little,
}
use goodwe_wallbox_sems_home.NativeProtocol.Command.{encode_ascii, has_zero}

pub record NativeStatus : Type 0 where
  pub serial : List ℕ
  pub state : ℕ
  pub mode : ℕ
  pub limit_kw : ℕ
  pub power_kw : ℕ
  pub currents_a : ℕ × ℕ × ℕ
  pub voltages_v : ℕ × ℕ × ℕ
  pub fault_code : ℕ
  pub connection : ℕ
  pub session_seconds : ℕ
  pub minimum_power : Option Bool
  pub session_energy_kwh : ℕ

-- `any(self.currents_a)`
abbrev pub any_current : ℕ × ℕ × ℕ → Bool
any_current (a, b, c) = not (a == 0) || (not (b == 0) || not (c == 0))

unfoldable pub charging : NativeStatus → Bool
charging s = s.state == 2 && (ltb 0 s.power_kw && any_current s.currents_a)

unfoldable pub stopped : NativeStatus → Bool
stopped s = (s.state == 0 || s.state == 3) && (s.power_kw == 0 && not (any_current s.currents_a))

unfoldable pub check_serial : List ℕ → Result (List ℕ)
check_serial serial = do
  value ← encode_ascii serial
  if not (leb 1 (length value) && leb (length value) 32) || has_zero value
      then err value_error
      else ok value

-- `bs.rstrip(b"\0")`
abbrev pub strip_cons : ℕ → List ℕ → List ℕ
strip_cons b [] = if b == 0 then [] else b ∷ []
strip_cons b (c ∷ cs) = b ∷ c ∷ cs

unfoldable pub rstrip : List ℕ → List ℕ
rstrip [] = []
rstrip (b ∷ bs) = strip_cons b (rstrip bs)

-- `sizes.get(command)`
abbrev pub size_of : ℕ → Option ℕ
size_of command =
    if command == 102
    then some 69
    else if command == 104
    then some 239
    else if command == 106
    then some 122
    else if command == 202
    then some 319
    else if command == 2104
    then some 239
    else none

abbrev pub has_size : ℕ → Option ℕ → Bool
has_size n none = false
has_size n (some size) = n == size

-- The serial is validated only for a frame of the right size.
unfoldable pub identifies : NativeFrame → List ℕ → Result Bool
identifies packet serial =
    if has_size (length packet.raw) (size_of packet.command)
    then (check_serial serial >>= λ value. ok (list_eq (rstrip (slice 34 66 packet.raw)) value))
    else ok false

-- `struct.unpack_from("<I", body, offset)[0]` and `"<H"`.
abbrev pub u32_at : List ℕ → ℕ → ℕ
u32_at body offset = from_little (slice offset (offset + 4) body)

abbrev pub u16_at : List ℕ → ℕ → ℕ
u16_at body offset = from_little (slice offset (offset + 2) body)

-- `{0: False, 170: True}.get(code)`
abbrev pub minimum_power_flag : ℕ → Option Bool
minimum_power_flag code = if code == 0 then some false else if code == 170 then some true else none

unfoldable pub read_body : List ℕ → List ℕ → Result NativeStatus
read_body serial body =
    let mode = get_or body 204 0 in
    if not (leb mode 2)
    then err value_error
    else ok (record {
      serial = serial;
      state = get_or body 39 0;
      mode = mode;
      limit_kw = u32_at body 157 * 100;
      power_kw = u32_at body 153 * 100;
      currents_a = (u16_at body 73 * 100, u16_at body 75 * 100, u16_at body 77 * 100);
      voltages_v = (u16_at body 67 * 100, u16_at body 69 * 100, u16_at body 71 * 100);
      fault_code = u32_at body 41;
      connection = get_or body 45 0;
      session_seconds = u32_at body 81;
      minimum_power = minimum_power_flag (get_or body 207 0);
      session_energy_kwh = u32_at body 85 * 10;
    })

unfoldable pub decode_status : NativeFrame → List ℕ → Result NativeStatus
decode_status packet serial =
    if not (packet.command == 104 || packet.command == 2104) then err value_error else do
      mine ← identifies packet serial
      if not mine || not (get_or packet.raw 67 0 == 1)
          then err value_error
          else read_body serial (slice 30 (length packet.raw - 1) packet.raw)
