-- ===== src/NativeReports/Storage.antt =====
-- The cumulative energy (native_energy.py) and the Auto start flag (native_configuration.py).
use goodwe_wallbox_sems_home.Prelude.{
  ℕ, ◌-◌, ◌%◌, Bool, not, ◌&&◌, ◌||◌, List, [], ◌∷◌, ◌++◌, leb, ◌==◌, if◌then◌else◌, length, get_or,
  slice, take, drop, list_eq, sum, codes, replicate,
}
use goodwe_wallbox_sems_home.Prelude.Value.{Value, boolean}
use goodwe_wallbox_sems_home.NativeProtocol.Frame.{
  NativeFrame, Result, ok, err, value_error, ◌>>=◌, from_little, frame, u16, u32,
}
use goodwe_wallbox_sems_home.NativeProtocol.Command.{pad32}
use goodwe_wallbox_sems_home.NativeProtocol.Status.{check_serial, u16_at, u32_at}

-- `struct.pack("<HHBBIBH", 0, 0, 1, 1, 27, 1, 4)`, the type of the block, and padding.
abbrev pub block_request : ℕ → List ℕ
block_request type =
    (u16 0 ++ (u16 0 ++ (1 ∷ 1 ∷ (u32 27 ++ (1 ∷ u16 4))))) ++ (u32 type ++ replicate 36 0)

unfoldable pub energy_request : List ℕ → ℕ → Result (List ℕ)
energy_request identity sequence = frame 5 (block_request 2) identity sequence

unfoldable pub configuration_request : List ℕ → ℕ → Result (List ℕ)
configuration_request identity sequence = frame 5 (block_request 1) identity sequence

-- Energy in hundredths of a kWh.
pub record NativeEnergy : Type 0 where
  pub energy : ℕ
  pub duration_seconds : ℕ
  pub sessions : ℕ

-- `raw[73:-1]`
abbrev pub storage : List ℕ → List ℕ
storage raw = slice 73 (length raw - 1) raw

abbrev pub has_header : ℕ → ℕ → List ℕ → Bool
has_header type size raw =
    get_or raw 66 0 == type && (u16_at raw 67 == 1 && (u16_at raw 69 == 1 && u16_at raw 71 == size))

-- A little-endian sum of what is before it.
abbrev pub checked_sum : ℕ → List ℕ → Bool
checked_sum n d = sum (take n d) % 65536 == from_little (drop n d)

abbrev pub read_energy : List ℕ → Result NativeEnergy
read_energy d =
    if not (list_eq (take 2 d) (0xeb ∷ 0x90 ∷ [])) || not (checked_sum (length d - 2) d)
    then err value_error
    else ok
        (record { energy = u32_at d 412; duration_seconds = u32_at d 416; sessions = u32_at d 3 })

-- The serial is validated only for a frame of the right command and size.
unfoldable pub decode_energy : NativeFrame → List ℕ → Result NativeEnergy
decode_energy packet serial =
    if not (packet.command == 602) || not (length packet.raw == 496) then err value_error else do
      value ← check_serial serial
      if not (list_eq (slice 34 66 packet.raw) (pad32 value)) || not (has_header 2 422 packet.raw)
          then err value_error
          else read_energy (storage packet.raw)

pub record NativeConfiguration : Type 0 where
  pub auto_start : Bool
  pub scheduled : Bool

abbrev pub read_configuration : List ℕ → Result NativeConfiguration
read_configuration d =
    if not (checked_sum 624 d) || (not (leb (get_or d 527 0) 1) || not (leb (get_or d 529 0) 1))
    then err value_error
    else ok (record { auto_start = get_or d 527 0 == 1; scheduled = get_or d 529 0 == 1 })

-- `sum(raw[6:-1]) & 255 != raw[-1]`
abbrev pub has_checksum : List ℕ → Bool
has_checksum raw = sum (slice 6 (length raw - 1) raw) % 256 == get_or raw (length raw - 1) 0

unfoldable pub decode_configuration : NativeFrame → List ℕ → Result NativeConfiguration
decode_configuration packet serial =
    if not (packet.command == 602) || not (length packet.raw == 700) then err value_error else do
      value ← check_serial serial
      if not (list_eq (slice 34 66 packet.raw) (pad32 value))
            || (not (has_header 1 626 packet.raw) || not (has_checksum packet.raw))
          then err value_error
          else read_configuration (storage packet.raw)

-- The local envelope of a command, after a complete native frame that does nothing.
abbrev pub envelope : List ℕ → List ℕ
envelope body = codes "#BLE#" ++ (body ++ (sum body % 256 ∷ 13 ∷ []))

abbrev pub auto_start_body : List ℕ → Bool → List ℕ
auto_start_body serial enabled = 58 ∷ (serial ++ (1 ∷ 7 ∷ 0 ∷ (if enabled then 16 else 17) ∷ []))

abbrev pub auto_start_frame : List ℕ → ℕ → List ℕ → Value → Result (List ℕ)
auto_start_frame identity sequence serial (boolean enabled) =
    if not (length serial == 16) then err value_error else do
      boundary ← frame 0 [] identity sequence
      ok (boundary ++ envelope (auto_start_body serial enabled))
auto_start_frame identity sequence serial _ = err value_error

unfoldable pub auto_start_request : List ℕ → ℕ → List ℕ → Value → Result (List ℕ)
auto_start_request identity sequence serial enabled = do
  value ← check_serial serial
  auto_start_frame identity sequence value enabled
