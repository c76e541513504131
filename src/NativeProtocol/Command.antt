-- ===== src/NativeProtocol/Command.antt =====
-- The commands of native_protocol.py: `encode_command`, `login` and `acknowledgement`.
use goodwe_wallbox_sems_home.Prelude.{
  ℕ, ◌-◌, Bool, false, not, ◌&&◌, ◌||◌, String, str_eq, Option, none, some, List, [], ◌∷◌, ◌++◌,
  ltb, leb, ◌==◌, if◌then◌else◌, length, get_or, replicate,
}
use goodwe_wallbox_sems_home.Prelude.Value.{Value, boolean, integer, pos, int_up_to}
use goodwe_wallbox_sems_home.NativeProtocol.Frame.{
  NativeFrame, Result, ok, err, value_error, ◌>>=◌, u16, u32, frame,
}

-- The keyword arguments of `encode_command`; a session ID is its code points.
pub record Options : Type 0 where
  pub mode : Value
  pub tenths_kw : Value
  pub session_id : List ℕ
  pub minimum_power : Value

-- `bytes(n)`
abbrev pub zeros : ℕ → List ℕ
zeros n = replicate n 0

-- A field `32s`: padded with zeros.
abbrev pub pad32 : List ℕ → List ℕ
pad32 bs = bs ++ zeros (32 - length bs)

-- b"HOME_ASSISTANT"
abbrev pub home_assistant : List ℕ
home_assistant = 72 ∷ 79 ∷ 77 ∷ 69 ∷ 95 ∷ 65 ∷ 83 ∷ 83 ∷ 73 ∷ 83 ∷ 84 ∷ 65 ∷ 78 ∷ 84 ∷ []

-- `struct.pack("<HBBBIBHI", 0, 0, 1, write, parameter, 1, 4, value)`
abbrev pub parameter_body : ℕ → ℕ → ℕ → List ℕ
parameter_body write parameter value =
    u16 0 ++ (0 ∷ 1 ∷ write ∷ (u32 parameter ++ (1 ∷ (u16 4 ++ u32 value))))

abbrev pub stop_body : List ℕ
stop_body = u16 0 ++ (u16 0 ++ (1 ∷ 1 ∷ (u32 2 ++ (1 ∷ (u16 4 ++ (u32 0x55 ++ zeros 36))))))

abbrev pub start_body : List ℕ → List ℕ
start_body encoded =
    u16 0
    ++ (u16 0
        ++ (1
            ∷ (u32 0
                ++ (u32 0
                    ++ (u32 0
                        ++ (u32 0
                            ++ (zeros 8
                                ++ (0
                                    ∷ (pad32 home_assistant
                                        ++ (0 ∷ (u32 0 ++ (pad32 encoded ++ u16 0))))))))))))

-- `session_id.encode("ascii")`; UnicodeEncodeError is a ValueError.
unfoldable pub encode_ascii : List ℕ → Result (List ℕ)
encode_ascii [] = ok []
encode_ascii (c ∷ cs) = do
  rest ← encode_ascii cs
  if ltb c 128 then ok (c ∷ rest) else err value_error

-- `b"\0" in encoded`
unfoldable pub has_zero : List ℕ → Bool
has_zero [] = false
has_zero (b ∷ bs) = b == 0 || has_zero bs

abbrev pub tenths_in_range : Value → Option ℕ
tenths_in_range (integer (pos n)) = if leb 14 n && leb n 220 then some n else none
tenths_in_range _ = none

abbrev pub checked : Option ℕ → (ℕ → ℕ × List ℕ) → Result (ℕ × List ℕ)
checked none f = err value_error
checked (some n) f = ok (f n)

abbrev pub minimum_power_body : Value → Result (ℕ × List ℕ)
minimum_power_body (boolean b) = ok (1, parameter_body 1 49 (if b then 170 else 0))
minimum_power_body _ = err value_error

unfoldable pub start_command : List ℕ → Result (ℕ × List ℕ)
start_command session_id = do
  encoded ← encode_ascii session_id
  if not (leb 1 (length encoded) && leb (length encoded) 31) || has_zero encoded
      then err value_error
      else ok (7, start_body encoded)

-- The branches on `action`: the command code and the body of the frame.
unfoldable pub command_body : String → Options → Result (ℕ × List ℕ)
command_body action o =
    if str_eq action "status"
    then ok (1, parameter_body 0 47 0)
    else if str_eq action "mode"
    then checked (int_up_to 2 o.mode) (λ n. (1, parameter_body 1 48 n))
    else if str_eq action "minimum_power"
    then minimum_power_body o.minimum_power
    else if str_eq action "power"
    then checked (tenths_in_range o.tenths_kw) (λ n. (1, parameter_body 1 47 n))
    else if str_eq action "stop"
    then ok (5, stop_body)
    else if str_eq action "start"
    then start_command o.session_id
    else err value_error

unfoldable pub encode_command : String → List ℕ → ℕ → Options → Result (List ℕ)
encode_command action identity sequence o = do
  chosen ← command_body action o
  frame chosen.0 chosen.1 identity sequence

unfoldable pub login : List ℕ → ℕ → Result (List ℕ)
login identity sequence = frame 105 (zeros 139) identity sequence

-- The reply to a frame of the device, or `none` for a frame that is not acknowledged. `raw[67]`
-- is read only in a frame of 239 bytes.
unfoldable pub reply_body : NativeFrame → Option (ℕ × List ℕ)
reply_body packet =
    if packet.command == 106 && length packet.raw == 122
    then some (105, zeros 139)
    else if packet.command == 102 && length packet.raw == 69
    then some (101, zeros 6)
    else if packet.command == 104 && length packet.raw == 239 && get_or packet.raw 67 0 == 1
    then some (103, zeros 3 ++ (1 ∷ []))
    else none

unfoldable pub acknowledgement : NativeFrame → Result (Option (List ℕ))
acknowledgement packet = elim (reply_body packet) [
  | none ↦ ok none
  | some reply ↦ frame reply.0 reply.1 packet.identity packet.sequence >>= λ bytes. ok (some bytes)
]
