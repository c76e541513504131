-- ===== src/NativeProtocol/Commands.antt =====
-- What the commands of native_protocol.py put on the wire, as the device's side decodes it.
use goodwe_wallbox_sems_home.Prelude.{
  ℕ, ◌-◌, ◌≤◌, ◌<◌, ◌≡◌, ◌⊎◌, inl, inr, refl, Bool, true, false, not, ◌&&◌, ◌||◌, String, Option,
  none, some, List, [], ◌∷◌, ◌++◌, ltb, leb, if◌then◌else◌, length, arith, str_eq, Bool-cases, sym,
  ◌∙◌, append-nil, length-append, length-replicate,
}
use goodwe_wallbox_sems_home.Prelude.Value.{Value, boolean}
use goodwe_wallbox_sems_home.NativeProtocol.Frame.{
  Result, ok, err, Error, value_error, ◌>>=◌, u16, frame,
}
use goodwe_wallbox_sems_home.NativeProtocol.Decoder.{feed_all, new}
use goodwe_wallbox_sems_home.NativeProtocol.Stream.{join}
use goodwe_wallbox_sems_home.NativeProtocol.RoundTrip.{
  frame-envelope, length-envelope_lem, feed_all-raws,
}
use goodwe_wallbox_sems_home.NativeProtocol.Command.{
  stop_body, checked, parameter_body, minimum_power_body, Options, command_body, start_command,
  encode_ascii, encode_command, has_zero, start_body, zeros,
}

length-start_body : (bs : List ℕ) → 1 ≤ length bs → length bs ≤ 31 → length (start_body bs) ≡ 101
length-start_body bs h k = omega (
  arith,
  length-append bs (zeros (32 - length bs)),
  length-append (bs ++ zeros (32 - length bs)) (u16 0),
  length-replicate {A = ℕ} (32 - length bs) 0,
)

-- An outcome of `command_body` is a ValueError, or one of the three allowed codes with a body of
-- bounded size.
abbrev pub Allowed : Result (ℕ × List ℕ) → Type 0
Allowed (err e) = e ≡ value_error
Allowed (ok (code, body)) = ((code ≡ 1) ⊎ ((code ≡ 5) ⊎ (code ≡ 7))) × (length body ≤ 101)

record IsAllowed (r : Result (ℕ × List ℕ)) : Type 0 where
  holds : Allowed r

if-IsAllowed :
    (b : Bool) (x y : Result (ℕ × List ℕ))
    → IsAllowed x
    → IsAllowed y
    → IsAllowed (if b then x else y)
if-IsAllowed true x y h k = h
if-IsAllowed false x y h k = k

refused : IsAllowed (err value_error)
refused = record { holds = refl }

checked-IsAllowed :
    (o : Option ℕ) (w p : ℕ) → IsAllowed (checked o (λ n. (1, parameter_body w p n)))
checked-IsAllowed none w p = refused
checked-IsAllowed (some n) w p = record { holds = (inl refl, omega arith) }

minimum_power_body-IsAllowed : (v : Value) → IsAllowed (minimum_power_body v)
minimum_power_body-IsAllowed (boolean b) = record { holds = (inl refl, omega arith) }
minimum_power_body-IsAllowed _ = refused

encode_ascii_error : (cs : List ℕ) (e : Error) → encode_ascii cs ≡ err e → e ≡ value_error
unfolding encode_ascii
encode_ascii_error [] e h = cc
encode_ascii_error (c ∷ cs) e h = go (encode_ascii cs) (encode_ascii_error cs) h
  where
    go :
        (r : Result (List ℕ))
        → ((e' : Error) → r ≡ err e' → e' ≡ value_error)
        → (r >>= λ rest. if ltb c 128 then ok (c ∷ rest) else err value_error) ≡ err e
        → e ≡ value_error
    go (ok rest) ih k = ground arith
    go (err e') ih k = ground (arith, ih e' refl)

start_command-IsAllowed : (session_id : List ℕ) → IsAllowed (start_command session_id)
unfolding start_command
start_command-IsAllowed session_id = go (encode_ascii session_id) refl
  where
    go :
        (r : Result (List ℕ))
        → encode_ascii session_id ≡ r
        → IsAllowed (
            r >>= λ encoded.
            if not (leb 1 (length encoded) && leb (length encoded) 31) || has_zero encoded
            then err value_error
            else ok (7, start_body encoded))
    go (err e) p = record { holds = encode_ascii_error session_id e p }
    go (ok bs) p =
        elim (Bool-cases (not (leb 1 (length bs) && leb (length bs) 31) || has_zero bs)) [
          | inl bad ↦ rw bad refused
          | inr good ↦ rw good (record {
            holds =
                (inr (inr refl), omega (arith, length-start_body bs (ground arith) (ground arith)));
          })
        ]

command_body-IsAllowed : (action : String) (o : Options) → IsAllowed (command_body action o)
unfolding command_body
command_body-IsAllowed action o =
    if-IsAllowed (str_eq action "status") (ok (1, parameter_body 0 47 0)) _
      (record { holds = (inl refl, omega arith) })
      (if-IsAllowed (str_eq action "mode") _ _ (checked-IsAllowed _ 1 48) (
        if-IsAllowed (str_eq action "minimum_power") _ _
          (minimum_power_body-IsAllowed o.minimum_power)
          (if-IsAllowed (str_eq action "power") _ _ (checked-IsAllowed _ 1 47) (
            if-IsAllowed (str_eq action "stop") (ok (5, stop_body)) _
              (record { holds = (inr (inl refl), omega arith) })
              (if-IsAllowed (str_eq action "start") _ _ (start_command-IsAllowed o.session_id)
                refused)))))

-- An outcome of `encode_command` is a ValueError, or bytes that a decoder at the default size
-- limit reads as one frame with an allowed code and the given envelope, however they are cut.
abbrev pub Delivered : List ℕ → ℕ → Result (List ℕ) → Type 0
Delivered identity sequence (err e) = e ≡ value_error
Delivered identity sequence (ok bytes) =
    (code : ℕ) × ((code ≡ 1) ⊎ ((code ≡ 5) ⊎ (code ≡ 7)))
    × ((chunks : List (List ℕ))
        → join chunks ≡ bytes
        → feed_all (new 4096) chunks ≡ (
          some (
              record { command = code; sequence = sequence; identity = identity; raw = bytes }
              ∷ []),
          new 4096,
        ))

frame-Delivered :
    (identity : List ℕ) (sequence : ℕ) (r : Result (ℕ × List ℕ))
    → length identity ≡ 22
    → sequence < 256
    → IsAllowed r
    → Delivered identity sequence (r >>= λ chosen. frame chosen.0 chosen.1 identity sequence)
frame-Delivered identity sequence (err e) hi hs a = a.holds
frame-Delivered identity sequence (ok (code, body)) hi hs a =
    let made =
      frame-envelope code body identity sequence hi hs (ground (arith, a.holds))
        (omega (arith, a.holds)) in
    rw made (
      code,
      a.holds.0,
      λ chunks cut.
          feed_all-raws 4096 (_ ∷ []) chunks
            (
              record {
                body = body;
                framed = made;
                fits = omega (arith, a.holds, length-envelope_lem code body identity sequence hi);
              },
              tt,
            )
            (cut ∙ sym (append-nil _)),
    )

-- Whatever the action and its arguments, with a 22-byte identity and a one-byte sequence number
-- `encode_command` either raises ValueError or makes bytes that a decoder at the default size
-- limit, however they are cut into reads, reads back as exactly one frame, under one of the three
-- allowed command codes, with that identity and sequence, and nothing left over.
pub encode_command-decoded :
    (action : String) (identity : List ℕ) (sequence : ℕ) (o : Options)
    → length identity ≡ 22
    → sequence < 256
    → Delivered identity sequence (encode_command action identity sequence o)
unfolding encode_command
encode_command-decoded action identity sequence o hi hs =
    frame-Delivered identity sequence (command_body action o) hi hs
      (command_body-IsAllowed action o)
