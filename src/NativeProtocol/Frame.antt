-- ===== src/NativeProtocol/Frame.antt =====
-- Frames of native_protocol.py: the byte layout that `struct` writes and the envelope of `_frame`.
-- A byte string is a list of numbers.
use goodwe_wallbox_sems_home.Prelude.{
  ℕ, ◌+◌, ◌*◌, ◌/◌, ◌%◌, ◌<◌, ◌||◌, not, List, [], ◌∷◌, ◌++◌, ltb, ◌==◌, if◌then◌else◌, length, sum,
}

-- The exceptions that the module raises: its own ValueError, and struct.error for a field that
-- does not fit.
pub data Error : Type 0 where
  value_error struct_error : Error

pub data Result {ℓ} (A : Type ℓ) : Type ℓ where
  ok : A → Result A
  err : Error → Result A

infixl 10 ◌>>=◌
abbrev pub ◌>>=◌ {ℓ κ} : {A : Type ℓ} {B : Type κ} → Result A → (A → Result B) → Result B
ok a >>= f = f a
err e >>= f = err e

pub record NativeFrame : Type 0 where
  pub command : ℕ
  pub sequence : ℕ
  pub identity : List ℕ
  pub raw : List ℕ

abbrev pub IsByte : ℕ → Type 0
IsByte b = b < 256

-- `int.from_bytes(bs, "little")`, and the unsigned formats of `struct.unpack`.
abbrev pub from_little : List ℕ → ℕ
from_little [] = 0
from_little (b ∷ bs) = b + 256 * from_little bs

-- `struct.pack` of `<H` and `<I` for a value in range.
abbrev pub u16 : ℕ → List ℕ
u16 n = n % 256 ∷ n / 256 % 256 ∷ []

abbrev pub u32 : ℕ → List ℕ
u32 n = n % 256 ∷ n / 256 % 256 ∷ n / 65536 % 256 ∷ n / 16777216 % 256 ∷ []

abbrev pub pack_u16 : ℕ → Result (List ℕ)
pack_u16 n = if ltb n 65536 then ok (u16 n) else err struct_error

unfoldable pub frame : ℕ → List ℕ → List ℕ → ℕ → Result (List ℕ)
frame command body identity sequence =
    if not (length identity == 22) || not (ltb sequence 256) then err value_error else do
      code ← pack_u16 command
      let payload = code ++ (identity ++ body)
      size ← pack_u16 (length payload + 7)
      ok (0xaa ∷ 0xf5 ∷ (size ++ (16 ∷ sequence ∷ (payload ++ (sum payload % 256 ∷ [])))))
