-- ===== src/NativeReports/Power.antt =====
-- Power limits (native_power_limits.py). A float counts trillionths of a kW.
use mathlib.Core.Path.{subst}
use goodwe_wallbox_sems_home.Prelude.{
  ℕ, ◌+◌, ◌*◌, ◌/◌, ◌≤◌, ◌≡◌, refl, Bool, true, false, not, ◌&&◌, ◌||◌, Option, none, some, List,
  leb, if◌then◌else◌, list_eq, slice, codes, arith,
}
use goodwe_wallbox_sems_home.Prelude.Value.{ℤ, pos, negsuc, Real, finite}
use goodwe_wallbox_sems_home.NativeProtocol.Frame.{Result, ok, err, value_error, ◌>>=◌}

-- In tenths of a kW: `_MODEL_LIMITS` by `serial[1:8]`.
unfoldable pub power_bounds : List ℕ → Result (ℕ × ℕ)
power_bounds serial =
    let model = slice 1 8 serial in
    if list_eq model (codes "011KHCA")
    then ok (42, 110)
    else if list_eq model (codes "022KHCA")
    then ok (42, 220)
    else if list_eq model (codes "7000HCA") || list_eq model (codes "7000ACA")
    then ok (14, 70)
    else err value_error

unfoldable pub bounds_for : Option (List ℕ) → Result (ℕ × ℕ)
unfolding power_bounds
bounds_for none = ok (14, 220)
bounds_for (some serial) = power_bounds serial

-- What is asked for: an int in kW, a float, or what is no number (a bool is none either).
pub data Request : Type 0 where
  whole : ℤ → Request
  floating : Real → Request
  no_number : Request

-- Trillionths of a kW, if it is a number and finite.
abbrev pub finite_power : Request → Option ℤ
finite_power (whole (pos n)) = some (pos (n * 1000000000000))
finite_power (whole (negsuc n)) = some (negsuc n)
finite_power (floating (finite z)) = some z
finite_power _ = none

-- `round(value * 10)`; the test of `isclose` does not hold halfway between two steps.
abbrev pub nearest : ℕ → ℕ
nearest n = (n + 50000000000) / 100000000000

-- `math.isclose(value * 10, raw, abs_tol=1e-8, rel_tol=0)`: 1e-8 steps are 1000 trillionths.
abbrev pub is_close : ℕ → ℕ → Bool
is_close n raw = leb n (raw * 100000000000 + 1000) && leb (raw * 100000000000) (n + 1000)

abbrev pub in_steps : ℕ × ℕ → Option ℤ → Result ℕ
in_steps (low, high) (some (pos n)) =
    if not (leb (low * 100000000000) n && leb n (high * 100000000000))
    then err value_error
    else if is_close n (nearest n)
    then ok (nearest n)
    else err value_error
in_steps b (some (negsuc n)) = err value_error
in_steps b none = err value_error

unfoldable pub power_tenths : Request → Option (List ℕ) → Result ℕ
unfolding bounds_for
power_tenths value serial = bounds_for serial >>= λ b. in_steps b (finite_power value)

power_bounds-range :
    (serial : List ℕ) (b : ℕ × ℕ)
    → power_bounds serial ≡ ok b
    → (14 ≤ b.0) × (b.0 ≤ b.1) × (b.1 ≤ 220)
unfolding power_bounds
power_bounds-range serial b h =
    go (list_eq m (codes "011KHCA")) (list_eq m (codes "022KHCA"))
      (list_eq m (codes "7000HCA") || list_eq m (codes "7000ACA")) h
  where
    m : List ℕ
    m = slice 1 8 serial

    go :
        (x y z : Bool)
        → (let s : Result (ℕ × ℕ) =
              if x
              then ok (42, 110)
              else if y
              then ok (42, 220)
              else if z
              then ok (14, 70)
              else err value_error in
            s ≡ ok b)
        → (14 ≤ b.0) × (b.0 ≤ b.1) × (b.1 ≤ 220)
    go true y z k = ground (arith, k)
    go false true z k = ground (arith, k)
    go false false true k = ground (arith, k)
    go false false false k = absurd (ground (arith, k))

-- A power that is accepted for a serial is a finite number between the bounds of the model, and the
-- result differs from it by at most a billionth of a kW; as a number of tenths of a kW it is
-- between those bounds too, which are between 1.4 and 22 kW.
pub power_tenths-bounds :
    (value : Request) (serial : List ℕ) (raw : ℕ)
    → power_tenths value (some serial) ≡ ok raw
    → (n : ℕ) × (b : ℕ × ℕ) × (finite_power value ≡ some (pos n))
      × (power_bounds serial ≡ ok b)
      × ((b.0 * 100000000000 ≤ n) × (n ≤ b.1 * 100000000000))
      × ((n ≤ raw * 100000000000 + 1000) × (raw * 100000000000 ≤ n + 1000))
      × ((b.0 ≤ raw) × (raw ≤ b.1) × (14 ≤ raw) × (raw ≤ 220))
unfolding power_tenths bounds_for
power_tenths-bounds value serial raw h =
    go (power_bounds serial) (λ b e. power_bounds-range serial b e) (finite_power value) h
  where
    Close : Option ℤ → Result (ℕ × ℕ) → Type 0
    Close v r =
        (n : ℕ) × (b : ℕ × ℕ) × (v ≡ some (pos n))
        × (r ≡ ok b)
        × ((b.0 * 100000000000 ≤ n) × (n ≤ b.1 * 100000000000))
        × ((n ≤ raw * 100000000000 + 1000) × (raw * 100000000000 ≤ n + 1000))
        × ((b.0 ≤ raw) × (raw ≤ b.1) × (14 ≤ raw) × (raw ≤ 220))

    steps :
        (low high n : ℕ) (x y : Bool)
        → (leb (low * 100000000000) n && leb n (high * 100000000000)) ≡ x
        → is_close n (nearest n) ≡ y
        → 14 ≤ low
        → high ≤ 220
        → (let s : Result ℕ =
              if not x then err value_error else if y then ok (nearest n) else err value_error in
            s ≡ ok raw)
        → Close (some (pos n)) (ok (low, high))
    steps low high n false y e f l u k = absurd (ground (arith, k))
    steps low high n true false e f l u k = absurd (ground (arith, k))
    steps low high n true true e f l u k =
        let q : nearest n ≡ raw = ground (arith, k) in
        let a : low * 100000000000 ≤ n = ground (arith, e) in
        let c : n ≤ high * 100000000000 = ground (arith, e) in
        let close : is_close n raw ≡ true = subst (λ r. is_close n r ≡ true) q f in
        let above : n ≤ raw * 100000000000 + 1000 = ground (arith, close) in
        let below : raw * 100000000000 ≤ n + 1000 = ground (arith, close) in
        (
          n,
          (low, high),
          refl,
          refl,
          (a, c),
          (above, below),
          (
            omega (arith, above, a),
            omega (arith, below, c),
            omega (arith, above, a, l),
            omega (arith, below, c, u),
          ),
        )

    go :
        (r : Result (ℕ × ℕ))
        → ((b : ℕ × ℕ) → r ≡ ok b → (14 ≤ b.0) × (b.0 ≤ b.1) × (b.1 ≤ 220))
        → (v : Option ℤ) → (r >>= λ b. in_steps b v) ≡ ok raw
        → Close v r
    go (err e) n v k = absurd (ground (arith, k))
    go (ok b) n none k = absurd (ground (arith, k))
    go (ok b) n (some (negsuc m)) k = absurd (ground (arith, k))
    go (ok (low, high)) n (some (pos m)) k =
        steps low high m (leb (low * 100000000000) m && leb m (high * 100000000000))
          (is_close m (nearest m)) refl refl (n (low, high) refl).0 (n (low, high) refl).2 k
