-- ===== src/Prelude/Codes.antt =====
-- Texts as lists of code points, where the code cuts them up.
use Prim.Native.Nat.{ℕ}
use Prim.Native.Char.{code}
use Prim.Native.String.{String}
use mathlib.Core.Path.{◌≡◌, refl, ap}
use mathlib.Core.Bool.{Bool, true, false, ◌&&◌}
use mathlib.Core.List.{List, [], ◌∷◌}
use mathlib.Core.Logic.{◌≢◌}
use native.Mathlib.Omega.{arith}
use goodwe_wallbox_sems_home.Prelude.Tests.{◌==◌}
use goodwe_wallbox_sems_home.Prelude.Lists.{list_eq}

abbrev pub codes : String → List ℕ
codes String.[] = []
codes (String.◌∷◌ c s) = code c ∷ codes s

-- `text.startswith(start)`.
abbrev pub starts_with : List ℕ → List ℕ → Bool
starts_with [] text = true
starts_with (c ∷ start) [] = false
starts_with (c ∷ start) (d ∷ text) = c == d && starts_with start text

pub list_eq_refl : (xs : List ℕ) → list_eq xs xs ≡ true
list_eq_refl [] = refl
list_eq_refl (x ∷ xs) = ground (arith, list_eq_refl xs)

pub list_eq→eq : (xs ys : List ℕ) → list_eq xs ys ≡ true → xs ≡ ys
list_eq→eq [] [] h = refl
list_eq→eq [] (y ∷ ys) h = absurd (ground (arith, h))
list_eq→eq (x ∷ xs) [] h = absurd (ground (arith, h))
list_eq→eq (x ∷ xs) (y ∷ ys) h =
    let e : x ≡ y = ground (arith, h) in
    let r : xs ≡ ys = list_eq→eq xs ys (ground (arith, h)) in cc (e, r)

pub list_eq→neq : (xs ys : List ℕ) → list_eq xs ys ≡ false → xs ≢ ys
list_eq→neq xs ys h e = absurd (ground (arith, h, list_eq_refl xs, ap (list_eq xs) e))
