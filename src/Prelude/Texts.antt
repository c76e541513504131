-- ===== src/Prelude/Texts.antt =====
-- Texts compared the way `text.lower()` is compared with a lower-case ASCII text.
use Prim.Native.Nat.{ℕ, ◌+◌}
use Prim.Native.Char.{code}
use Prim.Native.String.{String, [], ◌∷◌}
use mathlib.Core.Bool.{Bool, true, false, ◌&&◌}
use goodwe_wallbox_sems_home.Prelude.Tests.{leb, ◌==◌, if◌then◌else◌}

-- Besides A to Z only the Kelvin sign (8490) has an ASCII letter as its lower case.
abbrev pub lower : ℕ → ℕ
lower c = if leb 65 c && leb c 90 then c + 32 else if c == 8490 then 107 else c

abbrev pub lower_is : String → String → Bool
lower_is [] [] = true
lower_is [] (d ∷ t) = false
lower_is (c ∷ s) [] = false
lower_is (c ∷ s) (d ∷ t) = lower (code c) == code d && lower_is s t
