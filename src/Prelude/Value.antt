-- ===== src/Prelude/Value.antt =====
-- Values of the dynamic language: what a JSON report, an entity or a caller may hand over.
use Prim.Native.Nat.{ℕ, ◌+◌, ◌-◌, ◌*◌}
use Prim.Native.String.{String}
use mathlib.Core.Bool.{Bool, true, false, ◌||◌}
use mathlib.Core.List.{List, [], ◌∷◌}
use mathlib.Core.Option.{Option, none, some}
use goodwe_wallbox_sems_home.Prelude.Tests.{leb, ◌==◌, if◌then◌else◌}

-- `negsuc n` is -(n + 1).
pub data ℤ : Type 0 where
  pos : ℕ → ℤ
  negsuc : ℕ → ℤ

-- A float: a finite one counts millionths of its unit; the code compares at thousandths.
pub data Real : Type 0 where
  finite : ℤ → Real
  infinite nan : Real

-- `nothing` is None, and `other` stands for objects that the code does not look into.
pub data Value : Type 0 where
  nothing other : Value
  boolean : Bool → Value
  integer : ℤ → Value
  real : Real → Value
  text : String → Value

-- `type(value) is int and value in (0, …, top)`, with the number.
abbrev pub int_up_to : ℕ → Value → Option ℕ
int_up_to top (integer (pos n)) = if leb n top then some n else none
int_up_to top _ = none

-- `value == n` for an int: True is 1, and a float can be whole.
abbrev pub is_number : ℕ → Value → Bool
is_number n (boolean true) = n == 1
is_number n (boolean false) = n == 0
is_number n (integer (pos m)) = m == n
is_number n (real (finite (pos m))) = m == n * 1000000
is_number n _ = false

abbrev pub number_in : List ℕ → Value → Bool
number_in [] v = false
number_in (n ∷ ns) v = is_number n v || number_in ns v

abbrev pub millionths : ℤ → ℤ
millionths (pos n) = pos (n * 1000000)
millionths (negsuc n) = negsuc (n * 1000000 + 999999)

-- `float(value)`, where `parse` is what Python makes of a text; `none` is ValueError or TypeError.
abbrev pub to_float : (String → Option Real) → Value → Option Real
to_float parse (boolean true) = some (finite (pos 1000000))
to_float parse (boolean false) = some (finite (pos 0))
to_float parse (integer n) = some (finite (millionths n))
to_float parse (real r) = some r
to_float parse (text t) = parse t
to_float parse _ = none

-- `abs(a - b)`
abbrev pub distance : ℤ → ℤ → ℕ
distance (pos a) (pos b) = a - b + (b - a)
distance (pos a) (negsuc b) = a + b + 1
distance (negsuc a) (pos b) = a + b + 1
distance (negsuc a) (negsuc b) = a - b + (b - a)
