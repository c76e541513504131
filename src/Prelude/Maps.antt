-- ===== src/Prelude/Maps.antt =====
-- Dictionaries with text keys, in the order of insertion.
use Prim.Native.String.{String}
use mathlib.Core.Path.{◌≡◌, refl, sym, ◌∙◌, ap, subst}
use mathlib.Core.Logic.{◌⊎◌, inl, inr}
use mathlib.Core.Bool.{Bool, true, false}
use mathlib.Core.Option.{Option, none, some}
use mathlib.Core.List.{List, [], ◌∷◌}
use text.Mathlib.Text.{◌==◌ as str_eq}
use native.Mathlib.Omega.{arith}
use goodwe_wallbox_sems_home.Prelude.Tests.{if◌then◌else◌, is_some, Bool-cases}
use text.Mathlib.TextEquality.{eq_iff}

abbrev pub Map {ℓ} : Type ℓ → Type ℓ
Map A = List (String × A)

module _ {ℓ} {A : Type ℓ} where
  abbrev pub get : String → Map A → Option A
  get k [] = none
  get k ((k', a) ∷ m) = if str_eq k k' then some a else get k m

  abbrev pub put : String → A → Map A → Map A
  put k a [] = (k, a) ∷ []
  put k a ((k', a') ∷ m) = if str_eq k k' then (k, a) ∷ m else (k', a') ∷ put k a m

  abbrev pub remove : String → Map A → Map A
  remove k [] = []
  remove k ((k', a) ∷ m) = if str_eq k k' then remove k m else (k', a) ∷ remove k m

  abbrev pub has : String → Map A → Bool
  has k m = is_some (get k m)

  chosen :
      (x : Bool) (a b : A) (o : Option A)
      → (if x then some a else o) ≡ some b
      → ((x ≡ true) × (a ≡ b)) ⊎ ((x ≡ false) × (o ≡ some b))
  chosen true a b o h = ground arith
  chosen false a b o h = ground arith

  -- What was got from a map after a `put`: the new value at its key, or an old one.
  pub get-put :
      (j k : String) (a b : A) (m : Map A)
      → get j (put k a m) ≡ some b
      → ((str_eq j k ≡ true) × (a ≡ b)) ⊎ (get j m ≡ some b)
  get-put j k a b [] h = ground arith
  get-put j k a b ((k', c) ∷ m) h = elim (Bool-cases (str_eq k k')) [
    | inl e ↦ elim (chosen (str_eq j k) a b (get j m) (rw e at h)) [
      | inl p ↦ inl p
      | inr (f, o) ↦ inr (
          subst (λ z. (if str_eq j z then some c else get j m) ≡ some b) ((eq_iff k k').0 e)
            (rw f o))
    ]
    | inr e ↦ elim (chosen (str_eq j k') c b (get j (put k a m)) (rw e at h)) [
      | inl (f, p) ↦ inr (rw f (ap some p))
      | inr (f, o) ↦ elim (get-put j k a b m o) [ inl p ↦ inl p | inr g ↦ inr (rw f g) ]
    ]
  ]

pub str_eq_refl : (s : String) → str_eq s s ≡ true
str_eq_refl s = (eq_iff s s).1 refl

pub get-put_same : {A : Type 0} (k : String) (a : A) (m : Map A) → get k (put k a m) ≡ some a
get-put_same k a [] = rw (str_eq_refl k) refl
get-put_same k a ((k', b) ∷ m) = go (str_eq k k') refl (get-put_same k a m)
  where
    go :
        (c : Bool)
        → str_eq k k' ≡ c
        → get k (put k a m) ≡ some a
        → get k (if c then (k, a) ∷ m else (k', b) ∷ put k a m) ≡ some a
    go true e h = rw (str_eq_refl k) refl
    go false e h = rw e h

get-remove_same : {A : Type 0} (k : String) (m : Map A) → get k (remove k m) ≡ none
get-remove_same k [] = refl
get-remove_same k ((k', a) ∷ m) = go (str_eq k k') refl (get-remove_same k m)
  where
    go :
        (x : Bool)
        → str_eq k k' ≡ x
        → get k (remove k m) ≡ none
        → get k (if x then remove k m else (k', a) ∷ remove k m) ≡ none
    go true e n = n
    go false e n = rw e n

pub get-remove :
    {A : Type 0} (j k : String) (t : A) (m : Map A) → get j (remove k m) ≡ some t → get j m ≡ some t
get-remove j k t [] h = h
get-remove j k t ((k', a) ∷ m) h = go (str_eq k k') (str_eq j k') refl refl (get-remove j k t m) h
  where
    same : str_eq k k' ≡ true → str_eq j k' ≡ true → k ≡ j
    same e f = (eq_iff k k').0 e ∙ sym ((eq_iff j k').0 f)

    go :
        (x y : Bool)
        → str_eq k k' ≡ x
        → str_eq j k' ≡ y
        → (get j (remove k m) ≡ some t → get j m ≡ some t)
        → get j (if x then remove k m else (k', a) ∷ remove k m) ≡ some t
        → (if y then some a else get j m) ≡ some t
    go true true e f n g =
        let nothing : get j (remove k m) ≡ none =
          subst (λ i. get i (remove k m) ≡ none) (same e f) (get-remove_same k m) in
        absurd (ground (arith, nothing, g))
    go true false e f n g = n g
    go false true e f n g = rw f at g
    go false false e f n g = n (rw f at g)
