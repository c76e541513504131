-- ===== src/ObservedState/Agreement.antt =====
-- The answers of observed_state.py agree with each other and with the measurements.
use goodwe_wallbox_sems_home.Prelude.{
  ap, ◌∙◌, ℕ, ◌≡◌, refl, Bool, true, false, not, ◌&&◌, ◌||◌, Option, none, some, List, length, ltb,
  ◌==◌, bool_eq, if◌then◌else◌, arith,
}
use goodwe_wallbox_sems_home.ObservedState.Defs.{
  Local, any, active_if, local_active, charging_local, flow, energy_local,
}

of_some : {cs ds : List ℕ} → some cs ≡ some ds → cs ≡ ds
of_some e = ground (arith, e)

active-flow :
    (state power : ℕ) (currents : List ℕ) (active : Bool)
    → local_active state power currents ≡ some active
    → length currents ≡ 3
    → flow power currents ≡ some active
unfolding local_active flow
active-flow state power currents active h three =
    go (state == 2) (ltb 0 power) refl (any currents) ((state == 0 || state == 3) && power == 0)
      refl h
  where
    go :
        (a p : Bool)
        → ltb 0 power ≡ p
        → (c z : Bool) → ((state == 0 || state == 3) && power == 0) ≡ z
        → (if a then active_if (p && c) true else if z then active_if (not c) false else none)
          ≡ some active
        → (if not (length currents == 3) then none else if not (bool_eq p c) then none else some p)
          ≡ some active
    go true true e true z f k = ground (arith, three, k)
    go true true e false z f k = absurd (ground (arith, k))
    go true false e c z f k = absurd (ground (arith, k))
    go false p e c false f k = absurd (ground (arith, k))
    go false p e true true f k = absurd (ground (arith, k))
    go false true e false true f k = absurd (ground (arith, e, f))
    go false false e false true f k = ground (arith, three, k)

-- Where a native report with three phase currents says that the session is active or not, the
-- measured energy flow says the same.
pub charging-energy :
    (r : Local) (currents : List ℕ) (active : Bool)
    → r.currents ≡ some currents
    → length currents ≡ 3
    → charging_local r ≡ some active
    → energy_local r ≡ some active
unfolding charging_local energy_local
charging-energy r currents active measured three h = go r.raw_state r.power r.currents measured h
  where
    go :
        (s p : Option ℕ) (c : Option (List ℕ))
        → c ≡ some currents
        → (elim s [
          | none ↦ none
          | some state ↦ elim p [
            | none ↦ none
            | some power ↦ elim c [ none ↦ none | some cs ↦ local_active state power cs ]
          ]
        ])
          ≡ some active
        → (elim p [ none ↦ none | some power ↦ elim c [ none ↦ none | some cs ↦ flow power cs ] ])
          ≡ some active
    go none p c m k = absurd (ground (arith, k))
    go (some state) none c m k = absurd (ground (arith, k))
    go (some state) (some power) none m k = absurd (ground (arith, k))
    go (some state) (some power) (some cs) m k =
        active-flow state power cs active k (ap length (of_some m) ∙ three)
