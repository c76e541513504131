-- ===== src/CloudRequests/Wait.antt =====
-- Waiting for the lock within the budget of an operation.
use mathlib.Core.Path.{subst}
use goodwe_wallbox_sems_home.Prelude.{
  ℕ, zero, suc, ◌+◌, ◌-◌, ◌≤◌, ◌<◌, ◌≡◌, refl, sym, ◌⊎◌, inl, inr, Bool, true, false, some,
  if◌then◌else◌, leb, arith,
}
use goodwe_wallbox_sems_home.CloudRequests.Budget.{
  cancelled, timed_out, Outcome, ok, raised, World, Answer, M, continue, pass, remaining, acquire,
  locked, serialized,
}

-- How a wait ends: with the lock and budget left, or with one of the budget's exceptions.
abbrev pub Decided : ℕ → Outcome (Unit {0}) × World → Type 0
Decided deadline r =
    ((r.0 ≡ ok tt) × (r.1.dropped ≡ false) × (r.1.now < deadline))
    ⊎ ((r.0 ≡ raised cancelled) ⊎ (r.0 ≡ raised timed_out))

left-Decided :
    (deadline : ℕ) (w : World) (k : ℕ → M (Unit {0}))
    → (w.dropped ≡ false → w.now < deadline → Decided deadline (k (deadline - w.now) w))
    → Decided deadline (continue (remaining deadline w) k)
unfolding remaining
left-Decided deadline w k n = go w.dropped refl (leb deadline w.now) refl
  where
    go :
        (x : Bool)
        → w.dropped ≡ x
        → (y : Bool) → leb deadline w.now ≡ y
        → (let r : Outcome ℕ × World =
              if x
              then (raised cancelled, w)
              else if y
              then (raised timed_out, w)
              else (ok (deadline - w.now), w) in
            Decided deadline (continue r k))
    go true e y f = inr (inl refl)
    go false e true f = inr (inr refl)
    go false e false f = n e (ground (arith, f))

module _ (env : ℕ → Answer) where
  acquire-Decided :
      ((n : ℕ) → (env n).acquired ≡ false → 1 ≤ (env n).elapsed)
      → (deadline fuel : ℕ) (w : World) → deadline - w.now < fuel
      → Decided deadline (acquire env deadline fuel w)
  unfolding acquire pass
  acquire-Decided slow deadline zero w h = absurd (omega (arith, h))
  acquire-Decided slow deadline (suc fuel) w h =
      left-Decided deadline w
        (λ left v.
          if (env v.calls).acquired
          then continue (remaining deadline (pass (env v.calls) v)) (λ left' u. (ok tt, u))
          else acquire env deadline fuel (pass (env v.calls) v))
        (λ e l.
          go (env w.calls).acquired refl l
            (λ x. acquire-Decided slow deadline fuel (pass (env w.calls) w) x))
    where
      go :
          (a : Bool)
          → (env w.calls).acquired ≡ a
          → w.now < deadline
          → (deadline - (w.now + (env w.calls).elapsed) < fuel
              → Decided deadline (acquire env deadline fuel (pass (env w.calls) w)))
          → (let r : Outcome (Unit {0}) × World =
                if a
                then continue (remaining deadline (pass (env w.calls) w)) (λ left' u. (ok tt, u))
                else acquire env deadline fuel (pass (env w.calls) w) in
              Decided deadline r)
      go true e l n =
          left-Decided deadline (pass (env w.calls) w) (λ left' u. (ok tt, u))
            (λ d m. inl (refl, d, m))
      go false e l n = n (omega (arith, slow w.calls e, l, h))

  -- If an attempt that does not get the lock takes some time, then waiting for it within a budget
  -- ends, with the fuel that `serialized` gives: with the lock, before the deadline and while the
  -- operation is not cancelled, or with BudgetCancelled or TimeoutError.
  pub serialized-Decided :
      (deadline : ℕ) (w : World)
      → ((n : ℕ) → (env n).acquired ≡ false → 1 ≤ (env n).elapsed)
      → w.deadline ≡ some deadline
      → Decided deadline (serialized env w)
  unfolding serialized acquire pass
  serialized-Decided deadline w slow e =
      subst (λ o. Decided deadline (locked env o w)) (sym e)
        (acquire-Decided slow deadline (suc (deadline - w.now)) w (omega arith))
