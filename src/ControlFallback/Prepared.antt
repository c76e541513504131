-- ===== src/ControlFallback/Prepared.antt =====
-- A preflight is never silent about a control that has no route.
use goodwe_wallbox_sems_home.Prelude.{
  refl, ℕ, ◌≡◌, ap, ◌⊎◌, inl, inr, Bool, true, false, not, ◌||◌, Option, none, some, List, ◌∷◌,
  if◌then◌else◌, arith, ◌≢◌, ltb,
}
use goodwe_wallbox_sems_home.ControlFallback.State.{
  stuck, Failure, superseded, cancelled, authentication, identity, unavailable, other, Answer,
  Entry, handed, World, Outcome, ok, raised, continue, await, pass, replied, Owner, verified,
}
use goodwe_wallbox_sems_home.ControlFallback.Prepare.{
  check, hand, attempt, prepare, confirmed, route, preflight, cleared, read_as, ended,
}
use goodwe_wallbox_sems_home.ControlFallback.Handed.{Begun, H, checked, hand-H}
use goodwe_wallbox_sems_home.ControlFallback.Awaits.{await-then}

-- The owner answers over TCP.
abbrev pub is_local : Owner → Bool
is_local o = not (o.closed || (not o.local || (not o.last_update_success || not o.available)))

-- A route that was verified: the configuration of the cloud came for this wallbox, or TCP answers
-- after a handover.
abbrev pub Routed : Option Bool → List Entry → World → Type 0
Routed configuration old w =
    ((configuration ≡ some true) × (w.log ≡ old))
    ⊎ ((w.log ≡ handed ∷ old) × (is_local w.shared.owner ≡ true))

module _ (env : ℕ → Answer) (old : List Entry) where
  -- What an attempt comes to: an exception, or a verified route.
  abbrev T : Option Bool → Outcome (Unit {0}) × World → Type 0
  T c r = Begun old r.1 × ((r.0 ≢ ok tt) ⊎ Routed c old r.1)

  failing : (c : Option Bool) (f : Failure) (w : World) → Begun old w → T c (raised f, w)
  failing c f w b = (b, inl (λ e. ground (arith, e)))

  confirmed-T : (c : Option Bool) (w : World) → w.log ≡ handed ∷ old → T c (confirmed env w)
  unfolding verified
  confirmed-T c w e =
      go (o.closed || (not o.local || (not o.last_update_success || not o.available))) refl
    where
      o : Owner
      o = w.shared.owner

      go :
          (x : Bool)
          → (o.closed || (not o.local || (not o.last_update_success || not o.available))) ≡ x
          → (let r : Outcome (Unit {0}) × World =
                if x then (raised unavailable, w) else (ok tt, verified w) in
              T c r)
      go true f = failing c unavailable w (inr e)
      go false f = (inr e, inr (inr (e, ap not f)))

  handed-T :
      (c : Option Bool) (r : Outcome (Unit {0}) × World)
      → H env old r
      → T c (continue r (λ u v. continue (await env v) (λ a v'. confirmed env v')))
  unfolding await verified pass
  handed-T c (ok u, w) h =
      await-then env (T c) w (λ a v'. confirmed env v')
        (λ f. failing c f (pass (env w.awaits) w) (inr (h.1 refl)))
        (confirmed-T c (pass (env w.awaits) w) (h.1 refl))
  handed-T c (raised f, w) h = failing c f w h.0
  handed-T c (stuck, w) h = (h.0, inl (λ e. ground (arith, e)))

  route-T :
      (epoch rounds : ℕ) (c : Option Bool) (w : World)
      → w.log ≡ old
      → T c (route env epoch rounds c w)
  unfolding hand await verified
  route-T epoch rounds (some true) w e = (inl e, inr (inl (refl, e)))
  route-T epoch rounds (some false) w e = failing (some false) other w (inl e)
  route-T epoch rounds none w e = go (ltb w.now w.shared.fallback.next_attempt)
    where
      go :
          (x : Bool)
          → (let r : Outcome (Unit {0}) × World =
                if x
                then (raised unavailable, w)
                else continue
                    (hand env epoch rounds w)
                    (λ u v. continue (await env v) (λ a v'. confirmed env v')) in
              T none r)
      go true = failing none unavailable w (inl e)
      go false = handed-T none (hand env epoch rounds w) (hand-H env old epoch rounds w e)

  attempt-T :
      (epoch rounds : ℕ) (w : World)
      → w.log ≡ old
      → T (env w.awaits).configuration (attempt env epoch rounds w)
  unfolding attempt preflight check hand await verified pass
  attempt-T epoch rounds w e = go (env w.awaits).failure
    where
      c : Option Bool
      c = (env w.awaits).configuration

      v : World
      v = pass (env w.awaits) w

      weaken : (r : Outcome (Unit {0}) × World) → T none r → T c r
      weaken r (b, inl n) = (b, inl n)
      weaken r (b, inr (inl (n, l))) = absurd (ground (arith, n))
      weaken r (b, inr (inr t)) = (b, inr (inr t))

      then_route :
          (o : Option Bool) (u : World)
          → u.log ≡ old
          → T o (continue (check epoch u) (λ x v'. route env epoch rounds o v'))
      then_route o u h =
          checked env old (T o) epoch u (λ x v'. route env epoch rounds o v')
            (failing o unavailable u (inl h)) (route-T epoch rounds o u h)

      go :
          (o : Option Failure)
          → T c (
              continue
                (read_as env o (env w.awaits) v)
                (λ o' v'. continue (check epoch v') (λ u v''. route env epoch rounds o' v'')))
      go none = then_route c v e
      go (some authentication) = (inl e, inl (λ x. ground (arith, x)))
      go (some unavailable) =
          weaken (continue (check epoch v) (λ u v''. route env epoch rounds none v''))
            (then_route none v e)
      go (some superseded) = failing c superseded v (inl e)
      go (some cancelled) = failing c cancelled v (inl e)
      go (some identity) = failing c identity v (inl e)
      go (some other) = failing c other v (inl e)

-- A preflight task begins at most one handover, however often the wait for the lock is superseded.
-- When it ends it is not `preparing`, and either the configuration of the cloud had come for this
-- wallbox and nothing was begun, or a handover was begun and the owner answered over TCP, or the
-- failure was recorded, or the task ended with an exception.
pub prepare-Routed :
    (env : ℕ → Answer) (epoch rounds : ℕ) (w : World)
    → let r = prepare env epoch rounds w in
      (r.1.preparing ≡ false)
      × Begun w.log r.1
      × (Routed (env w.awaits).configuration w.log r.1 ⊎ ((r.1.failed ≡ true) ⊎ (r.0 ≢ ok tt)))
unfolding prepare await pass
prepare-Routed env epoch rounds w =
    go (attempt env epoch rounds w) (attempt-T env w.log epoch rounds w refl)
  where
    c : Option Bool
    c = (env w.awaits).configuration

    Good : Outcome (Unit {0}) × World → Type 0
    Good r =
        (r.1.preparing ≡ false)
        × Begun w.log r.1
        × (Routed c w.log r.1 ⊎ ((r.1.failed ≡ true) ⊎ (r.0 ≢ ok tt)))

    told :
        (v : World) (o : Option Failure)
        → Begun w.log v
        → Good (
            cleared env (
              continue
                (replied o (env v.awaits), pass (env v.awaits) (record v { failed = true }))
                (λ a u. (ok tt, u))))
    told v none b = (refl, b, inr (inl refl))
    told v (some f) b = (refl, b, inr (inl refl))

    go : (r : Outcome (Unit {0}) × World) → T env w.log c r → Good (cleared env (ended env r))
    go (ok u, v) (b, inl n) = absurd (n refl)
    go (ok u, v) (b, inr t) = (refl, b, inl t)
    go (stuck, v) (b, t) = (refl, b, inr (inr (λ e. ground (arith, e))))
    go (raised cancelled, v) (b, t) = (refl, b, inr (inr (λ e. ground (arith, e))))
    go (raised superseded, v) (b, t) = told v (env v.awaits).failure b
    go (raised authentication, v) (b, t) = told v (env v.awaits).failure b
    go (raised identity, v) (b, t) = told v (env v.awaits).failure b
    go (raised unavailable, v) (b, t) = told v (env v.awaits).failure b
    go (raised other, v) (b, t) = told v (env v.awaits).failure b
