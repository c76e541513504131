-- ===== src/ControlFallback/Handed.antt =====
-- The handover of a preflight begins once at most.
use goodwe_wallbox_sems_home.Prelude.{
  refl, ℕ, zero, suc, ◌≡◌, ap, ◌⊎◌, inl, inr, Bool, true, false, Option, none, some, List, ◌∷◌,
  if◌then◌else◌, arith, ◌∙◌,
}
use goodwe_wallbox_sems_home.ControlFallback.State.{
  stuck, Failure, superseded, cancelled, authentication, identity, unavailable, other, Answer,
  Entry, handed, World, Outcome, ok, raised, M, continue, await, set_local, pass,
}
use goodwe_wallbox_sems_home.ControlFallback.Prepare.{
  check, is_current, handover, released, locked, setting_write, retried, hand, Try,
}
use goodwe_wallbox_sems_home.ControlFallback.Awaits.{await-then, set_local-then}

-- At most one handover was begun.
abbrev pub Begun : List Entry → World → Type 0
Begun old w = (w.log ≡ old) ⊎ (w.log ≡ handed ∷ old)

module _ (env : ℕ → Answer) (old : List Entry) where
  -- A handover either raises, begun or not, or was begun.
  abbrev pub H : Outcome (Unit {0}) × World → Type 0
  H r = Begun old r.1 × (r.0 ≡ ok tt → r.1.log ≡ handed ∷ old)

  pub raising : (f : Failure) (w : World) → Begun old w → H (raised f, w)
  raising f w b = (b, λ e. absurd (ground (arith, e)))

  pub checked :
      {A : Type 0} (R : Outcome A × World → Type 0) (epoch : ℕ) (w : World) (k : Unit {0} → M A)
      → R (raised unavailable, w)
      → R (k tt w)
      → R (continue (check epoch w) k)
  unfolding check
  checked R epoch w k h n = go (is_current epoch w)
    where
      go :
          (x : Bool)
          → (let r : Outcome (Unit {0}) × World =
                if x then (ok tt, w) else (raised unavailable, w) in
              R (continue r k))
      go true = n
      go false = h

  -- What a try comes to; as long as it has not started, nothing was handed over.
  abbrev TryH : Try env → Type 0
  TryH (started, r) = H r × (started ≡ false → r.1.log ≡ old)

  handover-TryH : (epoch : ℕ) (w : World) → w.log ≡ old → TryH (handover env epoch w)
  unfolding handover
  handover-TryH epoch w e = go (is_current epoch w)
    where
      l : handed ∷ w.log ≡ handed ∷ old
      l = ap (◌∷◌ handed) e

      go :
          (x : Bool)
          → (let t : Bool × (Outcome (Unit {0}) × World) =
                if x
                then (true, continue (set_local env w) (λ a v. (ok tt, v)))
                else (false, (raised unavailable, w)) in
              TryH t)
      go true = (
        set_local-then env H w (λ a v. (ok tt, v)) (λ f v h. raising f v (inr (h ∙ l)))
            (λ a v h. (inr (h ∙ l), λ x. h ∙ l)),
        λ x. absurd (ground (arith, x)),
      )
      go false = (raising unavailable w (inl e), λ x. e)

  released-H :
      (r : Outcome (Unit {0}) × World)
      → H r
      → H (continue r (λ u v. continue (await env v) (λ a v'. (ok tt, v'))))
  unfolding await pass
  released-H (ok u, v) h =
      await-then env H v (λ a v'. (ok tt, v')) (λ f. raising f (pass (env v.awaits) v) h.0)
        (h.0, λ x. h.1 refl)
  released-H (raised f, v) h = raising f v h.0
  released-H (stuck, v) h = (h.0, λ x. absurd (ground (arith, x)))

  done : Answer → World → Outcome (Unit {0}) × World
  done a v = (ok tt, v)

  released-log :
      (r : Outcome (Unit {0}) × World)
      → r.1.log ≡ old
      → (continue r (λ u v. continue (await env v) (λ a v'. done a v'))).1.log ≡ old
  unfolding await pass done
  released-log (ok u, v) e = await-then env (λ q. q.1.log ≡ old) v (λ a v'. (ok tt, v')) (λ f. e) e
  released-log (raised f, v) e = e
  released-log (stuck, v) e = e

  setting_write-TryH : (epoch : ℕ) (w : World) → w.log ≡ old → TryH (setting_write env epoch w)
  unfolding setting_write pass done
  setting_write-TryH epoch w e = go (env w.awaits).failure
    where
      v : World
      v = pass (env w.awaits) w

      left : (t : Try env) → TryH t → TryH (released env t)
      left (started, r) (h, k) = (released-H r h, λ x. released-log r (k x))

      go : (o : Option Failure) → TryH (locked env epoch o v)
      go none = left (handover env epoch v) (handover-TryH epoch v e)
      go (some f) = (raising f v (inl e), λ x. e)

  retried-H :
      (t : Try env) (again : Outcome (Unit {0}) × World)
      → TryH t
      → (t.0 ≡ false → H again)
      → H (retried env t again)
  retried-H (true, (raised superseded, w)) again h n = h.0
  retried-H (false, (raised superseded, w)) again h n = go w.shared.policy_closed
    where
      go :
          (x : Bool)
          → (let r : Outcome (Unit {0}) × World = if x then (raised superseded, w) else again in
              H r)
      go true = h.0
      go false = n refl
  retried-H (started, (ok u, w)) again h n = h.0
  retried-H (started, (stuck, w)) again h n = h.0
  retried-H (started, (raised cancelled, w)) again h n = h.0
  retried-H (started, (raised authentication, w)) again h n = h.0
  retried-H (started, (raised identity, w)) again h n = h.0
  retried-H (started, (raised unavailable, w)) again h n = h.0
  retried-H (started, (raised other, w)) again h n = h.0

  pub hand-H : (epoch rounds : ℕ) (w : World) → w.log ≡ old → H (hand env epoch rounds w)
  unfolding hand pass
  hand-H epoch zero w e = raising unavailable w (inl e)
  hand-H epoch (suc rounds) w e =
      checked H epoch w
        (λ u v.
          let t = setting_write env epoch v in
          let again = continue (await env t.1.1) (λ a v'. hand env epoch rounds v') in
          retried env t again)
        (raising unavailable w (inl e))
        (retried-H t (continue (await env t.1.1) (λ a v'. hand env epoch rounds v')) h (λ n.
          await-then env H t.1.1 (λ a v'. hand env epoch rounds v')
            (λ f. raising f (pass (env t.1.1.awaits) t.1.1) (inl (h.1 n)))
            (hand-H epoch rounds (pass (env t.1.1.awaits) t.1.1) (h.1 n))))
    where
      t : Try env
      t = setting_write env epoch w

      h : TryH t
      h = setting_write-TryH epoch w e
