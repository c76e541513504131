-- ===== src/ControlFallback/Awaits.antt =====
-- Reasoning about awaits: what holds for each outcome holds for the await.
use goodwe_wallbox_sems_home.Prelude.{ℕ, suc, ◌≡◌, refl, Option, none, some, ◌∷◌}
use goodwe_wallbox_sems_home.ControlFallback.State.{
  Failure, Answer, handed, World, Outcome, raised, M, continue, await, log_entry, begin_handover,
  set_local, pass, replied,
}

module _ (env : ℕ → Answer) where
  pub await-then :
      {A : Type 0} (Q : Outcome A × World → Type 0) (w : World) (k : Answer → M A)
      → ((f : Failure) → Q (raised f, pass (env w.awaits) w))
      → Q (k (env w.awaits) (pass (env w.awaits) w))
      → Q (continue (await env w) k)
  unfolding await
  await-then Q w k h n = go (env w.awaits).failure
    where
      go : (o : Option Failure) → Q (continue (replied o (env w.awaits), pass (env w.awaits) w) k)
      go none = n
      go (some f) = h f

  pub set_local-then :
      {A : Type 0} (Q : Outcome A × World → Type 0) (w : World) (k : Answer → M A)
      → ((f : Failure) (v : World) → v.log ≡ handed ∷ w.log → Q (raised f, v))
      → ((a : Answer) (v : World) → v.log ≡ handed ∷ w.log → Q (k a v))
      → Q (continue (set_local env w) k)
  unfolding set_local await begin_handover log_entry pass
  set_local-then Q w k h n = go (env w.awaits).failure
    where
      v : World
      v = pass (env w.awaits) (begin_handover w)

      second :
          (p : Option Failure)
          → (let s : Outcome Answer × World =
                (replied p (env (suc w.awaits)), pass (env (suc w.awaits)) v) in
              Q (continue s k))
      second (some f) = h f (pass (env (suc w.awaits)) v) refl
      second none = n (env (suc w.awaits)) (pass (env (suc w.awaits)) v) refl

      go :
          (o : Option Failure)
          → (let r : Outcome Answer × World = (replied o (env w.awaits), v) in
              Q (continue (continue r (λ a u. await env u)) k))
      go (some f) = h f v refl
      go none = second (env (suc w.awaits)).failure
