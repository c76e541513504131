-- ===== src/Endpoint/Restored.antt =====
-- Giving Socket A back: a restore that nothing disturbs returns.
use mathlib.Core.Path.{subst}
use goodwe_wallbox_sems_home.Prelude.{ℕ, true, false, ◌≡◌, refl, sym, ◌⊎◌, arith, none, some, suc}
use goodwe_wallbox_sems_home.Endpoint.Address.{check_endpoint}
use goodwe_wallbox_sems_home.Endpoint.Device.{Outcome, ok, timed_out, failed, Wallbox, change}
use goodwe_wallbox_sems_home.Endpoint.Manager.{
  World, Answer, async_restore, io, Journal, save, restore_from,
}
use goodwe_wallbox_sems_home.Endpoint.Confirmed.{change-Ends}
use goodwe_wallbox_sems_home.Endpoint.Cooperative.{IsCooperative, change-Total}

module _ {D : Type 0} (b : Wallbox D) (env : ℕ → Answer) where
  -- When the wallbox answers, nothing is cancelled and the store works, `async_restore` with a
  -- journal whose original is a valid endpoint returns, provided that Socket A still is the local
  -- or the original endpoint: then Socket A is the original, and both journals are gone.
  pub restore-completes :
      (j : Journal) (w : World D)
      → IsCooperative b
      → ((n : ℕ) → ((env n).cancelled ≡ false) × ((env n).kept ≡ true) × ((env n).raised ≡ false))
      → w.manager.journal ≡ some j
      → check_endpoint j.original ≡ true
      → (b.socket_a w.device ≡ w.manager.local) ⊎ (b.socket_a w.device ≡ j.original)
      → let r = async_restore b env w in
        (r.0 ≡ ok tt)
        × (b.socket_a r.1.device ≡ j.original)
        × (r.1.store ≡ none)
        × (r.1.manager.journal ≡ none)
  unfolding async_restore io save
  restore-completes j w co calm e v o =
      subst
        (λ l.
          let r = restore_from b env l w in
          (r.0 ≡ ok tt)
          × (b.socket_a r.1.device ≡ j.original)
          × (r.1.store ≡ none)
          × (r.1.manager.journal ≡ none))
        (sym e)
        (go (change b w.manager.local j.original w.device) refl total
          (change-Ends b w.manager.local j.original w.device tt total))
    where
      total : (change b w.manager.local j.original w.device).0 ≡ ok tt
      total = change-Total b co w.manager.local j.original w.device v o

      go :
          (s : Outcome (Unit {0}) × D)
          → change b w.manager.local j.original w.device ≡ s
          → s.0 ≡ ok tt
          → b.socket_a s.1 ≡ j.original
          → (let r = restore_from b env (some j) w in
              (r.0 ≡ ok tt)
              × (b.socket_a r.1.device ≡ j.original)
              × (r.1.store ≡ none)
              × (r.1.manager.journal ≡ none))
      go (ok u, d) f g h = rw f (
          rw ((calm w.awaits).0)
            (rw ((calm (suc w.awaits)).1) (rw ((calm (suc w.awaits)).2) (refl, h, refl, refl))))
      go (timed_out, d) f g h = absurd (ground (arith, g))
      go (failed, d) f g h = absurd (ground (arith, g))
