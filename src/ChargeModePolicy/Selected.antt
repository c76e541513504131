-- ===== src/ChargeModePolicy/Selected.antt =====
-- What `async_select_mode` guarantees.
use mathlib.Core.Path.{subst}
use goodwe_wallbox_sems_home.Prelude.{
  ◌∙◌, ℕ, ◌+◌, ◌<◌, ◌≡◌, refl, inl, Bool, true, some, ◌∷◌, arith, ap,
}
use goodwe_wallbox_sems_home.Prelude.Value.{Value, int_up_to}
use goodwe_wallbox_sems_home.ChargeModePolicy.World.{
  Policy, Answer, Reply, got, configuration_unavailable, World, M, pass, from_reply, save, acquire,
  check, invalidate, continue, ◌>>◌, pass_unlocked,
}
use goodwe_wallbox_sems_home.ChargeModePolicy.Verify.{verify}
use goodwe_wallbox_sems_home.ChargeModePolicy.Settings.{fenced, select_mode, store_mode}
use goodwe_wallbox_sems_home.ChargeModePolicy.Monad.{
  Ensures, Ensures-weaken, Ensures-continue, Continues, Continues-refl, Continues-trans, IsCurrent,
  interrupt_all-Continues, check-Ensures, pass_unlocked-Persists,
}
use goodwe_wallbox_sems_home.ChargeModePolicy.Against.{WroteAtMost, IsConfirmed, Prepared}
use goodwe_wallbox_sems_home.ChargeModePolicy.Verified.{verify-IsConfirmed}

-- A run that has sent nothing yet, of an object that was `p`.
pub record IsSilent (p : Policy) (w v : World) : Type 0 where
  pub nothing_sent : v.sent ≡ w.sent
  pub policy_continues : Continues p v.policy

pub pass-IsSilent :
    (p : Policy) (a : Answer) (w v : World) → IsSilent p w v → IsSilent p w (pass a 0 v)
unfolding pass
pass-IsSilent p a w v h = record {
  nothing_sent = h.nothing_sent;
  policy_continues =
      Continues-trans p v.policy _ h.policy_continues
        (interrupt_all-Continues a.meanwhile v.policy);
}

pub save-Ensures :
    (env : ℕ → Answer) (p : Policy) (w v : World)
    → IsSilent p w v
    → Ensures (IsSilent p w) (λ (u : Unit {0}) v'. Unit {0}) (save env v)
unfolding save
save-Ensures env p w v h = go (env v.awaits).slept
  where
    v₁ : World
    v₁ =
        pass (env v.awaits) 0
          (record v { saved = (v.policy.desired_mode, v.policy.desired_power) ∷ v.saved })

    silent : IsSilent p w v₁
    silent =
        pass-IsSilent p (env v.awaits) w _
          (record { nothing_sent = h.nothing_sent; policy_continues = h.policy_continues })

    go :
        (r : Reply (Unit {0}))
        → Ensures (IsSilent p w) (λ (u : Unit {0}) v'. Unit {0}) (from_reply r, v₁)
    go (got u) = (silent, tt)
    go configuration_unavailable = silent
    go _ = silent

abbrev chosen : ℕ → Policy → Policy
chosen mode p = record p { desired_mode = some mode }

store_mode-Ensures :
    (env : ℕ → Answer) (mode version : ℕ) (p : Policy) (w v : World)
    → IsSilent p w v
    → Ensures
        (λ u. u.sent ≡ w.sent)
        (λ (u : Unit {0}) v'. Continues (chosen mode p) v'.policy)
        (store_mode env mode version v)
store_mode-Ensures env mode version p w v h =
    Ensures-weaken (IsSilent (chosen mode p) w) (λ u. u.sent ≡ w.sent)
      (λ (u : Unit {0}) v'. Unit {0}) (λ (u : Unit {0}) v'. Continues (chosen mode p) v'.policy)
      (store_mode env mode version v)
      (Ensures-continue (IsSilent (chosen mode p) w) (λ (u : Unit {0}) v'. Unit {0})
        (λ (u : Unit {0}) v'. Unit {0}) (save env v₁) (λ _. check version)
        (save-Ensures env (chosen mode p) w v₁ (record {
          nothing_sent = h.nothing_sent;
          policy_continues = ground (arith, h.policy_continues);
        }))
        λ u v' h' t.
          Ensures-weaken (IsSilent (chosen mode p) w) (IsSilent (chosen mode p) w)
            (λ (u : Unit {0}) v''. (v'' ≡ v') × IsCurrent version v'')
            (λ (u : Unit {0}) v''. Unit {0}) (check version v')
            (check-Ensures (IsSilent (chosen mode p) w) version v' h') (λ v'' k. k)
            (λ u v'' k c. tt))
      (λ v' k. k.nothing_sent) (λ u v' k t. k.policy_continues)
  where
    v₁ : World
    v₁ = record v { policy = chosen mode v.policy }

-- `fenced` runs its body at the new version, on an object that nothing newer has superseded.
fenced-Ensures :
    {A : Type 0} (env : ℕ → Answer) (cancel : Bool) (body : ℕ → M A) (R : World → Type 0)
    (Q : A → World → Type 0) (w : World)
    → ((v : World) → v.sent ≡ w.sent → R v)
    → ((v : World)
        → v.sent ≡ w.sent
        → v.policy.interval ≡ w.policy.interval
        → Ensures R Q (body (invalidate cancel w.policy).version v))
    → Ensures R Q (fenced env cancel body w)
unfolding fenced acquire
fenced-Ensures {A} env cancel body R Q w h f = go (env w.awaits).slept
  where
    version : ℕ
    version = (invalidate cancel w.policy).version

    w₀ : World
    w₀ = record w { policy = invalidate cancel w.policy }

    w₁ : World
    w₁ = pass_unlocked (env w.awaits) w₀

    silent : w₁.sent ≡ w.sent
    silent = unfold pass_unlocked pass in refl

    same_interval : w₁.policy.interval ≡ w.policy.interval
    same_interval =
        (pass_unlocked-Persists (env w.awaits) w₀).same_interval ∙ (unfold invalidate in refl)

    entered : Ensures R Q (continue (check version w₁) (λ _. body version))
    entered =
        Ensures-continue R (λ (u : Unit {0}) v. (v ≡ w₁) × IsCurrent version v) Q (check version w₁)
          (λ _. body version) (check-Ensures R version w₁ (h w₁ silent))
          λ u v r c.
            f v (ap World.sent c.0 ∙ silent) (ap (λ x. x.policy.interval) c.0 ∙ same_interval)

    go :
        (r : Reply (Unit {0}))
        → Ensures R Q
            (continue (from_reply r, w₁) (λ _ v. continue (check version v) (λ _. body version)))
    go (got u) = entered
    go configuration_unavailable = h w₁ silent
    go _ = h w₁ silent

select_mode-valid :
    (env : ℕ → Answer) (value : Value) (mode : ℕ)
    → int_up_to 2 value ≡ some mode
    → select_mode env value
      ≡ fenced env true
          (λ version. store_mode env mode version >> verify env version (some mode) true)
unfolding select_mode
select_mode-valid env value mode h = rw (select_mode, h)

-- With a polling interval of 1 ms or more, a selection of a mode ends. It sends at most one
-- command, a mode write. When it returns, its mode is the one to keep, the last read has seen the
-- wallbox in it, at the desired power where the mode preserves it, and no request that came later
-- has superseded the selection.
pub select_mode-IsConfirmed :
    (env : ℕ → Answer) (value : Value) (mode : ℕ) (w : World)
    → int_up_to 2 value ≡ some mode
    → 0 < w.policy.interval
    → Ensures
        (λ v. WroteAtMost w.sent v.sent)
        (λ charging v.
          IsConfirmed env (w.policy.version + 1) (some mode) true charging v
          × (v.policy.desired_mode ≡ some mode))
        (select_mode env value w)
unfolding invalidate
select_mode-IsConfirmed env value mode w valid pace = rw (select_mode-valid env value mode valid) (
    fenced-Ensures env true
      (λ version. store_mode env mode version >> verify env version (some mode) true) R Q w
      (λ v h. inl h)
      λ v h same.
        Ensures-continue R
          (λ (u : Unit {0}) v'. Continues (chosen mode v.policy) v'.policy × (v'.sent ≡ w.sent)) Q
          (store_mode env mode version v) _
          (Ensures-weaken (λ u. u.sent ≡ w.sent) R _ _ (store_mode env mode version v)
            (store_mode-Ensures env mode version v.policy w v
              (record { nothing_sent = h; policy_continues = Continues-refl v.policy }))
            (λ v' e. inl e) (λ u v' e c. (c, e)))
          λ u v' r k.
            Ensures-weaken (Prepared v'.now v'.policy v'.sent) R
              (IsConfirmed env version (some mode) true) Q (verify env version (some mode) true v')
              (verify-IsConfirmed env version (some mode) true v' (ground (arith, pace, k, same)))
              (λ v'' d. subst (λ s. WroteAtMost s v''.sent) k.1 d.wrote)
              λ charging v'' d c.
                (c, cc (d.policy_continues.same_desired_mode, k.0.same_desired_mode)))
  where
    version : ℕ
    version = w.policy.version + 1

    R : World → Type 0
    R v = WroteAtMost w.sent v.sent

    Q : Bool → World → Type 0
    Q charging v =
        IsConfirmed env (w.policy.version + 1) (some mode) true charging v
        × (v.policy.desired_mode ≡ some mode)
