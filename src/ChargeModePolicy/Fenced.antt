-- ===== src/ChargeModePolicy/Fenced.antt =====
-- What `async_setting_write` guarantees of the write that it serialises.
use goodwe_wallbox_sems_home.Prelude.{
  none, ℕ, ◌+◌, ◌≡◌, ◌⊎◌, inl, inr, refl, Bool, false, Option, some, if◌then◌else◌, sym,
}
use goodwe_wallbox_sems_home.ChargeModePolicy.World.{
  Reply, got, configuration_unavailable, budget_cancelled, request_superseded, timed_out,
  other_error, unavailable, cancelled, superseded, time_out, other, Policy, Answer, World, M,
  Outcome, ok, fail, stuck, Failure, pass, save, acquire, check, invalidate, continue, pure, ◌>>◌,
  pass_unlocked, Reply, from_reply, got, unavailable,
}
use goodwe_wallbox_sems_home.ChargeModePolicy.Verify.{run_budgeted, budgeted_result, set_budget}
use goodwe_wallbox_sems_home.ChargeModePolicy.Settings.{
  apply_setting, write_setting, override, has_intent, marked, either_request, is_none,
  clear_request,
}
use goodwe_wallbox_sems_home.ChargeModePolicy.Monad.{
  Ensures, Ensures-continue, Ensures-branch, Ensures-weaken, Continues-refl, IsCurrent,
  check-Ensures,
}
use goodwe_wallbox_sems_home.ChargeModePolicy.Selected.{IsSilent, save-Ensures}

-- The world in which a write runs: nothing has superseded it, the mode and the power that it
-- implies, if any, are the ones to keep, and nothing was sent before it.
pub record IsAdmitted (version : ℕ) (mode power : Option ℕ) (w v : World) : Type 0 where
  pub current : IsCurrent version v
  pub mode_kept : override mode v.policy.desired_mode ≡ v.policy.desired_mode
  pub power_kept : override power v.policy.desired_power ≡ v.policy.desired_power
  pub nothing_sent : v.sent ≡ w.sent

-- A write either does not run, and the operation fails with nothing sent, or it runs once, and the
-- operation comes to what it comes to.
abbrev pub RunsFenced : M Bool → (World → Type 0) → World → Outcome Bool × World → Type 0
RunsFenced operation Admitted w r =
    ((f : Failure) × (r.0 ≡ fail f) × (r.1.sent ≡ w.sent))
    ⊎ ((v : World) × Admitted v
        × (r.0 ≡ budgeted_result (operation (set_budget (some false) v)).0)
        × (r.1.sent ≡ (operation (set_budget (some false) v)).1.sent))

module _ (operation : M Bool) (Admitted : World → Type 0) (w : World) where
  RunsFenced-continue :
      {A : Type 0} (R : World → Type 0) (P : A → World → Type 0) (r : Outcome A × World)
      (k : A → M Bool)
      → Ensures R P r
      → ((v : World) → R v → v.sent ≡ w.sent)
      → ((a : A) (v : World) → R v → P a v → RunsFenced operation Admitted w (k a v))
      → RunsFenced operation Admitted w (continue r k)
  RunsFenced-continue R P (ok a, v) k h f g = g a v h.0 h.1
  RunsFenced-continue R P (fail e, v) k h f g = inl (e, refl, f v h)
  RunsFenced-continue R P (stuck, v) k h f g = absurd h

  RunsFenced-run :
      (v : World) → Admitted v → RunsFenced operation Admitted w (run_budgeted operation v)
  unfolding run_budgeted
  RunsFenced-run v a = inr (v, a, refl, refl)

overriding : (new old now : Option ℕ) → now ≡ override new old → override new now ≡ now
overriding none old now e = refl
overriding (some n) old now e = sym e

apply_setting-RunsFenced :
    (env : ℕ → Answer) (operation : M Bool) (mode power : Option ℕ) (version : ℕ) (p : Policy)
    (w v : World)
    → IsSilent p w v
    → RunsFenced operation
        (IsAdmitted version mode power w)
        w
        (apply_setting env operation mode power version v)
unfolding apply_setting
apply_setting-RunsFenced env operation mode power version p w v h =
    RunsFenced-continue operation Admitted w (IsSilent p w)
      (λ (u : Unit {0}) v₁. (v₁ ≡ v) × IsCurrent version v₁) (check version v) _
      (check-Ensures (IsSilent p w) version v h) (λ v₁ k. k.nothing_sent)
      λ u v₁ k c.
        RunsFenced-continue operation Admitted w (IsSilent q w)
          (λ (u : Unit {0}) v₂. IsCurrent version v₂)
          ((if has_intent mode power then (save env >> check version) else pure tt) (taken v₁)) _
          (Ensures-branch (IsSilent q w) (λ (u : Unit {0}) v₂. IsCurrent version v₂)
            (has_intent mode power) (save env >> check version) (pure tt) (taken v₁)
            (λ b.
              Ensures-continue (IsSilent q w) (λ (u : Unit {0}) v₂. Unit {0})
                (λ (u : Unit {0}) v₂. IsCurrent version v₂) (save env (taken v₁))
                (λ u. check version) (save-Ensures env q w (taken v₁) (silent v₁ k))
                λ u v₂ l t.
                  Ensures-weaken (IsSilent q w) (IsSilent q w)
                    (λ (u : Unit {0}) v₃. (v₃ ≡ v₂) × IsCurrent version v₃)
                    (λ (u : Unit {0}) v₃. IsCurrent version v₃) (check version v₂)
                    (check-Ensures (IsSilent q w) version v₂ l) (λ v₃ m. m) (λ u v₃ m d. d.1))
            (λ b. (silent v₁ k, c.1)))
          (λ v₂ l. l.nothing_sent)
          λ u v₂ l d. RunsFenced-run operation Admitted w v₂ (record {
            current = d;
            mode_kept =
                overriding mode p.desired_mode v₂.policy.desired_mode
                  l.policy_continues.same_desired_mode;
            power_kept =
                overriding power p.desired_power v₂.policy.desired_power
                  l.policy_continues.same_desired_power;
            nothing_sent = l.nothing_sent;
          })
  where
    Admitted : World → Type 0
    Admitted = IsAdmitted version mode power w

    with_intent : Policy → Policy
    with_intent p = record p {
      desired_mode = override mode p.desired_mode;
      desired_power = override power p.desired_power;
    }

    q : Policy
    q = with_intent p

    taken : World → World
    taken v = record v { policy = with_intent v.policy }

    silent : (v₁ : World) → IsSilent p w v₁ → IsSilent q w (taken v₁)
    silent v₁ k = record {
      nothing_sent = k.nothing_sent;
      policy_continues = record {
        same_timeout = k.policy_continues.same_timeout;
        same_interval = k.policy_continues.same_interval;
        same_desired_mode = cc (k.policy_continues.same_desired_mode);
        same_desired_power = cc (k.policy_continues.same_desired_power);
        same_remember = k.policy_continues.same_remember;
        same_preserves = k.policy_continues.same_preserves;
        version_grows = k.policy_continues.version_grows;
        intent_grows = k.policy_continues.intent_grows;
        intent_needs_version = k.policy_continues.intent_needs_version;
        stays_closed = k.policy_continues.stays_closed;
      };
    }

pub write_setting-RunsFenced :
    (env : ℕ → Answer) (operation : M Bool) (mode power : Option ℕ) (w : World)
    → RunsFenced operation
        (IsAdmitted (w.policy.version + 1) mode power w)
        w
        (write_setting env operation mode power w)
unfolding write_setting invalidate acquire
write_setting-RunsFenced env operation mode power w = go (env w.awaits).slept
  where
    version : ℕ
    version = w.policy.version + 1

    Admitted : World → Type 0
    Admitted = IsAdmitted version mode power w

    invalidated : Policy
    invalidated = invalidate (is_none env operation mode power power) w.policy

    marker : Option (ℕ × ℕ)
    marker = marked env operation mode power power invalidated.version

    w₁ : World
    w₁ = pass_unlocked (env w.awaits) (record w {
      policy = record invalidated {
        pending_power_request =
            either_request env operation mode power marker invalidated.pending_power_request;
      };
    })

    silent : w₁.sent ≡ w.sent
    silent = unfold pass_unlocked pass in refl

    cleared : World → World
    cleared v = record v {
      policy = record v.policy {
        pending_power_request =
            clear_request env operation mode power marker v.policy.pending_power_request;
      };
    }

    ended :
        (r : Outcome Bool × World)
        → RunsFenced operation Admitted w r
        → RunsFenced operation Admitted w (r.0, cleared r.1)
    ended r h = h

    go :
        (r : Reply (Unit {0}))
        → (let s : Outcome Bool × World =
              continue (from_reply r, w₁) (λ _. apply_setting env operation mode power version) in
            RunsFenced operation Admitted w (s.0, cleared s.1))
    go (got u) = ended (apply_setting env operation mode power version w₁) (
        apply_setting-RunsFenced env operation mode power version w₁.policy w w₁
          (record { nothing_sent = silent; policy_continues = Continues-refl w₁.policy }))
    go configuration_unavailable = inl (unavailable, refl, silent)
    go budget_cancelled = inl (cancelled, refl, silent)
    go request_superseded = inl (superseded, refl, silent)
    go timed_out = inl (time_out, refl, silent)
    go other_error = inl (other, refl, silent)
