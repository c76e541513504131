-- ===== src/ChargeModePolicy/Verified.antt =====
-- What a verification of ChargeModePolicy guarantees.
use mathlib.Core.Path.{subst}
use goodwe_wallbox_sems_home.Prelude.{
  ℕ, ◌+◌, ◌≤◌, ◌<◌, ◌≡◌, refl, sym, Bool, false, not, Option, none, some, List, arith, leb,
}
use goodwe_wallbox_sems_home.ChargeModePolicy.World.{
  cancelled, time_out, verification, unavailable, Policy, Answer, World, M, Outcome, ok, fail,
  stuck, check, read, Command, verification,
}
use goodwe_wallbox_sems_home.ChargeModePolicy.Verify.{
  set_budget, budgeted_result, verify_inner, run_budgeted, verify, mode_of, preparation,
}
use goodwe_wallbox_sems_home.ChargeModePolicy.Monad.{
  Continues-refl, Ensures, Ensures-continue, Ensures-branch, Ensures-weaken, Keeps, IsCurrent,
  HasRead, check-Ensures, read-Ensures, Continues,
}
use goodwe_wallbox_sems_home.ChargeModePolicy.Against.{
  Prepared, IsConfirmed, Keeps-Prepared, verify_against-Ensures,
}

preparation-Ensures :
    {A : Type 0} (R : World → Type 0) (Q : A → World → Type 0) (r : Outcome A × World)
    → Ensures R Q r
    → Ensures R Q (preparation r)
preparation-Ensures R Q (fail unavailable, w) h = h
preparation-Ensures R Q (ok a, w) h = h
preparation-Ensures R Q _ h = h

module _ (env : ℕ → Answer) (version : ℕ) (since : ℕ) (p : Policy) (s : List Command) where
  verify_inner-Ensures :
      (target : Option ℕ) (allow : Bool) (w : World)
      → 0 < p.interval
      → Keeps since p s w
      → Ensures
          (Prepared since p s)
          (IsConfirmed env version target allow)
          (verify_inner env version target allow w)
  unfolding verify_inner
  verify_inner-Ensures target allow w pace k =
      Ensures-continue R (λ (u : Unit {0}) w₁. (w₁ ≡ w) × IsCurrent version w₁) Q (check version w)
        _ (check-Ensures R version w (Keeps-Prepared env version since p s w k))
        λ u w₁ r₁ c₁.
          let k₁ : Keeps since p s w₁ = subst (Keeps since p s) (sym c₁.0) k in
          Ensures-continue R (λ o w₂. Keeps since p s w₂ × (HasRead env o w₂ × (w₁.now ≤ w₂.now))) Q
            (preparation (read env w₁)) _
            (preparation-Ensures R
              (λ o w₂. Keeps since p s w₂ × (HasRead env o w₂ × (w₁.now ≤ w₂.now))) (read env w₁)
              (Ensures-weaken (Keeps since p s) R _ _ (read env w₁)
                (read-Ensures env since p s w₁ k₁) (Keeps-Prepared env version since p s)
                λ o w₂ k₂ h. (k₂, (h.0, omega arith))))
            λ before w₂ r₂ h.
              Ensures-continue R (λ (u : Unit {0}) w₃. (w₃ ≡ w₂) × IsCurrent version w₃) Q
                (check version w₂) _ (check-Ensures R version w₂ r₂)
                λ u w₃ r₃ c₃.
                  Ensures-branch R Q (leb (w₁.now + w₁.policy.timeout) w₃.now) _ _ w₃ (λ late. r₃)
                    λ early.
                      Ensures-branch R Q (not (leb (mode_of target before) 2)) _ _ w₃ (λ bad. r₃)
                        λ valid.
                          let k₃ : Keeps since p s w₃ = subst (Keeps since p s) (sym c₃.0) h.0 in
                          let later : w₁.now ≤ w₃.now =
                            subst (λ v. w₁.now ≤ v.now) (sym c₃.0) h.1.1 in
                          verify_against-Ensures env version since p s (w₁.now + w₁.policy.timeout)
                            target allow before w₃ pace (ground arith) k₃ c₃.1
                            (subst (HasRead env before) (sym c₃.0) h.1.0)
                            (omega (arith, k₁.policy_continues, k₃.policy_continues))
    where
      R : World → Type 0
      R = Prepared since p s

      Q : Bool → World → Type 0
      Q = IsConfirmed env version target allow

run_budgeted-Ensures :
    {A : Type 0} (R : World → Type 0) (Q : A → World → Type 0) (operation : M A) (w : World)
    → Ensures R Q (operation (set_budget (some false) w))
    → ((w' : World) → R w' → R (set_budget none w'))
    → ((a : A) (w' : World) → Q a w' → Q a (set_budget none w'))
    → Ensures R Q (run_budgeted operation w)
unfolding run_budgeted
run_budgeted-Ensures {A} R Q operation w h f g = go (operation (set_budget (some false) w)) h
  where
    go :
        (r : Outcome A × World)
        → Ensures R Q r
        → Ensures R Q (budgeted_result r.0, set_budget none r.1)
    go (ok a, w') k = (f w' k.0, g a w' k.1)
    go (fail cancelled, w') k = f w' k
    go (fail time_out, w') k = f w' k
    go (fail (verification c), w') k = f w' k
    go (fail _, w') k = f w' k
    go (stuck, w') k = k

Continues-budget :
    (p q : Policy) (b c : Option Bool)
    → Continues (record p { budget = b }) q
    → Continues p (record q { budget = c })
Continues-budget p q b c h = ground (arith, h)

-- With a polling interval of 1 ms or more, and whatever the reads, writes and waits come to and
-- the other tasks do meanwhile, a verification ends. It writes at most one mode and sends no
-- Start. When it returns whether the wallbox charges, the last read has seen that, in the
-- requested mode, at the desired power where the mode preserves it, not active without charging
-- unless allowed, and nothing has superseded the request.
pub verify-IsConfirmed :
    (env : ℕ → Answer) (version : ℕ) (target : Option ℕ) (allow : Bool) (w : World)
    → 0 < w.policy.interval
    → Ensures
        (Prepared w.now w.policy w.sent)
        (IsConfirmed env version target allow)
        (verify env version target allow w)
unfolding verify run_budgeted
verify-IsConfirmed env version target allow w pace =
    run_budgeted-Ensures (Prepared w.now w.policy w.sent) (IsConfirmed env version target allow)
      (verify_inner env version target allow) w
      (Ensures-weaken (Prepared w₀.now w₀.policy w₀.sent) (Prepared w.now w.policy w.sent)
        (IsConfirmed env version target allow) (IsConfirmed env version target allow)
        (verify_inner env version target allow w₀)
        (verify_inner-Ensures env version w₀.now w₀.policy w₀.sent target allow w₀ pace (record {
          time_passes = omega arith;
          policy_continues = Continues-refl w₀.policy;
          same_sent = refl;
        }))
        (λ v r. record {
          time_passes = r.time_passes;
          policy_continues =
              Continues-budget w.policy v.policy (some false) v.policy.budget r.policy_continues;
          wrote = r.wrote;
        })
        (λ a v r q. q))
      (λ v r. record {
        time_passes = r.time_passes;
        policy_continues =
            Continues-budget w.policy v.policy w.policy.budget none r.policy_continues;
        wrote = r.wrote;
      })
      (λ a v q. record {
        current = q.current;
        seen = q.seen;
        was_read = q.was_read;
        same_charging = q.same_charging;
        mode_valid = q.mode_valid;
        mode_seen = q.mode_seen;
        power_seen = q.power_seen;
        stop_seen = q.stop_seen;
      })
  where
    w₀ : World
    w₀ = set_budget (some false) w
