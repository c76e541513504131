-- ===== src/ChargeModePolicy/Attempt.antt =====
-- One attempt of `_async_start_intent`: what it verifies before its Start.
use mathlib.Core.Path.{subst}
use goodwe_wallbox_sems_home.Prelude.{
  sym, ◌∙◌, ℕ, ◌≤◌, ◌<◌, ◌≡◌, ◌⊎◌, refl, Bool, true, false, ◌||◌, Option, none, some, List, ◌∷◌,
  arith, if◌then◌else◌, ◌==◌, inl, inr, ◌+◌,
}
use goodwe_wallbox_sems_home.ChargeModePolicy.World.{
  request_superseded, pure, raise, start_not_acknowledged, ModeObservation, Policy, Answer, Reply,
  got, configuration_unavailable, budget_cancelled, timed_out, other_error, World, M, Outcome, ok,
  fail, stuck, Failure, verification, superseded, continue, check, send_start, acquire, Command,
  write_mode, start, pass, deliver, from_reply, pass_unlocked, ◌>>=◌, ◌>>◌,
}
use goodwe_wallbox_sems_home.ChargeModePolicy.Verify.{
  verify, run_budgeted, reported_near, budgeted_result, set_budget,
}
use goodwe_wallbox_sems_home.ChargeModePolicy.Start.{
  restored_mode, is_outdated, start_after, attempt,
}
use goodwe_wallbox_sems_home.ChargeModePolicy.Monad.{
  Ensures-weaken, check-Ensures, Ensures, Continues, IsCurrent, interrupt_all-Continues, Persists,
  Persists-trans, Continues-Persists, pass_unlocked-Persists,
}
use goodwe_wallbox_sems_home.ChargeModePolicy.Against.{Prepared, IsConfirmed, WroteAtMost}
use goodwe_wallbox_sems_home.ChargeModePolicy.Verified.{verify-IsConfirmed}

-- Only mode writes were added to the commands.
pub data Writes (before : List Command) : List Command → Type 0 where
  unwritten : Writes before before
  more :
      (mode : ℕ) (power : Option ℕ) {after : List Command}
      → Writes before after
      → Writes before (write_mode mode power ∷ after)

-- A Start as it should be: the object is open, the Start is the one the user still wants, and the
-- await right before it has seen the wallbox idle, in the mode to restore and at the desired power.
-- It is sent after `awaits` awaits.
pub record IsPermitted (env : ℕ → Answer) (intent awaits : ℕ) (q : Policy) : Type 0 where
  pub still_open : q.closed ≡ false
  pub still_wanted : q.start_intent_version ≡ intent
  pub seen : ModeObservation
  pub was_read : (n : ℕ) × (awaits ≡ n + 1) × ((env n).observation ≡ got seen)
  pub seen_idle : (seen.charging ≡ false) × (seen.active ≡ false)
  pub mode_seen : (m : ℕ) → restored_mode q ≡ some m → seen.mode ≡ m
  pub power_seen :
      (power : ℕ)
      → q.desired_power ≡ some power
      → (seen.mode == 0 || q.preserves_power_all_modes) ≡ true
      → reported_near seen.power power ≡ true

-- The commands of a Start: mode writes, and at most one Start after them, a permitted one.
abbrev pub History : (ℕ → Answer) → ℕ → List Command → List Command → Type 0
History env intent before after =
    Writes before after
    ⊎ ((awaits : ℕ) × (q : Policy) × (rest : List Command) × (after ≡ start awaits q ∷ rest)
        × Writes before rest
        × IsPermitted env intent awaits q)

Persists-budget :
    (p q : Policy) (b : Option Bool) → Persists p q → Persists p (record q { budget = b })
Persists-budget p q b h = ground (arith, h)

IsPermitted-budget :
    (env : ℕ → Answer) (intent awaits : ℕ) (q : Policy) (b : Option Bool)
    → IsPermitted env intent awaits q
    → IsPermitted env intent awaits (record q { budget = b })
IsPermitted-budget env intent awaits q b h = record {
  still_open = h.still_open;
  still_wanted = h.still_wanted;
  seen = h.seen;
  was_read = h.was_read;
  seen_idle = h.seen_idle;
  mode_seen = h.mode_seen;
  power_seen = h.power_seen;
}

Writes-trans : {s t u : List Command} → Writes s t → WroteAtMost t u → Writes s u
Writes-trans {s} w (inl e) = subst (Writes s) (sym e) w
Writes-trans {s} w (inr (mode, power, e)) = subst (Writes s) (sym e) (more mode power w)

restored-Continues : (p q : Policy) → Continues p q → restored_mode p ≡ restored_mode q
restored-Continues p q h = rw (h.same_remember, h.same_desired_mode)

pub record IsDone (env : ℕ → Answer) (intent : ℕ) (p : Policy) (s : List Command) (w : World)
    : Type 0 where
  pub policy_persists : Persists p w.policy
  pub history : History env intent s w.sent

module _ (env : ℕ → Answer) (intent : ℕ) (since : ℕ) (p : Policy) (s : List Command) where
  pub record IsQuiet (w : World) : Type 0 where
    pub time_passes : since ≤ w.now
    pub policy_persists : Persists p w.policy
    pub only_writes : Writes s w.sent

  pub quiet-IsDone : (w : World) → IsQuiet w → IsDone env intent p s w
  quiet-IsDone w q = record { policy_persists = q.policy_persists; history = inl q.only_writes }

  -- What an attempt comes to: only a superseded one, which may be repeated, is sure to have sent
  -- no Start.
  abbrev pub Tried : Outcome (Unit {0}) × World → Type 0
  Tried (ok u, w) = IsDone env intent p s w
  Tried (fail superseded, w) = IsQuiet w
  Tried (fail f, w) = IsDone env intent p s w
  Tried (stuck, w) = ⊥

  quiet-Tried : (f : Failure) (w : World) → IsQuiet w → Tried (fail f, w)
  quiet-Tried superseded w q = q
  quiet-Tried (verification c) w q = quiet-IsDone w q
  quiet-Tried _ w q = quiet-IsDone w q

  Tried-continue :
      {A : Type 0} (Q : A → World → Type 0) (r : Outcome A × World) (k : A → M (Unit {0}))
      → Ensures IsQuiet Q r
      → ((a : A) (w : World) → IsQuiet w → Q a w → Tried (k a w))
      → Tried (continue r k)
  Tried-continue Q (ok a, w) k h f = f a w h.0 h.1
  Tried-continue Q (fail e, w) k h f = quiet-Tried e w h
  Tried-continue Q (stuck, w) k h f = h

  Tried-if :
      (b : Bool) (m n : M (Unit {0})) (w : World)
      → (b ≡ true → Tried (m w))
      → (b ≡ false → Tried (n w))
      → Tried ((if b then m else n) w)
  Tried-if true m n w h k = h refl
  Tried-if false m n w h k = k refl

  -- Passing an await.
  pub pass-IsQuiet : (a : Answer) (w : World) → IsQuiet w → IsQuiet (pass a 0 w)
  unfolding pass
  pass-IsQuiet a w q = record {
    time_passes = omega (arith, q.time_passes);
    policy_persists =
        Persists-trans p w.policy _ q.policy_persists
          (Continues-Persists w.policy _ (interrupt_all-Continues a.meanwhile w.policy));
    only_writes = q.only_writes;
  }

  pub pass_unlocked-IsQuiet : (a : Answer) (w : World) → IsQuiet w → IsQuiet (pass_unlocked a w)
  unfolding pass_unlocked pass
  pass_unlocked-IsQuiet a w q = record {
    time_passes = omega (arith, q.time_passes);
    policy_persists = Persists-trans p w.policy _ q.policy_persists (pass_unlocked-Persists a w);
    only_writes = q.only_writes;
  }

  -- The one Start.
  start_after-Tried :
      (already : Bool) (w : World)
      → IsQuiet w
      → (already ≡ false → IsPermitted env intent w.awaits w.policy)
      → Tried (start_after env intent already w)
  unfolding start_after run_budgeted send_start pass
  start_after-Tried true w q permitted = quiet-IsDone w q
  start_after-Tried false w q permitted = go (env w.awaits).acknowledged
    where
      a : Answer
      a = env w.awaits

      w₁ : World
      w₁ = set_budget (some false) w

      after : List Command → World
      after commands = set_budget none (pass a 0 (record w₁ { sent = commands }))

      persists : Persists p (after w.sent).policy
      persists = Persists-budget p _ none (
          Persists-trans p w₁.policy _ (Persists-budget p w.policy (some false) q.policy_persists)
            (Continues-Persists w₁.policy _ (interrupt_all-Continues a.meanwhile w₁.policy)))

      started : IsDone env intent p s (after (start w.awaits w₁.policy ∷ w.sent))
      started = record {
        policy_persists = persists;
        history = inr (
          w.awaits,
          w₁.policy,
          w.sent,
          refl,
          q.only_writes,
          IsPermitted-budget env intent w.awaits w.policy (some false) (permitted refl),
        );
      }

      withdrawn : IsQuiet (after w.sent)
      withdrawn = record {
        time_passes = omega (arith, q.time_passes);
        policy_persists = persists;
        only_writes = q.only_writes;
      }

      go :
          (r : Reply Bool)
          → Tried (
              continue
                (
                  budgeted_result (from_reply r),
                  after (deliver r (start w.awaits w₁.policy) w.sent),
                )
                (λ acknowledged.
                  if acknowledged then pure tt else raise (verification start_not_acknowledged)))
      go (got true) = started
      go (got false) = started
      go configuration_unavailable = started
      go budget_cancelled = withdrawn
      go request_superseded = withdrawn
      go timed_out = started
      go other_error = started

  Prepared-IsQuiet : (w v : World) → IsQuiet w → Prepared w.now w.policy w.sent v → IsQuiet v
  Prepared-IsQuiet w v q r = record {
    time_passes = omega (arith, q.time_passes, r.time_passes);
    policy_persists =
        Persists-trans p w.policy v.policy q.policy_persists
          (Continues-Persists w.policy v.policy r.policy_continues);
    only_writes = Writes-trans q.only_writes r.wrote;
  }

  pub attempt-Tried :
      (w : World) → 0 < p.interval → IsQuiet w → Tried (attempt env intent w.policy.version w)
  unfolding attempt acquire
  attempt-Tried w pace q = go (env w.awaits).slept
    where
      version : ℕ
      version = w.policy.version

      w₁ : World
      w₁ = pass_unlocked (env w.awaits) w

      q₁ : IsQuiet w₁
      q₁ = pass_unlocked-IsQuiet (env w.awaits) w q

      Q : Bool → World → Type 0
      Q b v =
          Continues w₁.policy v.policy × IsConfirmed env version (restored_mode w₁.policy) false b v

      permit :
          (already : Bool) (v : World)
          → IsConfirmed env version (restored_mode w₁.policy) false already v
          → Continues w₁.policy v.policy
          → intent ≡ w₁.policy.start_intent_version
          → version ≤ w₁.policy.version
          → already ≡ false
          → IsPermitted env intent v.awaits v.policy
      permit already v c k current grew idle = record {
        still_open = c.current.0;
        still_wanted = omega (arith, c.current, k);
        seen = c.seen;
        was_read = c.was_read;
        seen_idle = (cc (c.same_charging), ground (arith, c.stop_seen refl, c.same_charging));
        mode_seen = λ m e. c.mode_seen m (restored-Continues w₁.policy v.policy k ∙ e);
        power_seen = c.power_seen;
      }

      tried : Tried (
          (if is_outdated intent w₁.policy
              then raise superseded
              else (verify env version (restored_mode w₁.policy) false >>= λ already.
                  (check version >> start_after env intent already)))
            w₁)
      tried =
          Tried-if (is_outdated intent w₁.policy) _ _ w₁ (λ old. q₁)
            λ valid.
              Tried-continue Q (verify env version (restored_mode w₁.policy) false w₁) _
                (Ensures-weaken (Prepared w₁.now w₁.policy w₁.sent) IsQuiet
                  (IsConfirmed env version (restored_mode w₁.policy) false) Q
                  (verify env version (restored_mode w₁.policy) false w₁)
                  (verify-IsConfirmed env version (restored_mode w₁.policy) false w₁
                    (omega (arith, pace, q₁.policy_persists)))
                  (λ v r. Prepared-IsQuiet w₁ v q₁ r) (λ b v r c. (r.policy_continues, c)))
                λ already w₂ q₂ c.
                  Tried-continue (λ (u : Unit {0}) w₃. (w₃ ≡ w₂) × IsCurrent version w₃)
                    (check version w₂) _ (check-Ensures IsQuiet version w₂ q₂)
                    λ u w₃ q₃ k. start_after-Tried already w₃ q₃ (λ idle.
                      subst (λ v. IsPermitted env intent v.awaits v.policy) (sym k.0)
                        (permit already w₂ c.1 c.0 (ground arith)
                          (pass_unlocked-Persists (env w.awaits) w).version_grows idle))

      go :
          (r : Reply (Unit {0}))
          → Tried (
              continue
                (from_reply r, w₁)
                (λ _ v.
                  (if is_outdated intent v.policy
                      then raise superseded
                      else (verify env version (restored_mode v.policy) false >>= λ already.
                          (check version >> start_after env intent already)))
                    v))
      go (got u) = tried
      go request_superseded = q₁
      go configuration_unavailable = quiet-IsDone w₁ q₁
      go budget_cancelled = quiet-IsDone w₁ q₁
      go timed_out = quiet-IsDone w₁ q₁
      go other_error = quiet-IsDone w₁ q₁
