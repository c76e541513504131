-- ===== src/ChargeModePolicy/Against.antt =====
-- What `_verify_inner` guarantees once the first read has come back.
use mathlib.Core.Path.{subst}
use goodwe_wallbox_sems_home.Prelude.{
  ℕ, ◌+◌, ◌-◌, ◌≤◌, ◌<◌, ◌≡◌, ◌⊎◌, sym, Bool, true, false, not, ◌&&◌, ◌||◌, Option, some, List, ◌∷◌,
  arith, if◌then◌else◌, ◌==◌, inl, inr,
}
use goodwe_wallbox_sems_home.ChargeModePolicy.World.{
  ModeObservation, Policy, Answer, World, continue, check, send, Command, write_mode, raise, ◌>>◌,
  verification, mode_rejected,
}
use goodwe_wallbox_sems_home.ChargeModePolicy.Verify.{
  Target, poll, power_preserved, verify_against, mode_of, power_mismatch, requested_power, wanted,
  reported_near,
}
use goodwe_wallbox_sems_home.ChargeModePolicy.Monad.{
  Ensures-if, Ensures, Ensures-continue, Ensures-branch, Ensures-weaken, Keeps, IsCurrent, HasRead,
  check-Ensures, send-Ensures, Continues,
}
use goodwe_wallbox_sems_home.ChargeModePolicy.Polling.{IsSeen, poll-Ensures}

-- No command was sent, or one mode write.
abbrev pub WroteAtMost : List Command → List Command → Type 0
WroteAtMost before after =
    (after ≡ before) ⊎ ((mode : ℕ) × (power : Option ℕ) × (after ≡ write_mode mode power ∷ before))

pub record Prepared (since : ℕ) (p : Policy) (commands : List Command) (w : World) : Type 0 where
  pub time_passes : since ≤ w.now
  pub policy_continues : Continues p w.policy
  pub wrote : WroteAtMost commands w.sent

-- The wallbox was seen, by the last read before the operation returned and with no newer request
-- since, in the requested mode, at the desired power where the mode preserves it, and not active
-- without charging unless that is allowed.
pub record IsConfirmed (env : ℕ → Answer) (version : ℕ) (target : Option ℕ)
    (allow_active charging : Bool) (w : World) : Type 0 where
  pub current : IsCurrent version w
  pub seen : ModeObservation
  pub was_read : HasRead env seen w
  pub same_charging : seen.charging ≡ charging
  pub mode_valid : seen.mode ≤ 2
  pub mode_seen : (m : ℕ) → target ≡ some m → seen.mode ≡ m
  pub power_seen :
      (power : ℕ)
      → w.policy.desired_power ≡ some power
      → (seen.mode == 0 || w.policy.preserves_power_all_modes) ≡ true
      → reported_near seen.power power ≡ true
  pub stop_seen : allow_active ≡ false → seen.active ≡ true → seen.charging ≡ true

wanted-seen :
    (preserve : Bool) (desired reported : Option ℕ) (o : ModeObservation) (power : ℕ)
    → preserve ≡ true
    → desired ≡ some power
    → power_preserved (wanted preserve desired reported) o ≡ true
    → reported_near o.power power ≡ true
wanted-seen preserve desired reported o power b d h = rw (b, d) at h

matched-seen :
    (preserve : Bool) (desired : Option ℕ) (o : ModeObservation) (power : ℕ)
    → preserve ≡ true
    → desired ≡ some power
    → power_mismatch preserve desired o ≡ false
    → reported_near o.power power ≡ true
matched-seen preserve desired o power b d h =
    let e : not (reported_near o.power power) ≡ false = rw (b, d) at h in ground arith

module _ (env : ℕ → Answer) (version : ℕ) (since : ℕ) (p : Policy) (s : List Command) where
  pub Keeps-Prepared : (w : World) → Keeps since p s w → Prepared since p s w
  Keeps-Prepared w k = record {
    time_passes = k.time_passes;
    policy_continues = k.policy_continues;
    wrote = inl k.same_sent;
  }

  Keeps-Prepared_write :
      (mode : ℕ) (power : Option ℕ) (w : World)
      → Keeps since p (write_mode mode power ∷ s) w
      → Prepared since p s w
  Keeps-Prepared_write mode power w k = record {
    time_passes = k.time_passes;
    policy_continues = k.policy_continues;
    wrote = inr (mode, power, k.same_sent);
  }

  -- The two kinds of evidence after the first read.
  seen-IsConfirmed :
      (target : Option ℕ) (allow charging : Bool) (before : ModeObservation) (w w' : World)
      → mode_of target before ≤ 2
      → Continues p w.policy
      → Continues p w'.policy
      → let preserve = mode_of target before == 0 || w.policy.preserves_power_all_modes in
        IsSeen env version
          (record {
            mode = mode_of target before;
            power = wanted preserve w.policy.desired_power before.power;
            allow_active = allow;
            before = before;
          })
          charging
          w'
        → IsConfirmed env version target allow charging w'
  seen-IsConfirmed target allow charging before w w' valid c c' i = record {
    current = i.current;
    seen = i.seen;
    was_read = i.was_read;
    same_charging = i.same_charging;
    mode_valid = ground (arith, i);
    mode_seen = λ m e. ground (arith, i);
    power_seen = λ power e f.
        wanted-seen _ w.policy.desired_power before.power i.seen power (ground (arith, i, c, c'))
          (cc (c.same_desired_power, c'.same_desired_power)) i.power_seen;
    stop_seen = i.stop_seen;
  }

  pub verify_against-Ensures :
      (deadline : ℕ) (target : Option ℕ) (allow : Bool) (before : ModeObservation) (w : World)
      → 0 < p.interval
      → mode_of target before ≤ 2
      → Keeps since p s w
      → IsCurrent version w
      → HasRead env before w
      → deadline ≤ w.now + w.policy.timeout
      → Ensures
          (Prepared since p s)
          (IsConfirmed env version target allow)
          (verify_against env version deadline (mode_of target before) allow before w)
  unfolding verify_against
  verify_against-Ensures deadline target allow before w pace valid k c r soon =
      Ensures-if R Q (before.active && (not allow && not already)) _ _ (λ bad. Keeps-Prepared w k)
        λ safe.
          Ensures-if R Q (not (before.mode == goal) || mismatch) _ _ (λ differs. after_write)
            λ same.
              Ensures-if R Q (not before.requires_advance) _ _
                (λ fresh. (Keeps-Prepared w k, unchanged same safe))
                λ old.
                  Ensures-weaken (Keeps since p s) R (IsSeen env version t) Q
                    (poll env version (w.policy.timeout + 1) deadline t w)
                    (poll-Ensures env version since p s (w.policy.timeout + 1) deadline t w pace
                      (omega arith) k)
                    Keeps-Prepared
                    λ b w' k' i.
                      seen-IsConfirmed target allow b before w w' valid k.policy_continues
                        k'.policy_continues i
    where
      R : World → Type 0
      R = Prepared since p s

      Q : Bool → World → Type 0
      Q = IsConfirmed env version target allow

      goal : ℕ
      goal = mode_of target before

      preserve : Bool
      preserve = goal == 0 || w.policy.preserves_power_all_modes

      mismatch : Bool
      mismatch = power_mismatch preserve w.policy.desired_power before

      already : Bool
      already = before.charging && (before.mode == goal && not mismatch)

      t : Target
      t = record {
        mode = goal;
        power = wanted preserve w.policy.desired_power before.power;
        allow_active = allow;
        before = before;
      }

      command : Command
      command = write_mode goal (requested_power preserve w.policy.desired_power before)

      R' : World → Type 0
      R' = Keeps since p (command ∷ s)

      after_write : Ensures R Q (
          continue (send env command w) (λ accepted.
            if not accepted
            then raise (verification mode_rejected)
            else (check version >> poll env version (w.policy.timeout + 1) deadline t)))
      after_write =
          Ensures-weaken R' R (IsSeen env version t) Q _
            (Ensures-continue R' (λ (b : Bool) w'. w.now ≤ w'.now) (IsSeen env version t)
              (send env command w) _ (send-Ensures env command since p s w k)
              λ accepted w' k' le.
                Ensures-branch R' (IsSeen env version t) (not accepted) _ _ w' (λ bad. k')
                  λ good.
                    Ensures-continue R' (λ (u : Unit {0}) w''. (w'' ≡ w') × IsCurrent version w'')
                      (IsSeen env version t) (check version w') _ (check-Ensures R' version w' k')
                      λ u w'' k'' c'.
                        poll-Ensures env version since p (command ∷ s) (w.policy.timeout + 1)
                          deadline t w'' pace
                          (subst (λ v. deadline - v.now < w.policy.timeout + 1) (sym c'.0)
                            (omega arith))
                          k'')
            (Keeps-Prepared_write goal (requested_power preserve w.policy.desired_power before))
            λ b w' k' i.
              seen-IsConfirmed target allow b before w w' valid k.policy_continues
                k'.policy_continues i

      unchanged :
          (not (before.mode == goal) || mismatch) ≡ false
          → (before.active && (not allow && not already)) ≡ false
          → Q already w
      unchanged same safe = record {
        current = c;
        seen = before;
        was_read = r;
        same_charging = ground arith;
        mode_valid = ground arith;
        mode_seen = λ m e. ground arith;
        power_seen = λ power e f.
            matched-seen preserve w.policy.desired_power before power (ground arith) e
              (ground arith);
        stop_seen = λ a b. ground arith;
      }
