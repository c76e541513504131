-- ===== src/ChargeModePolicy/Polling.antt =====
-- The polling loop of `_verify_inner` ends, and what it returns was observed.
use mathlib.Core.Path.{subst}
use goodwe_wallbox_sems_home.Prelude.{
  sym, ℕ, zero, suc, ◌+◌, ◌-◌, ◌≤◌, ◌<◌, ◌≡◌, refl, Bool, true, false, not, ◌&&◌, Option, none,
  some, List, arith, if◌then◌else◌, Bool-cases, inl, inr, ltb, leb,
}
use goodwe_wallbox_sems_home.ChargeModePolicy.World.{
  ModeObservation, Policy, Answer, World, fail, continue, check, read, sleep, Command, pure, raise,
  gets, verification, no_fresh_confirmation, stop_not_confirmed, ◌>>=◌, ◌>>◌,
}
use goodwe_wallbox_sems_home.ChargeModePolicy.Verify.{
  Target, matches, advanced, poll_round, poll, answer_or, power_preserved,
}
use goodwe_wallbox_sems_home.ChargeModePolicy.Monad.{
  Ensures-branch, Ensures, Ensures-continue, Keeps, IsCurrent, HasRead, check-Ensures, read-Ensures,
  sleep-Ensures,
}

-- The last read showed the target, is not older than the write, and shows whether the wallbox
-- charges; and nothing superseded the operation up to that read.
pub record IsSeen (env : ℕ → Answer) (version : ℕ) (t : Target) (charging : Bool) (w : World)
    : Type 0 where
  pub current : IsCurrent version w
  pub seen : ModeObservation
  pub was_read : HasRead env seen w
  pub same_charging : seen.charging ≡ charging
  pub mode_seen : seen.mode ≡ t.mode
  pub power_seen : power_preserved t.power seen ≡ true
  pub advanced_seen : advanced t seen ≡ true
  pub stop_seen : t.allow_active ≡ false → seen.active ≡ true → seen.charging ≡ true

matches_parts :
    (t : Target) (o : ModeObservation)
    → matches t o ≡ true
    → (o.mode ≡ t.mode) × (power_preserved t.power o ≡ true)
unfolding matches
matches_parts t o h = ground arith

module _ (env : ℕ → Answer) (version fuel deadline : ℕ) (t : Target) (w : World) where
  poll_early :
      ltb w.now deadline ≡ true
      → poll env version (suc fuel) deadline t w
        ≡ continue
            (poll_round env version deadline t w)
            (λ answer. answer_or answer (poll env version fuel deadline t))
  unfolding poll
  poll_early h = rw (h, poll)

  poll_late :
      ltb w.now deadline ≡ false
      → poll env version (suc fuel) deadline t w ≡ (fail (verification no_fresh_confirmation), w)
  unfolding poll
  poll_late h = rw (h, poll)

module _ (env : ℕ → Answer) (version : ℕ) (since : ℕ) (p : Policy) (s : List Command) where
  abbrev RoundPost : ℕ → Target → Option Bool → World → Type 0
  RoundPost start t (some charging) w = IsSeen env version t charging w
  RoundPost start t none w = start + p.interval ≤ w.now

  -- A round after its read.
  judged :
      (deadline start : ℕ) (t : Target) (o : ModeObservation) (w : World)
      → Keeps since p s w
      → HasRead env o w
      → IsCurrent version w
      → start ≤ w.now
      → Ensures (Keeps since p s) (RoundPost start t) (
          (if leb deadline w.now
              then raise (verification no_fresh_confirmation)
              else if o.active && (not t.allow_active && not (o.charging && matches t o))
              then raise (verification stop_not_confirmed)
              else if matches t o && advanced t o
              then pure (some o.charging)
              else (do interval ← gets (λ w. w.policy.interval); sleep env interval; pure none))
            w)
  judged deadline start t o w k r c le =
      Ensures-branch (Keeps since p s) (RoundPost start t) (leb deadline w.now) _ _ w (λ late. k)
        λ early.
          Ensures-branch (Keeps since p s) (RoundPost start t)
            (o.active && (not t.allow_active && not (o.charging && matches t o))) _ _ w (λ bad. k)
            λ safe.
              Ensures-branch (Keeps since p s) (RoundPost start t) (matches t o && advanced t o) _ _
                w (λ good. (k, seen_at good safe))
                λ again.
                  Ensures-continue (Keeps since p s)
                    (λ (u : Unit {0}) w'. w.now + w.policy.interval ≤ w'.now) (RoundPost start t)
                    (sleep env w.policy.interval w) (λ _. pure none)
                    (sleep-Ensures env w.policy.interval since p s w k)
                    λ u w' k' slept. (k', omega (arith, k.policy_continues))
    where
      seen_at :
          (matches t o && advanced t o) ≡ true
          → (o.active && (not t.allow_active && not (o.charging && matches t o))) ≡ false
          → IsSeen env version t o.charging w
      seen_at good safe = record {
        current = c;
        seen = o;
        was_read = r;
        same_charging = refl;
        mode_seen = ground (arith, matches_parts t o);
        power_seen = ground (arith, matches_parts t o);
        advanced_seen = ground arith;
        stop_seen = λ a b. ground arith;
      }

  poll_round-Ensures :
      (deadline : ℕ) (t : Target) (w : World)
      → Keeps since p s w
      → Ensures (Keeps since p s) (RoundPost w.now t) (poll_round env version deadline t w)
  unfolding poll_round
  poll_round-Ensures deadline t w k =
      Ensures-continue (Keeps since p s)
        (λ o w'. HasRead env o w' × (w'.now ≡ w.now + (env w.awaits).elapsed)) (RoundPost w.now t)
        (read env w) _ (read-Ensures env since p s w k)
        λ o w' k' r.
          Ensures-continue (Keeps since p s)
            (λ (u : Unit {0}) w''. (w'' ≡ w') × IsCurrent version w'') (RoundPost w.now t)
            (check version w') _ (check-Ensures (Keeps since p s) version w' k')
            λ u w'' k'' c.
              judged deadline w.now t o w'' k'' (subst (HasRead env o) (sym c.0) r.0) c.1
                (subst (λ x. w.now ≤ x.now) (sym c.0) (omega arith))

  -- With fuel above the time that is left the loop ends, by an answer or by an exception.
  pub poll-Ensures :
      (fuel deadline : ℕ) (t : Target) (w : World)
      → 0 < p.interval
      → deadline - w.now < fuel
      → Keeps since p s w
      → Ensures (Keeps since p s) (IsSeen env version t) (poll env version fuel deadline t w)
  poll-Ensures zero deadline t w pace enough k = elim enough [ ]
  poll-Ensures (suc fuel) deadline t w pace enough k = elim (Bool-cases (ltb w.now deadline)) [
    | inl early ↦ rw (poll_early env version fuel deadline t w early) (
        Ensures-continue (Keeps since p s) (RoundPost w.now t) (IsSeen env version t)
          (poll_round env version deadline t w) _ (poll_round-Ensures deadline t w k)
          (answered (ground arith) (λ w' k' le. poll-Ensures fuel deadline t w' pace le k')))
    | inr late ↦ rw (poll_late env version fuel deadline t w late) k
  ]
    where
      answered :
          w.now < deadline
          → ((w' : World)
              → Keeps since p s w'
              → deadline - w'.now < fuel
              → Ensures
                  (Keeps since p s)
                  (IsSeen env version t)
                  (poll env version fuel deadline t w'))
          → (a : Option Bool) (w' : World) → Keeps since p s w'
          → RoundPost w.now t a w'
          → Ensures
              (Keeps since p s)
              (IsSeen env version t)
              (answer_or a (poll env version fuel deadline t) w')
      answered lt again (some charging) w' k' q = (k', q)
      answered lt again none w' k' q = again w' k' (omega arith)
