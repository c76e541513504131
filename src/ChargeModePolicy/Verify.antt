-- ===== src/ChargeModePolicy/Verify.antt =====
-- `_verify_inner`, `_run_budgeted` and `_verify` of charge_mode_policy.py.
use goodwe_wallbox_sems_home.Prelude.{
  ℕ, zero, suc, ◌+◌, ◌-◌, Bool, true, false, not, ◌&&◌, ◌||◌, str_eq, String, Option, none, some,
  ltb, leb, ◌==◌, if◌then◌else◌,
}
use goodwe_wallbox_sems_home.ChargeModePolicy.World.{
  cancelled, time_out, expired, ModeObservation, Answer, World, M, Outcome, fail, stuck,
  verification, preparation_unavailable, unavailable, stop_not_confirmed, no_fresh_confirmation,
  ◌>>=◌, ◌>>◌, continue, pure, raise, gets, check, read, sleep, send, read_exceeded_deadline,
  superseded, write_mode, invalid_mode, expired, mode_rejected, ok,
}

-- `abs(a - b) < 0.001`, in kW.
abbrev pub near : ℕ → ℕ → Bool
near a b = ltb (a - b + (b - a)) 1000

abbrev pub reported_near : Option ℕ → ℕ → Bool
reported_near none b = false
reported_near (some a) b = near a b

-- A report that is newer than the one before, from the same source.
abbrev pub newer : Option (String × ℕ) → Option (String × ℕ) → Bool
newer (some (source, at)) (some (source', at')) = str_eq source source' && ltb at' at
newer _ _ = false

abbrev pub mode_of : Option ℕ → ModeObservation → ℕ
mode_of none o = o.mode
mode_of (some target) o = target

-- The power that a verification holds to: `none` if the power is not preserved.
abbrev pub wanted : Bool → Option ℕ → Option ℕ → Option ℕ
wanted false desired reported = none
wanted true none reported = reported
wanted true (some power) reported = some power

abbrev pub power_mismatch : Bool → Option ℕ → ModeObservation → Bool
power_mismatch true (some power) o = not (reported_near o.power power)
power_mismatch _ _ o = false

-- `requested.power`: what a write carries.
abbrev pub requested_power : Bool → Option ℕ → ModeObservation → Option ℕ
requested_power true (some power) o = some power
requested_power _ _ o = o.power

abbrev pub power_preserved : Option ℕ → ModeObservation → Bool
power_preserved none o = true
power_preserved (some power) o = reported_near o.power power

-- The answer of a round, or the rounds that are left.
abbrev pub answer_or : Option Bool → M Bool → M Bool
answer_or none again = again
answer_or (some charging) again = pure charging

-- What the polling compares with: the target, the power to hold, the report before the write.
pub record Target : Type 0 where
  pub mode : ℕ
  pub power : Option ℕ
  pub allow_active : Bool
  pub before : ModeObservation

unfoldable pub advanced : Target → ModeObservation → Bool
advanced t o = not o.requires_advance || newer o.report_marker t.before.report_marker

unfoldable pub matches : Target → ModeObservation → Bool
matches t o = o.mode == t.mode && power_preserved t.power o

-- The first read: a configuration that is not available ends the preparation.
abbrev pub preparation : {A : Type 0} → Outcome A × World → Outcome A × World
preparation (fail unavailable, w) = (fail preparation_unavailable, w)
preparation r = r

module _ (env : ℕ → Answer) (version : ℕ) where
  -- One round of the loop after the clock was read: an answer, or the world to go on with.
  unfoldable pub poll_round : ℕ → Target → M (Option Bool)
  poll_round deadline t = do
    observed ← read env
    check version
    now ← gets (λ w. w.now)
    if leb deadline now
        then raise (verification no_fresh_confirmation)
        else if observed.active
            && (not t.allow_active && not (observed.charging && matches t observed))
        then raise (verification stop_not_confirmed)
        else if matches t observed && advanced t observed
        then pure (some observed.charging)
        else (do interval ← gets (λ w. w.policy.interval); sleep env interval; pure none)

  -- `while time.monotonic() < deadline`. A round sleeps for the interval, so that fuel above
  -- the time that is left is enough for an interval of 1 ms or more.
  unfoldable pub poll : ℕ → ℕ → Target → M Bool
  poll zero deadline t w = (stuck, w)
  poll (suc fuel) deadline t w = elim (ltb w.now deadline) [
    | false ↦ (fail (verification no_fresh_confirmation), w)
    | true ↦ continue (poll_round deadline t w) (λ answer. answer_or answer (poll fuel deadline t))
  ]

  -- What follows the first read: the write if the mode or the power differs, and the polling.
  unfoldable pub verify_against : ℕ → ℕ → Bool → ModeObservation → M Bool
  verify_against deadline mode allow_active before w =
      let p = w.policy in
      let preserve = mode == 0 || p.preserves_power_all_modes in
      let mismatch = power_mismatch preserve p.desired_power before in
      let already = before.charging && (before.mode == mode && not mismatch) in
      let t : Target = record {
        mode = mode;
        power = wanted preserve p.desired_power before.power;
        allow_active = allow_active;
        before = before;
      } in
      if before.active && (not allow_active && not already)
      then (fail (verification stop_not_confirmed), w)
      else if not (before.mode == mode) || mismatch
      then (do
        accepted ← send env (write_mode mode (requested_power preserve p.desired_power before))
        if not accepted
            then raise (verification mode_rejected)
            else (do check version; poll (p.timeout + 1) deadline t))
          w
      else if not before.requires_advance
      then (ok already, w)
      else poll (p.timeout + 1) deadline t w

  unfoldable pub verify_inner : Option ℕ → Bool → M Bool
  verify_inner target allow_active = do
    check version
    deadline ← gets (λ w. w.now + w.policy.timeout)
    before ← λ w. preparation (read env w)
    check version
    now ← gets (λ w. w.now)
    if leb deadline now
        then raise (verification read_exceeded_deadline)
        else if not (leb (mode_of target before) 2)
        then raise (verification invalid_mode)
        else verify_against deadline (mode_of target before) allow_active before

-- The handlers of `_run_budgeted`, whose texts are left out, and its `finally`.
abbrev pub budgeted_result : {A : Type 0} → Outcome A → Outcome A
budgeted_result (fail cancelled) = fail superseded
budgeted_result (fail time_out) = fail (verification expired)
budgeted_result r = r

abbrev pub set_budget : Option Bool → World → World
set_budget b w = record w { policy = record w.policy { budget = b } }

unfoldable pub run_budgeted : {A : Type 0} → M A → M A
run_budgeted operation w =
    let r = operation (set_budget (some false) w) in (budgeted_result r.0, set_budget none r.1)

unfoldable pub verify : (ℕ → Answer) → ℕ → Option ℕ → Bool → M Bool
verify env version target allow_active = run_budgeted (verify_inner env version target allow_active)
