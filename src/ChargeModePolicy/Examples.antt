-- ===== src/ChargeModePolicy/Examples.antt =====
-- Runs of ChargeModePolicy: an idle wallbox in mode 1 that is to start in mode 2.
use goodwe_wallbox_sems_home.Prelude.{
  ℕ, ◌≡◌, refl, true, false, none, some, List, [], ◌∷◌, arith, ltb, if◌then◌else◌, Bool,
}
use goodwe_wallbox_sems_home.Prelude.Value.{integer, pos}
use goodwe_wallbox_sems_home.ChargeModePolicy.World.{
  acquire, pass_unlocked, pass, check, read, send, send_start, sleep, interrupt_all, M,
  ModeObservation, Policy, Answer, got, World, ok, Command, write_mode, start, stop,
}
use goodwe_wallbox_sems_home.ChargeModePolicy.Verify.{
  verify, verify_inner, verify_against, poll, poll_round, matches, advanced, run_budgeted,
}
use goodwe_wallbox_sems_home.ChargeModePolicy.Start.{
  start_intent, start_rounds, attempt, start_after, async_start,
}
use goodwe_wallbox_sems_home.ChargeModePolicy.Settings.{select_mode}
use goodwe_wallbox_sems_home.ChargeModePolicy.Entry.{prepare_fast_power, staged_power-silent}
use goodwe_wallbox_sems_home.ChargeModePolicy.Monad.{Ensures}
use goodwe_wallbox_sems_home.ChargeModePolicy.Against.{WroteAtMost, IsConfirmed, Prepared}
use goodwe_wallbox_sems_home.ChargeModePolicy.Verified.{verify-IsConfirmed}
use goodwe_wallbox_sems_home.ChargeModePolicy.Started.{async_start-safe, Sends, Any}
use goodwe_wallbox_sems_home.ChargeModePolicy.Selected.{select_mode-IsConfirmed}

abbrev seen : ℕ → ModeObservation
seen mode = record {
  mode = mode;
  power = some 4200000;
  minimum_power = some 4200000;
  maximum_power = some 11000000;
  report_marker = none;
  requires_advance = false;
  active = false;
  charging = false;
}

-- The mode changes with the fourth await.
abbrev env : ℕ → Answer
env n = record {
  meanwhile = [];
  intent_then = none;
  elapsed = 5;
  observation = got (seen (if ltb n 4 then 1 else 2));
  acknowledged = got true;
  slept = got tt;
}

abbrev policy : Policy
policy = record {
  enabled = true;
  remember_mode = true;
  preserves_power_all_modes = false;
  desired_mode = some 2;
  desired_power = some 4200000;
  timeout = 60;
  interval = 10;
  version = 0;
  start_intent_version = 0;
  pending_power_request = none;
  closed = false;
  starting = false;
  active_start_intent = none;
  pending_start_intents = [];
  budget = none;
}

abbrev world : World
world = record { policy = policy; now = 1000; awaits = 0; sent = []; saved = [] }

abbrev kinds : List Command → List ℕ
kinds [] = []
kinds (write_mode mode power ∷ cs) = mode ∷ kinds cs
kinds (start n p ∷ cs) = 10 ∷ kinds cs
kinds (stop p ∷ cs) = 11 ∷ kinds cs

-- The mode write comes first, then the Start.
start_sends : kinds (async_start env world).1.sent ≡ 10 ∷ 2 ∷ []
unfolding async_start start_intent start_rounds attempt start_after acquire pass_unlocked pass
    verify verify_inner verify_against poll poll_round matches advanced run_budgeted check read send
    send_start sleep interrupt_all
start_sends = refl

verify-IsConfirmed_example :
    Ensures
      (Prepared world.now world.policy world.sent)
      (IsConfirmed env 0 (some 2) false)
      (verify env 0 (some 2) false world)
verify-IsConfirmed_example = verify-IsConfirmed env 0 (some 2) false world (omega arith)

async_start-safe_example : Ensures (Sends env 0 world) Any (async_start env world)
async_start-safe_example = async_start-safe env world (λ n. omega arith) (omega arith)

select_mode-IsConfirmed_example :
    Ensures
      (λ v. WroteAtMost [] v.sent)
      (λ charging v. IsConfirmed env 1 (some 2) true charging v × (v.policy.desired_mode ≡ some 2))
      (select_mode env (integer (pos 2)) world)
select_mode-IsConfirmed_example =
    select_mode-IsConfirmed env (integer (pos 2)) 2 world refl (omega arith)

-- A write of a power of 7 kW.
abbrev write_power : M Bool
write_power w = (ok true, record w { sent = write_mode 0 (some 7000000) ∷ w.sent })

staged_power-silent_example :
    (prepare_fast_power env write_power
      (integer (pos 1))
      true
      4200000
      11000000
      (integer (pos 7))
      world).1.sent
    ≡ []
staged_power-silent_example =
    staged_power-silent env write_power (integer (pos 1)) true 4200000 11000000 (integer (pos 7))
      world 0 refl
