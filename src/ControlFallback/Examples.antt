-- ===== src/ControlFallback/Examples.antt =====
-- A Start whose cloud command got lost, carried out over TCP.
use goodwe_wallbox_sems_home.Prelude.{
  ℕ, zero, suc, ◌≤◌, ◌≡◌, ◌≢◌, refl, Bool, true, false, none, some, List, [], ◌∷◌, arith, ◌⊎◌,
}
use goodwe_wallbox_sems_home.AutomaticFallback.State.{new}
use goodwe_wallbox_sems_home.ControlFallback.State.{
  Owner, Shared, Status, Answer, World, ok, stuck, await, pass, log_entry, begin_handover, verified,
  set_local,
}
use goodwe_wallbox_sems_home.ControlFallback.Recover.{
  Cause, command, unrelated, starting, is_eligible, is_current, check, operate, conclude, confirm,
  hand, reroute, reconcile, recover_control,
}
use goodwe_wallbox_sems_home.ControlFallback.Carried.{Carried}
use goodwe_wallbox_sems_home.ControlFallback.Prepare.{prepare}
use goodwe_wallbox_sems_home.ControlFallback.Handed.{Begun}
use goodwe_wallbox_sems_home.ControlFallback.Prepared.{Routed, prepare-Routed}
use goodwe_wallbox_sems_home.ControlFallback.Routed.{recover_control-Carried}

abbrev owner : Bool → Owner
owner local = record {
  closed = false;
  local = local;
  transitioning = false;
  has_cloud = true;
  routing_epoch = 3;
  last_update_success = local;
  available = local;
  matched = false;
}

abbrev shared : Bool → Shared
unfolding new
shared local = record {
  closed = false;
  policy_closed = false;
  fallback = new true;
  owner = owner local;
  pending = record {
    blackout = false;
    waiting = true;
    executing = true;
    batch_deadline = some 90000;
    version = 5;
    closed = false;
  };
}

abbrev status : Status
status = record { stopped = true; charging = false; fault_code = 0; state = 0; connection = 1 }

-- The first two awaits are pauses of the reconciliation.
abbrev after : ℕ → Shared
unfolding new
after zero = shared false
after (suc zero) = shared false
after (suc (suc n)) = shared true

abbrev env : ℕ → Answer
unfolding new
env n = record {
  elapsed = 8000;
  after = after n;
  failure = none;
  status = status;
  configuration = none;
}

abbrev start : World
unfolding new
start = record {
  shared = shared false;
  preparing = false;
  failed = false;
  now = 1000;
  awaits = 0;
  log = [];
}

abbrev causes : List Cause
causes = unrelated ∷ command true "start" "C0001" ∷ []

carried_out : (recover_control env "charging" starting 5 causes start).0 ≡ ok true
unfolding recover_control is_eligible check is_current reconcile reroute hand set_local
    begin_handover log_entry await pass confirm conclude verified operate new env start after shared
carried_out = refl

recover_control-Carried_example :
    let r = recover_control env "charging" starting 5 causes start in
    (r.0 ≢ stuck) × Carried env "charging" starting 5 [] r.1.log
unfolding new env start after shared
recover_control-Carried_example =
    recover_control-Carried env "charging" starting 5 causes start (λ n. some_time)
  where
    some_time : 1 ≤ 8000
    some_time = omega arith

prepare-Routed_example :
    let r = prepare env 3 2 start in
    (r.1.preparing ≡ false)
    × Begun [] r.1
    × (Routed none [] r.1 ⊎ ((r.1.failed ≡ true) ⊎ (r.0 ≢ ok tt)))
unfolding new env start after shared
prepare-Routed_example = prepare-Routed env 3 2 start
