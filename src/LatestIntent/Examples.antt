-- ===== src/LatestIntent/Examples.antt =====
-- A mode that is chosen during a handover, and executed after it.
use goodwe_wallbox_sems_home.Prelude.{
  ◌⊎◌, ℕ, ◌+◌, ◌<◌, ◌≡◌, refl, Bool, true, false, none, some, List, [], ◌∷◌,
}
use goodwe_wallbox_sems_home.LatestIntent.Defs.{
  get, Key, Choice, Request, Owner, new, submit, retained, ready, next, blackout, Intent,
}
use goodwe_wallbox_sems_home.LatestIntent.Run.{
  ended, ended_with, requeue, Outcome, Event, run, step, turn,
}
use goodwe_wallbox_sems_home.LatestIntent.Expiry.{start-timely}
use goodwe_wallbox_sems_home.LatestIntent.Replay.{PutBack, ended-waits}

abbrev owner : Bool → Owner
owner transitioning = record {
  preparing = false;
  transitioning = transitioning;
  local = true;
  cloud_restored = false;
  last_update_success = true;
  closed = false;
}

-- The second choice of the same mode changes nothing.
abbrev chosen : List (ℕ × Event)
chosen =
    (5000, Event.submits (owner true) Key.mode (Choice.number 2) false)
    ∷ (60000, Event.submits (owner true) Key.mode (Choice.number 2) false)
    ∷ (30000, Event.turns (owner true))
    ∷ []

abbrev request : Request
request = record { value = Choice.number 2; operation = 0; requested_at = 5000 }

is_idle : (run chosen (0, new)).1.executing ≡ none
unfolding run step submit retained turn new ready blackout
is_idle = refl

is_started :
    let s = run chosen (0, new) in
    (turn (owner false) s.0 s.1).executing ≡ some (Key.mode, request, 1)
unfolding run step submit retained turn new ready blackout next
is_started = refl

start-timely_example : (run chosen (0, new)).0 < request.requested_at + 120000
start-timely_example = start-timely chosen (owner false) Key.mode request 1 is_idle is_started

-- A Start whose preparation is superseded by a new power.
abbrev start : Request
start = record { value = Choice.on; operation = 0; requested_at = 0 }

abbrev superseded_start : Intent
superseded_start = record new {
  pending = (Key.power, record { value = Choice.number 7; operation = 1; requested_at = 9 }) ∷ [];
  running = true;
  executing = some (Key.charging, start, 1);
  version = 2;
  batch_deadline = some 120000;
  submitted = 2;
}

start_waits : get Key.charging (ended true Outcome.superseded superseded_start).pending ≡ some start
unfolding ended ended_with requeue new
start_waits = refl

ended-waits_example :
    (get Key.charging superseded_start.pending ≡ some start)
    ⊎ PutBack Outcome.superseded superseded_start Key.charging start
ended-waits_example =
    ended-waits true Outcome.superseded superseded_start Key.charging start start_waits
