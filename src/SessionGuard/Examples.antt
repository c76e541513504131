-- ===== src/SessionGuard/Examples.antt =====
-- Uses of the theorems on NativeSessionGuard at concrete sessions, and tests.
use goodwe_wallbox_sems_home.Prelude.{
  ℕ, ◌≡◌, ◌⊎◌, refl, true, Bool, some, none, List, [], ◌∷◌, arith, is_some,
}
use goodwe_wallbox_sems_home.NativeProtocol.Status.{NativeStatus, stopped, charging}
use goodwe_wallbox_sems_home.SessionGuard.Defs.{
  supervise, protect_done, Guard, new, begin, observe, stopping, stopping_for, overload,
  not_observed, stop_pending, stop_confirmed, highest, unexpired, reported, StopOutcome, arm,
  update_limit,
}
use goodwe_wallbox_sems_home.SessionGuard.Trace.{
  Event, begin_call, report, timer, stop_result, update_call, close_call, step, run, disarm_call,
}
use goodwe_wallbox_sems_home.SessionGuard.Safety.{
  timer_stops, confirmed_needs_stopped, pending_persists, IsTold,
}

-- A report of the wallbox charging at the given power in W.
abbrev at_power : ℕ → NativeStatus
at_power power = record {
  serial = [];
  state = 2;
  mode = 0;
  limit_kw = 11000;
  power_kw = power;
  currents_a = (16000, 16000, 16000);
  voltages_v = (230000, 230000, 230000);
  fault_code = 0;
  connection = 1;
  session_seconds = 60;
  minimum_power = none;
  session_energy_kwh = 0;
}

abbrev idle_report : NativeStatus
idle_report = record (at_power 0) { state = 0; currents_a = (0, 0, 0) }

-- A session begun at 11 kW in Fast mode at time 0, with a deadline of 45 s.
abbrev begun : List Event
begun = begin_call 0 11000 45000 0 ∷ []

abbrev session : Guard
session = run begun (new 10000)

-- The limit is lowered to 6 kW after 20 s and to 4 kW after 25 s, with reports of 7 kW around.
abbrev lowered : List Event
lowered =
    report 10000 (at_power 7000)
    ∷ update_call 20000 6000
    ∷ report 22000 (at_power 7000)
    ∷ update_call 25000 4000
    ∷ report 26000 (at_power 7000)
    ∷ []

-- The last report still finds the session supervised.
lowered_supervised : (run lowered session).error ≡ none
unfolding run step begin arm new observe supervise unexpired highest update_limit charging
lowered_supervised = refl

timer_stops_example :
    let h = step (timer 45000) session in
    (h.task ≡ stopping_for not_observed)
    × (h.error ≡ some (stop_pending not_observed))
    × (h.phase ≡ stopping)
    × (h.requested_at_violation ≡ session.limit)
    × (is_some session.limit ≡ true)
unfolding run step begin arm new
timer_stops_example = timer_stops 10000 45000 begun 45000 refl (omega arith) refl

-- The same session after an overload, and after its Stop is confirmed.
abbrev tripped : List Event
tripped = begin_call 0 11000 45000 0 ∷ report 5000 (at_power 12000) ∷ []

confirmed_needs_stopped_example :
    ((run tripped (new 10000)).error ≡ some (stop_confirmed overload))
    ⊎ ((s : NativeStatus) × (stop_result (reported idle_report) ≡ stop_result (reported s))
        × (stopped s ≡ true))
unfolding run step begin arm new observe supervise unexpired highest protect_done stopped charging
confirmed_needs_stopped_example =
    confirmed_needs_stopped (stop_result (reported idle_report)) (run tripped (new 10000)) overload
      refl

pending_persists_example :
    let g = run tripped (new 10000) in
    let e = update_call 6000 4000 in
    (((step e g).task ≡ g.task)
      × (((step e g).error ≡ g.error) ⊎ IsTold e)
      × (((step e g).limit ≡ g.limit)
          ⊎ (((now : ℕ) × (l : ℕ) × (e ≡ update_call now l)) ⊎ (e ≡ disarm_call))))
    ⊎ (((o : StopOutcome) × (e ≡ stop_result o)) ⊎ ((b : Bool) × (e ≡ close_call b)))
unfolding run step begin arm new observe supervise unexpired highest
pending_persists_example =
    pending_persists (update_call 6000 4000) (run tripped (new 10000)) refl refl
