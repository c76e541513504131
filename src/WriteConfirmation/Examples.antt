-- ===== src/WriteConfirmation/Examples.antt =====
-- A power of 4.2 kW that is asked for, accepted and read back.
use goodwe_wallbox_sems_home.Prelude.{
  ◌↔◌, ◌≡◌, ◌⊎◌, refl, true, false, String, Option, none, some, List, [], ◌∷◌, arith, if◌then◌else◌,
  str_eq, ◌++◌,
}
use goodwe_wallbox_sems_home.Prelude.Value.{Value, integer, real, pos, Real, finite}
use goodwe_wallbox_sems_home.Prelude.Maps.{Map, get}
use goodwe_wallbox_sems_home.WriteConfirmation.Match.{matches, value_matches}
use goodwe_wallbox_sems_home.WriteConfirmation.Defs.{
  Source, Uncertainty, Result, Owner, Monitor, new, begin, accepted, rejected, schedule, verdict,
  finish,
}
use goodwe_wallbox_sems_home.WriteConfirmation.Bounded.{event, refreshes, moves, readback-IsWatched}
use goodwe_wallbox_sems_home.WriteConfirmation.Schedule.{Event}
use goodwe_wallbox_sems_home.WriteConfirmation.Schedule.{
  begins, accepts, observes, closes, wakes, Ending, step, steps, consume, observed,
}
use goodwe_wallbox_sems_home.WriteConfirmation.Watched.{IsWatched}
use goodwe_wallbox_sems_home.WriteConfirmation.Shown.{Confirms}
use goodwe_wallbox_sems_home.WriteConfirmation.Confirmed.{confirmation-observed}
use goodwe_wallbox_sems_home.WriteConfirmation.Decorators.{
  Write, raised, returned, succeeded, confirm_write, confirm_write-honest,
}
use goodwe_wallbox_sems_home.WriteConfirmation.Tickets.{ticket-superseded}

abbrev parse : String → Option Real
parse t = if str_eq t "4.2" then some (finite (pos 4200000)) else none

abbrev owner : Owner
owner = record { local = false; transitioning = false; closed = false; routing_epoch = 3 }

abbrev asked : List Event
asked =
    begins owner 1000 "set_charge_power"
    ∷ accepts owner 1500 "set_charge_power" (real (finite (pos 4200000))) (0, 3) Source.telemetry
        false Uncertainty.timeout
    ∷ []

abbrev report : Map Value
report = ("set_charge_power", real (finite (pos 4200000))) ∷ []

abbrev seen : Event
seen = observes owner 6600 report Source.telemetry (some 6500)

-- The timer waits for the first slot, and the report confirms the choice.
armed_at : (steps parse asked (new false false)).timer ≡ some 6500
unfolding steps step begin accepted schedule verdict new finish
armed_at = refl

confirmed_by :
    get "set_charge_power" (steps parse (asked ++ (seen ∷ [])) (new false false)).results
    ≡ some Result.confirmed
unfolding steps step begin accepted schedule verdict new finish observed consume matches
    value_matches
confirmed_by = refl

readback-IsWatched_example : IsWatched (
    moves parse
      (event (begins owner 1000 "set_charge_power")
        ∷ event wakes
        ∷ refreshes owner 6500 (record {
          during_telemetry = seen ∷ [];
          telemetry_ending = Ending.done true;
          has_settings = false;
          during_settings = [];
          settings_ending = Ending.done true;
          owner_after = owner;
          ended = 6700;
        })
        ∷ event closes
        ∷ [])
      (new false false))
readback-IsWatched_example = readback-IsWatched parse false false (
    event (begins owner 1000 "set_charge_power")
    ∷ event wakes
    ∷ refreshes owner 6500 (record {
      during_telemetry = seen ∷ [];
      telemetry_ending = Ending.done true;
      has_settings = false;
      during_settings = [];
      settings_ending = Ending.done true;
      owner_after = owner;
      ended = 6700;
    })
    ∷ event closes
    ∷ [])

abbrev waiting : Monitor
waiting = steps parse asked (new false false)

seen_confirms : get "set_charge_power" (step parse seen waiting).results ≡ some Result.confirmed
unfolding steps step begin accepted schedule verdict new finish observed consume matches
    value_matches
seen_confirms = refl

confirmation-observed_example :
    (get "set_charge_power" waiting.results ≡ some Result.confirmed)
    ⊎ Confirms parse seen waiting "set_charge_power"
confirmation-observed_example =
    confirmation-observed parse seen waiting "set_charge_power" Result.confirmed seen_confirms tt

abbrev begun : Monitor
begun = record {
  modbus = false;
  cloud_session = false;
  pending = [];
  tokens = ("set_charge_power", 0) ∷ [];
  next_token = 1;
  results = [];
  timer = none;
  busy = false;
  closed = false;
}

-- The newer choice, with the ticket 1, is accepted before the older one.
abbrev overtaken : List Event
overtaken =
    accepts owner 2400 "set_charge_power" (integer (pos 7)) (1, 3) Source.telemetry false
      Uncertainty.timeout
    ∷ []

ticket-superseded_example :
    let n = steps parse overtaken (begin owner 2000 "set_charge_power" begun).1 in
    (accepted owner 2500 "set_charge_power"
        (integer (pos 5))
        (0, 3)
        Source.telemetry
        false
        Uncertainty.timeout
        n
      ≡ (false, n))
    × (rejected "set_charge_power" (0, 3) n ≡ n)
ticket-superseded_example =
    ticket-superseded parse owner owner 2000 2500 "set_charge_power" begun overtaken 0 3
      (integer (pos 5)) Source.telemetry false Uncertainty.timeout (omega arith)

-- A write of the power that times out.
abbrev timed_out_write : Write
timed_out_write = record {
  owner = owner;
  now = 1000;
  during = [];
  called =
      raised (record {
        is_timeout_error = true;
        translation_key = none;
        cloud_command_uncertain = false;
      });
  owner_after = owner;
  ended = 31000;
}

confirm_write-honest_example :
    ((confirm_write parse timed_out_write "set_charge_power" (integer (pos 7)) false waiting).0
      ≡ succeeded)
    ↔ (timed_out_write.called ≡ returned)
confirm_write-honest_example =
    confirm_write-honest parse timed_out_write "set_charge_power" (integer (pos 7)) false waiting
