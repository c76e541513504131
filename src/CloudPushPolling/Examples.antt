-- ===== src/CloudPushPolling/Examples.antt =====
-- Three verified reports double an interval of 30 s.
use goodwe_wallbox_sems_home.Prelude.{
  ℕ, ◌+◌, ◌*◌, ◌≤◌, ◌≡◌, ◌⊎◌, refl, true, false, some, List, [], ◌∷◌,
}
use goodwe_wallbox_sems_home.CloudPushPolling.Defs.{
  is_expired, Polling, Push, new, Report, observed, check, qualifies, rebase, count, extend, reset,
  telemetry_hint,
}
use goodwe_wallbox_sems_home.CloudPushPolling.Count.{IsTrusted}
use goodwe_wallbox_sems_home.CloudPushPolling.Trust.{
  Event, hints, observes, step, run, verifies, interval-IsTrusted,
}

abbrev push : Push
push = record {
  connected = true;
  eligible = true;
  epoch = 2;
  last_update_success = true;
  polling_disabled = false;
}

abbrev report : ℕ → Report
report marker = record { marker = some marker; fresh = true; complete = true }

abbrev three_reports : List Event
three_reports =
    observes push 500 30000 (report 50)
    ∷ hints 1000
    ∷ observes push 2000 30000 (report 100)
    ∷ hints 20000
    ∷ observes push 21000 30000 (report 200)
    ∷ hints 40000
    ∷ []

doubled : (observed push 41000 30000 (report 300) (run three_reports (new push, 0)).0).0 ≡ 60000
unfolding observed new step telemetry_hint qualifies rebase count extend reset
doubled = refl

interval-IsTrusted_example :
    let s = run three_reports (new push, 0) in
    let o = observed push 41000 30000 (report 300) s.0 in
    (o.0 ≡ 30000)
    ⊎ ((o.0 ≡ 30000 * 2)
        × (3 ≤ s.1 + verifies (observes push 41000 30000 (report 300)) s.0)
        × IsTrusted push 41000 30000 (report 300) o.1)
interval-IsTrusted_example = interval-IsTrusted push three_reports push 41000 30000 (report 300)

abbrev verified : Polling
verified = record {
  base_seconds = some 30000;
  last_verified_at = some 41000;
  last_marker = some 300;
  hint = 3;
  consumed_hint = 3;
  hint_at = some 40000;
  samples = 3;
  extended = true;
  epoch = 2;
}

still_extended : (check push 60000 verified).1.extended ≡ true
unfolding check is_expired
still_extended = refl
