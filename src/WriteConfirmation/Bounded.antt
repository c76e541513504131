-- ===== src/WriteConfirmation/Bounded.antt =====
-- The readback of every choice is bounded, in every run of WriteConfirmation.
use mathlib.Core.Path.{subst}
use goodwe_wallbox_sems_home.Prelude.{
  ℕ, ◌≡◌, inl, refl, Bool, true, false, not, ◌&&◌, ◌||◌, String, Option, List, [], ◌∷◌,
  if◌then◌else◌, ◌∙◌, sym,
}
use goodwe_wallbox_sems_home.Prelude.Value.{Real}
use goodwe_wallbox_sems_home.Prelude.Maps.{Map}
use goodwe_wallbox_sems_home.WriteConfirmation.Match.{Report, matches}
use goodwe_wallbox_sems_home.WriteConfirmation.Defs.{
  Source, PendingRead, Result, Owner, Monitor, new, finish, after, same_source,
}
use goodwe_wallbox_sems_home.WriteConfirmation.Schedule.{
  consume, consume_all, observed, cancel, begins, accepts, rejects, observes, fails, cancels,
  closes, wakes, done, raised, task_cancelled, step, steps, Ending, refresh, finally, ended_by,
  settings_ended, read_settings, is_due, is_empty, touch, too_old, Event, Reads,
}
use goodwe_wallbox_sems_home.WriteConfirmation.Watched.{IsWatched, schedule-IsWatched}
use goodwe_wallbox_sems_home.WriteConfirmation.Operations.{
  begin-IsWatched, accepted-IsWatched, rejected-IsWatched, cancel-IsWatched, close-IsWatched,
  failed-IsWatched, wake-IsWatched,
}

module _ (parse : String → Option Real) where
  consume-closed :
      (report : Report) (source : Source) (read : Option ℕ) (now : ℕ) (field : String)
      (t : PendingRead) (m : Monitor)
      → (consume parse report source read now field t m).closed ≡ m.closed
  unfolding consume finish
  consume-closed report source read now field t m =
      go (not (same_source t.source source) || too_old read t.started) _
        (matches parse field t.value report m.cloud_session)
    where
      go :
          (a b c : Bool)
          → (if a
              then m
              else if b
              then finish field Result.device_rejected
                  (record m { pending = touch field now m.pending })
              else if c
              then finish field
                  (after Result.confirmed_after Result.confirmed t)
                  (record m { pending = touch field now m.pending })
              else record m { pending = touch field now m.pending }).closed
            ≡ m.closed
      go true b c = refl
      go false true c = refl
      go false false true = refl
      go false false false = refl

  consume_all-closed :
      (report : Report) (source : Source) (read : Option ℕ) (now : ℕ) (items : Map PendingRead)
      (m : Monitor)
      → (consume_all parse report source read now items m).closed ≡ m.closed
  consume_all-closed report source read now [] m = refl
  consume_all-closed report source read now ((field, t) ∷ rest) m =
      consume_all-closed report source read now rest
        (consume parse report source read now field t m)
      ∙ consume-closed report source read now field t m

  observed-IsWatched :
      (o : Owner) (now : ℕ) (report : Report) (source : Source) (read : Option ℕ) (m : Monitor)
      → IsWatched m
      → IsWatched (observed parse o now report source read m)
  unfolding observed
  observed-IsWatched o now report source read m h =
      schedule-IsWatched o now (consume_all parse report source read now m.pending m) λ c.
        let e : m.pending ≡ [] =
          (h.closed_waits (sym (consume_all-closed report source read now m.pending m) ∙ c)).1 in
        subst (λ items. (consume_all parse report source read now items m).pending ≡ []) (sym e) e

  pub step-IsWatched : (e : Event) (m : Monitor) → IsWatched m → IsWatched (step parse e m)
  unfolding step
  step-IsWatched (begins o now field) m h = begin-IsWatched o now field m h
  step-IsWatched (accepts o now field value ticket source uncertain uncertainty) m h =
      accepted-IsWatched o now field value ticket source uncertain uncertainty m h
  step-IsWatched (rejects field ticket) m h = rejected-IsWatched field ticket m h
  step-IsWatched (observes o now report source read) m h =
      observed-IsWatched o now report source read m h
  step-IsWatched (fails o now) m h = failed-IsWatched o now m
  step-IsWatched cancels m h = cancel-IsWatched m
  step-IsWatched closes m h = close-IsWatched m
  step-IsWatched wakes m h = wake-IsWatched m h

  steps-IsWatched : (es : List Event) (m : Monitor) → IsWatched m → IsWatched (steps parse es m)
  unfolding steps
  steps-IsWatched [] m h = h
  steps-IsWatched (e ∷ es) m h = steps-IsWatched es (step parse e m) (step-IsWatched e m h)

  finally-IsWatched :
      (r : Reads) (a b : Bool) (m : Monitor) → IsWatched m → IsWatched (finally parse r a b m)
  unfolding finally
  finally-IsWatched r a b m h =
      schedule-IsWatched r.owner_after r.ended _ λ c. rw ((h.closed_waits c).1) refl

  ended_by-IsWatched :
      (o : Owner) (now : ℕ) (e : Ending) (m : Monitor)
      → IsWatched m
      → IsWatched (ended_by parse o now e m).1
  ended_by-IsWatched o now (done true) m h = h
  ended_by-IsWatched o now (done false) m h = failed-IsWatched o now m
  ended_by-IsWatched o now raised m h = failed-IsWatched o now m
  ended_by-IsWatched o now task_cancelled m h = cancel-IsWatched m

  settings_ended-IsWatched :
      (o : Owner) (now : ℕ) (e : Ending) (m : Monitor)
      → IsWatched m
      → IsWatched (settings_ended parse o now e m)
  settings_ended-IsWatched o now (done b) m h = h
  settings_ended-IsWatched o now raised m h = failed-IsWatched o now m
  settings_ended-IsWatched o now task_cancelled m h = cancel-IsWatched m

  read_settings-IsWatched :
      (r : Reads) (a due b : Bool) (m : Monitor)
      → IsWatched m
      → IsWatched (read_settings parse r a due (b, m))
  read_settings-IsWatched r a due false m h = finally-IsWatched r a false m h
  read_settings-IsWatched r a due true m h =
      go (r.has_settings && (due && not (is_empty m.pending)))
    where
      m₁ : Monitor
      m₁ =
          settings_ended parse r.owner_after r.ended r.settings_ending
            (steps parse r.during_settings m)

      go :
          (b : Bool)
          → IsWatched (if b then finally parse r a true m₁ else finally parse r a false m)
      go true = finally-IsWatched r a true m₁ (
          settings_ended-IsWatched r.owner_after r.ended r.settings_ending _
            (steps-IsWatched r.during_settings m h))
      go false = finally-IsWatched r a false m h

  refresh-IsWatched :
      (o : Owner) (now : ℕ) (r : Reads) (m : Monitor)
      → IsWatched m
      → IsWatched (refresh parse o now r m)
  unfolding refresh
  refresh-IsWatched o now r m h =
      go (o.closed || o.transitioning) (is_due now Source.telemetry m.pending)
    where
      due : Bool
      due = is_due now Source.settings m.pending

      m₁ : Monitor
      m₁ = steps parse r.during_telemetry m

      go :
          (a b : Bool)
          → IsWatched (
              if a
              then finally parse r false false (cancel m)
              else if b
              then read_settings parse r true due
                  (ended_by parse r.owner_after r.ended r.telemetry_ending m₁)
              else read_settings parse r false due (true, m))
      go true b = finally-IsWatched r false false (cancel m) (cancel-IsWatched m)
      go false true =
          let e = ended_by parse r.owner_after r.ended r.telemetry_ending m₁ in
          read_settings-IsWatched r true due e.0 e.1 (
            ended_by-IsWatched r.owner_after r.ended r.telemetry_ending m₁
              (steps-IsWatched r.during_telemetry m h))
      go false false = read_settings-IsWatched r false due true m h

-- A move of the whole: an event, or a refresh with what happens while it runs.
pub data Move : Type 0 where
  event : Event → Move
  refreshes : Owner → ℕ → Reads → Move

unfoldable pub moves : (String → Option Real) → List Move → Monitor → Monitor
moves parse [] m = m
moves parse (event e ∷ rest) m = moves parse rest (step parse e m)
moves parse (refreshes o now r ∷ rest) m = moves parse rest (refresh parse o now r m)

moves-IsWatched :
    (parse : String → Option Real) (ms : List Move) (m : Monitor)
    → IsWatched m
    → IsWatched (moves parse ms m)
unfolding moves
moves-IsWatched parse [] m h = h
moves-IsWatched parse (event e ∷ rest) m h =
    moves-IsWatched parse rest (step parse e m) (step-IsWatched parse e m h)
moves-IsWatched parse (refreshes o now r ∷ rest) m h =
    moves-IsWatched parse rest (refresh parse o now r m) (refresh-IsWatched parse o now r m h)

-- After any sequence of writes, reports, failures, timers, refreshes and closings, in any order:
-- unless a refresh runs, either no choice is pending or the timer is armed, at a time not later
-- than 60 s after the acceptance of each pending choice. While a refresh runs there is no timer,
-- so that reads do not overlap, and a closed object has neither a timer nor a pending choice.
pub readback-IsWatched :
    (parse : String → Option Real) (modbus cloud_session : Bool) (ms : List Move)
    → IsWatched (moves parse ms (new modbus cloud_session))
unfolding new
readback-IsWatched parse modbus cloud_session ms =
    moves-IsWatched parse ms _
      (record { busy_waits = λ b. refl; closed_waits = λ c. (refl, refl); watched = λ b. inl refl })
