-- ===== src/WriteConfirmation/Schedule.antt =====
-- The reads of WriteConfirmation: what a report confirms, failures, the timer and the refresh.
use goodwe_wallbox_sems_home.Prelude.{
  ℕ, ◌+◌, Bool, true, false, not, ◌&&◌, ◌||◌, String, Option, none, some, List, [], ◌∷◌, max, ltb,
  leb, str_eq, if◌then◌else◌,
}
use goodwe_wallbox_sems_home.Prelude.Value.{Value, boolean, number_in, Real}
use goodwe_wallbox_sems_home.Prelude.Maps.{Map, put}
use goodwe_wallbox_sems_home.WriteConfirmation.Match.{Report, matches, at}
use goodwe_wallbox_sems_home.WriteConfirmation.Defs.{
  Source, same_source, telemetry, settings, Uncertainty, PendingRead, Result, Owner, Monitor,
  finish, finish_all, after, schedule, begin, accepted, rejected, device_rejected, confirmed,
  confirmed_after, read_failed, cancelled,
}

-- `read_started < target.started`, if the start of the read is known.
abbrev pub too_old : Option ℕ → ℕ → Bool
too_old none started = false
too_old (some read) started = ltb read started

abbrev pub asks_start : Value → Bool
asks_start (boolean b) = b
asks_start _ = false

abbrev pub touch : String → ℕ → Map PendingRead → Map PendingRead
touch field now [] = []
touch field now ((f, t) ∷ rest) =
    if str_eq field f
    then (f, record t { last_read = now }) ∷ rest
    else (f, t) ∷ touch field now rest

module _ (parse : String → Option Real) where
  -- What `observed` does with one pending choice.
  unfoldable pub consume : Report → Source → Option ℕ → ℕ → String → PendingRead → Monitor → Monitor
  consume report source read_started now field t m =
      let m₁ = record m { pending = touch field now m.pending } in
      if not (same_source t.source source) || too_old read_started t.started
      then m
      else if str_eq field "charging"
          && (asks_start t.value && number_in (5 ∷ 8 ∷ []) (at "modbus_status_raw" report))
      then finish field device_rejected m₁
      else if matches parse field t.value report m.cloud_session
      then finish field (after confirmed_after confirmed t) m₁
      else m₁

  abbrev pub consume_all : Report → Source → Option ℕ → ℕ → Map PendingRead → Monitor → Monitor
  consume_all report source read_started now [] m = m
  consume_all report source read_started now ((field, t) ∷ rest) m =
      consume_all report source read_started now rest
        (consume report source read_started now field t m)

  unfoldable pub observed : Owner → ℕ → Report → Source → Option ℕ → Monitor → Monitor
  observed o now report source read_started m =
      schedule o now (consume_all report source read_started now m.pending m)

unfoldable pub failed : Owner → ℕ → Monitor → Monitor
failed o now m = schedule o now (finish_all read_failed m.pending m)

abbrev pub cancel_results : Map ℕ → Map Result → Map Result
cancel_results [] results = results
cancel_results ((field, t) ∷ rest) results = cancel_results rest (put field cancelled results)

unfoldable pub cancel : Monitor → Monitor
cancel m =
    let m₁ = finish_all cancelled m.pending m in
    record m₁ { results = cancel_results m₁.tokens m₁.results; tokens = []; timer = none }

unfoldable pub close : Monitor → Monitor
close m = cancel (record m { closed = true })

abbrev pub is_empty : Map PendingRead → Bool
is_empty [] = true
is_empty (e ∷ es) = false

-- The timer fires; true if a refresh is started.
unfoldable pub wake : Monitor → Bool × Monitor
wake m =
    let m₁ = record m { timer = none } in
    if m.busy || (m.closed || is_empty m.pending)
    then (false, m₁)
    else (true, record m₁ { busy = true })

-- What can happen while a refresh awaits, with the time at which it does.
pub data Event : Type 0 where
  begins : Owner → ℕ → String → Event
  accepts : Owner → ℕ → String → Value → ℕ × ℕ → Source → Bool → Uncertainty → Event
  rejects : String → ℕ × ℕ → Event
  observes : Owner → ℕ → Report → Source → Option ℕ → Event
  fails : Owner → ℕ → Event
  cancels closes wakes : Event

-- What a read comes to: whether the coordinator's last update was a success, an exception, or the
-- cancellation of the task.
pub data Ending : Type 0 where
  done : Bool → Ending
  raised task_cancelled : Ending

-- The awaits of a refresh: of the telemetry and of the settings, whether there are cloud settings
-- to read, and when the refresh ends.
pub record Reads : Type 0 where
  pub during_telemetry : List Event
  pub telemetry_ending : Ending
  pub has_settings : Bool
  pub during_settings : List Event
  pub settings_ending : Ending
  pub owner_after : Owner
  pub ended : ℕ

abbrev pub is_due : ℕ → Source → Map PendingRead → Bool
is_due now source [] = false
is_due now source ((field, t) ∷ rest) =
    (same_source t.source source && leb (t.last_read + 5000) now) || is_due now source rest

module _ (parse : String → Option Real) where
  unfoldable pub step : Event → Monitor → Monitor
  step (begins o now field) m = (begin o now field m).1
  step (accepts o now field value ticket source uncertain uncertainty) m =
      (accepted o now field value ticket source uncertain uncertainty m).1
  step (rejects field ticket) m = rejected field ticket m
  step (observes o now report source read_started) m =
      observed parse o now report source read_started m
  step (fails o now) m = failed o now m
  step cancels m = cancel m
  step closes m = close m
  step wakes m = (wake m).1

  unfoldable pub steps : List Event → Monitor → Monitor
  steps [] m = m
  steps (e ∷ es) m = steps es (step e m)

  -- The end of an await of the refresh: a failed update ends the pending choices, an exception
  -- too, and a cancellation cancels them. True if the `try` block goes on.
  abbrev pub ended_by : Owner → ℕ → Ending → Monitor → Bool × Monitor
  ended_by o now (done true) m = (true, m)
  ended_by o now (done false) m = (true, failed o now m)
  ended_by o now raised m = (false, failed o now m)
  ended_by o now task_cancelled m = (false, cancel m)

  -- `finally`: slots that got no answer are advanced for the sources that were read.
  abbrev pub advance : Bool → Bool → ℕ → PendingRead → PendingRead
  advance telemetry_read settings_read now t =
      if (same_source t.source telemetry && telemetry_read)
        || (same_source t.source settings && settings_read)
      then record t { last_read = max t.last_read now }
      else t

  abbrev pub advance_all : Bool → Bool → ℕ → Map PendingRead → Map PendingRead
  advance_all telemetry_read settings_read now [] = []
  advance_all telemetry_read settings_read now ((field, t) ∷ rest) =
      (field, advance telemetry_read settings_read now t)
      ∷ advance_all telemetry_read settings_read now rest

  unfoldable pub finally : Reads → Bool → Bool → Monitor → Monitor
  finally r telemetry_read settings_read m = schedule r.owner_after r.ended (record m {
    busy = false;
    pending = advance_all telemetry_read settings_read r.ended m.pending;
  })

  -- The second read of `_refresh`. Its own result is not a coordinator update.
  abbrev pub settings_ended : Owner → ℕ → Ending → Monitor → Monitor
  settings_ended o now (done b) m = m
  settings_ended o now e m = (ended_by o now e m).1

  abbrev pub read_settings : Reads → Bool → Bool → Bool × Monitor → Monitor
  read_settings r telemetry_read due (false, m) = finally r telemetry_read false m
  read_settings r telemetry_read due (true, m) =
      if r.has_settings && (due && not (is_empty m.pending))
      then finally r telemetry_read true
          (settings_ended r.owner_after r.ended r.settings_ending (steps r.during_settings m))
      else finally r telemetry_read false m

  -- `_refresh`, from when its task starts to run.
  unfoldable pub refresh : Owner → ℕ → Reads → Monitor → Monitor
  refresh o now r m =
      let due = is_due now settings m.pending in
      if o.closed || o.transitioning
      then finally r false false (cancel m)
      else if is_due now telemetry m.pending
      then read_settings r true due
          (ended_by r.owner_after r.ended r.telemetry_ending (steps r.during_telemetry m))
      else read_settings r false due (true, m)
