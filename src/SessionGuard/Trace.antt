-- ===== src/SessionGuard/Trace.antt =====
-- The calls and task endings that a NativeSessionGuard meets, as explicit sequences.
use goodwe_wallbox_sems_home.Prelude.{
  ℕ, Bool, Option, none, some, List, [], ◌∷◌, leb, if◌then◌else◌, String,
}
use goodwe_wallbox_sems_home.NativeProtocol.Status.{NativeStatus}
use goodwe_wallbox_sems_home.SessionGuard.Defs.{
  Guard, Timer, sleeping, Protection, stopping_for, StopOutcome, begin, adopt, update_limit,
  observe, deadline_passed, protect_done, disarm, close, arm, Message, report_issue, told,
  set_error,
}

-- Each call with its time, where the method reads the clock.
pub data Event : Type 0 where
  begin_call : ℕ → ℕ → ℕ → ℕ → Event  -- now, limit, timeout, mode
  adopt_call : ℕ → ℕ → ℕ → ℕ → Event  -- now, limit, previous ceiling, mode
  update_call : ℕ → ℕ → Event  -- now, limit
  report : ℕ → NativeStatus → Event
  timer : ℕ → Event
  stop_result : StopOutcome → Event
  disarm_call : Event
  close_call : Bool → Event
  -- what the transport and the coordinator do with the guard on their own
  arm_call : ℕ → Event
  issue_call : String → Option ℕ → Option ℕ → Event
  error_set : Option String → Event

-- A RuntimeError of `arm` leaves the object as it was.
abbrev pub or_unchanged : Guard → Option Guard → Guard
or_unchanged g none = g
or_unchanged g (some h) = h

-- The sleeping task wakes at its time; a task that is not there does not end.
abbrev pub wake : ℕ → Timer → Guard → Guard
wake now (sleeping at) g = if leb at now then deadline_passed g else g
wake now _ g = g

abbrev pub end_task : Protection → StopOutcome → Guard → Guard
end_task (stopping_for reason) outcome g = protect_done reason outcome g
end_task _ outcome g = g

abbrev pub said : Option String → Option Message
said none = none
said (some t) = some (told t)

unfoldable pub step : Event → Guard → Guard
step (begin_call now limit timeout mode) g = or_unchanged g (begin now limit timeout mode g)
step (adopt_call now limit ceiling mode) g = or_unchanged g (adopt now limit ceiling mode g)
step (update_call now limit) g = update_limit now limit g
step (report now state) g = observe now state g
step (timer now) g = wake now g.deadline_task g
step (stop_result outcome) g = end_task g.task outcome g
step disarm_call g = disarm g
step (close_call expected) g = close expected g
step (arm_call limit) g = or_unchanged g (arm limit g)
step (issue_call text requested measured) g = report_issue (told text) requested measured g
step (error_set text) g = set_error (said text) g

unfoldable pub run : List Event → Guard → Guard
run [] g = g
run (e ∷ es) g = run es (step e g)
