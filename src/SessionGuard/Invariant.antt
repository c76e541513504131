-- ===== src/SessionGuard/Invariant.antt =====
-- What holds of a NativeSessionGuard between two calls.
use goodwe_wallbox_sems_home.Prelude.{refl, [], ◌∷◌}
use goodwe_wallbox_sems_home.Prelude.{
  ℕ, ◌≡◌, Bool, true, false, some, arith, is_some, none, Option, List, ◌∷◌,
}
use goodwe_wallbox_sems_home.NativeProtocol.Status.{NativeStatus}
use goodwe_wallbox_sems_home.SessionGuard.Trace.{
  or_unchanged, wake, end_task, begin_call, adopt_call, update_call, report, timer, disarm_call,
  close_call, Event, stop_result, step, run, arm_call, issue_call, error_set, said,
}
use goodwe_wallbox_sems_home.SessionGuard.Defs.{
  mark_ended, end_phase, stop_timer, cancel_deadline, Message, observe_with, Protection,
  stopping_for, begin, adopt, disarm, close, Guard, Phase, Timer, sleeping, starting, new,
  is_pending, begin, arm, observe, supervise, active, waiting, adopt, disarm, update_limit,
  deadline_passed, protect_done, close, Reason, StopOutcome, unexpired, set_error, told,
}

abbrev pub is_sleeping : Timer → Bool
is_sleeping (sleeping at) = true
is_sleeping _ = false

abbrev pub is_supervising : Phase → Bool
is_supervising starting = true
is_supervising waiting = true
is_supervising active = true
is_supervising _ = false

pub record Inv (g : Guard) : Type 0 where
  -- the timer sleeps only while charging is still to be seen
  pub sleeping_starts : is_sleeping g.deadline_task ≡ true → g.phase ≡ starting
  -- a supervised phase has a limit
  pub supervised : is_supervising g.phase ≡ true → is_some g.limit ≡ true
  -- while a protective Stop is under way the timer does not sleep
  pub pending_awake : is_pending g.task ≡ true → is_sleeping g.deadline_task ≡ false

pub new-Inv : (grace : ℕ) → Inv (new grace)
unfolding new
new-Inv grace = ground arith

begin-Inv :
    (now limit timeout mode : ℕ) (g h : Guard)
    → Inv g
    → begin now limit timeout mode g ≡ some h
    → Inv h
unfolding begin arm
begin-Inv now limit timeout mode g h i e = ground arith

adopt-Inv :
    (now limit ceiling mode : ℕ) (g h : Guard)
    → Inv g
    → adopt now limit ceiling mode g ≡ some h
    → Inv h
unfolding adopt arm update_limit
adopt-Inv now limit ceiling mode g h i e = ground arith

supervise-Inv :
    (limit : ℕ) (s : NativeStatus) (g : Guard)
    → Inv g
    → g.limit ≡ some limit
    → g.error ≡ none
    → Inv (supervise limit s g)
unfolding supervise disarm
supervise-Inv limit s g i l e = ground arith

observe_with-Inv :
    (limit : Option ℕ) (error : Option Message) (now : ℕ) (s : NativeStatus) (g : Guard)
    → g.limit ≡ limit
    → g.error ≡ error
    → Inv g
    → Inv (observe_with limit error now s g)
observe_with-Inv none error now s g l e i = i
observe_with-Inv (some limit) (some m) now s g l e i = i
observe_with-Inv (some limit) none now s g l e i =
    supervise-Inv limit s (record g { settling_limits = unexpired now g.settling_limits })
      (record {
        sleeping_starts = i.sleeping_starts;
        supervised = i.supervised;
        pending_awake = i.pending_awake;
      })
      l e

observe-Inv : (now : ℕ) (s : NativeStatus) (g : Guard) → Inv g → Inv (observe now s g)
unfolding observe
observe-Inv now s g i = observe_with-Inv g.limit g.error now s g refl refl i

update_limit-Inv : (now limit : ℕ) (g : Guard) → Inv g → Inv (update_limit now limit g)
unfolding update_limit
update_limit-Inv now limit g i = ground arith

deadline_passed-Inv : (g : Guard) → Inv g → Inv (deadline_passed g)
unfolding deadline_passed
deadline_passed-Inv g i = ground arith

protect_done-Inv :
    (r : Reason) (o : StopOutcome) (g : Guard)
    → Inv g
    → is_pending g.task ≡ true
    → Inv (protect_done r o g)
unfolding protect_done
protect_done-Inv r o g i p = ground arith

arm-Inv : (limit : ℕ) (g h : Guard) → Inv g → arm limit g ≡ some h → Inv h
unfolding arm
arm-Inv limit g h i e = ground arith

set_error-Inv : (m : Option Message) (g : Guard) → Inv g → Inv (set_error m g)
set_error-Inv m g i = ground arith

disarm-Inv : (g : Guard) → Inv g → Inv (disarm g)
unfolding disarm
disarm-Inv g i = ground arith

end_phase_fields :
    (expected : Bool) (g : Guard)
    → (is_supervising (end_phase expected g).phase ≡ false)
      × ((end_phase expected g).limit ≡ g.limit)
      × ((end_phase expected g).deadline_task ≡ g.deadline_task)
unfolding end_phase
end_phase_fields expected g = ground arith

not_sleeping : (t : Timer) → is_sleeping (stop_timer t) ≡ false
not_sleeping (sleeping at) = refl
not_sleeping _ = refl

close-Inv : (expected : Bool) (g : Guard) → Inv g → Inv (close expected g)
unfolding close
close-Inv expected g i =
    let h = cancel_deadline (record (mark_ended expected g) { limit = none }) in
    let (calm, no_limit, timer_kept) = end_phase_fields expected h in
    let quiet = not_sleeping (mark_ended expected g).deadline_task in
    record { sleeping_starts = λ p. cc; supervised = λ p. cc; pending_awake = λ p. cc }

or_unchanged-Inv :
    (g : Guard) (o : Option Guard)
    → Inv g
    → ((h : Guard) → o ≡ some h → Inv h)
    → Inv (or_unchanged g o)
or_unchanged-Inv g none i f = i
or_unchanged-Inv g (some h) i f = f h refl

wake-Inv : (now : ℕ) (t : Timer) (g : Guard) → Inv g → Inv (wake now t g)
wake-Inv now (sleeping at) g i = ground (arith, deadline_passed-Inv g i)
wake-Inv now _ g i = i

end_task-Inv :
    (t : Protection) (o : StopOutcome) (g : Guard) → g.task ≡ t → Inv g → Inv (end_task t o g)
end_task-Inv (stopping_for r) o g e i = protect_done-Inv r o g i (rw e)
end_task-Inv _ o g e i = i

-- Every call and every task ending, in any state, keeps the invariant.
pub step-Inv : (e : Event) (g : Guard) → Inv g → Inv (step e g)
unfolding step
step-Inv (begin_call now limit timeout mode) g i =
    or_unchanged-Inv g (begin now limit timeout mode g) i
      (λ h. begin-Inv now limit timeout mode g h i)
step-Inv (adopt_call now limit ceiling mode) g i =
    or_unchanged-Inv g (adopt now limit ceiling mode g) i
      (λ h. adopt-Inv now limit ceiling mode g h i)
step-Inv (update_call now limit) g i = update_limit-Inv now limit g i
step-Inv (report now s) g i = observe-Inv now s g i
step-Inv (timer now) g i = wake-Inv now g.deadline_task g i
step-Inv (stop_result outcome) g i = end_task-Inv g.task outcome g refl i
step-Inv disarm_call g i = disarm-Inv g i
step-Inv (close_call expected) g i = close-Inv expected g i
step-Inv (arm_call limit) g i = or_unchanged-Inv g (arm limit g) i (λ h. arm-Inv limit g h i)
step-Inv (issue_call text requested measured) g i =
    set_error-Inv (some (told text))
      (record g { requested_at_violation = requested; measured_at_violation = measured })
      (record {
        sleeping_starts = i.sleeping_starts;
        supervised = i.supervised;
        pending_awake = i.pending_awake;
      })
step-Inv (error_set text) g i = set_error-Inv (said text) g i

pub run-Inv : (es : List Event) (g : Guard) → Inv g → Inv (run es g)
unfolding run
run-Inv [] g i = i
run-Inv (e ∷ es) g i = run-Inv es (step e g) (step-Inv e g i)
