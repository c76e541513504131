-- ===== src/SessionGuard/Safety.antt =====
-- What a NativeSessionGuard guarantees about measured power, deadlines and pending Stops.
use goodwe_wallbox_sems_home.Prelude.{
  ℕ, ◌+◌, ◌≤◌, ◌≡◌, ◌⊎◌, inl, inr, refl, ap, Bool, true, Option, none, some, List, arith, is_some,
  if◌then◌else◌, ltb, String,
}
use mathlib.Core.Path.{ap₂}
use goodwe_wallbox_sems_home.NativeProtocol.Status.{NativeStatus, stopped}
use goodwe_wallbox_sems_home.SessionGuard.Defs.{
  Guard, Timer, sleeping, new, is_pending, begin, arm, adopt, update_limit, observe, supervise,
  deadline_passed, protect_done, disarm, close, stopping, StopOutcome, reported, unexpired, highest,
  stop_pending, stop_confirmed, overload, not_observed, stopping_for, Protection, observe_with,
  Message, Reason, mark_ended, end_phase, set_error, told,
}
use goodwe_wallbox_sems_home.SessionGuard.Trace.{
  begin_call, adopt_call, update_call, disarm_call, Event, stop_result, timer, report, close_call,
  step, run, wake, end_task, arm_call, issue_call, error_set, said,
}
use goodwe_wallbox_sems_home.SessionGuard.Invariant.{new-Inv, run-Inv}

abbrev ceiling : ℕ → ℕ → Guard → ℕ
ceiling now limit g = highest limit (unexpired now g.settling_limits)

-- What `observe` decides about an armed session without an error.
supervise_decides :
    (limit : ℕ) (s : NativeStatus) (g : Guard)
    → g.error ≡ none
    → let over = ltb (highest limit g.settling_limits + 500) s.power_kw in
      ((supervise limit s g).error ≡ (if over then some (stop_pending overload) else none))
      × ((supervise limit s g).task ≡ (if over then stopping_for overload else g.task))
      × (over ≡ true
          → ((supervise limit s g).phase ≡ stopping)
            × ((supervise limit s g).requested_at_violation ≡ some limit)
            × ((supervise limit s g).measured_at_violation ≡ some s.power_kw)
            × ((supervise limit s g).notices ≡ g.notices + 1))
unfolding supervise disarm
supervise_decides limit s g e = ground arith

pub observe-armed :
    (now limit : ℕ) (s : NativeStatus) (g : Guard)
    → g.limit ≡ some limit
    → g.error ≡ none
    → observe now s g
      ≡ supervise limit s (record g { settling_limits = unexpired now g.settling_limits })
unfolding observe
observe-armed now limit s g l e = ap₂ (λ lim err. observe_with lim err now s g) l e

-- A supervised report above the limit and the allowances that have not expired, by more than
-- 500 W, starts exactly one protective Stop and publishes the requested and the measured power;
-- a report within that ceiling starts none and reports no error.
pub observe_decides :
    (now limit : ℕ) (s : NativeStatus) (g : Guard)
    → g.limit ≡ some limit
    → g.error ≡ none
    → let over = ltb (highest limit (unexpired now g.settling_limits) + 500) s.power_kw in
      let h = observe now s g in
      (h.error ≡ (if over then some (stop_pending overload) else none))
      × (h.task ≡ (if over then stopping_for overload else g.task))
      × (over ≡ true
          → (h.phase ≡ stopping)
            × (h.requested_at_violation ≡ some limit)
            × (h.measured_at_violation ≡ some s.power_kw)
            × (h.notices ≡ g.notices + 1))
observe_decides now limit s g l e =
    rw (observe-armed now limit s g l e)
      (supervise_decides limit s (record g { settling_limits = unexpired now g.settling_limits }) e)

-- In every state that a new object can reach by its calls, its task endings and what other modules
-- report or set, a sleeping timer whose time has come requests a protective Stop, with the limit of
-- the session as evidence, unless an error is shown already.
pub timer_stops :
    (grace now : ℕ) (es : List Event) (at : ℕ)
    → let g = run es (new grace) in
      g.deadline_task ≡ sleeping at
      → at ≤ now
      → g.error ≡ none
      → let h = step (timer now) g in
        (h.task ≡ stopping_for not_observed)
        × (h.error ≡ some (stop_pending not_observed))
        × (h.phase ≡ stopping)
        × (h.requested_at_violation ≡ g.limit)
        × (is_some g.limit ≡ true)
unfolding step deadline_passed
timer_stops grace now es at d le calm =
    let i = run-Inv es (new grace) (new-Inv grace) in ground (arith, i)

-- The error after a report is the one before, or a pending Stop.
observe_error :
    (limit : Option ℕ) (error : Option Message) (now : ℕ) (s : NativeStatus) (g : Guard)
    → g.error ≡ error
    → ((observe_with limit error now s g).error ≡ g.error)
      ⊎ ((observe_with limit error now s g).error ≡ some (stop_pending overload))
observe_error none error now s g e = inl refl
observe_error (some limit) (some m) now s g e = inl refl
observe_error (some limit) none now s g e = ground (
  arith,
  supervise_decides limit s (record g { settling_limits = unexpired now g.settling_limits }),
)

end_task_error :
    (t : Protection) (o : StopOutcome) (g : Guard) (r : Reason)
    → (end_task t o g).error ≡ some (stop_confirmed r)
    → (g.error ≡ some (stop_confirmed r))
      ⊎ ((s : NativeStatus) × (o ≡ reported s) × (stopped s ≡ true))
unfolding protect_done
end_task_error (stopping_for reason) o g r h = ground arith
end_task_error _ o g r h = inl h

wake_error :
    (now : ℕ) (t : Timer) (g : Guard) (r : Reason)
    → (wake now t g).error ≡ some (stop_confirmed r)
    → g.error ≡ some (stop_confirmed r)
unfolding deadline_passed
wake_error now (sleeping at) g r h = ground arith
wake_error now _ g r h = h

close_error :
    (expected : Bool) (g : Guard) (r : Reason)
    → (close expected g).error ≡ some (stop_confirmed r)
    → g.error ≡ some (stop_confirmed r)
unfolding close mark_ended end_phase
close_error expected g r h = ground arith

-- Stop is reported as confirmed only after a report that shows the wallbox stopped.
pub confirmed_needs_stopped :
    (e : Event) (g : Guard) (r : Reason)
    → (step e g).error ≡ some (stop_confirmed r)
    → (g.error ≡ some (stop_confirmed r))
      ⊎ ((s : NativeStatus) × (e ≡ stop_result (reported s)) × (stopped s ≡ true))
unfolding step begin arm adopt update_limit observe disarm
confirmed_needs_stopped (begin_call now limit timeout mode) g r h = ground arith
confirmed_needs_stopped (adopt_call now limit ceiling mode) g r h = ground arith
confirmed_needs_stopped (update_call now limit) g r h = ground arith
confirmed_needs_stopped (report now s) g r h =
    ground (arith, observe_error g.limit g.error now s g refl)
confirmed_needs_stopped (timer now) g r h = inl (wake_error now g.deadline_task g r h)
confirmed_needs_stopped (stop_result o) g r h = elim (end_task_error g.task o g r h) [
  | inl same ↦ inl same
  | inr (s, e, done) ↦ inr (s, ap stop_result e, done)
]
confirmed_needs_stopped disarm_call g r h = ground arith
confirmed_needs_stopped (close_call expected) g r h = inl (close_error expected g r h)
confirmed_needs_stopped (arm_call limit) g r h = ground arith
confirmed_needs_stopped (issue_call text requested measured) g r h = ground arith
confirmed_needs_stopped (error_set none) g r h = ground arith
confirmed_needs_stopped (error_set (some text)) g r h = ground arith

pub observe_task :
    (limit : Option ℕ) (error : Option Message) (now : ℕ) (s : NativeStatus) (g : Guard)
    → is_some error ≡ true
    → observe_with limit error now s g ≡ g
observe_task none error now s g h = refl
observe_task (some limit) (some m) now s g h = refl
observe_task (some limit) none now s g h = cc

pub wake_task :
    (now : ℕ) (t : Timer) (g : Guard)
    → is_some g.error ≡ true
    → ((wake now t g).error ≡ g.error)
      × ((wake now t g).task ≡ g.task)
      × ((wake now t g).limit ≡ g.limit)
unfolding deadline_passed
wake_task now (sleeping at) g h = ground arith
wake_task now _ g h = (refl, refl, refl)

pub update_keeps :
    (now l : ℕ) (g : Guard)
    → ((update_limit now l g).task ≡ g.task) × ((update_limit now l g).error ≡ g.error)
unfolding update_limit
update_keeps now l g = ground arith

set_error_keeps :
    (m : Option Message) (g : Guard)
    → ((set_error m g).task ≡ g.task) × ((set_error m g).limit ≡ g.limit)
set_error_keeps m g = ground arith

-- An event by which another module changes the error.
abbrev pub IsTold : Event → Type 0
IsTold e =
    ((text : String) × (requested measured : Option ℕ) × (e ≡ issue_call text requested measured))
    ⊎ ((text : Option String) × (e ≡ error_set text))

-- While a protective Stop is pending and its error is shown, no call, task ending or report but its
-- own result and `close` ends it or replaces it, and no new session is armed: the limit changes only
-- by `update_limit` and `disarm`. The error stays too, unless another module reports or sets one.
pub pending_persists :
    (e : Event) (g : Guard)
    → is_pending g.task ≡ true
    → is_some g.error ≡ true
    → (((step e g).task ≡ g.task)
        × (((step e g).error ≡ g.error) ⊎ IsTold e)
        × (((step e g).limit ≡ g.limit)
            ⊎ (((now : ℕ) × (l : ℕ) × (e ≡ update_call now l)) ⊎ (e ≡ disarm_call))))
      ⊎ (((o : StopOutcome) × (e ≡ stop_result o)) ⊎ ((b : Bool) × (e ≡ close_call b)))
unfolding step begin arm adopt observe disarm
pending_persists (begin_call now limit timeout mode) g p shown =
    let same : step (begin_call now limit timeout mode) g ≡ g = ground (arith, p) in
    inl (ap Guard.task same, inl (ap Guard.error same), inl (ap Guard.limit same))
pending_persists (adopt_call now limit ceiling mode) g p shown =
    let same : step (adopt_call now limit ceiling mode) g ≡ g = ground (arith, p) in
    inl (ap Guard.task same, inl (ap Guard.error same), inl (ap Guard.limit same))
pending_persists (update_call now l) g p shown =
    let (t, m) = update_keeps now l g in inl (t, inl m, inr (inl (now, l, refl)))
pending_persists (report now s) g p shown =
    let same = observe_task g.limit g.error now s g shown in
    inl (ap Guard.task same, inl (ap Guard.error same), inl (ap Guard.limit same))
pending_persists (timer now) g p shown =
    let (e, t, l) = wake_task now g.deadline_task g shown in inl (t, inl e, inl l)
pending_persists (stop_result o) g p shown = inr (inl (o, refl))
pending_persists disarm_call g p shown = inl (refl, inl refl, inr (inr refl))
pending_persists (close_call b) g p shown = inr (inr (b, refl))
pending_persists (arm_call limit) g p shown =
    let same : step (arm_call limit) g ≡ g = ground (arith, p) in
    inl (ap Guard.task same, inl (ap Guard.error same), inl (ap Guard.limit same))
pending_persists (issue_call text requested measured) g p shown =
    let (t, l) =
      set_error_keeps (some (told text))
        (record g { requested_at_violation = requested; measured_at_violation = measured }) in
    inl (t, inr (inl (text, requested, measured, refl)), inl l)
pending_persists (error_set text) g p shown =
    let (t, l) = set_error_keeps (said text) g in inl (t, inr (inr (text, refl)), inl l)
