-- ===== src/SessionGuard/Defs.antt =====
-- NativeSessionGuard of native_session_guard.py. Powers are counted in W, times in ms of the
-- monotonic clock. The two tasks of the object are parts of its state: a task ends by a call of
-- `deadline_passed` or `protect_done`, with what its await returned.
use goodwe_wallbox_sems_home.Prelude.{
  ℕ, ◌+◌, Bool, true, false, not, ◌&&◌, ◌||◌, String, str_eq, Option, none, some, List, [], ◌∷◌,
  ◌++◌, max, ltb, ◌==◌, if◌then◌else◌, is_some,
}
use goodwe_wallbox_sems_home.NativeProtocol.Status.{NativeStatus, charging, stopped}

pub data Phase : Type 0 where
  idle starting waiting active stopping ended unverified handover : Phase

-- Why a protective Stop is sent.
pub data Reason : Type 0 where
  overload not_observed : Reason

pub data Message : Type 0 where
  stop_pending stop_confirmed : Reason → Message
  stop_unconfirmed : String → Message
  supervision_ended : Message
  told : String → Message  -- what another module reports or sets

abbrev reason_eq : Reason → Reason → Bool
reason_eq overload overload = true
reason_eq not_observed not_observed = true
reason_eq _ _ = false

abbrev pub message_eq : Option Message → Option Message → Bool
message_eq none none = true
message_eq (some (stop_pending r)) (some (stop_pending s)) = reason_eq r s
message_eq (some (stop_confirmed r)) (some (stop_confirmed s)) = reason_eq r s
message_eq (some (stop_unconfirmed r)) (some (stop_unconfirmed s)) = str_eq r s
message_eq (some supervision_ended) (some supervision_ended) = true
message_eq (some (told s)) (some (told t)) = str_eq s t
message_eq _ _ = false

-- The protective task: none yet, waiting for its Stop, or done.
pub data Protection : Type 0 where
  unused : Protection
  stopping_for : Reason → Protection
  finished : Protection

-- The task that waits for charging to be seen: none yet, sleeping until a time, or over.
pub data Timer : Type 0 where
  unset : Timer
  sleeping : ℕ → Timer
  over : Timer

pub record Guard : Type 0 where
  pub reduction_grace : ℕ
  pub limit : Option ℕ
  pub settling_limits : List (ℕ × ℕ)
  pub error : Option Message
  pub requested_at_violation : Option ℕ
  pub measured_at_violation : Option ℕ
  pub task : Protection
  pub deadline_task : Timer
  pub phase : Phase
  pub mode : ℕ
  pub notices : ℕ  -- calls of `on_change`

unfoldable pub new : ℕ → Guard
new grace = record {
  reduction_grace = grace;
  limit = none;
  settling_limits = [];
  error = none;
  requested_at_violation = none;
  measured_at_violation = none;
  task = unused;
  deadline_task = unset;
  phase = idle;
  mode = 0;
  notices = 0;
}

abbrev pub notify : Guard → Guard
notify g = record g { notices = g.notices + 1 }

-- The setter of `error`.
abbrev pub set_error : Option Message → Guard → Guard
set_error value g = if message_eq value g.error then g else notify (record g { error = value })

abbrev pub stop_timer : Timer → Timer
stop_timer (sleeping at) = over
stop_timer t = t

abbrev pub cancel_deadline : Guard → Guard
cancel_deadline g = record g { deadline_task = stop_timer g.deadline_task }

abbrev pub report_issue : Message → Option ℕ → Option ℕ → Guard → Guard
report_issue message requested measured g =
    set_error (some message)
      (record g { requested_at_violation = requested; measured_at_violation = measured })

abbrev pub is_pending : Protection → Bool
is_pending (stopping_for r) = true
is_pending _ = false

-- `none` is the RuntimeError "Protective Stop is still pending".
unfoldable pub arm : ℕ → Guard → Option Guard
arm limit g =
    if is_pending g.task
    then none
    else some (
        set_error none (record (cancel_deadline g) {
          mode = 0;
          limit = some limit;
          settling_limits = [];
          requested_at_violation = none;
          measured_at_violation = none;
        }))

abbrev pub after_arm : Option Guard → (Guard → Guard) → Option Guard
after_arm none f = none
after_arm (some g) f = some (f g)

unfoldable pub begin : ℕ → ℕ → ℕ → ℕ → Guard → Option Guard
begin now limit timeout mode g = after_arm (arm limit g) λ armed.
    let g' =
      notify (record armed { mode = mode; phase = if mode == 0 then starting else waiting }) in
    if mode == 0 then record g' { deadline_task = sleeping (now + timeout) } else g'

abbrev pub is_starting : Phase → Bool
is_starting starting = true
is_starting _ = false

-- `_wait_for_charging` after its sleep.
unfoldable pub deadline_passed : Guard → Guard
deadline_passed g =
    let g' = record g { deadline_task = over } in
    if is_starting g.phase && (not (is_some g.error) && is_some g.limit)
    then record (report_issue (stop_pending not_observed) g.limit none
        (record g' { phase = stopping })) { task = stopping_for not_observed }
    else g'

-- The entries of `settling` that have not expired.
unfoldable pub unexpired : ℕ → List (ℕ × ℕ) → List (ℕ × ℕ)
unexpired now [] = []
unexpired now ((ceiling, until) ∷ rest) =
    if ltb now until then (ceiling, until) ∷ unexpired now rest else unexpired now rest

abbrev pub change_limit : ℕ → ℕ → ℕ → Guard → Guard
change_limit now limit old g =
    if limit == old
    then g
    else let kept = unexpired now g.settling_limits in
      record g {
        settling_limits =
            if ltb limit old then kept ++ ((old, now + g.reduction_grace) ∷ []) else kept;
        limit = some limit;
      }

unfoldable pub update_limit : ℕ → ℕ → Guard → Guard
update_limit now limit g = elim g.limit [ none ↦ g | some old ↦ change_limit now limit old g ]

unfoldable pub adopt : ℕ → ℕ → ℕ → ℕ → Guard → Option Guard
adopt now limit previous_ceiling mode g =
    after_arm (arm previous_ceiling g)
      λ armed. notify (update_limit now limit (record armed { mode = mode; phase = active }))

-- `max([self.limit, *(value for value, _ in settling)])`
unfoldable pub highest : ℕ → List (ℕ × ℕ) → ℕ
highest limit [] = limit
highest limit ((ceiling, until) ∷ rest) = max ceiling (highest limit rest)

unfoldable pub disarm : Guard → Guard
disarm g = notify (record (cancel_deadline (record g { limit = none })) { phase = ended })

abbrev pub is_starting_or_waiting : Phase → Bool
is_starting_or_waiting starting = true
is_starting_or_waiting waiting = true
is_starting_or_waiting _ = false

abbrev pub is_active : Phase → Bool
is_active active = true
is_active _ = false

-- The branches of `observe` on a report, once the expired allowances are dropped.
unfoldable pub supervise : ℕ → NativeStatus → Guard → Guard
supervise limit state g =
    if ltb (highest limit g.settling_limits + 500) state.power_kw
    then record (report_issue (stop_pending overload) (some limit) (some state.power_kw)
        (cancel_deadline (record g { phase = stopping }))) { task = stopping_for overload }
    else if is_starting_or_waiting g.phase && charging state
    then notify (cancel_deadline (record g { phase = active }))
    else if g.mode == 0
        && (is_active g.phase && (state.mode == 0 && (state.state == 3 && stopped state)))
    then disarm g
    else if not (g.mode == 0) && (is_active g.phase && state.power_kw == 0)
    then notify (record g { phase = waiting })
    else g

-- `observe` by the limit and the error: with no limit, or with an error, it does nothing.
abbrev pub observe_with : Option ℕ → Option Message → ℕ → NativeStatus → Guard → Guard
observe_with none error now state g = g
observe_with (some limit) (some message) now state g = g
observe_with (some limit) none now state g =
    supervise limit state (record g { settling_limits = unexpired now g.settling_limits })

unfoldable pub observe : ℕ → NativeStatus → Guard → Guard
observe now state g = observe_with g.limit g.error now state g

-- What `await self._stop()` of `_protect` comes to: a report, one of the exceptions that
-- `_protect` handles with its text, or another, which ends the task.
pub data StopOutcome : Type 0 where
  reported : NativeStatus → StopOutcome
  failed : String → StopOutcome
  escaped : StopOutcome

abbrev pub not_stopped : String
not_stopped = "Stop did not return a stopped observation"

abbrev pub unconfirmed : String → Guard → Guard
unconfirmed text g = set_error (some (stop_unconfirmed text)) (record g { phase = unverified })

unfoldable pub protect_done : Reason → StopOutcome → Guard → Guard
protect_done reason outcome g =
    let g' = record g { task = finished } in
    elim outcome [
      | reported state ↦
          if stopped state
          then set_error (some (stop_confirmed reason)) (record g' { phase = ended; limit = none })
          else unconfirmed not_stopped g'
      | failed text ↦ unconfirmed text g'
      | escaped ↦ g'
    ]

abbrev pub is_live : Phase → Bool
is_live starting = true
is_live waiting = true
is_live active = true
is_live stopping = true
is_live _ = false

abbrev pub cancel_task : Protection → Protection
cancel_task (stopping_for r) = finished
cancel_task t = t

-- The error of `close`: a session under supervision, or a Stop under way, is left unverified.
unfoldable pub mark_ended : Bool → Guard → Guard
mark_ended expected g =
    if is_some g.limit && (not (is_some g.error) && not expected || is_pending g.task)
    then set_error (some supervision_ended) g
    else g

-- The phase that `close` leaves.
unfoldable pub end_phase : Bool → Guard → Guard
end_phase expected g =
    if is_live g.phase
    then notify
        (record g { phase = if expected && not (is_some g.error) then handover else unverified })
    else g

-- `close`, called from outside the protective task. The waits for the two cancelled tasks are
-- taken as parts of the call.
unfoldable pub close : Bool → Guard → Guard
close expected g =
    let ended_g = cancel_deadline (record (mark_ended expected g) { limit = none }) in
    let closed = end_phase expected ended_g in record closed { task = cancel_task closed.task }
