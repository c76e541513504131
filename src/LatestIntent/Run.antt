-- ===== src/LatestIntent/Run.antt =====
-- The task of LatestIntent: `_run`, cut at its awaits, and `close`.
use goodwe_wallbox_sems_home.Prelude.{
  ℕ, ◌+◌, Bool, true, false, not, ◌&&◌, ◌||◌, Option, none, some, List, [], ◌∷◌, leb, ◌==◌, is_some,
  if◌then◌else◌,
}
use goodwe_wallbox_sems_home.LatestIntent.Defs.{
  Key, charging, mode, on, off, same_key, same_choice, Choice, Request, get, put, remove, Error,
  Intent, Owner, ready, submit, is_empty, next, fail,
}

-- What an operation comes to: RequestSuperseded, or any other exception.
pub data Outcome : Type 0 where
  succeeded superseded failed : Outcome

-- What `recover_control` comes to: True, False, RequestSuperseded, or any other exception.
pub data Recovery : Type 0 where
  recovered declined newer_choice recovery_failed : Recovery

-- The end of a pass of the task: another task takes over what is still pending.
unfoldable pub finish : Intent → Intent
finish i =
    if is_empty i.pending
    then record i { batch_deadline = none; running = false }
    else record i { running = not i.closed }

abbrev pub is_over : ℕ → Option ℕ → Bool
is_over now none = false
is_over now (some deadline) = leb deadline now

-- Taking the next request: it leaves the queue before its operation is called.
abbrev pub take : Option Key → Intent → Intent
take none i = i
take (some k) i = elim (get k i.pending) [
  | none ↦ i
  | some r ↦ record i { pending = remove k i.pending; executing = some (k, r, i.version) }
]

-- One turn of the loop, up to its await.
unfoldable pub turn : Owner → ℕ → Intent → Intent
turn o now i =
    if not i.running || is_some i.executing
    then i
    else if is_empty i.pending || i.closed
    then finish i
    else if is_over now i.batch_deadline
    then finish (fail Error.expired i)
    else if not (ready o)
    then i
    else take (next o i.pending) i

abbrev pub released : Intent → Intent
released i = record i { executing = none; failing = false }

-- A Start whose preparation was superseded is kept, unless a newer Start, Stop or mode came.
unfoldable pub requeue : Key → Request → Intent → Intent
requeue key r i =
    if same_key key charging
      && (same_choice r.value on
          && not (is_some (get charging i.pending) || is_some (get mode i.pending)))
    then record i { pending = put charging r i.pending }
    else i

-- After a failure that was not recovered only a newer Stop survives.
unfoldable pub discard : Intent → Intent
discard i = elim (get charging i.pending) [
  | none ↦ finish (fail Error.operation_failed i)
  | some r ↦
      if same_choice r.value off
      then record i { pending = (charging, r) ∷ []; error = some Error.operation_failed }
      else finish (fail Error.operation_failed i)
]

unfoldable pub ended_with : Bool → Key → Request → ℕ → Outcome → Intent → Intent
ended_with control key r version succeeded i = released i
ended_with control key r version superseded i =
    if not (version == i.version) && not (is_empty i.pending)
    then released (requeue key r i)
    else if control
    then record i { failing = true }
    else discard (released i)
ended_with control key r version failed i =
    if control then record i { failing = true } else discard (released i)

-- The operation ends; `control` is whether there is a control fallback.
unfoldable pub ended : Bool → Outcome → Intent → Intent
ended control outcome i = elim i.executing [
  | none ↦ i
  | some (k, r, v) ↦ if i.failing then i else ended_with control k r v outcome i
]

unfoldable pub recovery_ended : Recovery → Intent → Intent
recovery_ended recovered i = if i.failing then released i else i
recovery_ended newer_choice i =
    if i.failing then (if is_empty i.pending then discard (released i) else released i) else i
recovery_ended r i = if i.failing then discard (released i) else i

unfoldable pub close : Intent → Intent
close i = record i {
  closed = true;
  pending = [];
  batch_deadline = none;
  running = false;
  executing = none;
  failing = false;
  invalidations = i.invalidations + 1;
}

-- The steps of the whole, between which time passes.
pub data Event : Type 0 where
  submits : Owner → Key → Choice → Bool → Event
  turns : Owner → Event
  ends : Bool → Outcome → Event
  recovers : Recovery → Event
  closes : Event

unfoldable pub step : ℕ → Event → Intent → Intent
step now (submits o key value force) i = (submit o now key value force i).1
step now (turns o) i = turn o now i
step now (ends control outcome) i = ended control outcome i
step now (recovers r) i = recovery_ended r i
step now closes i = close i

unfoldable pub run : List (ℕ × Event) → ℕ × Intent → ℕ × Intent
run [] s = s
run ((elapsed, e) ∷ es) (now, i) = run es (now + elapsed, step (now + elapsed) e i)
