-- ===== src/LatestIntent/Expiry.antt =====
-- No choice of LatestIntent is executed after its expiry.
use mathlib.Core.Path.{subst}
use goodwe_wallbox_sems_home.Prelude.{
  ap, ℕ, ◌+◌, ◌<◌, ◌≡◌, refl, Bool, true, false, not, ◌&&◌, ◌||◌, Option, none, some, List, [], ◌∷◌,
  ◌==◌, is_some, if◌then◌else◌, arith,
}
use goodwe_wallbox_sems_home.LatestIntent.Defs.{
  Key, Choice, Request, get, remove, Error, Intent, Owner, ready, submit, blackout, is_unknown,
  executes_start, Submitted, same_key, same_choice, is_value, is_empty, next, fail, new, same_key,
}
use goodwe_wallbox_sems_home.LatestIntent.Run.{
  Outcome, Recovery, finish, is_over, take, turn, released, requeue, discard, ended_with, ended,
  recovery_ended, close, Event, step, run,
}
use goodwe_wallbox_sems_home.LatestIntent.Retained.{
  get-Bounded, IsTimely-later, retained-IsTimely, IsTimely, Bounded, Executed,
}
use goodwe_wallbox_sems_home.LatestIntent.Timely.{
  IsTimely-if, released-IsTimely, turn-IsTimely, discard-IsTimely, requeue-IsTimely,
}

failing-IsTimely :
    (now : ℕ) (i : Intent) → IsTimely now i → IsTimely now (record i { failing = true })
failing-IsTimely now i h = record {
  not_later = h.not_later;
  waiting = h.waiting;
  executed = h.executed;
}

ended_with-IsTimely :
    (now : ℕ) (control : Bool) (k : Key) (r : Request) (v : ℕ) (outcome : Outcome) (i : Intent)
    → Bounded i.batch_deadline r
    → IsTimely now i
    → IsTimely now (ended_with control k r v outcome i)
unfolding ended_with
ended_with-IsTimely now control k r v Outcome.succeeded i b h = released-IsTimely now i h
ended_with-IsTimely now control k r v Outcome.superseded i b h =
    IsTimely-if now (not (v == i.version) && not (is_empty i.pending)) (released (requeue k r i)) _
      (λ c. released-IsTimely now (requeue k r i) (requeue-IsTimely now k r i b h))
      λ c.
        IsTimely-if now control (record i { failing = true }) (discard (released i))
          (λ d. failing-IsTimely now i h) (λ d. discard-IsTimely now i h)
ended_with-IsTimely now control k r v Outcome.failed i b h =
    IsTimely-if now control (record i { failing = true }) (discard (released i))
      (λ d. failing-IsTimely now i h) (λ d. discard-IsTimely now i h)

ended-IsTimely :
    (now : ℕ) (control : Bool) (outcome : Outcome) (i : Intent)
    → IsTimely now i
    → IsTimely now (ended control outcome i)
unfolding ended
ended-IsTimely now control outcome i h = go i.executing h.executed
  where
    go :
        (x : Option (Key × Request × ℕ))
        → Executed i.batch_deadline x
        → IsTimely now (elim x [
          | none ↦ i
          | some (k, r, v) ↦ if i.failing then i else ended_with control k r v outcome i
        ])
    go none b = h
    go (some (k, r, v)) b =
        IsTimely-if now i.failing i (ended_with control k r v outcome i) (λ c. h)
          (λ c. ended_with-IsTimely now control k r v outcome i b h)

recovery_ended-IsTimely :
    (now : ℕ) (r : Recovery) (i : Intent) → IsTimely now i → IsTimely now (recovery_ended r i)
unfolding recovery_ended
recovery_ended-IsTimely now Recovery.recovered i h =
    IsTimely-if now i.failing (released i) i (λ c. released-IsTimely now i h) (λ c. h)
recovery_ended-IsTimely now Recovery.newer_choice i h =
    IsTimely-if now i.failing (if is_empty i.pending then discard (released i) else released i) i
      (λ c.
        IsTimely-if now (is_empty i.pending) (discard (released i)) (released i)
          (λ d. discard-IsTimely now i h) (λ d. released-IsTimely now i h))
      (λ c. h)
recovery_ended-IsTimely now Recovery.declined i h =
    IsTimely-if now i.failing (discard (released i)) i (λ c. discard-IsTimely now i h) (λ c. h)
recovery_ended-IsTimely now Recovery.recovery_failed i h =
    IsTimely-if now i.failing (discard (released i)) i (λ c. discard-IsTimely now i h) (λ c. h)

submit-IsTimely :
    (now : ℕ) (o : Owner) (key : Key) (value : Choice) (force : Bool) (i : Intent)
    → IsTimely now i
    → IsTimely now (submit o now key value force i).1
unfolding submit
submit-IsTimely now o key value force i h =
    branch i.closed _ _ (λ a. h)
      λ a.
        branch (not (force || (blackout o || (not (is_empty i.pending) || is_some i.executing)))) _
          _ (λ b. h)
          λ b.
            branch (is_unknown key) _ _ (λ c. h)
              λ c.
                branch (is_value (get key i.pending) value) _ _ (λ d. h)
                  λ d.
                    branch
                      (same_key key Key.charging
                        && (same_choice value Choice.on && executes_start i.executing i.version))
                      _ _ (λ e. h) (λ e. retained-IsTimely now key value i h)
  where
    branch :
        (b : Bool) (x y : Submitted × Intent)
        → (b ≡ true → IsTimely now x.1)
        → (b ≡ false → IsTimely now y.1)
        → IsTimely now (if b then x else y).1
    branch true x y h k = h refl
    branch false x y h k = k refl

step-IsTimely : (now : ℕ) (e : Event) (i : Intent) → IsTimely now i → IsTimely now (step now e i)
unfolding step close
step-IsTimely now (Event.submits o key value force) i h = submit-IsTimely now o key value force i h
step-IsTimely now (Event.turns o) i h = turn-IsTimely now o i h
step-IsTimely now (Event.ends control outcome) i h = ended-IsTimely now control outcome i h
step-IsTimely now (Event.recovers r) i h = recovery_ended-IsTimely now r i h
step-IsTimely now Event.closes i h = record { not_later = tt; waiting = tt; executed = tt }

run-IsTimely :
    (es : List (ℕ × Event)) (now : ℕ) (i : Intent)
    → IsTimely now i
    → IsTimely (run es (now, i)).0 (run es (now, i)).1
unfolding run
run-IsTimely [] now i h = h
run-IsTimely ((elapsed, e) ∷ es) now i h =
    run-IsTimely es (now + elapsed) (step (now + elapsed) e i)
      (step-IsTimely (now + elapsed) e i (IsTimely-later now elapsed i h))

abbrev request_of : Request → Option (Key × Request × ℕ) → Request
request_of q none = q
request_of q (some (k, r, v)) = r

module _ (key : Key) (r : Request) (version : ℕ) where
  abbrev Starts : Intent → Type 0
  Starts i = i.executing ≡ some (key, r, version)

  reached :
      {G : Type 0} (b : Bool) (i j : Intent)
      → Starts (if b then i else j)
      → (b ≡ true → Starts i → G)
      → (b ≡ false → Starts j → G)
      → G
  reached true i j s f g = f refl s
  reached false i j s f g = g refl s

  not_idle : {G : Type 0} (i : Intent) → i.executing ≡ none → Starts i → G
  not_idle i e s = absurd (ground (arith, e, s))

  finish-idle : (i : Intent) → i.executing ≡ none → (finish i).executing ≡ none
  unfolding finish
  finish-idle i e = go (is_empty i.pending)
    where
      go :
          (b : Bool)
          → (if b
              then record i { batch_deadline = none; running = false }
              else record i { running = not i.closed }).executing
            ≡ none
      go true = e
      go false = e

  take-timely :
      (now : ℕ) (k : Option Key) (i : Intent)
      → i.executing ≡ none
      → IsTimely now i
      → is_over now i.batch_deadline ≡ false
      → Starts (take k i)
      → now < r.requested_at + 120000
  take-timely now none i e h over s = not_idle i e s
  take-timely now (some k) i e h over s =
      go (get k i.pending) (λ q. get-Bounded i.batch_deadline k q i.pending h.waiting) s
    where
      soon :
          (d : Option ℕ) (q : Request)
          → is_over now d ≡ false
          → Bounded d q
          → now < q.requested_at + 120000
      soon none q o b = absurd b
      soon (some d) q o b = ground (arith, o, b)

      go :
          (o : Option Request)
          → ((q : Request) → o ≡ some q → Bounded i.batch_deadline q)
          → Starts (elim o [
            | none ↦ i
            | some q ↦ record i { pending = remove k i.pending; executing = some (k, q, i.version) }
          ])
          → now < r.requested_at + 120000
      go none f s = not_idle i e s
      go (some q) f s =
          subst (λ (x : Request). now < x.requested_at + 120000) (ap (request_of q) s)
            (soon i.batch_deadline q over (f q refl))

  turn-timely :
      (now : ℕ) (o : Owner) (i : Intent)
      → i.executing ≡ none
      → IsTimely now i
      → Starts (turn o now i)
      → now < r.requested_at + 120000
  unfolding turn fail
  turn-timely now o i e h s =
      reached (not i.running || is_some i.executing) i _ s (λ b t. not_idle i e t)
        λ b t.
          reached (is_empty i.pending || i.closed) (finish i) _ t
            (λ c u. not_idle (finish i) (finish-idle i e) u)
            λ c u.
              reached (is_over now i.batch_deadline) (finish (fail Error.expired i)) _ u
                (λ d x.
                  not_idle (finish (fail Error.expired i)) (finish-idle (fail Error.expired i) e) x)
                λ d x.
                  reached (not (ready o)) i (take (next o i.pending) i) x (λ f y. not_idle i e y)
                    (λ f y. take-timely now (next o i.pending) i e h d y)

-- Whatever is submitted, executed, superseded, failed and recovered in a run, a request whose
-- operation is started was made less than 120 s before; repeating a choice does not extend that.
pub start-timely :
    (es : List (ℕ × Event)) (o : Owner) (key : Key) (r : Request) (version : ℕ)
    → let s = run es (0, new) in
      s.1.executing ≡ none
      → (turn o s.0 s.1).executing ≡ some (key, r, version)
      → s.0 < r.requested_at + 120000
unfolding new
start-timely es o key r version idle started =
    turn-timely key r version (run es (0, new)).0 o (run es (0, new)).1 idle
      (run-IsTimely es 0 new (record { not_later = tt; waiting = tt; executed = tt })) started
