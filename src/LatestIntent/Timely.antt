-- ===== src/LatestIntent/Timely.antt =====
-- The steps of the task keep the time to live of every choice.
use mathlib.Core.Path.{subst}
use goodwe_wallbox_sems_home.Prelude.{
  sym, ℕ, ◌≡◌, refl, Bool, true, false, not, ◌||◌, Option, none, some, [], ◌∷◌, is_some,
  if◌then◌else◌, arith,
}
use goodwe_wallbox_sems_home.LatestIntent.Defs.{
  Key, Choice, Request, Pending, get, remove, Error, Intent, Owner, ready, same_choice, is_empty,
  next, fail,
}
use goodwe_wallbox_sems_home.LatestIntent.Run.{
  finish, is_over, take, turn, released, requeue, discard,
}
use goodwe_wallbox_sems_home.LatestIntent.Retained.{
  Bounded, BoundedAll, Executed, IsTimely, BoundedAll-remove, BoundedAll-put, get-Bounded,
}

pub finish-IsTimely :
    (now : ℕ) (i : Intent) → i.executing ≡ none → IsTimely now i → IsTimely now (finish i)
unfolding finish
finish-IsTimely now i idle h = go i.pending h.waiting refl
  where
    go :
        (p : Pending)
        → BoundedAll i.batch_deadline p
        → i.pending ≡ p
        → IsTimely now (
            if is_empty p
            then record i { batch_deadline = none; running = false }
            else record i { running = not i.closed })
    go [] b e = record {
      not_later = tt;
      waiting = subst (BoundedAll none) (sym e) tt;
      executed = subst (Executed none) (sym idle) tt;
    }
    go (x ∷ p) b e = record { not_later = h.not_later; waiting = h.waiting; executed = h.executed }

pub fail-IsTimely :
    (now : ℕ) (e : Error) (i : Intent) → i.executing ≡ none → IsTimely now (fail e i)
unfolding fail
fail-IsTimely now e i idle = record {
  not_later = tt;
  waiting = tt;
  executed = subst (Executed none) (sym idle) tt;
}

pub IsTimely-if :
    (now : ℕ) (b : Bool) (i j : Intent)
    → (b ≡ true → IsTimely now i)
    → (b ≡ false → IsTimely now j)
    → IsTimely now (if b then i else j)
IsTimely-if now true i j h k = h refl
IsTimely-if now false i j h k = k refl

pub released-IsTimely : (now : ℕ) (i : Intent) → IsTimely now i → IsTimely now (released i)
released-IsTimely now i h = record { not_later = h.not_later; waiting = h.waiting; executed = tt }

pub take-IsTimely :
    (now : ℕ) (k : Option Key) (i : Intent) → IsTimely now i → IsTimely now (take k i)
take-IsTimely now none i h = h
take-IsTimely now (some k) i h =
    go (get k i.pending) (λ r. get-Bounded i.batch_deadline k r i.pending h.waiting)
  where
    go :
        (o : Option Request)
        → ((r : Request) → o ≡ some r → Bounded i.batch_deadline r)
        → IsTimely now (elim o [
          | none ↦ i
          | some r ↦ record i { pending = remove k i.pending; executing = some (k, r, i.version) }
        ])
    go none f = h
    go (some r) f = record {
      not_later = h.not_later;
      waiting = BoundedAll-remove i.batch_deadline k i.pending h.waiting;
      executed = f r refl;
    }

pub turn-IsTimely :
    (now : ℕ) (o : Owner) (i : Intent) → IsTimely now i → IsTimely now (turn o now i)
unfolding turn
turn-IsTimely now o i h =
    IsTimely-if now (not i.running || is_some i.executing) i _ (λ b. h)
      λ b.
        IsTimely-if now (is_empty i.pending || i.closed) (finish i) _
          (λ c. finish-IsTimely now i (idle i.executing (ground (arith, b))) h)
          λ c.
            IsTimely-if now (is_over now i.batch_deadline) (finish (fail Error.expired i)) _
              (λ d.
                unfold fail in
                finish-IsTimely now (fail Error.expired i)
                  (unfold fail in idle i.executing (ground (arith, b)))
                  (fail-IsTimely now Error.expired i (idle i.executing (ground (arith, b)))))
              λ d.
                IsTimely-if now (not (ready o)) i (take (next o i.pending) i) (λ e. h)
                  (λ e. take-IsTimely now (next o i.pending) i h)
  where
    idle : (x : Option (Key × Request × ℕ)) → is_some x ≡ false → x ≡ none
    idle none e = refl
    idle (some x) e = absurd (ground (arith, e))

pub discard-IsTimely : (now : ℕ) (i : Intent) → IsTimely now i → IsTimely now (discard (released i))
unfolding discard
discard-IsTimely now i h =
    go (get Key.charging i.pending)
      (λ r. get-Bounded i.batch_deadline Key.charging r i.pending h.waiting)
  where
    dropped : IsTimely now (finish (fail Error.operation_failed (released i)))
    dropped =
        unfold fail in
        finish-IsTimely now (fail Error.operation_failed (released i)) (unfold fail in refl)
          (fail-IsTimely now Error.operation_failed (released i) refl)

    go :
        (o : Option Request)
        → ((r : Request) → o ≡ some r → Bounded i.batch_deadline r)
        → IsTimely now (elim o [
          | none ↦ finish (fail Error.operation_failed (released i))
          | some r ↦
              if same_choice r.value Choice.off
              then record (released i) {
                pending = (Key.charging, r) ∷ [];
                error = some Error.operation_failed;
              }
              else finish (fail Error.operation_failed (released i))
        ])
    go none f = dropped
    go (some r) f =
        IsTimely-if now (same_choice r.value Choice.off) _
          (finish (fail Error.operation_failed (released i)))
          (λ c. record { not_later = h.not_later; waiting = (f r refl, tt); executed = tt })
          (λ c. dropped)

pub requeue-IsTimely :
    (now : ℕ) (k : Key) (r : Request) (i : Intent)
    → Bounded i.batch_deadline r
    → IsTimely now i
    → IsTimely now (requeue k r i)
unfolding requeue
requeue-IsTimely now k r i b h =
    IsTimely-if now _ _ i
      (λ c. record {
        not_later = h.not_later;
        waiting = BoundedAll-put i.batch_deadline Key.charging r i.pending b h.waiting;
        executed = h.executed;
      })
      (λ c. h)
