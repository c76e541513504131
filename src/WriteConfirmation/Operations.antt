-- ===== src/WriteConfirmation/Operations.antt =====
-- Each operation of WriteConfirmation keeps the readback watched.
use goodwe_wallbox_sems_home.Prelude.{
  ℕ, ◌≡◌, ◌⊎◌, inl, inr, refl, Bool, true, false, not, ◌||◌, String, none, [], ◌∷◌, if◌then◌else◌,
  arith, Bool-cases, ◌==◌, ◌+◌,
}
use goodwe_wallbox_sems_home.Prelude.Value.{Value}
use goodwe_wallbox_sems_home.Prelude.Maps.{Map, remove, has, put, get}
use goodwe_wallbox_sems_home.WriteConfirmation.Defs.{
  Source, Uncertainty, PendingRead, Result, Owner, Monitor, finish, finish_all, schedule, begin,
  accepted, rejected, holds,
}
use goodwe_wallbox_sems_home.WriteConfirmation.Schedule.{failed, cancel, close, wake, is_empty}
use goodwe_wallbox_sems_home.WriteConfirmation.Watched.{IsWatched, schedule-IsWatched}
use goodwe_wallbox_sems_home.WriteConfirmation.Judged.{finish_all-none, All-In}

pub begin-IsWatched :
    (o : Owner) (now : ℕ) (field : String) (m : Monitor)
    → IsWatched m
    → IsWatched (begin o now field m).1
unfolding begin finish
begin-IsWatched o now field m h = schedule-IsWatched o now _ (shut (has field m.pending))
  where
    m₁ : Monitor
    m₁ = record m { tokens = put field m.next_token m.tokens; next_token = m.next_token + 1 }

    shut :
        (b : Bool)
        → (if b then finish field Result.superseded m₁ else m₁).closed ≡ true
        → (if b then finish field Result.superseded m₁ else m₁).pending ≡ []
    shut true c = rw ((h.closed_waits c).1) refl
    shut false c = (h.closed_waits c).1

pub accepted-IsWatched :
    (o : Owner) (now : ℕ) (field : String) (value : Value) (ticket : ℕ × ℕ) (source : Source)
    (uncertain : Bool) (uncertainty : Uncertainty) (m : Monitor)
    → IsWatched m
    → IsWatched (accepted o now field value ticket source uncertain uncertainty m).1
unfolding accepted
accepted-IsWatched o now field value (token, epoch) source uncertain uncertainty m h =
    go (holds (get field m.tokens) token)
      (Bool-cases (m.closed || (o.local || (o.transitioning || not (epoch == o.routing_epoch)))))
  where
    outdated : Bool
    outdated = m.closed || (o.local || (o.transitioning || not (epoch == o.routing_epoch)))

    m₁ : Monitor
    m₁ = record m { tokens = remove field m.tokens }

    m₂ : Monitor
    m₂ = record m₁ { results = put field Result.cancelled m₁.results }

    m₃ : Monitor
    m₃ = record m₁ {
      pending =
          put field
            (record {
              value = value;
              epoch = epoch;
              started = now;
              source = source;
              last_read = now;
              uncertain = uncertain;
              uncertainty = uncertainty;
            })
            m₁.pending;
      results =
          put field (if uncertain then Result.pending_after uncertainty else Result.pending)
            m₁.results;
    }

    go :
        (b : Bool)
        → (outdated ≡ true) ⊎ (outdated ≡ false)
        → let r : Bool × Monitor =
            if not b
            then (false, m)
            else if outdated
            then (false, m₂)
            else (true, schedule o now m₃) in
          IsWatched r.1
    go false c = h
    go true (inl e) =
        rw e
          (record { busy_waits = h.busy_waits; closed_waits = h.closed_waits; watched = h.watched })
    go true (inr e) = rw e (schedule-IsWatched o now m₃ (λ c. absurd (ground (arith, e))))

pub rejected-IsWatched :
    (field : String) (ticket : ℕ × ℕ) (m : Monitor)
    → IsWatched m
    → IsWatched (rejected field ticket m)
unfolding rejected
rejected-IsWatched field (token, epoch) m h = go (holds (get field m.tokens) token)
  where
    go :
        (b : Bool)
        → IsWatched (
            if b
            then record m {
              tokens = remove field m.tokens;
              results = put field Result.write_failed m.results;
            }
            else m)
    go true = record {
      busy_waits = h.busy_waits;
      closed_waits = h.closed_waits;
      watched = h.watched;
    }
    go false = h

pub cancel-IsWatched : (m : Monitor) → IsWatched (cancel m)
unfolding cancel
cancel-IsWatched m = record {
  busy_waits = λ b. refl;
  closed_waits = λ c. (refl, none_left);
  watched = λ b. inl none_left;
}
  where
    none_left : (finish_all Result.cancelled m.pending m).pending ≡ []
    none_left = finish_all-none Result.cancelled m.pending m (All-In m.pending)

pub close-IsWatched : (m : Monitor) → IsWatched (close m)
unfolding close
close-IsWatched m = cancel-IsWatched (record m { closed = true })

pub failed-IsWatched : (o : Owner) (now : ℕ) (m : Monitor) → IsWatched (failed o now m)
unfolding failed
failed-IsWatched o now m =
    schedule-IsWatched o now (finish_all Result.read_failed m.pending m)
      (λ c. finish_all-none Result.read_failed m.pending m (All-In m.pending))

pub wake-IsWatched : (m : Monitor) → IsWatched m → IsWatched (wake m).1
unfolding wake
wake-IsWatched m h = go m.busy refl m.closed refl m.pending refl
  where
    go :
        (b : Bool)
        → m.busy ≡ b
        → (c : Bool) → m.closed ≡ c
        → (p : Map PendingRead) → m.pending ≡ p
        → let r : Bool × Monitor =
            if b || (c || is_empty p)
            then (false, record m { timer = none })
            else (true, record m { timer = none; busy = true }) in
          IsWatched r.1
    go true e c f p g = record {
      busy_waits = λ b. refl;
      closed_waits = λ c. (refl, (h.closed_waits c).1);
      watched = λ b. absurd (ground (arith, e, b));
    }
    go false e true f p g = record {
      busy_waits = λ b. refl;
      closed_waits = λ c. (refl, (h.closed_waits c).1);
      watched = λ b. inl (h.closed_waits f).1;
    }
    go false e false f [] g = record {
      busy_waits = λ b. refl;
      closed_waits = λ c. (refl, (h.closed_waits c).1);
      watched = λ b. inl g;
    }
    go false e false f (x ∷ p) g = record {
      busy_waits = λ b. refl;
      closed_waits = λ c. absurd (ground (arith, f, c));
      watched = λ b. absurd (ground (arith, b));
    }
