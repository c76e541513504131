-- ===== src/WriteConfirmation/Confirmed.antt =====
-- What a confirmation of WriteConfirmation rests on.
use goodwe_wallbox_sems_home.Prelude.{
  ℕ, ◌≡◌, ◌⊎◌, inl, refl, Bool, true, false, not, ◌||◌, String, Option, none, some, ◌+◌, ◌==◌,
}
use goodwe_wallbox_sems_home.Prelude.Value.{Value, Real}
use goodwe_wallbox_sems_home.Prelude.Maps.{get, put, remove, has}
use goodwe_wallbox_sems_home.WriteConfirmation.Shown.{
  consume_all-Shown, put-Kept, Kept-if, after-pending, schedule-Kept, finish_all-Kept, cancel-Kept,
  Kept, IsConfirmation, Confirms,
}
use goodwe_wallbox_sems_home.WriteConfirmation.Defs.{
  Source, Uncertainty, PendingRead, Result, Owner, Monitor, finish, finish_all, schedule, begin,
  accepted, rejected, holds, after, supersede,
}
use goodwe_wallbox_sems_home.WriteConfirmation.Schedule.{
  consume_all, observed, failed, close, wake, step, begins, accepts, rejects, observes, fails,
  cancels, closes, wakes, is_empty, Event,
}

begin-Kept :
    (o : Owner) (now : ℕ) (field : String) (m : Monitor)
    → Kept m.results (begin o now field m).1.results
unfolding begin finish
begin-Kept o now field m f x g c =
    Kept-if (λ n. n.results) m.results (has field m.pending) (finish field Result.superseded m₁) m₁
      (put-Kept field Result.superseded m.results (λ e. e)) (λ f x g c. g) f x
      (put-Kept field Result.writing m₂.results (λ e. e) f x
        (schedule-Kept o now (record m₂ { results = put field Result.writing m₂.results }) f x g c)
        c)
      c
  where
    m₁ : Monitor
    m₁ = record m { tokens = put field m.next_token m.tokens; next_token = m.next_token + 1 }

    m₂ : Monitor
    m₂ = supersede field m₁

accepted-Kept :
    (o : Owner) (now : ℕ) (field : String) (value : Value) (ticket : ℕ × ℕ) (source : Source)
    (uncertain : Bool) (uncertainty : Uncertainty) (m : Monitor)
    → Kept m.results (accepted o now field value ticket source uncertain uncertainty m).1.results
unfolding accepted
accepted-Kept o now field value (token, epoch) source uncertain uncertainty m =
    Kept-if (λ (r : Bool × Monitor). r.1.results) m.results (not (holds (get field m.tokens) token))
      (false, m) _ (λ f x g c. g)
      (Kept-if (λ (r : Bool × Monitor). r.1.results) m.results
        (m.closed || (o.local || (o.transitioning || not (epoch == o.routing_epoch))))
        (false, record m₁ { results = put field Result.cancelled m₁.results })
        (true, schedule o now m₃) (put-Kept field Result.cancelled m.results (λ e. e))
        λ f x g c.
          put-Kept field (after Result.pending_after Result.pending read) m.results
            (after-pending read) f x (schedule-Kept o now m₃ f x g c) c)
  where
    m₁ : Monitor
    m₁ = record m { tokens = remove field m.tokens }

    read : PendingRead
    read = record {
      value = value;
      epoch = epoch;
      started = now;
      source = source;
      last_read = now;
      uncertain = uncertain;
      uncertainty = uncertainty;
    }

    m₃ : Monitor
    m₃ = record m₁ {
      pending = put field read m₁.pending;
      results = put field (after Result.pending_after Result.pending read) m₁.results;
    }

rejected-Kept :
    (field : String) (ticket : ℕ × ℕ) (m : Monitor)
    → Kept m.results (rejected field ticket m).results
unfolding rejected
rejected-Kept field (token, epoch) m =
    Kept-if (λ n. n.results) m.results (holds (get field m.tokens) token) _ m
      (put-Kept field Result.write_failed m.results (λ e. e)) (λ f x g c. g)

wake-Kept : (m : Monitor) → Kept m.results (wake m).1.results
unfolding wake
wake-Kept m =
    Kept-if (λ (r : Bool × Monitor). r.1.results) m.results
      (m.busy || (m.closed || is_empty m.pending)) (false, record m { timer = none })
      (true, record m { timer = none; busy = true }) (λ f x g c. g) (λ f x g c. g)

-- A choice of a field is confirmed by a report only: one that comes from the source that the
-- choice is read back from, was not read before the choice was accepted, and shows the value asked
-- for. No other event makes a confirmation, not even the write's own acknowledgement.
pub confirmation-observed :
    (parse : String → Option Real) (e : Event) (m : Monitor) (field : String) (result : Result)
    → get field (step parse e m).results ≡ some result
    → IsConfirmation result
    → (get field m.results ≡ some result) ⊎ Confirms parse e m field
unfolding step observed failed close
confirmation-observed parse (begins o now field') m field r g c =
    inl (begin-Kept o now field' m field r g c)
confirmation-observed parse (accepts o now field' value ticket source uncertain u) m field r g c =
    inl (accepted-Kept o now field' value ticket source uncertain u m field r g c)
confirmation-observed parse (rejects field' ticket) m field r g c =
    inl (rejected-Kept field' ticket m field r g c)
confirmation-observed parse (observes o now report source read) m field r g c =
    let n = consume_all parse report source read now m.pending m in
    consume_all-Shown parse report source read m.cloud_session now m.pending m refl field r
      (schedule-Kept o now n field r g c) c
confirmation-observed parse (fails o now) m field r g c = inl (
    finish_all-Kept Result.read_failed m.pending m (λ e. e) field r
      (schedule-Kept o now (finish_all Result.read_failed m.pending m) field r g c) c)
confirmation-observed parse cancels m field r g c = inl (cancel-Kept m field r g c)
confirmation-observed parse closes m field r g c =
    inl (cancel-Kept (record m { closed = true }) field r g c)
confirmation-observed parse wakes m field r g c = inl (wake-Kept m field r g c)
