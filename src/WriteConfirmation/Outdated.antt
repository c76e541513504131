-- ===== src/WriteConfirmation/Outdated.antt =====
-- What keeps a ticket of WriteConfirmation outdated.
use goodwe_wallbox_sems_home.Prelude.{
  sym, ◌⊎◌, ℕ, ◌+◌, ◌<◌, ◌≡◌, ◌≢◌, refl, ◌∙◌, Bool, Bool-cases, true, false, not, ◌&&◌, ◌||◌,
  String, Option, none, some, List, [], ◌∷◌, str_eq, eq_iff, if◌then◌else◌, arith, inl, inr, ap,
  ◌==◌,
}
use mathlib.Core.Path.{subst}
use goodwe_wallbox_sems_home.Prelude.Value.{Value, Real, number_in}
use goodwe_wallbox_sems_home.Prelude.Maps.{
  Map, get, put, has, remove, get-put, get-put_same, get-remove,
}
use goodwe_wallbox_sems_home.WriteConfirmation.Match.{Report, matches, at}
use goodwe_wallbox_sems_home.WriteConfirmation.Defs.{
  Source, Uncertainty, Result, Owner, Monitor, PendingRead, finish, finish_all, schedule, begin,
  accepted, rejected, holds, supersede, after, same_source, device_rejected, confirmed,
  confirmed_after,
}
use goodwe_wallbox_sems_home.WriteConfirmation.Schedule.{
  Event, begins, accepts, rejects, observes, fails, cancels, closes, wakes, step, steps, consume,
  consume_all, observed, failed, cancel, close, wake, too_old, asks_start, touch, is_empty,
}
use goodwe_wallbox_sems_home.WriteConfirmation.Watched.{judge_all-SameFlags, finish_all-SameFlags}

-- The ticket of a number was issued, and is not the latest one of the field.
pub record IsOutdated (field : String) (token : ℕ) (m : Monitor) : Type 0 where
  pub gone : get field m.tokens ≢ some token
  pub issued : token < m.next_token

pub outdated-holds : (o : Option ℕ) (token : ℕ) → o ≢ some token → holds o token ≡ false
outdated-holds none token h = refl
outdated-holds (some t) token h = elim (Bool-cases (t == token)) [
  | inl e ↦ absurd (h (ap some (ground (arith, e))))
  | inr e ↦ e
]

-- What leaves the tickets alone.
record SameTickets (m n : Monitor) : Type 0 where
  tokens : n.tokens ≡ m.tokens
  next : n.next_token ≡ m.next_token

schedule-SameTickets : (o : Owner) (now : ℕ) (m : Monitor) → SameTickets m (schedule o now m)
unfolding schedule
schedule-SameTickets o now m =
    let f = judge_all-SameFlags o now m.pending (record m { timer = none }, []) in
    record { tokens = f.same_tokens; next = f.same_next }

module _ (field : String) (token : ℕ) where
  kept : (m n : Monitor) → SameTickets m n → IsOutdated field token m → IsOutdated field token n
  kept m n s h = record {
    gone = λ e. h.gone (ap (get field) (sym s.tokens) ∙ e);
    issued = subst (λ k. token < k) (sym s.next) h.issued;
  }

  removed :
      (k : String) (m : Monitor) (results : Map Result)
      → IsOutdated field token m
      → IsOutdated field token (record m { tokens = remove k m.tokens; results = results })
  removed k m results h = record {
    gone = λ e. h.gone (get-remove field k token m.tokens e);
    issued = h.issued;
  }

  issued_new :
      (k : String) (m : Monitor)
      → token < m.next_token
      → (str_eq field k ≡ true) ⊎ (get field m.tokens ≢ some token)
      → IsOutdated field token
          (record m { tokens = put k m.next_token m.tokens; next_token = m.next_token + 1 })
  issued_new k m h c = record { gone = fresh c; issued = omega (arith, h) }
    where
      fresh :
          (str_eq field k ≡ true) ⊎ (get field m.tokens ≢ some token)
          → get field (put k m.next_token m.tokens) ≢ some token
      fresh (inr n) e = elim (get-put field k m.next_token token m.tokens e) [
        | inl (p, q) ↦ omega (arith, h, q)
        | inr old ↦ n old
      ]
      fresh (inl same) e =
          let there : get field (put k m.next_token m.tokens) ≡ some m.next_token =
            subst (λ j. get j (put k m.next_token m.tokens) ≡ some m.next_token)
              (sym ((eq_iff field k).0 same)) (get-put_same k m.next_token m.tokens) in
          absurd (ground (arith, h, there, e))

  pub begin-IsOutdated :
      (o : Owner) (now : ℕ) (k : String) (m : Monitor)
      → token < m.next_token
      → (str_eq field k ≡ true) ⊎ (get field m.tokens ≢ some token)
      → IsOutdated field token (begin o now k m).1
  unfolding begin finish
  begin-IsOutdated o now k m h c =
      kept m₃ (schedule o now m₃) (schedule-SameTickets o now m₃)
        (kept m₁ m₃ (go (has k m.pending)) (issued_new k m h c))
    where
      m₁ : Monitor
      m₁ = record m { tokens = put k m.next_token m.tokens; next_token = m.next_token + 1 }

      m₃ : Monitor
      m₃ = record (supersede k m₁) { results = put k Result.writing (supersede k m₁).results }

      go :
          (b : Bool)
          → SameTickets m₁ (
              let n = if b then finish k Result.superseded m₁ else m₁ in
              record n { results = put k Result.writing n.results })
      go true = record { tokens = refl; next = refl }
      go false = record { tokens = refl; next = refl }

  accepted-IsOutdated :
      (o : Owner) (now : ℕ) (k : String) (value : Value) (ticket : ℕ × ℕ) (source : Source)
      (uncertain : Bool) (u : Uncertainty) (m : Monitor)
      → IsOutdated field token m
      → IsOutdated field token (accepted o now k value ticket source uncertain u m).1
  unfolding accepted
  accepted-IsOutdated o now k value (t, epoch) source uncertain u m h =
      go (holds (get k m.tokens) t)
        (m.closed || (o.local || (o.transitioning || not (epoch == o.routing_epoch))))
    where
      read : PendingRead
      read = record {
        value = value;
        epoch = epoch;
        started = now;
        source = source;
        last_read = now;
        uncertain = uncertain;
        uncertainty = u;
      }

      m₂ : Monitor
      m₂ = record m { tokens = remove k m.tokens; results = put k Result.cancelled m.results }

      m₃ : Monitor
      m₃ = record m {
        tokens = remove k m.tokens;
        pending = put k read m.pending;
        results = put k (after Result.pending_after Result.pending read) m.results;
      }

      left : IsOutdated field token m₃
      left = record { gone = λ e. h.gone (get-remove field k token m.tokens e); issued = h.issued }

      go :
          (x y : Bool)
          → (let r : Bool × Monitor =
                if not x
                then (false, m)
                else if y
                then (false, m₂)
                else (true, schedule o now m₃) in
              IsOutdated field token r.1)
      go false y = h
      go true true = removed k m (put k Result.cancelled m.results) h
      go true false = kept m₃ (schedule o now m₃) (schedule-SameTickets o now m₃) left

  rejected-IsOutdated :
      (k : String) (ticket : ℕ × ℕ) (m : Monitor)
      → IsOutdated field token m
      → IsOutdated field token (rejected k ticket m)
  unfolding rejected
  rejected-IsOutdated k (t, epoch) m h = go (holds (get k m.tokens) t)
    where
      go :
          (x : Bool)
          → IsOutdated field token (
              if x
              then record m {
                tokens = remove k m.tokens;
                results = put k Result.write_failed m.results;
              }
              else m)
      go true = removed k m (put k Result.write_failed m.results) h
      go false = h

  cancel-IsOutdated : (m : Monitor) → IsOutdated field token m → IsOutdated field token (cancel m)
  unfolding cancel
  cancel-IsOutdated m h = record {
    gone = λ e. ground (arith, e);
    issued =
        subst (λ k. token < k) (sym (finish_all-SameFlags Result.cancelled m.pending m).same_next)
          h.issued;
  }

  wake-IsOutdated : (m : Monitor) → IsOutdated field token m → IsOutdated field token (wake m).1
  unfolding wake
  wake-IsOutdated m h = go (m.busy || (m.closed || is_empty m.pending))
    where
      go :
          (x : Bool)
          → (let r : Bool × Monitor =
                if x
                then (false, record m { timer = none })
                else (true, record m { timer = none; busy = true }) in
              IsOutdated field token r.1)
      go true = record { gone = h.gone; issued = h.issued }
      go false = record { gone = h.gone; issued = h.issued }

  module _ (parse : String → Option Real) where
    consume-SameTickets :
        (r : Report) (source : Source) (read : Option ℕ) (now : ℕ) (k : String) (t : PendingRead)
        (m : Monitor)
        → SameTickets m (consume parse r source read now k t m)
    unfolding consume finish
    consume-SameTickets r source read now k t m =
        go (not (same_source t.source source) || too_old read t.started)
          (str_eq k "charging"
            && (asks_start t.value && number_in (5 ∷ 8 ∷ []) (at "modbus_status_raw" r)))
          (matches parse k t.value r m.cloud_session)
      where
        m₁ : Monitor
        m₁ = record m { pending = touch k now m.pending }

        go :
            (x y z : Bool)
            → SameTickets m (
                if x
                then m
                else if y
                then finish k device_rejected m₁
                else if z
                then finish k (after confirmed_after confirmed t) m₁
                else m₁)
        go true y z = record { tokens = refl; next = refl }
        go false true z = record { tokens = refl; next = refl }
        go false false true = record { tokens = refl; next = refl }
        go false false false = record { tokens = refl; next = refl }

    consume_all-IsOutdated :
        (r : Report) (source : Source) (read : Option ℕ) (now : ℕ) (items : Map PendingRead)
        (m : Monitor)
        → IsOutdated field token m
        → IsOutdated field token (consume_all parse r source read now items m)
    consume_all-IsOutdated r source read now [] m h = h
    consume_all-IsOutdated r source read now ((k, t) ∷ items) m h =
        consume_all-IsOutdated r source read now items (consume parse r source read now k t m) (
          kept m (consume parse r source read now k t m)
            (consume-SameTickets r source read now k t m) h)

    step-IsOutdated :
        (e : Event) (m : Monitor)
        → IsOutdated field token m
        → IsOutdated field token (step parse e m)
    unfolding step observed failed close
    step-IsOutdated (begins o now k) m h = begin-IsOutdated o now k m h.issued (inr h.gone)
    step-IsOutdated (accepts o now k value ticket source uncertain u) m h =
        accepted-IsOutdated o now k value ticket source uncertain u m h
    step-IsOutdated (rejects k ticket) m h = rejected-IsOutdated k ticket m h
    step-IsOutdated (observes o now r source read) m h =
        let n = consume_all parse r source read now m.pending m in
        kept n (schedule o now n) (schedule-SameTickets o now n)
          (consume_all-IsOutdated r source read now m.pending m h)
    step-IsOutdated (fails o now) m h =
        let n = finish_all Result.read_failed m.pending m in
        let f = finish_all-SameFlags Result.read_failed m.pending m in
        kept n (schedule o now n) (schedule-SameTickets o now n)
          (kept m n (record { tokens = f.same_tokens; next = f.same_next }) h)
    step-IsOutdated cancels m h = cancel-IsOutdated m h
    step-IsOutdated closes m h =
        cancel-IsOutdated (record m { closed = true }) (record { gone = h.gone; issued = h.issued })
    step-IsOutdated wakes m h = wake-IsOutdated m h

    pub steps-IsOutdated :
        (es : List Event) (m : Monitor)
        → IsOutdated field token m
        → IsOutdated field token (steps parse es m)
    unfolding steps
    steps-IsOutdated [] m h = h
    steps-IsOutdated (e ∷ es) m h = steps-IsOutdated es (step parse e m) (step-IsOutdated e m h)
