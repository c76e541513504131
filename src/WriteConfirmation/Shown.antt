-- ===== src/WriteConfirmation/Shown.antt =====
-- What adds a confirmation to the results of WriteConfirmation: a report that shows the choice.
use mathlib.Core.Path.{subst}
use goodwe_wallbox_sems_home.Prelude.{
  ℕ, ◌≡◌, ◌⊎◌, inl, inr, refl, ap, sym, ◌∙◌, Bool, true, false, not, ◌&&◌, ◌||◌, String, Option,
  none, some, List, [], ◌∷◌, str_eq, eq_iff, if◌then◌else◌, arith,
}
use goodwe_wallbox_sems_home.Prelude.Value.{Real, number_in}
use goodwe_wallbox_sems_home.Prelude.Maps.{Map, get, put, get-put}
use goodwe_wallbox_sems_home.WriteConfirmation.Match.{Report, matches, at}
use goodwe_wallbox_sems_home.WriteConfirmation.Defs.{
  Source, PendingRead, Result, confirmed, confirmed_after, Owner, Monitor, finish, finish_all,
  schedule, same_source, judge, judge_all, Verdict, stale, expired, due_at, after, verdict,
}
use goodwe_wallbox_sems_home.WriteConfirmation.Schedule.{
  consume, consume_all, cancel, cancel_results, too_old, observes, touch, asks_start, Event,
}
use goodwe_wallbox_sems_home.WriteConfirmation.Judged.{In}

abbrev pub IsConfirmation : Result → Type 0
IsConfirmation confirmed = Unit
IsConfirmation (confirmed_after u) = Unit
IsConfirmation _ = ⊥

-- No confirmation was added.
abbrev pub Kept : Map Result → Map Result → Type 0
Kept old new =
    (f : String) (x : Result) → get f new ≡ some x → IsConfirmation x → get f old ≡ some x

pub put-Kept :
    (field : String) (r : Result) (results : Map Result)
    → ¬ IsConfirmation r
    → Kept results (put field r results)
put-Kept field r results n f x g c = elim (get-put f field r x results g) [
  | inl (e, p) ↦ absurd (n (subst IsConfirmation (sym p) c))
  | inr h ↦ h
]

pub Kept-if :
    {A : Type 0} (results : A → Map Result) (old : Map Result) (b : Bool) (p q : A)
    → Kept old (results p)
    → Kept old (results q)
    → Kept old (results (if b then p else q))
Kept-if results old true p q h k = h
Kept-if results old false p q h k = k

pub after-unconfirmed :
    (t : PendingRead) → ¬ IsConfirmation (after Result.unconfirmed_after Result.unconfirmed t)
after-unconfirmed t = go t.uncertain
  where
    go :
        (b : Bool)
        → ¬ IsConfirmation
            (if b then Result.unconfirmed_after t.uncertainty else Result.unconfirmed)
    go true c = c
    go false c = c

pub after-pending :
    (t : PendingRead) → ¬ IsConfirmation (after Result.pending_after Result.pending t)
after-pending t = go t.uncertain
  where
    go :
        (b : Bool)
        → ¬ IsConfirmation (if b then Result.pending_after t.uncertainty else Result.pending)
    go true c = c
    go false c = c

pub judge-Kept :
    (v : Verdict) (field : String) (t : PendingRead) (r : Monitor × List ℕ)
    → Kept r.0.results (judge v field t r).0.results
unfolding finish
judge-Kept stale field t r f x g c = put-Kept field Result.cancelled r.0.results (λ e. e) f x g c
judge-Kept expired field t r f x g c = put-Kept field _ r.0.results (after-unconfirmed t) f x g c
judge-Kept (due_at d) field t r f x g c = g

pub judge_all-Kept :
    (o : Owner) (now : ℕ) (items : Map PendingRead) (r : Monitor × List ℕ)
    → Kept r.0.results (judge_all o now items r).0.results
judge_all-Kept o now [] r f x g c = g
judge_all-Kept o now ((field, t) ∷ rest) r f x g c =
    let v = verdict r.0.modbus o now t in
    judge-Kept v field t r f x (judge_all-Kept o now rest (judge v field t r) f x g c) c

pub schedule-Kept : (o : Owner) (now : ℕ) (m : Monitor) → Kept m.results (schedule o now m).results
unfolding schedule
schedule-Kept o now m = judge_all-Kept o now m.pending (record m { timer = none }, [])

pub finish_all-Kept :
    (result : Result) (items : Map PendingRead) (m : Monitor)
    → ¬ IsConfirmation result
    → Kept m.results (finish_all result items m).results
unfolding finish
finish_all-Kept result [] m n f x g c = g
finish_all-Kept result ((field, t) ∷ rest) m n f x g c =
    put-Kept field result m.results n f x
      (finish_all-Kept result rest (finish field result m) n f x g c) c

pub cancel_results-Kept :
    (tokens : Map ℕ) (results : Map Result) → Kept results (cancel_results tokens results)
cancel_results-Kept [] results f x g c = g
cancel_results-Kept ((field, t) ∷ rest) results f x g c =
    put-Kept field Result.cancelled results (λ e. e) f x
      (cancel_results-Kept rest (put field Result.cancelled results) f x g c) c

pub cancel-Kept : (m : Monitor) → Kept m.results (cancel m).results
unfolding cancel
cancel-Kept m f x g c =
    finish_all-Kept Result.cancelled m.pending m (λ e. e) f x
      (cancel_results-Kept (finish_all Result.cancelled m.pending m).tokens
        (finish_all Result.cancelled m.pending m).results f x g c)
      c

module _ (parse : String → Option Real) (report : Report) (source : Source) (read : Option ℕ)
    (cloud_session : Bool) where
  -- A pending choice of the field that the report shows, from its source and not read before the
  -- choice was accepted.
  pub record IsShown (pending : Map PendingRead) (field : String) : Type 0 where
    pub choice : PendingRead
    pub was_pending : In (field, choice) pending
    pub same_origin : same_source choice.source source ≡ true
    pub fresh : too_old read choice.started ≡ false
    pub shows : matches parse field choice.value report cloud_session ≡ true

  consume-Shown :
      (now : ℕ) (field : String) (t : PendingRead) (rest : Map PendingRead) (m : Monitor)
      → m.cloud_session ≡ cloud_session
      → (f : String) (x : Result)
      → get f (consume parse report source read now field t m).results ≡ some x
      → IsConfirmation x
      → (get f m.results ≡ some x) ⊎ IsShown ((field, t) ∷ rest) f
  unfolding consume finish
  consume-Shown now field t rest m same f x g c =
      go (not (same_source t.source source) || too_old read t.started) refl
        (str_eq field "charging"
          && (asks_start t.value && number_in (5 ∷ 8 ∷ []) (at "modbus_status_raw" report)))
        (matches parse field t.value report m.cloud_session) refl g
    where
      m₁ : Monitor
      m₁ = record m { pending = touch field now m.pending }

      go :
          (a : Bool)
          → (not (same_source t.source source) || too_old read t.started) ≡ a
          → (b d : Bool) → matches parse field t.value report m.cloud_session ≡ d
          → get f
              (if a
                then m
                else if b
                then finish field Result.device_rejected m₁
                else if d
                then finish field (after confirmed_after confirmed t) m₁
                else m₁).results
            ≡ some x
          → (get f m.results ≡ some x) ⊎ IsShown ((field, t) ∷ rest) f
      go true p b d q h = inl h
      go false p true d q h = inl (put-Kept field Result.device_rejected m.results (λ e. e) f x h c)
      go false p false false q h = inl h
      go false p false true q h =
          elim (get-put f field (after confirmed_after confirmed t) x m.results h) [
            | inr k ↦ inl k
            | inl (e, k) ↦ inr (shown ((eq_iff f field).0 e))
          ]
        where
          shown : f ≡ field → IsShown ((field, t) ∷ rest) f
          shown e = record {
            choice = t;
            was_pending = inl (ap (λ y. (y, t)) e);
            same_origin = ground (arith, p);
            fresh = ground (arith, p);
            shows =
                subst (λ y. matches parse y t.value report cloud_session ≡ true) (sym e)
                  (subst (λ y. matches parse field t.value report y ≡ true) same q);
          }

  consume-session :
      (now : ℕ) (field : String) (t : PendingRead) (m : Monitor)
      → (consume parse report source read now field t m).cloud_session ≡ m.cloud_session
  unfolding consume finish
  consume-session now field t m =
      go (not (same_source t.source source) || too_old read t.started) _
        (matches parse field t.value report m.cloud_session)
    where
      m₁ : Monitor
      m₁ = record m { pending = touch field now m.pending }

      go :
          (a b d : Bool)
          → (if a
              then m
              else if b
              then finish field Result.device_rejected m₁
              else if d
              then finish field (after confirmed_after confirmed t) m₁
              else m₁).cloud_session
            ≡ m.cloud_session
      go true b d = refl
      go false true d = refl
      go false false true = refl
      go false false false = refl

  IsShown-later :
      (e : String × PendingRead) (rest : Map PendingRead) (f : String)
      → IsShown rest f
      → IsShown (e ∷ rest) f
  IsShown-later e rest f h = record {
    choice = h.choice;
    was_pending = inr h.was_pending;
    same_origin = h.same_origin;
    fresh = h.fresh;
    shows = h.shows;
  }

  pub consume_all-Shown :
      (now : ℕ) (items : Map PendingRead) (m : Monitor)
      → m.cloud_session ≡ cloud_session
      → (f : String) (x : Result)
      → get f (consume_all parse report source read now items m).results ≡ some x
      → IsConfirmation x
      → (get f m.results ≡ some x) ⊎ IsShown items f
  consume_all-Shown now [] m same f x g c = inl g
  consume_all-Shown now ((field, t) ∷ rest) m same f x g c =
      let m₁ = consume parse report source read now field t m in
      elim (consume_all-Shown now rest m₁ (consume-session now field t m ∙ same) f x g c) [
        | inr h ↦ inr (IsShown-later (field, t) rest f h)
        | inl h ↦ consume-Shown now field t rest m same f x h c
      ]

-- The reports of the events.
abbrev pub Confirms : (String → Option Real) → Event → Monitor → String → Type 0
Confirms parse (observes o now report source read) m field =
    IsShown parse report source read m.cloud_session m.pending field
Confirms parse _ m field = ⊥
