-- ===== src/WriteConfirmation/Watched.antt =====
-- What `_schedule` leaves pending, and by when its timer fires.
use mathlib.Core.Path.{subst}
use goodwe_wallbox_sems_home.Prelude.{
  sym, ℕ, ◌≡◌, ◌⊎◌, inl, inr, refl, true, false, not, String, Option, none, some, List, [], ◌∷◌,
  All, arith, Bool-cases, min, max, ◌&&◌,
}
use goodwe_wallbox_sems_home.Prelude.Maps.{Map}
use goodwe_wallbox_sems_home.WriteConfirmation.Judged.{
  All-weaken, judge_all-Left, Some, Covered, All-In, InTime,
}
use goodwe_wallbox_sems_home.WriteConfirmation.Defs.{
  PendingRead, Result, Owner, Monitor, finish, finish_all, judge, Verdict, stale, expired, due_at,
  verdict, judge_all, least, schedule, armed,
}

-- What the judgement leaves alone.
pub record SameFlags (m n : Monitor) : Type 0 where
  pub same_busy : n.busy ≡ m.busy
  pub same_closed : n.closed ≡ m.closed
  pub same_tokens : n.tokens ≡ m.tokens
  pub same_next : n.next_token ≡ m.next_token

pub finish_all-SameFlags :
    (result : Result) (items : Map PendingRead) (m : Monitor)
    → SameFlags m (finish_all result items m)
unfolding finish
finish_all-SameFlags result [] m = record {
  same_busy = refl;
  same_closed = refl;
  same_tokens = refl;
  same_next = refl;
}
finish_all-SameFlags result ((field, t) ∷ rest) m =
    let f = finish_all-SameFlags result rest (finish field result m) in
    record {
      same_busy = f.same_busy;
      same_closed = f.same_closed;
      same_tokens = f.same_tokens;
      same_next = f.same_next;
    }

judge-SameFlags :
    (v : Verdict) (field : String) (t : PendingRead) (r : Monitor × List ℕ)
    → SameFlags r.0 (judge v field t r).0
unfolding finish
judge-SameFlags stale field t r = record {
  same_busy = refl;
  same_closed = refl;
  same_tokens = refl;
  same_next = refl;
}
judge-SameFlags expired field t r = record {
  same_busy = refl;
  same_closed = refl;
  same_tokens = refl;
  same_next = refl;
}
judge-SameFlags (due_at d) field t r = record {
  same_busy = refl;
  same_closed = refl;
  same_tokens = refl;
  same_next = refl;
}

pub judge_all-SameFlags :
    (o : Owner) (now : ℕ) (items : Map PendingRead) (r : Monitor × List ℕ)
    → SameFlags r.0 (judge_all o now items r).0
judge_all-SameFlags o now [] r = record {
  same_busy = refl;
  same_closed = refl;
  same_tokens = refl;
  same_next = refl;
}
judge_all-SameFlags o now ((field, t) ∷ rest) r =
    let r' = judge (verdict r.0.modbus o now t) field t r in
    let a = judge-SameFlags (verdict r.0.modbus o now t) field t r in
    let b = judge_all-SameFlags o now rest r' in
    record {
      same_busy = cc (a.same_busy, b.same_busy);
      same_closed = cc (a.same_closed, b.same_closed);
      same_tokens = cc (a.same_tokens, b.same_tokens);
      same_next = cc (a.same_next, b.same_next);
    }

-- The least due time is in time for every choice that is covered.
least-Some :
    (due : List ℕ) (e : String × PendingRead)
    → Some due e
    → (d : ℕ) × (least due ≡ some d) × InTime d e
least-Some [] e h = absurd h
least-Some (a ∷ rest) e (inl h) = go (least rest)
  where
    go :
        (o : Option ℕ)
        → (d : ℕ) × ((elim o [ none ↦ some a | some b ↦ some (min a b) ]) ≡ some d) × InTime d e
    go none = (a, refl, h)
    go (some b) = (min a b, refl, omega arith)
least-Some (a ∷ rest) e (inr h) =
    let l = least-Some rest e h in (min a l.0, rw l.1 refl, omega (arith, l.2))

armed-InTime :
    (now d : ℕ) (due : List ℕ) (m : Map PendingRead)
    → least due ≡ some d
    → All (Covered now due) m
    → All (InTime (max now d)) m
armed-InTime now d due m l h =
    All-weaken m
      (λ e c.
        let s = least-Some due e c.1 in
        let p : d ≡ s.0 = ground (arith, l, s.1) in omega (arith, p, c.0, s.2))
      h

pub record IsWatched (m : Monitor) : Type 0 where
  pub busy_waits : m.busy ≡ true → m.timer ≡ none
  pub closed_waits : m.closed ≡ true → (m.timer ≡ none) × (m.pending ≡ [])
  pub watched :
      m.busy ≡ false
      → (m.pending ≡ []) ⊎ ((time : ℕ) × (m.timer ≡ some time) × All (InTime time) m.pending)

pub schedule-IsWatched :
    (o : Owner) (now : ℕ) (m : Monitor)
    → (m.closed ≡ true → m.pending ≡ [])
    → IsWatched (schedule o now m)
unfolding schedule
schedule-IsWatched o now m shut = record {
  busy_waits = λ b. unarmed (ground arith);
  closed_waits = λ c. (unarmed (ground arith), empty (ground (arith, flags)));
  watched = λ b. elim (Bool-cases r.0.closed) [
    | inl c ↦ inl (empty (ground (arith, flags)))
    | inr c ↦ elim (any_pending r.0.pending covered) [
      | inl e ↦ inl e
      | inr (d, e) ↦
          inr (max now d, rw (b, c, e) refl, armed-InTime now d r.1 r.0.pending e covered)
    ]
  ];
}
  where
    m₀ : Monitor
    m₀ = record m { timer = none }

    r : Monitor × List ℕ
    r = judge_all o now m.pending (m₀, [])

    flags : SameFlags m₀ r.0
    flags = judge_all-SameFlags o now m.pending (m₀, [])

    covered : All (Covered now r.1) r.0.pending
    covered =
        judge_all-Left o now m.pending (m₀, [])
          (All-weaken m.pending (λ e i. inl i) (All-In m.pending))

    unarmed :
        (not r.0.busy && not r.0.closed) ≡ false
        → armed (not r.0.busy && not r.0.closed) now (least r.1) ≡ none
    unarmed e = rw e refl

    empty : m.closed ≡ true → r.0.pending ≡ []
    empty c =
        subst (λ items. (judge_all o now items (m₀, [])).0.pending ≡ []) (sym (shut c)) (shut c)

    any_pending :
        (p : Map PendingRead)
        → All (Covered now r.1) p
        → (p ≡ []) ⊎ ((d : ℕ) × (least r.1 ≡ some d))
    any_pending [] h = inl refl
    any_pending (e ∷ p) h = let s = least-Some r.1 e h.0.1 in inr (s.0, s.1)
