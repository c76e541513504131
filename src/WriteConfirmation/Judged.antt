-- ===== src/WriteConfirmation/Judged.antt =====
-- The pending choices that the judgement of _schedule keeps, and by when they are due.
use mathlib.Core.Path.{subst}
use goodwe_wallbox_sems_home.Prelude.{
  sym, ℕ, ◌+◌, ◌≤◌, ◌≡◌, ◌⊎◌, inl, inr, refl, Bool, true, false, not, ◌||◌, String, Option, none,
  some, List, [], ◌∷◌, All, ltb, ◌==◌, str_eq, eq_iff, if◌then◌else◌, arith, Bool-cases,
}
use goodwe_wallbox_sems_home.Prelude.Maps.{Map, remove}
use goodwe_wallbox_sems_home.WriteConfirmation.Defs.{
  PendingRead, Result, Owner, Monitor, finish, finish_all, judge, Verdict, stale, expired, due_at,
  verdict, slot_verdict, next_slot, slots, judge_all,
}

abbrev pub In : String × PendingRead → Map PendingRead → Type 0
In e [] = ⊥
In e (x ∷ xs) = (e ≡ x) ⊎ In e xs

-- A read at `time` is in time for the choice.
abbrev pub InTime : ℕ → String × PendingRead → Type 0
InTime time e = time ≤ e.1.started + 60000

abbrev pub Some : List ℕ → String × PendingRead → Type 0
Some [] e = ⊥
Some (d ∷ due) e = InTime d e ⊎ Some due e

abbrev pub Covered : ℕ → List ℕ → String × PendingRead → Type 0
Covered now due e = InTime now e × Some due e

abbrev pub Left : ℕ → Map PendingRead → List ℕ → String × PendingRead → Type 0
Left now items due e = In e items ⊎ Covered now due e

module _ {P Q : String × PendingRead → Type 0} where
  pub All-weaken :
      (m : Map PendingRead) → ((e : String × PendingRead) → P e → Q e) → All P m → All Q m
  All-weaken [] f h = tt
  All-weaken (e ∷ m) f h = (f e h.0, All-weaken m f h.1)

  -- Removing a field leaves the entries of the other fields.
  All-remove :
      (field : String) (m : Map PendingRead)
      → ((e : String × PendingRead) → str_eq field e.0 ≡ false → P e → Q e)
      → All P m
      → All Q (remove field m)
  All-remove field [] f h = tt
  All-remove field ((k, t) ∷ m) f h = go (str_eq field k) refl (All-remove field m f h.1)
    where
      go :
          (b : Bool)
          → str_eq field k ≡ b
          → All Q (remove field m)
          → All Q (if b then remove field m else (k, t) ∷ remove field m)
      go true e rest = rest
      go false e rest = (f (k, t) e h.0, rest)

pub none-left : (m : Map PendingRead) → All (λ e. ⊥) m → m ≡ []
none-left [] h = refl
none-left (e ∷ m) h = absurd h.0

pub All-In : (m : Map PendingRead) → All (λ e. In e m) m
All-In [] = tt
All-In (e ∷ m) = (inl refl, All-weaken m (λ e' h. inr h) (All-In m))

pub head-removed :
    (field : String) (t : PendingRead) (rest : Map PendingRead) (e : String × PendingRead)
    → str_eq field e.0 ≡ false
    → In e ((field, t) ∷ rest)
    → In e rest
head-removed field t rest e f (inl p) = absurd (ground (arith, (eq_iff field e.0).1 (cc p)))
head-removed field t rest e f (inr h) = h

pub keep :
    (field : String) (t : PendingRead) (rest : Map PendingRead) (due : List ℕ) (now : ℕ)
    (e : String × PendingRead)
    → str_eq field e.0 ≡ false
    → Left now ((field, t) ∷ rest) due e
    → Left now rest due e
keep field t rest due now e f (inl h) = inl (head-removed field t rest e f h)
keep field t rest due now e f (inr c) = inr c

-- `_finish` of every pending choice leaves none.
pub finish_all-none :
    (result : Result) (items : Map PendingRead) (m : Monitor)
    → All (λ e. In e items) m.pending
    → (finish_all result items m).pending ≡ []
finish_all-none result [] m h = none-left m.pending h
finish_all-none result ((field, t) ∷ rest) m h =
    finish_all-none result rest (finish field result m)
      (unfold finish in All-remove field m.pending (head-removed field t rest) h)

-- The judgement of one pending choice, and of all.
pub next_slot-InTime :
    (t : PendingRead) (o : Option ℕ) (d : ℕ) → slot_verdict t o ≡ due_at d → d ≤ t.started + 60000
next_slot-InTime t none d h = ground (arith, h)
next_slot-InTime t (some s) d h = ground (arith, h)

pub verdict-due :
    (modbus : Bool) (o : Owner) (now d : ℕ) (t : PendingRead)
    → verdict modbus o now t ≡ due_at d
    → (now ≤ t.started + 60000) × (d ≤ t.started + 60000)
unfolding verdict
verdict-due modbus o now d t h =
    go (o.local || not (t.epoch == o.routing_epoch)) (Bool-cases (ltb (t.started + 60000) now)) h
  where
    v : Verdict
    v = slot_verdict t (next_slot t.started t.last_read (slots modbus))

    go :
        (b : Bool)
        → (ltb (t.started + 60000) now ≡ true) ⊎ (ltb (t.started + 60000) now ≡ false)
        → (if b then stale else if ltb (t.started + 60000) now then expired else v) ≡ due_at d
        → (now ≤ t.started + 60000) × (d ≤ t.started + 60000)
    go true c e = ground arith
    go false (inl c) e = let e' : expired ≡ due_at d = rw c at e in ground arith
    go false (inr c) e = (
      ground arith,
      next_slot-InTime t (next_slot t.started t.last_read (slots modbus)) d (rw c at e),
    )

pub judge-Left :
    (now : ℕ) (v : Verdict) (field : String) (t : PendingRead) (rest : Map PendingRead)
    (r : Monitor × List ℕ)
    → ((d : ℕ) → v ≡ due_at d → (now ≤ t.started + 60000) × (d ≤ t.started + 60000))
    → All (Left now ((field, t) ∷ rest) r.1) r.0.pending
    → All (Left now rest (judge v field t r).1) (judge v field t r).0.pending
unfolding finish
judge-Left now stale field t rest r f h = All-remove field r.0.pending (keep field t rest r.1 now) h
judge-Left now expired field t rest r f h =
    All-remove field r.0.pending (keep field t rest r.1 now) h
judge-Left now (due_at d) field t rest r f h = All-weaken r.0.pending again h
  where
    again :
        (e : String × PendingRead) → Left now ((field, t) ∷ rest) r.1 e → Left now rest (d ∷ r.1) e
    again e (inl (inl p)) =
        inr (subst (Covered now (d ∷ r.1)) (sym p) ((f d refl).0, inl (f d refl).1))
    again e (inl (inr i)) = inl i
    again e (inr c) = inr (c.0, inr c.1)

pub judge_all-Left :
    (o : Owner) (now : ℕ) (items : Map PendingRead) (r : Monitor × List ℕ)
    → All (Left now items r.1) r.0.pending
    → All (Covered now (judge_all o now items r).1) (judge_all o now items r).0.pending
judge_all-Left o now [] r h = All-weaken r.0.pending none_left h
  where
    none_left : (e : String × PendingRead) → Left now [] r.1 e → Covered now r.1 e
    none_left e (inl i) = absurd i
    none_left e (inr c) = c
judge_all-Left o now ((field, t) ∷ rest) r h =
    judge_all-Left o now rest (judge (verdict r.0.modbus o now t) field t r) (
      judge-Left now (verdict r.0.modbus o now t) field t rest r
        (λ d e. verdict-due r.0.modbus o now d t e) h)
