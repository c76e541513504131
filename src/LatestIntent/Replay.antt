-- ===== src/LatestIntent/Replay.antt =====
-- What waits after an operation of LatestIntent has ended.
use mathlib.Core.Path.{subst}
use goodwe_wallbox_sems_home.Prelude.{
  ℕ, ◌≡◌, ◌⊎◌, inl, inr, refl, sym, ◌∙◌, ap, Bool, true, false, not, ◌&&◌, ◌||◌, Option, none, some,
  [], ◌∷◌, is_some, Bool-cases, ◌==◌, if◌then◌else◌, arith,
}
use goodwe_wallbox_sems_home.LatestIntent.Defs.{
  Key, charging, mode, Choice, on, off, same_key, same_choice, Request, Pending, get, put, Intent,
  Error, is_empty, fail,
}
use goodwe_wallbox_sems_home.LatestIntent.Run.{
  Outcome, succeeded, superseded, failed, finish, released, requeue, discard, ended_with, ended,
}

same_key-eq : (j k : Key) → same_key j k ≡ true → j ≡ k
same_key-eq j k h = ground (arith, h)

same_choice-on : (v : Choice) → same_choice v on ≡ true → v ≡ on
same_choice-on v h = ground (arith, h)

chosen :
    {A : Type 0} (b : Bool) (x : A) (o : Option A) (y : A)
    → (if b then some x else o) ≡ some y
    → ((b ≡ true) × (x ≡ y)) ⊎ ((b ≡ false) × (o ≡ some y))
chosen true x o y h = ground (arith, h)
chosen false x o y h = inr (refl, h)

get-put :
    (j k : Key) (r q : Request) (p : Pending)
    → get j (put k q p) ≡ some r
    → ((j ≡ k) × (q ≡ r)) ⊎ (get j p ≡ some r)
get-put j k r q [] h = elim (chosen (same_key j k) q none r h) [
  | inl (e, f) ↦ inl (same_key-eq j k e, f)
  | inr (e, f) ↦ inr f
]
get-put j k r q ((k', q') ∷ p) h = elim (Bool-cases (same_key k k')) [
  | inl same ↦ elim (chosen (same_key j k) q (get j p) r (rw same at h)) [
    | inl (e, f) ↦ inl (same_key-eq j k e, f)
    | inr (e, f) ↦ inr (
        subst (λ z. (if same_key j z then some q' else get j p) ≡ some r) (same_key-eq k k' same)
          (rw e f))
  ]
  | inr other ↦ elim (chosen (same_key j k') q' (get j (put k q p)) r (rw other at h)) [
    | inl (e, f) ↦ inr (rw e (ap some f))
    | inr (e, f) ↦ elim (get-put j k r q p f) [ inl g ↦ inl g | inr g ↦ inr (rw e g) ]
  ]
]

-- Nothing but what waited before waits.
abbrev Forgets : Pending → Pending → Type 0
Forgets old new = (k : Key) (r : Request) → get k new ≡ some r → get k old ≡ some r

none-Forgets : (p : Pending) → Forgets p []
none-Forgets p k r h = absurd (ground (arith, h))

finish-pending : (i : Intent) → (finish i).pending ≡ i.pending
unfolding finish
finish-pending i = go (is_empty i.pending)
  where
    go :
        (b : Bool)
        → (if b
            then record i { batch_deadline = none; running = false }
            else record i { running = not i.closed }).pending
          ≡ i.pending
    go true = refl
    go false = refl

discard-Forgets : (i : Intent) → Forgets i.pending (discard (released i)).pending
unfolding discard
discard-Forgets i = go (get charging i.pending) refl
  where
    dropped : Forgets i.pending (finish (fail Error.operation_failed (released i))).pending
    dropped =
        subst (Forgets i.pending) (sym (finish-pending (fail Error.operation_failed (released i))))
          (unfold fail in none-Forgets i.pending)

    stop_kept :
        (q : Request) → get charging i.pending ≡ some q → Forgets i.pending ((charging, q) ∷ [])
    stop_kept q e k r h = elim (chosen (same_key k charging) q none r h) [
      | inl (f, g) ↦
          subst (λ j. get j i.pending ≡ some r) (sym (same_key-eq k charging f)) (e ∙ ap some g)
      | inr (f, g) ↦ absurd (ground (arith, g))
    ]

    go :
        (o : Option Request)
        → get charging i.pending ≡ o
        → let j : Intent = elim o [
          | none ↦ finish (fail Error.operation_failed (released i))
          | some r ↦
              if same_choice r.value off
              then record (released i) {
                pending = (charging, r) ∷ [];
                error = some Error.operation_failed;
              }
              else finish (fail Error.operation_failed (released i))
        ] in
          Forgets i.pending j.pending
    go none e = dropped
    go (some q) e = stop (same_choice q.value off)
      where
        stop :
            (b : Bool)
            → Forgets i.pending
                (if b
                  then record (released i) {
                    pending = (charging, q) ∷ [];
                    error = some Error.operation_failed;
                  }
                  else finish (fail Error.operation_failed (released i))).pending
        stop true = stop_kept q e
        stop false = dropped

-- The Start that is put back.
abbrev pub PutBack : Outcome → Intent → Key → Request → Type 0
PutBack outcome i k r =
    (outcome ≡ superseded)
    × (k ≡ charging)
    × (r.value ≡ on)
    × ((version : ℕ) × (i.executing ≡ some (charging, r, version)))

requeue-waits :
    (k' : Key) (q : Request) (i : Intent) (k : Key) (r : Request)
    → get k (requeue k' q i).pending ≡ some r
    → (get k i.pending ≡ some r) ⊎ ((k ≡ charging) × (q ≡ r) × (k' ≡ charging) × (q.value ≡ on))
unfolding requeue
requeue-waits k' q i k r h =
    go (same_key k' charging) refl (same_choice q.value on) refl
      (not (is_some (get charging i.pending) || is_some (get mode i.pending))) h
  where
    go :
        (a : Bool)
        → same_key k' charging ≡ a
        → (b : Bool) → same_choice q.value on ≡ b
        → (c : Bool)
        → get k
            (if a && (b && c) then record i { pending = put charging q i.pending } else i).pending
          ≡ some r
        → (get k i.pending ≡ some r) ⊎ ((k ≡ charging) × (q ≡ r) × (k' ≡ charging) × (q.value ≡ on))
    go true e true f true g = elim (get-put k charging r q i.pending g) [
      | inl x ↦ inr (x.0, x.1, same_key-eq k' charging e, same_choice-on q.value f)
      | inr x ↦ inl x
    ]
    go true e true f false g = inl g
    go true e false f c g = inl g
    go false e b f c g = inl g

-- When an operation ends, whatever its end, nothing waits in the queue but what waited before: the
-- end puts no request back. The one exception is a Start whose failure is the typed supersession,
-- which proves that it was not sent.
pub ended-waits :
    (control : Bool) (outcome : Outcome) (i : Intent) (k : Key) (r : Request)
    → get k (ended control outcome i).pending ≡ some r
    → (get k i.pending ≡ some r) ⊎ PutBack outcome i k r
unfolding ended ended_with
ended-waits control outcome i k r h = go i.executing refl i.failing outcome h
  where
    failed_with :
        (c : Bool)
        → get k (if c then record i { failing = true } else discard (released i)).pending ≡ some r
        → get k i.pending ≡ some r
    failed_with true g = g
    failed_with false g = discard-Forgets i k r g

    newer :
        (b : Bool) (k' : Key) (q : Request) (v : ℕ)
        → i.executing ≡ some (k', q, v)
        → get k
            (if b
              then released (requeue k' q i)
              else if control
              then record i { failing = true }
              else discard (released i)).pending
          ≡ some r
        → (get k i.pending ≡ some r) ⊎ PutBack superseded i k r
    newer true k' q v e g = elim (requeue-waits k' q i k r g) [
      | inl x ↦ inl x
      | inr x ↦ inr (
        refl,
        x.0,
        subst (λ (y : Request). y.value ≡ on) x.1 x.3,
        (
          v,
          subst (λ y. i.executing ≡ some (charging, y, v)) x.1
              (subst (λ y. i.executing ≡ some (y, q, v)) x.2 e),
        ),
      )
    ]
    newer false k' q v e g = inl (failed_with control g)

    by_outcome :
        (outcome : Outcome) (k' : Key) (q : Request) (v : ℕ)
        → i.executing ≡ some (k', q, v)
        → get k (ended_with control k' q v outcome i).pending ≡ some r
        → (get k i.pending ≡ some r) ⊎ PutBack outcome i k r
    by_outcome succeeded k' q v e g = inl g
    by_outcome superseded k' q v e g =
        newer (not (v == i.version) && not (is_empty i.pending)) k' q v e g
    by_outcome failed k' q v e g = inl (failed_with control g)

    go :
        (x : Option (Key × Request × ℕ))
        → i.executing ≡ x
        → (f : Bool) (outcome : Outcome)
        → (let j : Intent = elim x [
          | none ↦ i
          | some (k', q, v) ↦ if f then i else ended_with control k' q v outcome i
        ] in
            get k j.pending ≡ some r)
        → (get k i.pending ≡ some r) ⊎ PutBack outcome i k r
    go none e f outcome g = inl g
    go (some (k', q, v)) e true outcome g = inl g
    go (some (k', q, v)) e false outcome g = by_outcome outcome k' q v e g
