-- ===== src/LatestIntent/Retained.antt =====
-- What the queued choices keep of their time to live.
use mathlib.Core.Path.{subst}
use goodwe_wallbox_sems_home.Prelude.{
  ℕ, ◌+◌, ◌≤◌, ◌≡◌, Bool, true, false, Option, none, some, [], ◌∷◌, All, if◌then◌else◌, arith,
}
use goodwe_wallbox_sems_home.LatestIntent.Defs.{
  Key, Choice, Request, Pending, get, put, remove, Intent, same_key, retained, first, same_key,
}

-- The deadline is known and not later than 120 s after the request.
abbrev pub Bounded : Option ℕ → Request → Type 0
Bounded none r = ⊥
Bounded (some d) r = d ≤ r.requested_at + 120000

abbrev pub BoundedAll : Option ℕ → Pending → Type 0
BoundedAll d p = All (λ e. Bounded d e.1) p

abbrev pub NotLater : ℕ → Option ℕ → Type 0
NotLater now none = Unit
NotLater now (some d) = d ≤ now + 120000

abbrev pub Executed : Option ℕ → Option (Key × Request × ℕ) → Type 0
Executed d none = Unit
Executed d (some (k, r, v)) = Bounded d r

-- Every request that waits or is executed expires at most 120 s after it was made.
pub record IsTimely (now : ℕ) (i : Intent) : Type 0 where
  pub not_later : NotLater now i.batch_deadline
  pub waiting : BoundedAll i.batch_deadline i.pending
  pub executed : Executed i.batch_deadline i.executing

pub BoundedAll-remove :
    (d : Option ℕ) (k : Key) (p : Pending) → BoundedAll d p → BoundedAll d (remove k p)
BoundedAll-remove d k [] h = tt
BoundedAll-remove d k ((k', r) ∷ p) h = go (same_key k k') (BoundedAll-remove d k p h.1)
  where
    go :
        (b : Bool)
        → BoundedAll d (remove k p)
        → BoundedAll d (if b then remove k p else (k', r) ∷ remove k p)
    go true rest = rest
    go false rest = (h.0, rest)

pub BoundedAll-put :
    (d : Option ℕ) (k : Key) (r : Request) (p : Pending)
    → Bounded d r
    → BoundedAll d p
    → BoundedAll d (put k r p)
BoundedAll-put d k r [] b h = (b, tt)
BoundedAll-put d k r ((k', r') ∷ p) b h = go (same_key k k') (BoundedAll-put d k r p b h.1)
  where
    go :
        (c : Bool)
        → BoundedAll d (put k r p)
        → BoundedAll d (if c then (k, r) ∷ p else (k', r') ∷ put k r p)
    go true rest = (b, h.1)
    go false rest = (h.0, rest)

pub get-Bounded :
    (d : Option ℕ) (k : Key) (r : Request) (p : Pending)
    → BoundedAll d p
    → get k p ≡ some r
    → Bounded d r
get-Bounded d k r [] h e = absurd (ground (arith, e))
get-Bounded d k r ((k', r') ∷ p) h e = go (same_key k k') e (get-Bounded d k r p h.1)
  where
    go :
        (c : Bool)
        → (if c then some r' else get k p) ≡ some r
        → (get k p ≡ some r → Bounded d r)
        → Bounded d r
    go true f rest = subst (Bounded d) (ground (arith, f)) h.0
    go false f rest = rest f

pub IsTimely-later : (now elapsed : ℕ) (i : Intent) → IsTimely now i → IsTimely (now + elapsed) i
IsTimely-later now elapsed i h = record {
  not_later = later i.batch_deadline h.not_later;
  waiting = h.waiting;
  executed = h.executed;
}
  where
    later : (d : Option ℕ) → NotLater now d → NotLater (now + elapsed) d
    later none n = tt
    later (some d) n = omega arith

pub retained-IsTimely :
    (now : ℕ) (key : Key) (value : Choice) (i : Intent)
    → IsTimely now i
    → IsTimely now (retained now key value i)
unfolding retained
retained-IsTimely now key value i h =
    let p = still i.batch_deadline h.not_later i.pending h.waiting in
    let e = executing_still i.batch_deadline i.executing h.executed in
    record {
      not_later = soon i.batch_deadline h.not_later;
      waiting = BoundedAll-put d key r i.pending (fresh i.batch_deadline h.not_later) p;
      executed = e;
    }
  where
    d : Option ℕ
    d = first i.batch_deadline (now + 120000)

    r : Request
    r = record { value = value; operation = i.submitted; requested_at = now }

    soon : (o : Option ℕ) → NotLater now o → NotLater now (first o (now + 120000))
    soon none n = omega arith
    soon (some t) n = n

    fresh : (o : Option ℕ) → NotLater now o → Bounded (first o (now + 120000)) r
    fresh none n = omega arith
    fresh (some t) n = n

    still :
        (o : Option ℕ)
        → NotLater now o
        → (p : Pending) → BoundedAll o p
        → BoundedAll (first o (now + 120000)) p
    still none n [] b = tt
    still none n (e ∷ p) b = absurd b.0
    still (some t) n p b = b

    executing_still :
        (o : Option ℕ) (x : Option (Key × Request × ℕ))
        → Executed o x
        → Executed (first o (now + 120000)) x
    executing_still none none b = tt
    executing_still none (some (k, r', v)) b = absurd b
    executing_still (some t) x b = b
