-- ===== src/CloudRequests/Timeouts.antt =====
-- The time that a request gets, and the sends of a log.
use mathlib.Core.Path.{subst}
use goodwe_wallbox_sems_home.Prelude.{
  String, ℕ, suc, ◌+◌, ◌-◌, ◌≤◌, min, ◌≡◌, refl, sym, Bool, true, false, Option, none, some, List,
  ◌∷◌, if◌then◌else◌, leb, arith,
}
use goodwe_wallbox_sems_home.CloudRequests.Budget.{
  cancelled, timed_out, Outcome, ok, raised, Entry, sent, heard, World, M, continue, remaining,
  bounded, is_cancelled, request_timeout,
}

-- `t + timeout` is no later than a time, where there are both.
abbrev pub Ends : ℕ → Option ℕ → Option ℕ → Type 0
Ends t none none = Unit {0}
Ends t none (some l) = Unit {0}
Ends t (some τ) none = Unit {0}
Ends t (some τ) (some l) = t + τ ≤ l

-- The sends of a log since a log `old`, at most `n`; each ends by the deadline and by the limit.
pub data Sends (deadline limit_at : Option ℕ) (old : List Entry) : ℕ → List Entry → Type 0 where
  here : {n : ℕ} → Sends deadline limit_at old n old
  response :
      {n t status : ℕ} {retry_after : Option String} {log : List Entry}
      → Sends deadline limit_at old n log
      → Sends deadline limit_at old n (heard t status retry_after ∷ log)
  send :
      {n t : ℕ} {timeout : Option ℕ} {log : List Entry}
      → Ends t timeout deadline
      → Ends t timeout limit_at
      → Sends deadline limit_at old n log
      → Sends deadline limit_at old (suc n) (sent t timeout ∷ log)

pub more :
    {deadline limit_at : Option ℕ} {old log : List Entry} {n : ℕ}
    → Sends deadline limit_at old n log
    → Sends deadline limit_at old (suc n) log
more here = here
more (response s) = response (more s)
more (send e f s) = send e f (more s)

-- A timeout that was granted leaves the world as it is and ends by the deadline.
pub request_timeout-same : (d : ℕ) (w : World) → (request_timeout d w).1 ≡ w
unfolding request_timeout remaining
request_timeout-same d w = go (is_cancelled w.scope) w.deadline
  where
    left :
        (deadline : ℕ) (x y : Bool)
        → (let r : Outcome ℕ × World =
              if x
              then (raised cancelled, w)
              else if y
              then (raised timed_out, w)
              else (ok (deadline - w.now), w) in
            (continue r (λ left v. (ok (min d left), v))).1 ≡ w)
    left deadline true y = refl
    left deadline false true = refl
    left deadline false false = refl

    go :
        (c : Bool) (o : Option ℕ)
        → (let r : Outcome ℕ × World = if c then (raised cancelled, w) else bounded d o w in
            r.1 ≡ w)
    go true o = refl
    go false none = refl
    go false (some deadline) = left deadline w.dropped (leb deadline w.now)

pub request_timeout-Ends :
    (d t : ℕ) (w : World)
    → (request_timeout d w).0 ≡ ok t
    → (t ≤ d) × Ends w.now (some t) w.deadline
unfolding request_timeout remaining
request_timeout-Ends d t w = go (is_cancelled w.scope) w.deadline
  where
    left :
        (deadline : ℕ) (x y : Bool)
        → leb deadline w.now ≡ y
        → (let r : Outcome ℕ × World =
              if x
              then (raised cancelled, w)
              else if y
              then (raised timed_out, w)
              else (ok (deadline - w.now), w) in
            (continue r (λ left v. (ok (min d left), v))).0 ≡ ok t)
        → (t ≤ d) × (w.now + t ≤ deadline)
    left deadline true y e h = absurd (ground (arith, h))
    left deadline false true e h = absurd (ground (arith, h))
    left deadline false false e h = ground (arith, e, h)

    go :
        (c : Bool) (o : Option ℕ)
        → (let r : Outcome ℕ × World = if c then (raised cancelled, w) else bounded d o w in
            r.0 ≡ ok t)
        → (t ≤ d) × Ends w.now (some t) o
    go true o h = absurd (ground (arith, h))
    go false none h = (ground (arith, h), tt)
    go false (some deadline) h = left deadline w.dropped (leb deadline w.now) refl h

-- Both for what follows a granted timeout.
pub after_timeout :
    {A : Type 0} (P : World → Type 0) (d : ℕ) (w : World) (k : ℕ → M A)
    → P w
    → ((t : ℕ) → t ≤ d → Ends w.now (some t) w.deadline → P (k t w).1)
    → P (continue (request_timeout d w) k).1
after_timeout P d w k h n =
    go (request_timeout d w) (request_timeout-same d w) (λ t e. request_timeout-Ends d t w e)
  where
    go :
        (r : Outcome ℕ × World)
        → r.1 ≡ w
        → ((t : ℕ) → r.0 ≡ ok t → (t ≤ d) × Ends w.now (some t) w.deadline)
        → P (continue r k).1
    go (ok t, v) e f = subst (λ u. P (k t u).1) (sym e) (n t (f t refl).0 (f t refl).1)
    go (raised x, v) e f = subst P (sym e) h
