-- ===== src/NativeReports/Window.antt =====
-- StartObservationWindow (native_start_verification.py). Times are ms of the monotonic clock.
use mathlib.Core.Path.{subst}
use goodwe_wallbox_sems_home.Prelude.{
  refl, ℕ, suc, ◌+◌, ◌-◌, ◌≤◌, ◌<◌, ◌≡◌, ◌⊎◌, Bool, true, false, not, ◌&&◌, ◌||◌, Option, none,
  some, List, [], ◌∷◌, leb, ltb, ◌==◌, if◌then◌else◌, length, inl, inr, arith,
}

pub record Window : Type 0 where
  pub first_at : Option ℕ
  pub last_at : Option ℕ
  pub samples : ℕ

abbrev pub duration : ℕ
duration = 10000

abbrev pub maximum_gap : ℕ
maximum_gap = 6000

abbrev pub new : Window
new = record { first_at = none; last_at = none; samples = 0 }

-- A report: its command, when it was received, and whether mode, limit and load qualify.
pub record Observation : Type 0 where
  pub command : ℕ
  pub observed_at : ℕ
  pub matches : Bool

abbrev pub is_new : ℕ → Option ℕ → Bool
is_new at none = true
is_new at (some last) = leb at last || ltb (last + maximum_gap) at

abbrev pub since : Option ℕ → ℕ → ℕ
since none at = 0
since (some first) at = at - first

abbrev pub begun : ℕ → Window → Window
begun at w = if is_new at w.last_at then record w { first_at = some at; samples = 0 } else w

abbrev pub counted : ℕ → Window → Bool × Window
counted at w = (
  leb 3 (w.samples + 1) && leb duration (since w.first_at at),
  record w { last_at = some at; samples = w.samples + 1 },
)

unfoldable pub observe : Observation → Window → Bool × Window
observe o w =
    if not o.matches
    then (false, new)
    else if not (o.command == 104)
    then (false, w)
    else counted o.observed_at (begun o.observed_at w)

unfoldable pub run : List Observation → Window
unfolding observe
run [] = new
run (o ∷ os) = (observe o (run os)).1

-- The times, newest first, of the primary reports that end a history without a report that does not
-- qualify among them; each is later than the one before, by no more than the greatest gap.
pub data Streak : ℕ → List ℕ → List Observation → Type 0 where
  start :
      {os : List Observation} {t : ℕ}
      → Streak t [] (record { command = 104; observed_at = t; matches = true } ∷ os)
  next :
      {os : List Observation} {s t : ℕ} {ts : List ℕ}
      → s < t
      → t ≤ s + maximum_gap
      → Streak s ts os
      → Streak t (s ∷ ts) (record { command = 104; observed_at = t; matches = true } ∷ os)
  secondary :
      {os : List Observation} {t : ℕ} {ts : List ℕ} (o : Observation)
      → o.matches ≡ true
      → Streak t ts os
      → Streak t ts (o ∷ os)

-- The oldest of some times.
abbrev pub oldest : ℕ → List ℕ → ℕ
oldest t [] = t
oldest t (s ∷ ts) = oldest s ts

-- What the fields of the window stand for.
Stands : Window → List Observation → Type 0
Stands w os =
    ((w.last_at ≡ none) × (w.samples ≡ 0))
    ⊎ ((t : ℕ) × (ts : List ℕ) × (w.last_at ≡ some t)
        × (w.first_at ≡ some (oldest t ts))
        × (w.samples ≡ suc (length ts))
        × Streak t ts os)

-- What `observe` returns and leaves for a history with the new report.
Told : Bool × Window → List Observation → ℕ → Type 0
Told r os at =
    Stands r.1 os
    × (r.0 ≡ true
        → (ts : List ℕ) × Streak at ts os × (3 ≤ suc (length ts)) × (oldest at ts + duration ≤ at))

counted-Told :
    (os : List Observation) (at : ℕ) (w : Window)
    → ((w.samples ≡ 0) × (w.first_at ≡ some at))
      ⊎ ((t : ℕ) × (ts : List ℕ) × (w.first_at ≡ some (oldest t ts))
          × (w.samples ≡ suc (length ts))
          × Streak t ts os
          × (t < at)
          × (at ≤ t + maximum_gap))
    → Told (counted at w) (record { command = 104; observed_at = at; matches = true } ∷ os) at
unfolding Told Stands
counted-Told os at w (inl (z, f)) =
    (inr (at, [], refl, f, omega (arith, z), start), λ h. absurd (ground (arith, h, z)))
counted-Told os at w (inr (t, ts, f, n, s, l, g)) = (
  inr (at, t ∷ ts, refl, f, omega (arith, n), next l g s),
  λ h. (t ∷ ts, next l g s, ground (arith, h, n), told h),
)
  where
    told :
        (leb 3 (w.samples + 1) && leb duration (since w.first_at at)) ≡ true
        → oldest t ts + duration ≤ at
    told h =
        let g : leb duration (since w.first_at at) ≡ true = ground (arith, h) in
        let k : leb duration (since (some (oldest t ts)) at) ≡ true = rw f at g in ground (arith, k)

begun-Told :
    (os : List Observation) (at : ℕ) (w : Window)
    → Stands w os
    → Told
        (counted at (begun at w))
        (record { command = 104; observed_at = at; matches = true } ∷ os)
        at
unfolding Stands Told
begun-Told os at w h = go (is_new at w.last_at) refl h
  where
    go :
        (x : Bool)
        → is_new at w.last_at ≡ x
        → Stands w os
        → (let v : Window = if x then record w { first_at = some at; samples = 0 } else w in
            Told
              (counted at v)
              (record { command = 104; observed_at = at; matches = true } ∷ os)
              at)
    go true e k =
        counted-Told os at (record w { first_at = some at; samples = 0 }) (inl (refl, refl))
    go false e (inl (n, z)) = absurd (ground (arith, e, n))
    go false e (inr (t, ts, l, f, n, s)) =
        let g : is_new at (some t) ≡ false = rw l at e in
        counted-Told os at w (inr (t, ts, f, n, s, ground (arith, g), ground (arith, g)))

observe-Told :
    (o : Observation) (os : List Observation) (w : Window)
    → Stands w os
    → Told (observe o w) (o ∷ os) o.observed_at
unfolding observe Told Stands
observe-Told o os w h = go o.matches refl (o.command == 104) refl
  where
    skipped : o.matches ≡ true → Stands w os → Stands w (o ∷ os)
    skipped m (inl k) = inl k
    skipped m (inr (t, ts, l, f, n, s)) = inr (t, ts, l, f, n, secondary o m s)

    primary :
        o.matches ≡ true
        → (o.command == 104) ≡ true
        → record { command = 104; observed_at = o.observed_at; matches = true } ≡ o
    primary m c = let e : o.command ≡ 104 = ground (arith, c) in cc (m, e)

    go :
        (m : Bool)
        → o.matches ≡ m
        → (c : Bool) → (o.command == 104) ≡ c
        → (let r : Bool × Window =
              if not m
              then (false, new)
              else if not c
              then (false, w)
              else counted o.observed_at (begun o.observed_at w) in
            Told r (o ∷ os) o.observed_at)
    go false e c f = (inl (refl, refl), λ k. absurd (ground (arith, k)))
    go true e false f = (skipped e h, λ k. absurd (ground (arith, k)))
    go true e true f =
        subst (λ q. Told (counted o.observed_at (begun o.observed_at w)) (q ∷ os) o.observed_at)
          (primary e f) (begun-Told os o.observed_at w h)

run-Stands : (os : List Observation) → Stands (run os) os
unfolding run Stands Told
run-Stands [] = inl (refl, refl)
run-Stands (o ∷ os) = (observe-Told o os (run os) (run-Stands os)).0

-- After any reports, when `observe` returns true for a report, then it and the reports before it
-- end in a series of at least three primary reports that qualify, each later than the one before
-- by no more than 6 seconds and with no report in between that does not qualify, and the first of
-- them was received at least 10 seconds ago.
pub observe-Streak :
    (o : Observation) (os : List Observation)
    → (observe o (run os)).0 ≡ true
    → (ts : List ℕ) × Streak o.observed_at ts (o ∷ os)
      × (3 ≤ suc (length ts))
      × (oldest o.observed_at ts + 10000 ≤ o.observed_at)
unfolding Told
observe-Streak o os h = (observe-Told o os (run os) (run-Stands os)).1 h
