-- ===== src/ModeAdapter/Stop.antt =====
-- `_confirm_stopped`: a Stop that the cloud did not acknowledge.
use goodwe_wallbox_sems_home.Prelude.{
  ◌<◌, ◌≡◌, refl, inl, inr, ◌⊎◌, ap, Bool, true, false, not, ◌&&◌, ◌||◌, Option, none, some, List,
  [], ◌∷◌, String, ltb, if◌then◌else◌, str_eq, arith,
}
use goodwe_wallbox_sems_home.Prelude.Maps.{get}
use goodwe_wallbox_sems_home.Prelude.Value.{ℤ, pos, negsuc, Real, Value}
use goodwe_wallbox_sems_home.ObservedState.Defs.{charging_cloud}
use goodwe_wallbox_sems_home.ModeAdapter.Report.{
  Marker, Report, is_text, number, is_zero, is_boolean, is_missing, is_true, is_int, cloud_of,
  modern_idle, observation_marker,
}

-- What a read comes to: a dict, another result, or an exception.
pub data Read : Type 0 where
  came : Report → Read
  nothing_usable broken : Read

pub data Answer : Type 0 where
  confirmed : Bool → Answer
  raised : Answer

abbrev pub is_inactive : Option Bool → Bool
is_inactive (some b) = not b
is_inactive none = false

module _ (parse : String → Option Real) (stamp : Value → Option Marker) (serial : String) where
  -- Explicit idle: not charging, and no power or a coherent idle report.
  unfoldable pub is_stopped : Report → Bool
  is_stopped d =
      is_inactive (charging_cloud (cloud_of d))
      && ((not (is_boolean (get "power" d)) && is_zero (number parse (get "power" d)))
          || modern_idle d)

  -- One report: `again` goes on with the baseline, `begin` with a new one.
  abbrev pub weighed : Option Marker → Option Marker → Report → Answer → (Marker → Answer) → Answer
  unfolding is_stopped
  weighed base none d again begin = confirmed false
  weighed none (some m) d again begin = begin m
  weighed (some b) (some m) d again begin =
      if str_eq m.source b.source && (ltb b.at m.at && is_stopped d) then confirmed true else again

  -- The reads that come before the timeout, and the baseline.
  unfoldable pub confirm : Option Marker → List Read → Answer
  unfolding is_stopped
  confirm base [] = confirmed false
  confirm base (nothing_usable ∷ rs) = confirmed false
  confirm base (broken ∷ rs) = raised
  confirm base (came d ∷ rs) =
      let again = confirm base rs in
      if is_text serial (get "sn" d)
      then weighed base (observation_marker stamp d) d again (λ m. confirm (some m) rs)
      else confirmed false

  unfoldable pub confirm_stopped : List Read → Answer
  unfolding confirm
  confirm_stopped reads = confirm none reads

  -- The power is a number and zero, or it is missing from a report of the equipment in standby after
  -- an ended session.
  abbrev pub IsIdle : Report → Type 0
  IsIdle d =
      ((is_boolean (get "power" d) ≡ false) × (number parse (get "power" d) ≡ some (pos 0)))
      ⊎ ((is_missing (get "power" d) ≡ true)
          × (is_text "standby" (get "status" d) ≡ true)
          × (is_text "semsplus_equipment" (get "observation_source" d) ≡ true)
          × (is_true (get "_cloud_session_idle" d) ≡ true)
          × (is_int 8 (get "last_charge_work_status" d) ≡ true))

  zero_power : (o : Option ℤ) → is_zero o ≡ true → o ≡ some (pos 0)
  zero_power none h = absurd (ground (arith, h))
  zero_power (some (negsuc n)) h = absurd (ground (arith, h))
  zero_power (some (pos n)) h = ap (λ k. some (pos k)) (ground (arith, h))

  inactive : (o : Option Bool) → is_inactive o ≡ true → o ≡ some false
  inactive none h = absurd (ground (arith, h))
  inactive (some true) h = absurd (ground (arith, h))
  inactive (some false) h = refl

  five :
      (a b c x y : Bool)
      → ((a && (b && c)) && (x && y)) ≡ true
      → (y ≡ true) × (x ≡ true) × (a ≡ true) × (b ≡ true) × (c ≡ true)
  five a b c x y h = (
    ground (arith, h),
    ground (arith, h),
    ground (arith, h),
    ground (arith, h),
    ground (arith, h),
  )

  idle_cases :
      (i z y m : Bool) → (i && ((not z && y) || m)) ≡ true → ((z ≡ false) × (y ≡ true)) ⊎ (m ≡ true)
  idle_cases i false true m h = inl (refl, refl)
  idle_cases i false false m h = inr (ground (arith, h))
  idle_cases i true y m h = inr (ground (arith, h))

  is_stopped-IsIdle : (d : Report) → is_stopped d ≡ true → IsIdle d
  unfolding is_stopped modern_idle
  is_stopped-IsIdle d h =
      elim (idle_cases (is_inactive (charging_cloud (cloud_of d))) (is_boolean (get "power" d))
        (is_zero (number parse (get "power" d))) (modern_idle d) h) [
          | inl e ↦ inl (e.0, zero_power (number parse (get "power" d)) e.1)
          | inr e ↦ inr (
              five (is_text "semsplus_equipment" (get "observation_source" d))
                (is_true (get "_cloud_session_idle" d)) (is_int 8 (get "last_charge_work_status" d))
                (is_text "standby" (get "status" d)) (is_missing (get "power" d)) e)
        ]

  is_stopped-charging :
      (d : Report) → is_stopped d ≡ true → charging_cloud (cloud_of d) ≡ some false
  unfolding is_stopped
  is_stopped-charging d h = inactive (charging_cloud (cloud_of d)) (ground (arith, h))

  -- A report of this wallbox with a marker that is later than another one of the same source, and
  -- that shows it not charging and without power.
  pub data Proves (b : Marker) : List Read → Type 0 where
    found :
        {d : Report} {rs : List Read} (m : Marker)
        → is_text serial (get "sn" d) ≡ true
        → observation_marker stamp d ≡ some m
        → str_eq m.source b.source ≡ true
        → b.at < m.at
        → charging_cloud (cloud_of d) ≡ some false
        → IsIdle d
        → Proves b (came d ∷ rs)
    later : {r : Read} {rs : List Read} → Proves b rs → Proves b (r ∷ rs)

  confirm-Proves :
      (b : Marker) (rs : List Read) → confirm (some b) rs ≡ confirmed true → Proves b rs
  unfolding confirm
  confirm-Proves b [] h = absurd (ground (arith, h))
  confirm-Proves b (nothing_usable ∷ rs) h = absurd (ground (arith, h))
  confirm-Proves b (broken ∷ rs) h = absurd (ground (arith, h))
  confirm-Proves b (came d ∷ rs) h =
      go (is_text serial (get "sn" d)) refl (observation_marker stamp d) refl
        (λ k. confirm-Proves b rs k) h
    where
      go :
          (x : Bool)
          → is_text serial (get "sn" d) ≡ x
          → (o : Option Marker) → observation_marker stamp d ≡ o
          → (confirm (some b) rs ≡ confirmed true → Proves b rs)
          → (if x
              then weighed (some b) o d (confirm (some b) rs) (λ m. confirm (some m) rs)
              else confirmed false)
            ≡ confirmed true
          → Proves b (came d ∷ rs)
      go false e o f n k = absurd (ground (arith, k))
      go true e none f n k = absurd (ground (arith, k))
      go true e (some m) f n k =
          shown (str_eq m.source b.source && (ltb b.at m.at && is_stopped d)) refl k
        where
          shown :
              (y : Bool)
              → (str_eq m.source b.source && (ltb b.at m.at && is_stopped d)) ≡ y
              → (if y then confirmed true else confirm (some b) rs) ≡ confirmed true
              → Proves b (came d ∷ rs)
          shown true g j =
              let stopped : is_stopped d ≡ true = ground (arith, g) in
              found m e f (ground (arith, g)) (ground (arith, g)) (is_stopped-charging d stopped)
                (is_stopped-IsIdle d stopped)
          shown false g j = later (n j)

  -- An unacknowledged Stop counts as done only if the first read after it gave a report of this
  -- wallbox with a time, and a later read one with a later time from the same source that shows
  -- the wallbox not charging, and its power either a number and zero or missing from a report of the
  -- equipment in standby after an ended session.
  pub confirm_stopped-Proves :
      (reads : List Read)
      → confirm_stopped reads ≡ confirmed true
      → (d : Report) × (rs : List Read) × (b : Marker) × (reads ≡ came d ∷ rs)
        × (is_text serial (get "sn" d) ≡ true)
        × (observation_marker stamp d ≡ some b)
        × Proves b rs
  unfolding confirm_stopped confirm
  confirm_stopped-Proves [] h = absurd (ground (arith, h))
  confirm_stopped-Proves (nothing_usable ∷ rs) h = absurd (ground (arith, h))
  confirm_stopped-Proves (broken ∷ rs) h = absurd (ground (arith, h))
  confirm_stopped-Proves (came d ∷ rs) h =
      go (is_text serial (get "sn" d)) refl (observation_marker stamp d) refl h
    where
      go :
          (x : Bool)
          → is_text serial (get "sn" d) ≡ x
          → (o : Option Marker) → observation_marker stamp d ≡ o
          → (if x
              then weighed none o d (confirm none rs) (λ m. confirm (some m) rs)
              else confirmed false)
            ≡ confirmed true
          → (d' : Report) × (rs' : List Read) × (b : Marker) × (came d ∷ rs ≡ came d' ∷ rs')
            × (is_text serial (get "sn" d') ≡ true)
            × (observation_marker stamp d' ≡ some b)
            × Proves b rs'
      go false e o f k = absurd (ground (arith, k))
      go true e none f k = absurd (ground (arith, k))
      go true e (some b) f k = (d, rs, b, refl, e, f, confirm-Proves b rs k)
