-- ===== src/SessionGuard/Reduction.antt =====
-- How long a NativeSessionGuard tolerates the ceiling of before a reduction.
use goodwe_wallbox_sems_home.Prelude.{
  ℕ, is_some, ◌+◌, ◌≤◌, ◌≡◌, none, some, List, [], ◌∷◌, ◌⊎◌, is_some,
}
use goodwe_wallbox_sems_home.SessionGuard.Defs.{Guard, stopping_for, Reason, ended, stop_pending}
use goodwe_wallbox_sems_home.SessionGuard.Allowances.{Within}
use goodwe_wallbox_sems_home.SessionGuard.Trace.{Event, update_call, report, timer}

-- What a session meets while it is supervised: a change of the limit, a report or the timer; a
-- change leaves an allowance that is over by the time `t`.
abbrev pub IsSpaced : ℕ → ℕ → Event → Type 0
IsSpaced t grace (update_call now limit) = now + grace ≤ t
IsSpaced t grace (report now s) = Unit {0}
IsSpaced t grace (timer now) = Unit {0}
IsSpaced t grace _ = 1 ≤ 0

-- The limit after the changes.
abbrev pub last_limit : ℕ → List Event → ℕ
last_limit limit [] = limit
last_limit limit (update_call now l ∷ es) = last_limit l es
last_limit limit (e ∷ es) = last_limit limit es

-- A protective Stop is under way and shown, or a terminal report has ended the session.
abbrev pub IsStopping : Guard → Type 0
IsStopping g = (r : Reason) × (g.task ≡ stopping_for r) × (g.error ≡ some (stop_pending r))

abbrev pub IsEnded : Guard → Type 0
IsEnded g = (g.limit ≡ none) × (g.phase ≡ ended)

-- A session is over or within its limit.
Outcome : ℕ → ℕ → ℕ → Guard → Type 0
Outcome t grace limit g = IsStopping g ⊎ (IsEnded g ⊎ Within t grace limit g)
