-- ===== src/ControlFallback/Recover.antt =====
-- `recover_control`.
use goodwe_wallbox_sems_home.Prelude.{
  ℕ, zero, suc, ◌+◌, Bool, true, false, not, ◌&&◌, ◌||◌, List, [], ◌∷◌, ltb, ◌==◌, if◌then◌else◌,
  String, str_eq,
}
use goodwe_wallbox_sems_home.ControlFallback.State.{
  Status, superseded, unavailable, stuck, Answer, operated, World, Outcome, ok, raised, M, continue,
  await, unexpired, is_usable, log_entry, verified, set_local,
}

-- An exception of the chain of causes: CloudPreparationUnavailable, a CloudCommandError with
-- `cloud_command_uncertain`, `action` and `code`, or another one.
pub data Cause : Type 0 where
  unsent : Cause
  command : Bool → String → String → Cause
  unrelated : Cause

-- The first of the chain that the recovery knows.
abbrev pub cause_of : List Cause → Cause
cause_of [] = unrelated
cause_of (unsent ∷ cs) = unsent
cause_of (command u a c ∷ cs) = command u a c
cause_of (unrelated ∷ cs) = cause_of cs

-- `request.value`, as far as it is True or False.
pub data Choice : Type 0 where
  starting stopping setting : Choice

abbrev pub is_action : Choice → String → Bool
is_action starting a = str_eq a "start"
is_action stopping a = str_eq a "stop"
is_action setting a = false

abbrev pub is_charging_key : String → Bool
is_charging_key key = str_eq key "charging"

abbrev pub is_uncertain : String → Choice → Cause → Bool
is_uncertain key choice (command uncertain action code) =
    is_charging_key key
    && (uncertain
        && (is_action choice action
            && (str_eq code "R0305"
                || (str_eq code "C0001"
                    || (str_eq code "transport_error" || str_eq code "B0001")))))
is_uncertain key choice c = false

abbrev pub is_unsent : Cause → Bool
is_unsent unsent = true
is_unsent c = false

abbrev pub is_known_key : String → Bool
is_known_key key =
    is_charging_key key
    || (str_eq key "mode"
        || (str_eq key "power" || (str_eq key "minimum_power" || str_eq key "auto_start")))

unfoldable pub is_eligible : String → Choice → Cause → World → Bool
is_eligible key choice cause w =
    (is_known_key key && (is_unsent cause || is_uncertain key choice cause))
    && (not w.shared.owner.local && is_usable w.shared.fallback)

-- `check`, for the epoch that it compares with.
unfoldable pub is_current : ℕ → ℕ → World → Bool
is_current epoch version w =
    let s = w.shared in
    (not s.closed
      && (not s.owner.closed && (not s.owner.transitioning && s.owner.routing_epoch == epoch)))
    && (not s.pending.closed
        && (s.pending.version == version
            && (is_usable s.fallback && unexpired w.now s.pending.batch_deadline)))

unfoldable pub check : ℕ → ℕ → M (Unit {0})
unfolding is_current
check epoch version w = if is_current epoch version w then (ok tt, w) else (raised superseded, w)

abbrev pub reconciliation : Choice → Bool → ℕ
reconciliation stopping is_unsent = 0
reconciliation starting true = 0
reconciliation starting false = 15000
reconciliation setting true = 0
reconciliation setting false = 15000

-- The state that permits a Start after the handover.
abbrev pub may_start : Status → Bool
may_start s = (s.stopped && s.fault_code == 0) && (s.state == 0 && s.connection == 1)

module _ (env : ℕ → Answer) (key : String) (choice : Choice) (version : ℕ) where
  unfoldable pub operate : M Bool
  unfolding log_entry await
  operate w =
      continue (await env (log_entry (operated w.awaits w.shared w.now) w)) (λ a v. (ok true, v))

  abbrev pub charge : Choice → Status → M Bool
  unfolding operate
  charge stopping s w = if not s.stopped then operate w else (ok true, w)
  charge starting s w =
      if s.charging
      then (ok true, w)
      else if may_start s
      then operate w
      else (raised unavailable, w)
  charge setting s w =
      if s.charging
      then (ok true, w)
      else if may_start s
      then operate w
      else (raised unavailable, w)

  abbrev pub finish : Status → M Bool
  unfolding operate
  finish s w = if is_charging_key key then charge choice s w else operate w

  -- From the refresh after the handover.
  unfoldable pub conclude : ℕ → M Bool
  unfolding check await operate verified
  conclude epoch w =
      let o = w.shared.owner in
      if not o.local || (not o.last_update_success || not o.available)
      then (raised unavailable, w)
      else continue (await env (verified w))
          (λ a v. continue (check epoch version v) (λ u v'. finish a.status v'))

  unfoldable pub confirm : M Bool
  unfolding check await conclude
  confirm w =
      let epoch = w.shared.owner.routing_epoch in
      continue (check epoch version w) (λ u v.
        continue (await env v)
          (λ a v'. continue (check epoch version v') (λ u' v''. conclude epoch v'')))

  -- `async_setting_write(handover)`: the wait for the lock, the handover, and what follows it.
  unfoldable pub hand : ℕ → M Bool
  unfolding check set_local await confirm
  hand epoch w = continue (await env w) (λ a v. continue (check epoch version v) (λ u v'.
      continue (set_local env v') (λ a' v''. continue (await env v'') (λ a'' v'''. confirm v'''))))

  unfoldable pub reroute : ℕ → M Bool
  unfolding check hand
  reroute epoch w =
      continue (check epoch version w)
        (λ u v. if ltb v.now v.shared.fallback.next_attempt then (ok false, v) else hand epoch v)

  -- The wait for a report that shows the requested state; its fuel is for rounds of 1 ms or more.
  unfoldable pub reconcile : ℕ → ℕ → ℕ → M Bool
  unfolding check reroute await
  reconcile epoch deadline zero w = (stuck, w)
  reconcile epoch deadline (suc fuel) w =
      let again =
        λ (v : World). continue (await env v) (λ a v'. reconcile epoch deadline fuel v') in
      elim (ltb w.now deadline) as (λ _. Outcome Bool × World) [
        | false ↦ reroute epoch w
        | true ↦ continue (check epoch version w) (λ u v.
            if v.shared.owner.last_update_success && v.shared.owner.matched
            then (ok true, v)
            else again v)
      ]

  unfoldable pub recover_control : List Cause → M Bool
  unfolding check is_eligible reconcile
  recover_control causes w =
      let cause = cause_of causes in
      let epoch = w.shared.owner.routing_epoch in
      let wait = reconciliation choice (is_unsent cause) in
      if not (is_eligible key choice cause w)
      then (ok false, w)
      else continue (check epoch version w) (λ u v. reconcile epoch (v.now + wait) (suc wait) v)
