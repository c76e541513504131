-- ===== src/ChargeModePolicy/Entry.antt =====
-- How the entities reach the policy: `async_apply_policy`, `mode_setting_write` and
-- `prepare_fast_power` of charge_mode_policy.py. The translation of the exceptions for Home
-- Assistant is left out.
use goodwe_wallbox_sems_home.Prelude.{
  ℕ, zero, suc, ◌≡◌, ◌∙◌, refl, inl, inr, Bool, true, false, not, ◌&&◌, Option, none, some, leb,
  ◌==◌, is_some, if◌then◌else◌, arith,
}
use goodwe_wallbox_sems_home.Prelude.Value.{Value, int_up_to}
use goodwe_wallbox_sems_home.ChargeModePolicy.World.{
  Answer, World, M, Outcome, ok, fail, stuck, verification, invalid_mode, invalid_power, continue,
  pure,
}
use goodwe_wallbox_sems_home.ChargeModePolicy.Start.{async_start}
use goodwe_wallbox_sems_home.ChargeModePolicy.Settings.{
  valid_power, is_repeated, setting_write, write_setting, select_mode, remember_mode,
}
use goodwe_wallbox_sems_home.ChargeModePolicy.Fenced.{write_setting-RunsFenced}

-- `async_apply_policy(…, "select_mode", mode)`; true if the policy has handled the selection.
unfoldable pub apply_mode : (ℕ → Answer) → Value → M Bool
apply_mode env v w =
    if not w.policy.enabled && not (is_fast (int_up_to 2 v) && is_some w.policy.desired_power)
    then continue (remember_mode env v w) (λ u. pure false)
    else continue (select_mode env v w) (λ charging. pure true)
  where
    is_fast : Option ℕ → Bool
    is_fast none = false
    is_fast (some mode) = mode == 0

-- `async_apply_policy(…, "start")`
unfoldable pub apply_start : (ℕ → Answer) → M Bool
apply_start env w =
    if not w.policy.enabled then (ok false, w) else continue (async_start env w) (λ u. pure true)

-- `mode_setting_write`, for an entity that remembers its power or not.
unfoldable pub mode_setting_write :
    (ℕ → Answer) → M Bool → Option ℕ → Bool → Value → World → Outcome (Option Bool) × World
mode_setting_write env function desired_mode power_write v w =
    if not w.policy.enabled && not power_write
    then continue (function w) (λ b. pure (some b))
    else setting_write env function desired_mode (if power_write then some v else none) w

-- The write that only stages a power: it shows the entity's state again.
abbrev pub staged : M Bool
staged = pure true

-- `prepare_fast_power`, on the reported mode, the success of the last update and the entity's range.
unfoldable pub prepare_fast_power :
    (ℕ → Answer) → M Bool → Value → Bool → ℕ → ℕ → Value → World → Outcome (Option Bool) × World
prepare_fast_power env function mode success least most v w = elim (int_up_to 2 mode) [
  | none ↦ (fail (verification invalid_mode), w)
  | some m ↦
      if not success
      then (fail (verification invalid_mode), w)
      else if m == 0
      then continue (function w) (λ b. pure (some b))
      else elim (valid_power v) [
        | none ↦ (fail (verification invalid_power), w)
        | some power ↦
            if leb least power && leb power most
            then setting_write env staged none (some v) w
            else (fail (verification invalid_power), w)
      ]
]

continue-sent :
    {A B : Type 0} (r : Outcome A × World) (f : A → B)
    → (continue r (λ a. pure (f a))).1.sent ≡ r.1.sent
continue-sent (ok a, w) f = refl
continue-sent (fail e, w) f = refl
continue-sent (stuck, w) f = refl

write_staged-sent :
    (env : ℕ → Answer) (power : Option ℕ) (w : World)
    → (write_setting env staged none power w).1.sent ≡ w.sent
write_staged-sent env power w = elim (write_setting-RunsFenced env staged none power w) [
  | inl (f, e, same) ↦ same
  | inr (v, admitted, e, same) ↦ same ∙ admitted.nothing_sent
]

setting_staged-sent :
    (env : ℕ → Answer) (v : Value) (w : World)
    → (setting_write env staged none (some v) w).1.sent ≡ w.sent
unfolding setting_write
setting_staged-sent env v w = go (valid_power v)
  where
    go :
        (o : Option ℕ)
        → let r : Outcome (Option Bool) × World = elim o [
          | none ↦ (fail (verification invalid_power), w)
          | some power ↦
              if is_repeated none power w.policy
              then (ok none, w)
              else continue (write_setting env staged none (some power) w) (λ b. pure (some b))
        ] in
          r.1.sent ≡ w.sent
    go none = refl
    go (some power) = repeated (is_repeated none power w.policy)
      where
        repeated :
            (b : Bool)
            → let r : Outcome (Option Bool) × World =
                if b
                then (ok none, w)
                else continue (write_setting env staged none (some power) w) (λ b. pure (some b)) in
              r.1.sent ≡ w.sent
        repeated true = refl
        repeated false =
            continue-sent (write_setting env staged none (some power) w) some
            ∙ write_staged-sent env (some power) w

-- In a PV mode, asking for a charge power changes nothing at the wallbox, whatever its value and
-- whatever happens meanwhile: the power is at most staged for the next selection of Fast.
pub staged_power-silent :
    (env : ℕ → Answer) (function : M Bool) (mode : Value) (success : Bool) (least most : ℕ)
    (v : Value) (w : World) (m : ℕ)
    → int_up_to 2 mode ≡ some (suc m)
    → (prepare_fast_power env function mode success least most v w).1.sent ≡ w.sent
unfolding prepare_fast_power
staged_power-silent env function mode success least most v w m pv = go (int_up_to 2 mode) pv success
  where
    in_range : (o : Option ℕ) → Outcome (Option Bool) × World
    in_range o = elim o [
      | none ↦ (fail (verification invalid_power), w)
      | some power ↦
          if leb least power && leb power most
          then setting_write env staged none (some v) w
          else (fail (verification invalid_power), w)
    ]

    in_range-silent : (o : Option ℕ) → (in_range o).1.sent ≡ w.sent
    in_range-silent none = refl
    in_range-silent (some power) = within (leb least power && leb power most)
      where
        within :
            (b : Bool)
            → let r : Outcome (Option Bool) × World =
                if b
                then setting_write env staged none (some v) w
                else (fail (verification invalid_power), w) in
              r.1.sent ≡ w.sent
        within true = setting_staged-sent env v w
        within false = refl

    slow :
        (b : Bool)
        → b ≡ false
        → let r : Outcome (Option Bool) × World =
            if b then continue (function w) (λ b. pure (some b)) else in_range (valid_power v) in
          r.1.sent ≡ w.sent
    slow true e = absurd (ground (arith, e))
    slow false e = in_range-silent (valid_power v)

    go :
        (o : Option ℕ)
        → o ≡ some (suc m)
        → (s : Bool)
        → let r : Outcome (Option Bool) × World = elim o [
          | none ↦ (fail (verification invalid_mode), w)
          | some k ↦
              if not s
              then (fail (verification invalid_mode), w)
              else if k == 0
              then continue (function w) (λ b. pure (some b))
              else in_range (valid_power v)
        ] in
          r.1.sent ≡ w.sent
    go none e s = refl
    go (some zero) e s = absurd (ground (arith, e))
    go (some (suc k)) e false = refl
    go (some (suc k)) e true = slow (suc k == 0) (ground arith)
