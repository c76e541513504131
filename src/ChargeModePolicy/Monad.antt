-- ===== src/ChargeModePolicy/Monad.antt =====
-- Total correctness of the operations of ChargeModePolicy, whatever their awaits meet.
use goodwe_wallbox_sems_home.Prelude.{
  none, some, ap, ℕ, ◌+◌, ◌≤◌, ◌≡◌, refl, Bool, true, false, not, ◌||◌, List, [], ◌∷◌, arith,
  if◌then◌else◌, ◌==◌, Option, some,
}
use goodwe_wallbox_sems_home.ChargeModePolicy.World.{
  withdrawal, ModeObservation, Policy, Answer, Reply, got, configuration_unavailable, Interruption,
  choice, power_request, closing, interrupt, interrupt_all, World, M, Outcome, ok, fail, stuck,
  continue, check, read, send, sleep, pass, from_reply, Command, superseded, pass_unlocked,
  with_intent,
}

-- A run ends: it returns a value for which `Q` holds, or raises; and `R` holds of the world that
-- it leaves.
abbrev pub Ensures :
    {A : Type 0} → (World → Type 0) → (A → World → Type 0) → Outcome A × World → Type 0
Ensures R Q (ok a, w) = R w × Q a w
Ensures R Q (fail f, w) = R w
Ensures R Q (stuck, w) = ⊥

module _ {A B : Type 0} (R : World → Type 0) (P : A → World → Type 0) (Q : B → World → Type 0) where
  pub Ensures-continue :
      (r : Outcome A × World) (k : A → M B)
      → Ensures R P r
      → ((a : A) (w : World) → R w → P a w → Ensures R Q (k a w))
      → Ensures R Q (continue r k)
  Ensures-continue (ok a, w) k h f = f a w h.0 h.1
  Ensures-continue (fail e, w) k h f = h
  Ensures-continue (stuck, w) k h f = h

pub Ensures-if :
    {A : Type 0} (R : World → Type 0) (Q : A → World → Type 0) (b : Bool) (x y : Outcome A × World)
    → (b ≡ true → Ensures R Q x)
    → (b ≡ false → Ensures R Q y)
    → Ensures R Q (if b then x else y)
Ensures-if R Q true x y h k = h refl
Ensures-if R Q false x y h k = k refl

-- The same for operations that wait for their world.
pub Ensures-branch :
    {A : Type 0} (R : World → Type 0) (Q : A → World → Type 0) (b : Bool) (m n : M A) (w : World)
    → (b ≡ true → Ensures R Q (m w))
    → (b ≡ false → Ensures R Q (n w))
    → Ensures R Q ((if b then m else n) w)
Ensures-branch R Q true m n w h k = h refl
Ensures-branch R Q false m n w h k = k refl

pub Ensures-weaken :
    {A : Type 0} (R R' : World → Type 0) (Q Q' : A → World → Type 0) (r : Outcome A × World)
    → Ensures R Q r
    → ((w : World) → R w → R' w)
    → ((a : A) (w : World) → R w → Q a w → Q' a w)
    → Ensures R' Q' r
Ensures-weaken R R' Q Q' (ok a, w) h f g = (f w h.0, g a w h.0 h.1)
Ensures-weaken R R' Q Q' (fail e, w) h f g = f w h
Ensures-weaken R R' Q Q' (stuck, w) h f g = h

-- What an interruption leaves alone, and what it does to the versions.
pub record Continues (p q : Policy) : Type 0 where
  pub same_timeout : q.timeout ≡ p.timeout
  pub same_interval : q.interval ≡ p.interval
  pub same_desired_mode : q.desired_mode ≡ p.desired_mode
  pub same_desired_power : q.desired_power ≡ p.desired_power
  pub same_remember : q.remember_mode ≡ p.remember_mode
  pub same_preserves : q.preserves_power_all_modes ≡ p.preserves_power_all_modes
  pub version_grows : p.version ≤ q.version
  pub intent_grows : p.start_intent_version ≤ q.start_intent_version
  -- whatever ends an intent to start changes the version too
  pub intent_needs_version : q.start_intent_version + p.version ≤ q.version + p.start_intent_version
  pub stays_closed : p.closed ≡ true → q.closed ≡ true

pub Continues-refl : (p : Policy) → Continues p p
Continues-refl p = ground arith

pub Continues-trans : (p q r : Policy) → Continues p q → Continues q r → Continues p r
Continues-trans p q r h k = record {
  same_timeout = cc (h.same_timeout, k.same_timeout);
  same_interval = cc (h.same_interval, k.same_interval);
  same_desired_mode = cc (h.same_desired_mode, k.same_desired_mode);
  same_desired_power = cc (h.same_desired_power, k.same_desired_power);
  same_remember = cc (h.same_remember, k.same_remember);
  same_preserves = cc (h.same_preserves, k.same_preserves);
  version_grows = omega (arith, h, k);
  intent_grows = omega (arith, h, k);
  intent_needs_version = omega (arith, h, k);
  stays_closed = λ c. k.stays_closed (h.stays_closed c);
}

interrupt-Continues : (i : Interruption) (p : Policy) → Continues p (interrupt i p)
unfolding interrupt
interrupt-Continues choice p = ground arith
interrupt-Continues (power_request n) p = ground arith
interrupt-Continues withdrawal p = ground arith
interrupt-Continues closing p = ground arith

pub interrupt_all-Continues :
    (is : List Interruption) (p : Policy) → Continues p (interrupt_all is p)
unfolding interrupt_all
interrupt_all-Continues [] p = Continues-refl p
interrupt_all-Continues (i ∷ is) p =
    Continues-trans p (interrupt i p) (interrupt_all is (interrupt i p)) (interrupt-Continues i p)
      (interrupt_all-Continues is (interrupt i p))

-- The same without the lock: the mode and the power to keep may change.
pub record Persists (p q : Policy) : Type 0 where
  pub same_timeout : q.timeout ≡ p.timeout
  pub same_interval : q.interval ≡ p.interval
  pub version_grows : p.version ≤ q.version

pub Persists-refl : (p : Policy) → Persists p p
Persists-refl p = ground arith

pub Persists-trans : (p q r : Policy) → Persists p q → Persists q r → Persists p r
Persists-trans p q r h k = record {
  same_timeout = cc (h.same_timeout, k.same_timeout);
  same_interval = cc (h.same_interval, k.same_interval);
  version_grows = omega (arith, h, k);
}

pub Continues-Persists : (p q : Policy) → Continues p q → Persists p q
Continues-Persists p q h = record {
  same_timeout = h.same_timeout;
  same_interval = h.same_interval;
  version_grows = h.version_grows;
}

with_intent-Persists :
    (o : Option (Option ℕ × Option ℕ)) (p : Policy) → Persists p (with_intent o p)
with_intent-Persists none p = Persists-refl p
with_intent-Persists (some (mode, power)) p = ground arith

pub pass_unlocked-Persists : (a : Answer) (w : World) → Persists w.policy (pass_unlocked a w).policy
unfolding pass_unlocked pass
pass_unlocked-Persists a w =
    Persists-trans w.policy (with_intent a.intent_then w.policy) _
      (with_intent-Persists a.intent_then w.policy)
      (Continues-Persists (with_intent a.intent_then w.policy) _
        (interrupt_all-Continues a.meanwhile (with_intent a.intent_then w.policy)))

-- What a run keeps from the policy and the commands that it starts with.
pub record Keeps (since : ℕ) (p : Policy) (commands : List Command) (w : World) : Type 0 where
  pub time_passes : since ≤ w.now
  pub policy_continues : Continues p w.policy
  pub same_sent : w.sent ≡ commands

pub pass-Keeps :
    (since : ℕ) (p : Policy) (s : List Command) (a : Answer) (least : ℕ) (w : World)
    → Keeps since p s w
    → Keeps since p s (pass a least w)
unfolding pass
pass-Keeps since p s a least w k = record {
  time_passes = omega (arith, k.time_passes);
  policy_continues =
      Continues-trans p w.policy (interrupt_all a.meanwhile w.policy) k.policy_continues
        (interrupt_all-Continues a.meanwhile w.policy);
  same_sent = k.same_sent;
}

-- After a check the object is open, and its version is the one checked.
abbrev pub IsCurrent : ℕ → World → Type 0
IsCurrent version w = (w.policy.closed ≡ false) × (w.policy.version ≡ version)

pub check-Ensures :
    (R : World → Type 0) (version : ℕ) (w₀ : World)
    → R w₀
    → Ensures R (λ (u : Unit {0}) w. (w ≡ w₀) × IsCurrent version w) (check version w₀)
unfolding check
check-Ensures R version w₀ h =
    Ensures-if R (λ (u : Unit {0}) w. (w ≡ w₀) × IsCurrent version w)
      (w₀.policy.closed || not (w₀.policy.version == version)) (fail superseded, w₀) (ok tt, w₀)
      (λ bad. h) (λ good. (h, (refl, (ground arith, ground arith))))

-- A read that returns has seen the answer of its await.
abbrev pub HasRead : (ℕ → Answer) → ModeObservation → World → Type 0
HasRead env o w = (n : ℕ) × (w.awaits ≡ n + 1) × ((env n).observation ≡ got o)

pub read-Ensures :
    (env : ℕ → Answer) (since : ℕ) (p : Policy) (s : List Command) (w₀ : World)
    → Keeps since p s w₀
    → Ensures
        (Keeps since p s)
        (λ o w. HasRead env o w × (w.now ≡ w₀.now + (env w₀.awaits).elapsed))
        (read env w₀)
unfolding read
read-Ensures env since p s w₀ k = go (env w₀.awaits).observation refl
  where
    go :
        (r : Reply ModeObservation)
        → (env w₀.awaits).observation ≡ r
        → Ensures
            (Keeps since p s)
            (λ o w. HasRead env o w × (w.now ≡ w₀.now + (env w₀.awaits).elapsed))
            (from_reply r, pass (env w₀.awaits) 0 w₀)
    go (got o) e = (
      pass-Keeps since p s (env w₀.awaits) 0 w₀ k,
      ((w₀.awaits, unfold pass in refl, e), unfold pass in omega arith),
    )
    go configuration_unavailable e = pass-Keeps since p s (env w₀.awaits) 0 w₀ k
    go _ e = pass-Keeps since p s (env w₀.awaits) 0 w₀ k

pub sleep-Ensures :
    (env : ℕ → Answer) (ms : ℕ) (since : ℕ) (p : Policy) (s : List Command) (w₀ : World)
    → Keeps since p s w₀
    → Ensures (Keeps since p s) (λ (u : Unit {0}) w. w₀.now + ms ≤ w.now) (sleep env ms w₀)
unfolding sleep
sleep-Ensures env ms since p s w₀ k = go (env w₀.awaits).slept
  where
    go :
        (r : Reply (Unit {0}))
        → Ensures
            (Keeps since p s)
            (λ (u : Unit {0}) w. w₀.now + ms ≤ w.now)
            (from_reply r, pass (env w₀.awaits) ms w₀)
    go (got u) = (pass-Keeps since p s (env w₀.awaits) ms w₀ k, unfold pass in omega arith)
    go configuration_unavailable = pass-Keeps since p s (env w₀.awaits) ms w₀ k
    go _ = pass-Keeps since p s (env w₀.awaits) ms w₀ k

pub send-Ensures :
    (env : ℕ → Answer) (c : Command) (since : ℕ) (p : Policy) (s : List Command) (w₀ : World)
    → Keeps since p s w₀
    → Ensures (Keeps since p (c ∷ s)) (λ (b : Bool) w. w₀.now ≤ w.now) (send env c w₀)
unfolding send
send-Ensures env c since p s w₀ k = go (env w₀.awaits).acknowledged
  where
    sent : Keeps since p (c ∷ s) (record w₀ { sent = c ∷ w₀.sent })
    sent = record {
      time_passes = k.time_passes;
      policy_continues = k.policy_continues;
      same_sent = ap (◌∷◌ c) k.same_sent;
    }

    go :
        (r : Reply Bool)
        → Ensures
            (Keeps since p (c ∷ s))
            (λ (b : Bool) w. w₀.now ≤ w.now)
            (from_reply r, pass (env w₀.awaits) 0 (record w₀ { sent = c ∷ w₀.sent }))
    go (got u) = (
      pass-Keeps since p (c ∷ s) (env w₀.awaits) 0 (record w₀ { sent = c ∷ w₀.sent }) sent,
      unfold pass in omega arith,
    )
    go configuration_unavailable =
        pass-Keeps since p (c ∷ s) (env w₀.awaits) 0 (record w₀ { sent = c ∷ w₀.sent }) sent
    go _ = pass-Keeps since p (c ∷ s) (env w₀.awaits) 0 (record w₀ { sent = c ∷ w₀.sent }) sent
