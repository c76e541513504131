-- ===== src/ControlFallback/Carried.antt =====
-- A recovery hands over once at most, and then operates once at most.
use mathlib.Core.Path.{subst}
use goodwe_wallbox_sems_home.Prelude.{
  ℕ, ap, ◌∙◌, ◌≡◌, ◌≢◌, refl, sym, Bool, true, false, not, ◌&&◌, ◌||◌, List, ◌∷◌, if◌then◌else◌,
  String, arith, suc,
}
use goodwe_wallbox_sems_home.ControlFallback.State.{
  Shared, Status, Failure, superseded, unavailable, Answer, Entry, handed, operated, World, Outcome,
  ok, raised, stuck, M, continue, unexpired, is_usable, log_entry, pass,
}
use goodwe_wallbox_sems_home.ControlFallback.Recover.{
  Choice, starting, stopping, setting, is_charging_key, is_current, check, may_start, operate,
  charge, finish,
}
use goodwe_wallbox_sems_home.ControlFallback.Awaits.{await-then}

-- What the status permits.
abbrev pub permits : Bool → Choice → Status → Bool
permits false choice s = true
permits true stopping s = not s.stopped
permits true starting s = not s.charging && may_start s
permits true setting s = not s.charging && may_start s

-- Under what an operation may begin, `awaits` awaits after the start: the status that it goes by is
-- the one that the last of them gave.
pub record IsSafe (env : ℕ → Answer) (key : String) (choice : Choice) (version : ℕ) (awaits : ℕ)
    (sh : Shared) (now : ℕ) : Type 0 where
  pub open_still :
      (sh.closed || (sh.owner.closed || (sh.owner.transitioning || sh.pending.closed))) ≡ false
  pub latest : sh.pending.version ≡ version
  pub usable : is_usable sh.fallback ≡ true
  pub timely : unexpired now sh.pending.batch_deadline ≡ true
  pub permitted :
      (n : ℕ) × (awaits ≡ suc n) × (permits (is_charging_key key) choice (env n).status ≡ true)

-- The log of a recovery: nothing begun, a handover, or a handover and then a safe operation.
pub data Carried (env : ℕ → Answer) (key : String) (choice : Choice) (version : ℕ)
    (old : List Entry) : List Entry → Type 0 where
  untouched : Carried env key choice version old old
  handing : Carried env key choice version old (handed ∷ old)
  operating :
      {awaits : ℕ} {sh : Shared} {now : ℕ}
      → IsSafe env key choice version awaits sh now
      → Carried env key choice version old (operated awaits sh now ∷ handed ∷ old)

module _ (env : ℕ → Answer) where
  pub check-then :
      (Q : Outcome Bool × World → Type 0) (epoch version : ℕ) (w : World) (k : Unit {0} → M Bool)
      → Q (raised superseded, w)
      → (is_current epoch version w ≡ true → Q (k tt w))
      → Q (continue (check epoch version w) k)
  unfolding check
  check-then Q epoch version w k h n = go (is_current epoch version w) refl
    where
      go :
          (x : Bool)
          → is_current epoch version w ≡ x
          → (let r : Outcome (Unit {0}) × World =
                if x then (ok tt, w) else (raised superseded, w) in
              Q (continue r k))
      go true e = n e
      go false e = h

module _ (env : ℕ → Answer) (key : String) (choice : Choice) (version : ℕ) (old : List Entry) where
  abbrev pub C : List Entry → Type 0
  C log = Carried env key choice version old log

  -- Not stuck, and carried out.
  abbrev pub Q : Outcome Bool × World → Type 0
  Q r = (r.0 ≢ stuck) × C r.1.log

  ended :
      (o : Outcome Bool) (w : World) (log : List Entry) → o ≢ stuck → w.log ≡ log → C log → Q (o, w)
  ended o w log n e c = (n, subst C (sym e) c)

  pub raise : (f : Failure) (w : World) (log : List Entry) → w.log ≡ log → C log → Q (raised f, w)
  raise f w log = ended (raised f) w log (λ e. ground (arith, e))

  pub yield : (b : Bool) (w : World) (log : List Entry) → w.log ≡ log → C log → Q (ok b, w)
  yield b w log = ended (ok b) w log (λ e. ground (arith, e))

  safe :
      (n epoch : ℕ) (w : World)
      → w.awaits ≡ suc n
      → is_current epoch version w ≡ true
      → permits (is_charging_key key) choice (env n).status ≡ true
      → IsSafe env key choice version w.awaits w.shared w.now
  unfolding is_current
  safe n epoch w a c p = record {
    open_still = ground (arith, c);
    latest = ground (arith, c);
    usable = ground (arith, c);
    timely = ground (arith, c);
    permitted = (n, a, p);
  }

  operate-Q :
      (w : World)
      → w.log ≡ handed ∷ old
      → IsSafe env key choice version w.awaits w.shared w.now
      → Q (operate env key choice version w)
  unfolding operate log_entry pass
  operate-Q w e i =
      let entry = operated w.awaits w.shared w.now in
      await-then env Q (log_entry entry w) (λ a v. (ok true, v))
        (λ f.
          raise f (pass (env w.awaits) (log_entry entry w)) (entry ∷ handed ∷ old)
            (ap (◌∷◌ entry) e) (operating i))
        (yield true (pass (env w.awaits) (log_entry entry w)) (entry ∷ handed ∷ old)
          (ap (◌∷◌ entry) e) (operating i))

  pub finish-Q :
      (n epoch : ℕ) (w : World)
      → w.log ≡ handed ∷ old
      → w.awaits ≡ suc n
      → is_current epoch version w ≡ true
      → Q (finish env key choice version (env n).status w)
  unfolding operate
  finish-Q n epoch w e a c = go (is_charging_key key) choice refl refl
    where
      s : Status
      s = (env n).status

      begun :
          (b : Bool) (ch : Choice)
          → is_charging_key key ≡ b
          → choice ≡ ch
          → permits b ch s ≡ true
          → Q (operate env key choice version w)
      begun b ch f g p = operate-Q w e (
          safe n epoch w a c (
            subst (λ x. permits x choice s ≡ true) (sym f)
              (subst (λ x. permits b x s ≡ true) (sym g) p)))

      beginning :
          (ch : Choice)
          → is_charging_key key ≡ true
          → choice ≡ ch
          → permits true ch s ≡ (not s.charging && may_start s)
          → (x y : Bool) → s.charging ≡ x
          → may_start s ≡ y
          → (let r : Outcome Bool × World =
                if x
                then (ok true, w)
                else if y
                then operate env key choice version w
                else (raised unavailable, w) in
              Q r)
      beginning ch f g p true y h k = yield true w (handed ∷ old) e handing
      beginning ch f g p false true h k = begun true ch f g (p ∙ rw h (rw k refl))
      beginning ch f g p false false h k = raise unavailable w (handed ∷ old) e handing

      ending :
          (x : Bool)
          → s.stopped ≡ x
          → is_charging_key key ≡ true
          → choice ≡ stopping
          → (let r : Outcome Bool × World =
                if not x then operate env key choice version w else (ok true, w) in
              Q r)
      ending true h f g = yield true w (handed ∷ old) e handing
      ending false h f g = begun true stopping f g (rw h refl)

      go :
          (b : Bool) (ch : Choice)
          → is_charging_key key ≡ b
          → choice ≡ ch
          → (let r : Outcome Bool × World =
                if b
                then charge env key choice version ch s w
                else operate env key choice version w in
              Q r)
      go false ch f g = begun false choice f refl refl
      go true starting f g = beginning starting f g refl s.charging (may_start s) refl refl
      go true setting f g = beginning setting f g refl s.charging (may_start s) refl refl
      go true stopping f g = ending s.stopped refl f g
