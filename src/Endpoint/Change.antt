-- ===== src/Endpoint/Change.antt =====
-- What one management session does to Socket A.
use mathlib.Core.Path.{subst}
use goodwe_wallbox_sems_home.Prelude.{
  ℕ, Bool, true, false, not, ◌||◌, ◌≡◌, refl, sym, ◌∙◌, ◌⊎◌, inl, inr, List, [], ◌∷◌, ◌++◌,
  if◌then◌else◌, list_eq, drop, starts_with, arith,
}
use goodwe_wallbox_sems_home.Endpoint.Address.{check_endpoint}
use goodwe_wallbox_sems_home.Endpoint.Device.{
  Outcome, ok, timed_out, failed, Session, continue, netp, netp_set, sockb, tcplk, ok_mark,
  none_answer, Wallbox, command, finish, session, checked, confirmed, written, write, replace,
  change,
}

module _ {D : Type 0} where
  -- A property of the device that the rest keeps holds at the end.
  pub continue-Holds :
      {A B : Type 0} (P : D → Type 0) (r : Outcome A × D) (k : A → Session D B)
      → P r.1
      → ((a : A) (d : D) → P d → P (k a d).1)
      → P (continue r k).1
  continue-Holds P (ok a, d) k h n = n a d h
  continue-Holds P (timed_out, d) k h n = h
  continue-Holds P (failed, d) k h n = h

  -- A property of what a completed run leaves.
  pub continue-Ends :
      {A B : Type 0} (Q : B → D → Type 0) (r : Outcome A × D) (k : A → Session D B)
      → ((a : A) → r.0 ≡ ok a → (c : B) → (k a r.1).0 ≡ ok c → Q c (k a r.1).1)
      → (c : B) → (continue r k).0 ≡ ok c
      → Q c (continue r k).1
  continue-Ends Q (ok a, d) k n c e = n a refl c e
  continue-Ends Q (timed_out, d) k n c e = absurd (ground (arith, e))
  continue-Ends Q (failed, d) k n c e = absurd (ground (arith, e))

module _ {D : Type 0} (b : Wallbox D) where
  reads : List ℕ → Bool
  reads value = list_eq value netp || (list_eq value sockb || list_eq value tcplk)

  pub socket_a-command :
      (value : List ℕ) (d : D)
      → starts_with netp_set value ≡ false
      → b.socket_a (command b value d).1 ≡ b.socket_a d
  unfolding command
  socket_a-command value d h =
      subst
        (λ t.
          b.socket_a
            (if t
              then (if check_endpoint (drop 8 value)
                  then b.raw (value ++ (13 ∷ [])) d
                  else (failed, d))
              else if list_eq value netp || (list_eq value sockb || list_eq value tcplk)
              then b.raw (value ++ (13 ∷ [])) d
              else (failed, d)).1
          ≡ b.socket_a d)
        (sym h) (go (list_eq value netp || (list_eq value sockb || list_eq value tcplk)))
    where
      go :
          (t : Bool)
          → (let r : Outcome (List ℕ) × D =
                if t then b.raw (value ++ (13 ∷ [])) d else (failed, d) in
              b.socket_a r.1 ≡ b.socket_a d)
      go true = b.socket_a-read value d h
      go false = refl

  -- Whatever a session with Socket A `s` that may set it to `t` leaves there.
  abbrev pub Lands : List ℕ → List ℕ → D → Type 0
  Lands s t d = (b.socket_a d ≡ s) ⊎ (b.socket_a d ≡ t)

  Lands-keeps : (s t : List ℕ) (d e : D) → b.socket_a e ≡ b.socket_a d → Lands s t d → Lands s t e
  Lands-keeps s t d e h (inl l) = inl (h ∙ l)
  Lands-keeps s t d e h (inr l) = inr (h ∙ l)

  Lands-read :
      (s t value : List ℕ) (d : D)
      → starts_with netp_set value ≡ false
      → Lands s t d
      → Lands s t (command b value d).1
  Lands-read s t value d h l =
      Lands-keeps s t d (command b value d).1 (socket_a-command value d h) l

  Lands-finish :
      {A : Type 0} (s t : List ℕ) (r : Outcome A × D) → Lands s t r.1 → Lands s t (finish b r).1
  Lands-finish s t (o, d) l = Lands-keeps s t d (b.close d) (b.socket_a-close d) l

  Lands-session :
      {A : Type 0} (t : List ℕ) (body : Session D A) (d : D)
      → ((e : D) → Lands (b.socket_a d) t e → Lands (b.socket_a d) t (body e).1)
      → Lands (b.socket_a d) t (session b body d).1
  Lands-session t body d n =
      continue-Holds (Lands (b.socket_a d) t) (b.start d) (λ u e. finish b (body e))
        (inl (b.socket_a-start d)) (λ u e l. Lands-finish (b.socket_a d) t (body e) (n e l))

  Lands-written :
      (s t : List ℕ) (r : Outcome (List ℕ) × D) → Lands s t r.1 → Lands s t (written r).1
  Lands-written s t (ok a, d) l = l
  Lands-written s t (timed_out, d) l = l
  Lands-written s t (failed, d) l = l

  Lands-write : (s t current : List ℕ) (d : D) → Lands s t d → Lands s t (write b t current d).1
  unfolding write command
  Lands-write s t current d l = go (not (list_eq current (ok_mark ++ t))) (check_endpoint t)
    where
      set : D
      set = (b.raw ((netp_set ++ t) ++ (13 ∷ [])) d).1

      after : Lands s t set
      after = elim (b.socket_a-write t d) [ inl h ↦ Lands-keeps s t d set h l | inr h ↦ inr h ]

      go :
          (c v : Bool)
          → (let r : Outcome (Unit {0}) × D =
                if c
                then written (if v then b.raw ((netp_set ++ t) ++ (13 ∷ [])) d else (failed, d))
                else (ok tt, d) in
              Lands s t r.1)
      go true true = Lands-written s t (b.raw ((netp_set ++ t) ++ (13 ∷ [])) d) after
      go true false = l
      go false v = l

  Lands-confirmed : (s t : List ℕ) (d : D) → Lands s t d → Lands s t (confirmed b t d).1
  unfolding confirmed
  Lands-confirmed s t d l =
      continue-Holds (Lands s t) (command b netp d) (checked t) (Lands-read s t netp d refl l)
        (λ current e m. go (list_eq current (ok_mark ++ t)) e m)
    where
      go :
          (c : Bool) (e : D)
          → Lands s t e
          → (let r : Outcome (Unit {0}) × D = if c then (ok tt, e) else (failed, e) in
              Lands s t r.1)
      go true e m = m
      go false e m = m

  Lands-replace :
      (s expected t current socket_b : List ℕ) (d : D)
      → Lands s t d
      → Lands s t (replace b expected t current socket_b d).1
  unfolding replace
  Lands-replace s expected t current socket_b d l = go (
      not (list_eq socket_b none_answer)
      || not (list_eq current (ok_mark ++ expected) || list_eq current (ok_mark ++ t)))
    where
      go :
          (c : Bool)
          → (let r : Outcome (Unit {0}) × D =
                if c then (failed, d) else continue (write b t current d) (λ u. confirmed b t) in
              Lands s t r.1)
      go true = l
      go false =
          continue-Holds (Lands s t) (write b t current d) (λ u. confirmed b t)
            (Lands-write s t current d l) (λ u e m. Lands-confirmed s t e m)

  -- After `_change` the endpoint is the old one or the target, however the session went.
  pub Lands-change :
      (expected t : List ℕ) (d : D) → Lands (b.socket_a d) t (change b expected t d).1
  unfolding change
  Lands-change expected t d = Lands-session t body d (λ e l.
      continue-Holds (Lands s t) (command b netp e)
        (λ current f.
          continue (command b sockb f) (λ socket_b g. replace b expected t current socket_b g))
        (Lands-read s t netp e refl l)
        (λ current f m.
          continue-Holds (Lands s t) (command b sockb f)
            (λ socket_b g. replace b expected t current socket_b g) (Lands-read s t sockb f refl m)
            (λ socket_b g n. Lands-replace s expected t current socket_b g n)))
    where
      s : List ℕ
      s = b.socket_a d

      body : Session D (Unit {0})
      body = λ e. continue (command b netp e) (λ current f.
          continue (command b sockb f) (λ socket_b g. replace b expected t current socket_b g))
