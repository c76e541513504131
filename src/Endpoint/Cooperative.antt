-- ===== src/Endpoint/Cooperative.antt =====
-- A change that meets a wallbox which answers.
use goodwe_wallbox_sems_home.Prelude.{
  ℕ, Bool, true, false, not, ◌||◌, ◌≡◌, ◌≢◌, refl, sym, ap, ◌∙◌, ◌⊎◌, inl, inr, List, [], ◌∷◌, ◌++◌,
  if◌then◌else◌, list_eq, list_eq→eq, list_eq_refl, arith,
}
use goodwe_wallbox_sems_home.Endpoint.Address.{check_endpoint}
use goodwe_wallbox_sems_home.Endpoint.Device.{
  Outcome, ok, timed_out, failed, Session, continue, netp, netp_set, sockb, ok_mark, Wallbox,
  change, none_answer, command, finish, checked, confirmed, written, write, replace,
}
use goodwe_wallbox_sems_home.Endpoint.Change.{socket_a-command}

continue-Total :
    {D A B : Type 0} (r : Outcome A × D) (k : A → Session D B) (a : A) (c : B)
    → r.0 ≡ ok a
    → (k a r.1).0 ≡ ok c
    → (continue r k).0 ≡ ok c
continue-Total (ok a', d) k a c e h = ground (arith, e, h)
continue-Total (timed_out, d) k a c e h = absurd (ground (arith, e))
continue-Total (failed, d) k a c e h = absurd (ground (arith, e))

-- A wallbox that answers: it names Socket A and reports Socket B unused, and takes an endpoint
-- that it is sent, though the answer to that may be lost.
pub record IsCooperative {D : Type 0} (b : Wallbox D) : Type 0 where
  pub starts : (d : D) → (b.start d).0 ≡ ok tt
  pub names : (d : D) → (b.raw (netp ++ (13 ∷ [])) d).0 ≡ ok (ok_mark ++ b.socket_a d)
  pub single : (d : D) → (b.raw (sockb ++ (13 ∷ [])) d).0 ≡ ok none_answer
  pub takes : (t : List ℕ) (d : D) → b.socket_a (b.raw ((netp_set ++ t) ++ (13 ∷ [])) d).1 ≡ t
  pub survives : (t : List ℕ) (d : D) → (b.raw ((netp_set ++ t) ++ (13 ∷ [])) d).0 ≢ failed

module _ {D : Type 0} (b : Wallbox D) (co : IsCooperative b) where
  command-names : (d : D) → (command b netp d).0 ≡ ok (ok_mark ++ b.socket_a d)
  unfolding command
  command-names d = co.names d

  command-single : (d : D) → (command b sockb d).0 ≡ ok none_answer
  unfolding command
  command-single d = co.single d

  confirmed-Total : (t : List ℕ) (d : D) → b.socket_a d ≡ t → (confirmed b t d).0 ≡ ok tt
  unfolding confirmed
  confirmed-Total t d h =
      continue-Total (command b netp d) (checked t) (ok_mark ++ t) tt
        (command-names d ∙ ap (λ x. ok (ok_mark ++ x)) h) (rw (list_eq_refl (ok_mark ++ t)) refl)

  written-Total : (r : Outcome (List ℕ) × D) → r.0 ≢ failed → (written r).0 ≡ ok tt
  written-Total (ok a, d) h = refl
  written-Total (timed_out, d) h = refl
  written-Total (failed, d) h = absurd (h refl)

  written-socket_a : (r : Outcome (List ℕ) × D) → b.socket_a (written r).1 ≡ b.socket_a r.1
  written-socket_a (ok a, d) = refl
  written-socket_a (timed_out, d) = refl
  written-socket_a (failed, d) = refl

  write-Total :
      (s t : List ℕ) (d : D)
      → check_endpoint t ≡ true
      → b.socket_a d ≡ s
      → ((write b t (ok_mark ++ s) d).0 ≡ ok tt) × (b.socket_a (write b t (ok_mark ++ s) d).1 ≡ t)
  unfolding write command
  write-Total s t d v h = go (list_eq (ok_mark ++ s) (ok_mark ++ t)) refl (check_endpoint t) v
    where
      raw : Outcome (List ℕ) × D
      raw = b.raw ((netp_set ++ t) ++ (13 ∷ [])) d

      go :
          (c : Bool)
          → list_eq (ok_mark ++ s) (ok_mark ++ t) ≡ c
          → (v : Bool) → v ≡ true
          → (let r : Outcome (Unit {0}) × D =
                if not c
                then written (if v then b.raw ((netp_set ++ t) ++ (13 ∷ [])) d else (failed, d))
                else (ok tt, d) in
              (r.0 ≡ ok tt) × (b.socket_a r.1 ≡ t))
      go true e v w = (refl, h ∙ list_eq→eq s t e)
      go false e true w = (written-Total raw (co.survives t d), written-socket_a raw ∙ co.takes t d)
      go false e false w = absurd (ground (arith, w))

  replace-Total :
      (expected t s : List ℕ) (d : D)
      → check_endpoint t ≡ true
      → (s ≡ expected) ⊎ (s ≡ t)
      → b.socket_a d ≡ s
      → (replace b expected t (ok_mark ++ s) none_answer d).0 ≡ ok tt
  unfolding replace
  replace-Total expected t s d v o h =
      go (list_eq (ok_mark ++ s) (ok_mark ++ expected)) refl (list_eq (ok_mark ++ s) (ok_mark ++ t))
        refl o
    where
      completed : (continue (write b t (ok_mark ++ s) d) (λ u. confirmed b t)).0 ≡ ok tt
      completed =
          let w = write-Total s t d v h in
          continue-Total (write b t (ok_mark ++ s) d) (λ u. confirmed b t) tt tt w.0
            (confirmed-Total t (write b t (ok_mark ++ s) d).1 w.1)

      differs : (u : List ℕ) → list_eq (ok_mark ++ s) (ok_mark ++ u) ≡ false → s ≢ u
      differs u e g =
          absurd (ground (arith, sym e ∙ ap (λ x. list_eq s x) (sym g) ∙ list_eq_refl s))

      go :
          (x : Bool)
          → list_eq (ok_mark ++ s) (ok_mark ++ expected) ≡ x
          → (y : Bool) → list_eq (ok_mark ++ s) (ok_mark ++ t) ≡ y
          → (s ≡ expected) ⊎ (s ≡ t)
          → (let r : Outcome (Unit {0}) × D =
                if not (x || y)
                then (failed, d)
                else continue (write b t (ok_mark ++ s) d) (λ u. confirmed b t) in
              r.0 ≡ ok tt)
      go true e y f p = completed
      go false e true f p = completed
      go false e false f (inl p) = absurd (differs expected e p)
      go false e false f (inr p) = absurd (differs t f p)

  finish-Total : (r : Outcome (Unit {0}) × D) → r.0 ≡ ok tt → (finish b r).0 ≡ ok tt
  finish-Total (o, d) h = h

  pub change-Total :
      (expected t : List ℕ) (d : D)
      → check_endpoint t ≡ true
      → (b.socket_a d ≡ expected) ⊎ (b.socket_a d ≡ t)
      → (change b expected t d).0 ≡ ok tt
  unfolding change
  change-Total expected t d v o =
      let e = (b.start d).1 in
      let f = (command b netp e).1 in
      let g = (command b sockb f).1 in
      let at_e : b.socket_a e ≡ b.socket_a d = b.socket_a-start d in
      let at_f : b.socket_a f ≡ b.socket_a d = socket_a-command b netp e refl ∙ at_e in
      let at_g : b.socket_a g ≡ b.socket_a d = socket_a-command b sockb f refl ∙ at_f in
      continue-Total (b.start d) (λ u e'. finish b (body e')) tt tt (co.starts d)
        (finish-Total (body e) (
          continue-Total (command b netp e) k (ok_mark ++ b.socket_a d) tt
            (command-names e ∙ ap (λ x. ok (ok_mark ++ x)) at_e)
            (continue-Total (command b sockb f)
              (λ socket_b h. replace b expected t (ok_mark ++ b.socket_a d) socket_b h) none_answer
              tt (command-single f) (replace-Total expected t (b.socket_a d) g v o at_g))))
    where
      k : List ℕ → Session D (Unit {0})
      k current f =
          continue (command b sockb f) (λ socket_b g. replace b expected t current socket_b g)

      body : Session D (Unit {0})
      body = λ e. continue (command b netp e) k
