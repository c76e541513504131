-- ===== src/Endpoint/Confirmed.antt =====
-- What a management session that ends without an error has shown.
use goodwe_wallbox_sems_home.Prelude.{
  ℕ, Bool, true, false, not, ◌||◌, ◌≡◌, refl, sym, ap, ◌∙◌, List, ◌++◌, if◌then◌else◌, list_eq,
  list_eq→eq, drop, arith,
}
use goodwe_wallbox_sems_home.Endpoint.Device.{
  Outcome, ok, failed, Session, continue, netp, sockb, ok_mark, none_answer, Wallbox, command,
  finish, checked, confirmed, write, replace, change,
}
use goodwe_wallbox_sems_home.Endpoint.Change.{continue-Ends, socket_a-command}

module _ {D : Type 0} (b : Wallbox D) where
  -- An answer to `AT+NETP` that came is the endpoint in use.
  pub command-netp_true :
      (d : D) (answer : List ℕ)
      → (command b netp d).0 ≡ ok answer
      → answer ≡ ok_mark ++ b.socket_a d
  unfolding command
  command-netp_true d answer h = b.read_true d answer h

  ok_mark_inj : (xs ys : List ℕ) → ok_mark ++ xs ≡ ok_mark ++ ys → xs ≡ ys
  ok_mark_inj xs ys h = ap (drop 4) h

  Confirms : List ℕ → Unit {0} → D → Type 0
  Confirms t u d = b.socket_a d ≡ t

  confirmed-Ends :
      (t : List ℕ) (d : D) (u : Unit {0})
      → (confirmed b t d).0 ≡ ok u
      → Confirms t u (confirmed b t d).1
  unfolding confirmed Confirms
  confirmed-Ends t d =
      continue-Ends (Confirms t) (command b netp d) (checked t)
        (λ answer h. go answer (command-netp_true d answer h) (list_eq answer (ok_mark ++ t)) refl)
    where
      e : D
      e = (command b netp d).1

      go :
          (answer : List ℕ)
          → answer ≡ ok_mark ++ b.socket_a d
          → (c : Bool) → list_eq answer (ok_mark ++ t) ≡ c
          → (u : Unit {0})
          → (let r : Outcome (Unit {0}) × D = if c then (ok tt, e) else (failed, e) in r.0 ≡ ok u)
          → b.socket_a
              (let r : Outcome (Unit {0}) × D = if c then (ok tt, e) else (failed, e) in r.1)
            ≡ t
      go answer a true f u h =
          socket_a-command b netp d refl
          ∙ ok_mark_inj (b.socket_a d) t (sym a ∙ list_eq→eq answer (ok_mark ++ t) f)
      go answer a false f u h = absurd (ground (arith, h))

  Confirms-finish :
      (t : List ℕ) (r : Outcome (Unit {0}) × D)
      → ((u : Unit {0}) → r.0 ≡ ok u → b.socket_a r.1 ≡ t)
      → (u : Unit {0}) → (finish b r).0 ≡ ok u
      → b.socket_a (finish b r).1 ≡ t
  Confirms-finish t (o, d) n u h = b.socket_a-close d ∙ n u h

  replace-Ends :
      (expected t current socket_b : List ℕ) (d : D) (u : Unit {0})
      → (replace b expected t current socket_b d).0 ≡ ok u
      → Confirms t u (replace b expected t current socket_b d).1
  unfolding replace Confirms
  replace-Ends expected t current socket_b d = go (
      not (list_eq socket_b none_answer)
      || not (list_eq current (ok_mark ++ expected) || list_eq current (ok_mark ++ t)))
    where
      go :
          (c : Bool) (u : Unit {0})
          → (let r : Outcome (Unit {0}) × D =
                if c then (failed, d) else continue (write b t current d) (λ u. confirmed b t) in
              r.0 ≡ ok u)
          → b.socket_a (
              let r : Outcome (Unit {0}) × D =
                if c then (failed, d) else continue (write b t current d) (λ u. confirmed b t) in
              r.1)
            ≡ t
      go true u h = absurd (ground (arith, h))
      go false u h =
          continue-Ends (λ (u : Unit {0}) e. b.socket_a e ≡ t) (write b t current d)
            (λ u. confirmed b t) (λ u' h' v k. confirmed-Ends t (write b t current d).1 v k) u h

  -- A `_change` that returns leaves the target in use.
  pub change-Ends :
      (expected t : List ℕ) (d : D) (u : Unit {0})
      → (change b expected t d).0 ≡ ok u
      → b.socket_a (change b expected t d).1 ≡ t
  unfolding change Confirms
  change-Ends expected t d =
      continue-Ends Q (b.start d) (λ u e. finish b (body e))
        (λ u h. Confirms-finish t (body (b.start d).1) (
          continue-Ends Q (command b netp (b.start d).1)
            (λ current f.
              continue (command b sockb f) (λ socket_b g. replace b expected t current socket_b g))
            (λ current h' v k.
              continue-Ends Q (command b sockb (command b netp (b.start d).1).1)
                (λ socket_b g. replace b expected t current socket_b g)
                (λ socket_b h'' v' k'.
                  replace-Ends expected t current socket_b
                    (command b sockb (command b netp (b.start d).1).1).1 v' k')
                v k)))
    where
      Q : Unit {0} → D → Type 0
      Q u e = b.socket_a e ≡ t

      body : Session D (Unit {0})
      body = λ e. continue (command b netp e) (λ current f.
          continue (command b sockb f) (λ socket_b g. replace b expected t current socket_b g))
