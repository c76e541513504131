-- ===== src/Endpoint/Foreign.antt =====
-- Sessions that leave Socket A alone: an inspection, a link check, and a change that meets an
-- endpoint of another owner.
use goodwe_wallbox_sems_home.Prelude.{
  ℕ, Bool, true, false, not, ◌||◌, ◌≡◌, refl, sym, ap, ◌∙◌, List, ◌++◌, if◌then◌else◌, list_eq,
  list_eq→eq, drop, arith, ◌≢◌, Bool-cases, starts_with, codes, inl, inr,
}
use goodwe_wallbox_sems_home.Endpoint.Address.{check_endpoint}
use goodwe_wallbox_sems_home.Endpoint.Device.{
  timed_out, failed, Outcome, ok, failed, Session, continue, netp, sockb, ok_mark, none_answer,
  Wallbox, command, finish, confirmed, write, replace, change, session, inspect, cloud_link,
  inspected, tcplk,
}
use goodwe_wallbox_sems_home.Endpoint.Change.{continue-Ends, continue-Holds, socket_a-command}
use goodwe_wallbox_sems_home.Endpoint.Confirmed.{command-netp_true, change-Ends}

module _ {D : Type 0} (b : Wallbox D) where
  abbrev Same : List ℕ → D → Type 0
  Same s d = b.socket_a d ≡ s

  Same-finish : {A : Type 0} (s : List ℕ) (r : Outcome A × D) → Same s r.1 → Same s (finish b r).1
  Same-finish s (o, d) h = b.socket_a-close d ∙ h

  Same-session :
      {A : Type 0} (s : List ℕ) (body : Session D A) (d : D)
      → ((e : D) → Same s e → Same s (body e).1)
      → Same s d
      → Same s (session b body d).1
  Same-session s body d n h =
      continue-Holds (Same s) (b.start d) (λ u e. finish b (body e)) (b.socket_a-start d ∙ h)
        (λ u e l. Same-finish s (body e) (n e l))

  -- Two reads, and what is done with the answers.
  Same-reads :
      {A : Type 0} (s : List ℕ) (k : List ℕ → List ℕ → Session D A) (d : D)
      → ((current socket_b : List ℕ) (e : D)
          → current ≡ ok_mark ++ s
          → Same s e
          → Same s (k current socket_b e).1)
      → Same s d
      → Same s
          (session b
            (λ d'.
              continue
                (command b netp d')
                (λ current e. continue (command b sockb e) (λ socket_b f. k current socket_b f)))
            d).1
  Same-reads {A = A} s k d n h = Same-session s body d within h
    where
      body : Session D A
      body = λ d'.
          continue (command b netp d')
            (λ current e. continue (command b sockb e) (λ socket_b f. k current socket_b f))

      second :
          (current : List ℕ) (e : D)
          → current ≡ ok_mark ++ s
          → Same s e
          → Same s (continue (command b sockb e) (λ socket_b f. k current socket_b f)).1
      second current e a g =
          continue-Holds (Same s) (command b sockb e) (λ socket_b f. k current socket_b f)
            (socket_a-command b sockb e refl ∙ g) (λ socket_b f g'. n current socket_b f a g')

      first :
          (r : Outcome (List ℕ) × D)
          → ((answer : List ℕ) → r.0 ≡ ok answer → answer ≡ ok_mark ++ s)
          → Same s r.1
          → Same s
              (continue r
                (λ current e. continue (command b sockb e) (λ socket_b f. k current socket_b f))).1
      first (ok current, e) a g = second current e (a current refl) g
      first (timed_out, e) a g = g
      first (failed, e) a g = g

      within : (e : D) → Same s e → Same s (body e).1
      within e g =
          first (command b netp e)
            (λ answer a. command-netp_true b e answer a ∙ ap (λ x. ok_mark ++ x) g)
            (socket_a-command b netp e refl ∙ g)

  pub inspect-Same : (d : D) → b.socket_a (inspect b d).1 ≡ b.socket_a d
  unfolding inspect
  inspect-Same d =
      Same-reads (b.socket_a d) inspected d
        (λ current socket_b e a g.
          go (not (starts_with ok_mark current)) (check_endpoint (drop 4 current)) (drop 4 current)
            socket_b e g)
        refl
    where
      go :
          (x y : Bool) (o socket_b : List ℕ) (e : D)
          → Same (b.socket_a d) e
          → (let r : Outcome (List ℕ × List ℕ) × D =
                if x then (failed, e) else if y then (ok (o, socket_b), e) else (failed, e) in
              Same (b.socket_a d) r.1)
      go true y o socket_b e g = g
      go false true o socket_b e g = g
      go false false o socket_b e g = g

  Answers-finish :
      (s : List ℕ) (r : Outcome (List ℕ × List ℕ) × D)
      → ((c : List ℕ × List ℕ) → r.0 ≡ ok c → c.0 ≡ s)
      → (c : List ℕ × List ℕ) → (finish b r).0 ≡ ok c
      → c.0 ≡ s
  Answers-finish s (o, d) n c h = n c h

  -- An inspection that returns has read the endpoint in use.
  pub inspect_true : (d : D) (c : List ℕ × List ℕ) → (inspect b d).0 ≡ ok c → c.0 ≡ b.socket_a d
  unfolding inspect
  inspect_true d =
      continue-Ends Q (b.start d) (λ u e. finish b (body e))
        (λ u h. Answers-finish s (body (b.start d).1) (
          continue-Ends Q (command b netp (b.start d).1)
            (λ current f. continue (command b sockb f) (λ socket_b g. inspected current socket_b g))
            (λ current h' c k.
              continue-Ends Q (command b sockb (command b netp (b.start d).1).1)
                (λ socket_b g. inspected current socket_b g)
                (λ socket_b h'' c' k'.
                  go current socket_b (command b sockb (command b netp (b.start d).1).1).1
                    (command-netp_true b (b.start d).1 current h'
                      ∙ ap (λ x. ok_mark ++ x) (b.socket_a-start d))
                    (not (starts_with ok_mark current)) (check_endpoint (drop 4 current)) c' k')
                c k)))
    where
      s : List ℕ
      s = b.socket_a d

      Q : List ℕ × List ℕ → D → Type 0
      Q c e = c.0 ≡ s

      body : Session D (List ℕ × List ℕ)
      body = λ e.
          continue (command b netp e)
            (λ current f. continue (command b sockb f) (λ socket_b g. inspected current socket_b g))

      first_of : List ℕ × List ℕ → Outcome (List ℕ × List ℕ) → List ℕ
      first_of c (ok c') = c'.0
      first_of c timed_out = c.0
      first_of c failed = c.0

      go :
          (current socket_b : List ℕ) (e : D)
          → current ≡ ok_mark ++ s
          → (x y : Bool) (c : List ℕ × List ℕ)
          → (let r : Outcome (List ℕ × List ℕ) × D =
                if x
                then (failed, e)
                else if y
                then (ok (drop 4 current, socket_b), e)
                else (failed, e) in
              r.0 ≡ ok c)
          → c.0 ≡ s
      go current socket_b e a true y c h = absurd (ground (arith, h))
      go current socket_b e a false true c h = sym (ap (first_of c) h) ∙ ap (drop 4) a
      go current socket_b e a false false c h = absurd (ground (arith, h))

  pub cloud_link-Same : (d : D) → b.socket_a (cloud_link b d).1 ≡ b.socket_a d
  unfolding cloud_link
  cloud_link-Same d =
      Same-session (b.socket_a d)
        (λ e. continue (command b tcplk e) (λ answer f. (ok (list_eq answer (codes "+ok=on")), f)))
        d
        (λ e g.
          continue-Holds (Same (b.socket_a d)) (command b tcplk e)
            (λ answer f. (ok (list_eq answer (codes "+ok=on")), f))
            (socket_a-command b tcplk e refl ∙ g) (λ answer f g'. g'))
        refl

  ok_mark_differs :
      (s t current : List ℕ)
      → current ≡ ok_mark ++ s
      → (s ≢ t)
      → list_eq current (ok_mark ++ t) ≡ false
  ok_mark_differs s t current a n = elim (Bool-cases (list_eq current (ok_mark ++ t))) [
    | inl h ↦ absurd (n (ap (drop 4) (sym a ∙ list_eq→eq current (ok_mark ++ t) h)))
    | inr h ↦ h
  ]

  -- When Socket A holds neither the endpoint that `_change` expects nor its target, the endpoint
  -- is kept as it is and `_change` raises, whatever fails on the way.
  pub change-foreign :
      (expected target : List ℕ) (d : D)
      → b.socket_a d ≢ expected
      → b.socket_a d ≢ target
      → (b.socket_a (change b expected target d).1 ≡ b.socket_a d)
        × ((change b expected target d).0 ≢ ok tt)
  unfolding change replace
  change-foreign expected target d ne nt =
      (same, λ h. nt (sym same ∙ change-Ends b expected target d tt h))
    where
      s : List ℕ
      s = b.socket_a d

      go :
          (current socket_b : List ℕ) (e : D)
          → list_eq current (ok_mark ++ expected) ≡ false
          → list_eq current (ok_mark ++ target) ≡ false
          → Same s e
          → Same s (replace b expected target current socket_b e).1
      go current socket_b e f g h =
          guarded (not (list_eq socket_b none_answer)) (list_eq current (ok_mark ++ expected)) f
            (list_eq current (ok_mark ++ target)) g
        where
          guarded :
              (x y : Bool)
              → y ≡ false
              → (z : Bool) → z ≡ false
              → (let r : Outcome (Unit {0}) × D =
                    if x || not (y || z)
                    then (failed, e)
                    else continue (write b target current e) (λ u. confirmed b target) in
                  Same s r.1)
          guarded true y p z q = h
          guarded false true p z q = absurd (ground (arith, p))
          guarded false false p true q = absurd (ground (arith, q))
          guarded false false p false q = h

      same : Same s (change b expected target d).1
      same =
          Same-reads s (λ current socket_b f. replace b expected target current socket_b f) d
            (λ current socket_b e a g.
              go current socket_b e (ok_mark_differs s expected current a ne)
                (ok_mark_differs s target current a nt) g)
            refl
