-- ===== src/Endpoint/Device.antt =====
-- A management session with the wallbox: `ManagementSession.command`, `EndpointManager._inspect` and
-- `_change`, over an interface for what travels over UDP.
use goodwe_wallbox_sems_home.Prelude.{
  ℕ, Bool, false, not, ◌||◌, ◌≡◌, ◌⊎◌, List, [], ◌∷◌, ◌++◌, if◌then◌else◌, list_eq, drop, codes,
  starts_with,
}
use goodwe_wallbox_sems_home.Endpoint.Address.{check_endpoint}

-- A result, TimeoutError, or another exception.
pub data Outcome (A : Type 0) : Type 0 where
  ok : A → Outcome A
  timed_out failed : Outcome A

abbrev pub Session : Type 0 → Type 0 → Type 0
Session D A = D → Outcome A × D

abbrev pub continue : {D A B : Type 0} → Outcome A × D → (A → Session D B) → Outcome B × D
continue (ok a, d) k = k a d
continue (timed_out, d) k = (timed_out, d)
continue (failed, d) k = (failed, d)

abbrev pub netp : List ℕ
netp = codes "AT+NETP"

abbrev pub netp_set : List ℕ
netp_set = codes "AT+NETP="

abbrev pub sockb : List ℕ
sockb = codes "AT+SOCKB"

abbrev pub tcplk : List ℕ
tcplk = codes "AT+TCPLK"

abbrev pub ok_mark : List ℕ
ok_mark = codes "+ok="

abbrev pub none_answer : List ℕ
none_answer = codes "+ok=NONE"

-- The wallbox as the network shows it. `start` is the construction of a ManagementSession, which
-- reads the identity; `raw` sends one line and collects the answer; `close` ends the session.
-- The laws: only a line that sets Socket A changes it, to the given endpoint or, when it gets
-- lost, not at all; and an answer to `AT+NETP` is the endpoint in use.
pub record Wallbox (D : Type 0) : Type 0 where
  pub socket_a : D → List ℕ
  pub start : Session D (Unit {0})
  pub raw : List ℕ → Session D (List ℕ)
  pub close : D → D
  pub socket_a-start : (d : D) → socket_a (start d).1 ≡ socket_a d
  pub socket_a-close : (d : D) → socket_a (close d) ≡ socket_a d
  pub socket_a-read :
      (value : List ℕ) (d : D)
      → starts_with netp_set value ≡ false
      → socket_a (raw (value ++ (13 ∷ [])) d).1 ≡ socket_a d
  pub socket_a-write :
      (target : List ℕ) (d : D)
      → (socket_a (raw ((netp_set ++ target) ++ (13 ∷ [])) d).1 ≡ socket_a d)
        ⊎ (socket_a (raw ((netp_set ++ target) ++ (13 ∷ [])) d).1 ≡ target)
  pub read_true :
      (d : D) (answer : List ℕ)
      → (raw (netp ++ (13 ∷ [])) d).0 ≡ ok answer
      → answer ≡ ok_mark ++ socket_a d

module _ {D : Type 0} where
  -- `_inspect`: the endpoint, and the answer to `AT+SOCKB`.
  abbrev pub inspected : List ℕ → List ℕ → Session D (List ℕ × List ℕ)
  inspected current socket_b d =
      if not (starts_with ok_mark current)
      then (failed, d)
      else if check_endpoint (drop 4 current)
      then (ok (drop 4 current, socket_b), d)
      else (failed, d)

  -- The readback at the end of `_change`.
  abbrev pub checked : List ℕ → List ℕ → Session D (Unit {0})
  checked target current d = if list_eq current (ok_mark ++ target) then (ok tt, d) else (failed, d)

  -- A write whose answer is lost is read back like one that was answered.
  abbrev pub written : Outcome (List ℕ) × D → Outcome (Unit {0}) × D
  written (ok answer, d) = (ok tt, d)
  written (timed_out, d) = (ok tt, d)
  written (failed, d) = (failed, d)

module _ {D : Type 0} (b : Wallbox D) where
  unfoldable pub command : List ℕ → Session D (List ℕ)
  command value d =
      if starts_with netp_set value
      then (if check_endpoint (drop 8 value) then b.raw (value ++ (13 ∷ [])) d else (failed, d))
      else if list_eq value netp || (list_eq value sockb || list_eq value tcplk)
      then b.raw (value ++ (13 ∷ [])) d
      else (failed, d)

  -- `with factory(peer, serial)`: the body, and `session.close()` in its `finally`.
  abbrev pub finish : {A : Type 0} → Outcome A × D → Outcome A × D
  finish (o, d) = (o, b.close d)

  abbrev pub session : {A : Type 0} → Session D A → Session D A
  session body d = continue (b.start d) (λ u e. finish (body e))

  unfoldable pub inspect : Session D (List ℕ × List ℕ)
  unfolding command
  inspect = session (λ d.
      continue (command netp d)
        (λ current e. continue (command sockb e) (λ socket_b f. inspected current socket_b f)))

  unfoldable pub confirmed : List ℕ → Session D (Unit {0})
  unfolding command
  confirmed target d = continue (command netp d) (checked target)

  unfoldable pub write : List ℕ → List ℕ → Session D (Unit {0})
  unfolding command
  write target current d =
      if not (list_eq current (ok_mark ++ target))
      then written (command (netp_set ++ target) d)
      else (ok tt, d)

  unfoldable pub replace : List ℕ → List ℕ → List ℕ → List ℕ → Session D (Unit {0})
  unfolding write confirmed
  replace expected target current socket_b d =
      if not (list_eq socket_b none_answer)
        || not (list_eq current (ok_mark ++ expected) || list_eq current (ok_mark ++ target))
      then (failed, d)
      else continue (write target current d) (λ u. confirmed target)

  -- `_change`.
  unfoldable pub change : List ℕ → List ℕ → Session D (Unit {0})
  unfolding command replace
  change expected target = session (λ d. continue (command netp d) (λ current e.
      continue (command sockb e) (λ socket_b f. replace expected target current socket_b f)))

  unfoldable pub cloud_link : Session D Bool
  unfolding command
  cloud_link =
      session
        (λ d. continue (command tcplk d) (λ answer e. (ok (list_eq answer (codes "+ok=on")), e)))
