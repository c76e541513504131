-- ===== src/Endpoint/Manager.antt =====
-- EndpointManager: the journal in the store, and the operations that move Socket A.
use goodwe_wallbox_sems_home.Prelude.{
  ℕ, suc, Bool, not, ◌||◌, Option, none, some, List, if◌then◌else◌, list_eq,
}
use goodwe_wallbox_sems_home.Endpoint.Address.{check_endpoint}
use goodwe_wallbox_sems_home.Endpoint.Device.{
  Outcome, ok, timed_out, failed, Session, Wallbox, inspect, change, cloud_link, none_answer,
}

-- The dict that the store keeps while Socket A may be redirected.
pub record Journal : Type 0 where
  pub peer : List ℕ
  pub serial : List ℕ
  pub local : List ℕ
  pub original : List ℕ

pub record Manager : Type 0 where
  pub peer : List ℕ
  pub serial : List ℕ
  pub local : List ℕ
  pub journal : Option Journal

-- What an await can meet: a cancellation while a thread works, which waits for the thread and
-- then wins; a store that writes or not, and raises or not.
pub record Answer : Type 0 where
  pub cancelled : Bool
  pub kept : Bool
  pub raised : Bool

pub record World (D : Type 0) : Type 0 where
  pub device : D
  pub store : Option Journal
  pub manager : Manager
  pub awaits : ℕ

abbrev pub M : Type 0 → Type 0 → Type 0
M D A = World D → Outcome A × World D

abbrev pub followed : {D A B : Type 0} → Outcome A × World D → (A → M D B) → Outcome B × World D
followed (ok a, w) k = k a w
followed (timed_out, w) k = (timed_out, w)
followed (failed, w) k = (failed, w)

abbrev pub set_journal : {D : Type 0} → Option Journal → M D (Unit {0})
set_journal j w = (ok tt, record w { manager = record w.manager { journal = j } })

module _ {D : Type 0} (env : ℕ → Answer) where
  abbrev pub finished : {A : Type 0} → World D → Outcome A × D → Outcome A × World D
  finished w (o, d) = (
    (if (env w.awaits).cancelled then failed else o),
    record w { device = d; awaits = suc w.awaits },
  )

  -- `_io`: the thread runs to its end in any case.
  unfoldable pub io : {A : Type 0} → Session D A → M D A
  io operation w = finished w (operation w.device)

  unfoldable pub save : Option Journal → M D (Unit {0})
  save j w = (
    (if (env w.awaits).raised then failed else ok tt),
    record w { store = if (env w.awaits).kept then j else w.store; awaits = suc w.awaits },
  )

  -- `async_load` with what the store holds.
  unfoldable pub load_saved : Option Journal → M D (Unit {0})
  load_saved none w = set_journal none w
  load_saved (some j) w =
      if not (list_eq j.peer w.manager.peer)
        || (not (list_eq j.serial w.manager.serial) || not (list_eq j.local w.manager.local))
      then (failed, w)
      else if not (check_endpoint j.original)
      then (failed, w)
      else set_journal (some j) w

  -- `async_load`, whose read of the store can raise.
  unfoldable pub load : M D (Unit {0})
  unfolding load_saved
  load w =
      if (env w.awaits).raised
      then (failed, record w { awaits = suc w.awaits })
      else load_saved w.store (record w { awaits = suc w.awaits })

abbrev pub journal_for : Manager → List ℕ → Journal
journal_for m original = record {
  peer = m.peer;
  serial = m.serial;
  local = m.local;
  original = original;
}

module _ {D : Type 0} (b : Wallbox D) (env : ℕ → Answer) where
  -- `async_activate` once the baseline is read.
  unfoldable pub own : List ℕ → M D (Unit {0})
  unfolding save io change
  own original w =
      let m = w.manager in
      let j = journal_for m original in
      followed (set_journal (some j) w)
        (λ u v. followed (save env (some j) v) (λ u' v'. io env (change b original m.local) v'))

  abbrev pub baseline : List ℕ × List ℕ → M D (Unit {0})
  unfolding own
  baseline (original, socket_b) w =
      if not (list_eq socket_b none_answer) || list_eq original w.manager.local
      then (failed, w)
      else own original w

  abbrev pub activate_from : Option Journal → M D (Unit {0})
  unfolding io inspect own
  activate_from (some j) w = (failed, w)
  activate_from none w = followed (io env (inspect b) w) baseline

  unfoldable pub async_activate : M D (Unit {0})
  unfolding io inspect own
  async_activate w = activate_from w.manager.journal w

  abbrev pub restore_from : Option Journal → M D (Unit {0})
  unfolding io change save
  restore_from none w = (ok tt, w)
  restore_from (some j) w =
      followed (io env (change b w.manager.local j.original) w)
        (λ u v. followed (save env none v) (λ u' v'. set_journal none v'))

  unfoldable pub async_restore : M D (Unit {0})
  unfolding io change save
  async_restore w = restore_from w.manager.journal w

  unfoldable pub async_cloud_link : M D Bool
  unfolding io cloud_link
  async_cloud_link w = io env (cloud_link b) w
