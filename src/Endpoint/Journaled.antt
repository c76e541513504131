-- ===== src/Endpoint/Journaled.antt =====
-- Taking Socket A over: the journal comes first.
use goodwe_wallbox_sems_home.Prelude.{ℕ, false, ◌≡◌, ◌⊎◌, some, List}
use goodwe_wallbox_sems_home.Endpoint.Device.{Wallbox}
use goodwe_wallbox_sems_home.Endpoint.Manager.{Journal, Answer, World}

module _ {D : Type 0} (b : Wallbox D) (env : ℕ → Answer) where
  -- Socket A is as it was, or the way back to `home` is in the journal, which was handed to the
  -- store by the await of that number without an exception.
  abbrev pub IsJournaled : List ℕ → ℕ → World D → Type 0
  IsJournaled home n v =
      (b.socket_a v.device ≡ home)
      ⊎ ((j : Journal) × (v.manager.journal ≡ some j)
          × (j.original ≡ home)
          × (j.local ≡ v.manager.local)
          × ((env n).raised ≡ false))
