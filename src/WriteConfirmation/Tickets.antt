-- ===== src/WriteConfirmation/Tickets.antt =====
-- Which tickets of WriteConfirmation still count.
use goodwe_wallbox_sems_home.Prelude.{ℕ, ◌<◌, ◌≡◌, refl, Bool, false, String, Option, List, inl}
use goodwe_wallbox_sems_home.Prelude.Value.{Value, Real}
use goodwe_wallbox_sems_home.Prelude.Maps.{str_eq_refl, get}
use goodwe_wallbox_sems_home.WriteConfirmation.Defs.{
  Source, Uncertainty, Owner, Monitor, begin, accepted, rejected, holds,
}
use goodwe_wallbox_sems_home.WriteConfirmation.Schedule.{Event, steps}
use goodwe_wallbox_sems_home.WriteConfirmation.Outdated.{
  IsOutdated, outdated-holds, begin-IsOutdated, steps-IsOutdated,
}

-- Once a newer choice of the field has begun, the acceptance or the failure of an older one has no
-- effect at all, whatever happens in between: also after the newer choice was accepted, rejected,
-- confirmed or superseded in turn, it arms no readback and leaves every pending choice and result.
pub ticket-superseded :
    (parse : String → Option Real) (o o' : Owner) (now later : ℕ) (field : String) (m : Monitor)
    (es : List Event) (token epoch : ℕ) (value : Value) (source : Source) (uncertain : Bool)
    (u : Uncertainty)
    → token < m.next_token
    → let n = steps parse es (begin o now field m).1 in
      (accepted o' later field value (token, epoch) source uncertain u n ≡ (false, n))
      × (rejected field (token, epoch) n ≡ n)
unfolding accepted rejected
ticket-superseded parse o o' now later field m es token epoch value source uncertain u old =
    (rw outdated refl, rw outdated refl)
  where
    n : Monitor
    n = steps parse es (begin o now field m).1

    begun : IsOutdated field token (begin o now field m).1
    begun = begin-IsOutdated field token o now field m old (inl (str_eq_refl field))

    outdated : holds (get field n.tokens) token ≡ false
    outdated =
        outdated-holds (get field n.tokens) token
          (steps-IsOutdated field token parse es (begin o now field m).1 begun).gone
