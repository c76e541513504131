-- ===== src/CloudRequests/Cooldown.antt =====
-- Requests of all threads, one after the other under the lock.
use mathlib.Core.Path.{subst}
use goodwe_wallbox_sems_home.Prelude.{
  ℕ, ◌+◌, ◌≤◌, ◌≡◌, sym, Bool, Option, List, [], ◌∷◌, String, arith,
}
use goodwe_wallbox_sems_home.Prelude.Value.{ℤ, Real}
use goodwe_wallbox_sems_home.CloudRequests.Budget.{World, Answer}
use goodwe_wallbox_sems_home.CloudRequests.Gate.{
  Reply, Request, guarded, first_delay, last_delay, new,
}
use goodwe_wallbox_sems_home.CloudRequests.Kept.{Over, Respected, IsKept, guarded-IsKept}

-- A thread that comes by the lock after a while, with its request, budget and scope.
pub record Turn : Type 0 where
  pub request : Request
  pub later : ℕ
  pub deadline : Option ℕ
  pub dropped : Bool
  pub scope : Option Bool

abbrev pub enter : Turn → World → World
enter t w = record w {
  now = w.now + t.later;
  deadline = t.deadline;
  dropped = t.dropped;
  scope = t.scope;
}

module _ (env : ℕ → Answer) (parse : String → Option Real) (until : String → Option ℤ)
    (answer : ℕ → Reply) where
  unfoldable pub run : List Turn → World → World
  unfolding guarded
  run [] w = w
  run (t ∷ ts) w = run ts (guarded env parse until answer t.request (enter t w)).1

  run-IsKept : (ts : List Turn) (w : World) → IsKept parse until w → IsKept parse until (run ts w)
  unfolding run
  run-IsKept [] w k = k
  run-IsKept (t ∷ ts) w k = run-IsKept ts (guarded env parse until answer t.request (enter t w)).1 (
      guarded-IsKept env parse until answer t.request (enter t w)
        (record { least = k.least; most = k.most; over = k.over; respected = k.respected }))

  -- From a new gate on, whatever the threads request and the server answers: each request is sent
  -- after the end of every pause that a response asked for before, which is the time of a usable
  -- `Retry-After` of a 429 or 503, and 30 seconds for a 429 without one; and the delay for a refusal
  -- without a time is between 30 and 300 seconds.
  pub run-Respected :
      (ts : List Turn) (w : World)
      → w.gate ≡ new
      → w.log ≡ []
      → Respected parse until (run ts w).log
        × (first_delay ≤ (run ts w).gate.delay)
        × ((run ts w).gate.delay ≤ last_delay)
  unfolding new
  run-Respected ts w g l = (k.respected, k.least, k.most)
    where
      k : IsKept parse until (run ts w)
      k = run-IsKept ts w (record {
        least = ground (arith, g);
        most = ground (arith, g);
        over = subst (Over parse until w.gate.retry_at) (sym l) tt;
        respected = subst (Respected parse until) (sym l) tt;
      })
