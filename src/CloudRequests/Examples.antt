-- ===== src/CloudRequests/Examples.antt =====
-- A refusal, a request during its cooldown, and a read that a reset interrupts.
use goodwe_wallbox_sems_home.Prelude.{
  ℕ, ◌≤◌, ◌≡◌, refl, true, false, Option, none, some, List, [], ◌∷◌, String, if◌then◌else◌, ◌==◌,
  arith, ◌+◌, ◌||◌, ltb, ◌⊎◌,
}
use goodwe_wallbox_sems_home.Prelude.Value.{ℤ, pos, Real, finite}
use goodwe_wallbox_sems_home.CloudRequests.Budget.{
  World, Answer, sent, heard, pass, serialized, request_timeout,
}
use goodwe_wallbox_sems_home.CloudRequests.Gate.{
  Request, Reply, answered, refused, new, guarded, try, retry, judge, asked_delay, limit, settle,
  dispatch, first_delay, last_delay,
}
use goodwe_wallbox_sems_home.CloudRequests.Timeouts.{Sends}
use goodwe_wallbox_sems_home.CloudRequests.Sends.{guarded-Sends}
use goodwe_wallbox_sems_home.CloudRequests.Kept.{Respected}
use goodwe_wallbox_sems_home.CloudRequests.Cooldown.{Turn, run, run-Respected}
use goodwe_wallbox_sems_home.CloudRequests.Observation
use goodwe_wallbox_sems_home.CloudRequests.Observation.{
  Round, Reader, read, verdict, second, IsOwn, read-Bounded,
}
use goodwe_wallbox_sems_home.CloudRequests.Wait.{Decided, serialized-Decided}

abbrev env : ℕ → Answer
env n = record { elapsed = 50000; drops = false; cancels = false; acquired = n == 2 }

abbrev parse : String → Option Real
parse t = some (finite (pos 2000000))

abbrev until : String → Option ℤ
until t = none

-- The first call is refused for two seconds, the second one is reset, the rest answered.
abbrev server : ℕ → Reply
server n =
    if n == 0
    then answered (record { status = 429; retry_after = some "2" })
    else if n == 1
    then refused false true
    else answered (record { status = 200; retry_after = none })

abbrev reading : Request
reading = record { raise_on_limit = true; retry_read = true; timeout = some 10000000 }

abbrev start : World
start = record {
  now = 1000000;
  deadline = none;
  dropped = false;
  scope = none;
  gate = new;
  log = [];
  calls = 0;
}

abbrev turn : ℕ → Turn
turn later = record {
  request = reading;
  later = later;
  deadline = none;
  dropped = false;
  scope = none;
}

abbrev turns : List Turn
turns = turn 0 ∷ turn 1000000 ∷ turn 1000000 ∷ []

refused_once :
    (run env parse until server turns start).log
    ≡ heard 3150000 200 none
      ∷ sent 3100000 (some 9950000)
      ∷ sent 3050000 (some 10000000)
      ∷ heard 1050000 429 (some "2")
      ∷ sent 1000000 (some 10000000)
      ∷ []
unfolding run guarded request_timeout try retry judge asked_delay limit settle dispatch pass new
refused_once = refl

run-Respected_example :
    Respected parse until (run env parse until server turns start).log
    × (first_delay ≤ (run env parse until server turns start).gate.delay)
    × ((run env parse until server turns start).gate.delay ≤ last_delay)
run-Respected_example = run-Respected env parse until server turns start refl refl

abbrev hurried : World
hurried = record start { deadline = some 3000000; calls = 1 }

guarded-Sends_example :
    Sends
      (some 3000000)
      (some 11000000)
      []
      (if false then 0 else 2)
      (guarded env parse until server reading hurried).1.log
unfolding new
guarded-Sends_example = guarded-Sends env parse until server reading hurried

serialized-Decided_example : Decided 3000000 (serialized env hurried)
serialized-Decided_example = serialized-Decided env 3000000 hurried (λ n h. refl_le) refl
  where
    refl_le : 1 ≤ 50000
    refl_le = omega arith

abbrev refusal : Round
refusal = record { has_token = true; reply = Observation.answered 401 none; elapsed = 1000 }

abbrev reader : Reader
reader = record { closed = false; retry_at = 0; now = 5000; requests = 0; rejections = 0 }

paused_after_two : (read "97000HCA00000001" refusal refusal reader).1.retry_at ≡ 30007000
unfolding read verdict second
paused_after_two = refl

read-Bounded_example :
    let o = read "97000HCA00000001" refusal refusal reader in
    IsOwn "97000HCA00000001" o.0
    × (o.1.requests ≤ 0 + (if reader.closed || ltb reader.now reader.retry_at then 0 else 2))
    × (o.1.rejections ≤ 0 + 1)
    × (o.1.rejections + 0 ≤ 0 + o.1.requests)
    × ((o.1.retry_at ≡ 0) ⊎ ((o.1.retry_at ≡ o.1.now + 30000000) × (o.1.requests ≡ 0 + 2)))
read-Bounded_example = read-Bounded "97000HCA00000001" refusal refusal reader
