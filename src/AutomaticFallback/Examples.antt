-- ===== src/AutomaticFallback/Examples.antt =====
-- Runs of AutomaticFallback: an outage of the cloud, and a return after it.
use goodwe_wallbox_sems_home.Prelude.{ℕ, ◌≡◌, refl, Bool, true, false, some, List, [], ◌∷◌}
use goodwe_wallbox_sems_home.AutomaticFallback.State.{
  Owner, got, Answer, Handover, World, new, await, pass, apply_all,
}
use goodwe_wallbox_sems_home.AutomaticFallback.Tick.{
  supervised, tick, decide, return_local, handover, write, set_local, trial_refresh, is_safe,
  try_cloud,
}
use goodwe_wallbox_sems_home.AutomaticFallback.Handover.{supervised-AtMostOne}
use goodwe_wallbox_sems_home.AutomaticFallback.Permitted.{AtMostOne}

abbrev idle : Bool → Owner
idle local = record {
  closed = false;
  transitioning = false;
  local = local;
  last_update_success = true;
  transport_available = true;
  charging = some false;
  starting = false;
  routing_epoch = 1;
}

abbrev env : Bool → ℕ → Answer
env local n = record { meanwhile = []; owner_after = idle local; elapsed = 100; reply = got true }

-- Three polls of the cloud have failed since 1 s, and it is 100 s.
abbrev outage : World
outage = record {
  fallback = record (new true) { failures = 3; failed_since = some 1000 };
  owner = idle false;
  now = 100000;
  awaits = 0;
  handovers = [];
}

abbrev local_only : World
local_only = record {
  fallback = new true;
  owner = idle true;
  now = 4000000;
  awaits = 0;
  handovers = [];
}

abbrev targets : List Handover → List Bool
targets [] = []
targets (h ∷ hs) = h.to_local ∷ targets hs

outage_ends : targets (supervised (env false) outage).handovers ≡ true ∷ []
unfolding supervised tick decide return_local handover write set_local await pass apply_all new
outage_ends = refl

return_tried : targets (supervised (env true) local_only).handovers ≡ false ∷ []
unfolding supervised tick decide try_cloud handover write set_local await pass apply_all new is_safe
    trial_refresh
return_tried = refl

supervised-AtMostOne_example : AtMostOne [] (supervised (env true) local_only)
supervised-AtMostOne_example = supervised-AtMostOne (env true) local_only
