-- ===== src/ObservedState/Examples.antt =====
-- An idle wallbox without a vehicle.
use goodwe_wallbox_sems_home.Prelude.{◌≡◌, refl, false, some, [], ◌∷◌}
use goodwe_wallbox_sems_home.ObservedState.Defs.{
  Local, local_active, charging_local, flow, energy_local, not_plugged_in, vehicle_local,
}
use goodwe_wallbox_sems_home.ObservedState.Agreement.{charging-energy}

abbrev report : Local
report = record {
  raw_state = some 0;
  power = some 0;
  currents = some (0 ∷ 0 ∷ 0 ∷ []);
  connection = some 0;
}

is_idle : charging_local report ≡ some false
unfolding charging_local local_active
is_idle = refl

is_unplugged : vehicle_local report ≡ some not_plugged_in
unfolding vehicle_local charging_local local_active energy_local flow
is_unplugged = refl

charging-energy_example : energy_local report ≡ some false
charging-energy_example = charging-energy report (0 ∷ 0 ∷ 0 ∷ []) false refl refl is_idle
