-- ===== src/NativeReports/Examples.antt =====
-- A fault report, a power and a window on concrete values.
use goodwe_wallbox_sems_home.Prelude.{
  ℕ, suc, ◌+◌, ◌*◌, ◌≤◌, ◌≡◌, refl, true, some, List, [], ◌∷◌, ◌++◌, codes, replicate, length,
  slice, sum, arith,
}
use goodwe_wallbox_sems_home.Prelude.Value.{pos, finite, boolean}
use goodwe_wallbox_sems_home.NativeProtocol.Frame.{
  u16, u32, frame, ◌>>=◌, NativeFrame, ok, err, value_error, u32, u16,
}
use goodwe_wallbox_sems_home.NativeProtocol.Command.{encode_ascii, has_zero}
use goodwe_wallbox_sems_home.NativeProtocol.Status.{check_serial, rstrip}
use goodwe_wallbox_sems_home.NativeReports.Storage.{decode_energy, auto_start_request}
use goodwe_wallbox_sems_home.NativeReports.Faults.{
  NativeFaultReport, decode_fault_report, read_faults, labels_of,
}
use goodwe_wallbox_sems_home.NativeReports.FaultBits.{IsTold, decode_fault_report-IsTold}
use goodwe_wallbox_sems_home.NativeReports.Power.{
  Request, floating, power_tenths, power_bounds, bounds_for, finite_power, power_tenths-bounds,
}
use goodwe_wallbox_sems_home.NativeReports.Window.{
  Observation, observe, run, Streak, oldest, observe-Streak,
}

abbrev serial : List ℕ
serial = codes "97000HCA00000001"

-- The marker and the bits 33, 34, 54, 72 and 100.
abbrev block : List ℕ
block = 0 ∷ 0 ∷ 0 ∷ 1 ∷ 6 ∷ 0 ∷ 64 ∷ 0 ∷ 0 ∷ 1 ∷ 0 ∷ 0 ∷ 16 ∷ replicate 19 0

abbrev packet : NativeFrame
packet = record {
  command = 108;
  sequence = 0;
  identity = [];
  raw = replicate 33 0 ++ (1 ∷ (serial ++ (replicate 16 0 ++ (block ++ (0 ∷ [])))));
}

abbrev report : NativeFaultReport
report = record {
  reference_labels = "stop" ∷ "curr_over" ∷ [];
  unlabelled_condition_bits = 34 ∷ [];
  auxiliary_bits = 72 ∷ [];
  unknown_bits = 100 ∷ [];
}

decoded : decode_fault_report packet serial ≡ ok report
unfolding decode_fault_report read_faults labels_of check_serial rstrip encode_ascii has_zero
decoded = refl

-- The bit 72 is an auxiliary one.
decode_fault_report-IsTold_example : IsTold (slice 66 98 packet.raw) 72 report
decode_fault_report-IsTold_example =
    decode_fault_report-IsTold packet serial report 72 decoded (omega arith)

-- 4.3000000001 kW.
abbrev value : Request
value = floating (finite (pos 4300000000100))

accepted : power_tenths value (some serial) ≡ ok 43
unfolding power_tenths bounds_for power_bounds
accepted = refl

too_fine : power_tenths (floating (finite (pos 4350000000000))) (some serial) ≡ err value_error
unfolding power_tenths bounds_for power_bounds
too_fine = refl

power_tenths-bounds_example :
    (n : ℕ) × (b : ℕ × ℕ) × (finite_power value ≡ some (pos n))
    × (power_bounds serial ≡ ok b)
    × ((b.0 * 100000000000 ≤ n) × (n ≤ b.1 * 100000000000))
    × ((n ≤ 43 * 100000000000 + 1000) × (43 * 100000000000 ≤ n + 1000))
    × ((b.0 ≤ 43) × (43 ≤ b.1) × (14 ≤ 43) × (43 ≤ 220))
power_tenths-bounds_example = power_tenths-bounds value serial 43 accepted

abbrev primary : ℕ → Observation
primary at = record { command = 104; observed_at = at; matches = true }

abbrev paired : Observation
paired = record { command = 106; observed_at = 11000; matches = true }

abbrev history : List Observation
history = paired ∷ primary 6000 ∷ primary 1000 ∷ []

qualified : (observe (primary 11000) (run history)).0 ≡ true
unfolding observe run
qualified = refl

observe-Streak_example :
    (ts : List ℕ) × Streak 11000 ts (primary 11000 ∷ history)
    × (3 ≤ suc (length ts))
    × (oldest 11000 ts + 10000 ≤ 11000)
observe-Streak_example = observe-Streak (primary 11000) history qualified

-- A cumulative snapshot of 123.45 kWh in 3600 s and 7 sessions.
abbrev snapshot : List ℕ
snapshot = 0xeb ∷ 0x90 ∷ 0 ∷ (u32 7 ++ (replicate 405 0 ++ (u32 12345 ++ u32 3600)))

abbrev energy_packet : NativeFrame
energy_packet = record {
  command = 602;
  sequence = 0;
  identity = [];
  raw =
      replicate 34 0
      ++ (serial
          ++ (replicate 16 0
              ++ ((2 ∷ (u16 1 ++ (u16 1 ++ u16 422)))
                  ++ (snapshot ++ (u16 (sum snapshot) ++ (0 ∷ []))))));
}

energy_decoded :
    decode_energy energy_packet serial
    ≡ ok (record { energy = 12345; duration_seconds = 3600; sessions = 7 })
unfolding decode_energy check_serial encode_ascii has_zero
energy_decoded = refl

auto_start_sent : auto_start_request (replicate 22 0) 5 serial (boolean true) ≡ (
    frame 0 [] (replicate 22 0) 5 >>= λ boundary.
    ok (boundary ++ (codes "#BLE#:97000HCA00000001" ++ (1 ∷ 7 ∷ 0 ∷ 16 ∷ 159 ∷ 13 ∷ []))))
unfolding auto_start_request check_serial encode_ascii has_zero frame
auto_start_sent = refl
