-- ===== src/NativeReports/Faults.antt =====
-- The fault report (native_faults.py).
use goodwe_wallbox_sems_home.Prelude.{
  ℕ, zero, suc, ◌+◌, ◌/◌, ◌%◌, ◌^◌, Bool, false, not, ◌&&◌, ◌||◌, String, List, [], ◌∷◌, ◌==◌,
  if◌then◌else◌, length, get_or, slice, take, list_eq,
}
use goodwe_wallbox_sems_home.NativeProtocol.Frame.{NativeFrame, Result, ok, err, value_error, ◌>>=◌}
use goodwe_wallbox_sems_home.NativeProtocol.Status.{check_serial, rstrip}

abbrev pub reference_labels : List (ℕ × String)
reference_labels =
    (33, "stop")
    ∷ (38, "earth_err")
    ∷ (41, "env_temp_over")
    ∷ (42, "gun_temp_over")
    ∷ (45, "relay_err")
    ∷ (48, "vol_over")
    ∷ (49, "vol_less")
    ∷ (54, "curr_over")
    ∷ (57, "meter_comm_err")
    ∷ (66, "leak_curr")
    ∷ (67, "curr_less")
    ∷ (68, "meter_fault")
    ∷ []

abbrev pub condition_bits : List ℕ
condition_bits =
    32 ∷ 33 ∷ 34 ∷ 38 ∷ 41 ∷ 42 ∷ 43 ∷ 45 ∷ 48 ∷ 49 ∷ 54 ∷ 55 ∷ 57 ∷ 58 ∷ 64 ∷ 65 ∷ 66 ∷ 67 ∷ 68
    ∷ 69 ∷ 70 ∷ []

abbrev pub auxiliary_bits : List ℕ
auxiliary_bits = 72 ∷ 73 ∷ 74 ∷ 75 ∷ 76 ∷ []

abbrev pub mem : ℕ → List ℕ → Bool
mem n [] = false
mem n (m ∷ ms) = n == m || mem n ms

abbrev pub keys : List (ℕ × String) → List ℕ
keys [] = []
keys ((b, t) ∷ r) = b ∷ keys r

abbrev pub filter : (ℕ → Bool) → List ℕ → List ℕ
filter p [] = []
filter p (n ∷ ns) = if p n then n ∷ filter p ns else filter p ns

-- `n, …, n + count - 1`
abbrev pub range : ℕ → ℕ → List ℕ
range n zero = []
range n (suc count) = n ∷ range (n + 1) count

-- `block[bit // 8] & (1 << (bit % 8))`
abbrev pub is_set : List ℕ → ℕ → Bool
is_set block bit = get_or block (bit / 8) 0 / 2 ^ (bit % 8) % 2 == 1

abbrev pub is_labelled : ℕ → Bool
is_labelled b = mem b (keys reference_labels)

abbrev pub is_condition : ℕ → Bool
is_condition b = mem b condition_bits

abbrev pub is_auxiliary : ℕ → Bool
is_auxiliary b = mem b auxiliary_bits

-- `tuple(labels[bit] for bit in sorted(bits & labels.keys()))`: the keys are listed in order.
unfoldable pub labels_of : List ℕ → List (ℕ × String) → List String
labels_of block [] = []
labels_of block ((b, t) ∷ r) = if is_set block b then t ∷ labels_of block r else labels_of block r

pub record NativeFaultReport : Type 0 where
  pub reference_labels : List String
  pub unlabelled_condition_bits : List ℕ
  pub auxiliary_bits : List ℕ
  pub unknown_bits : List ℕ

abbrev pub unlabelled : List ℕ → ℕ → Bool
unlabelled block b = (is_set block b && is_condition b) && not (is_labelled b)

abbrev pub auxiliary : List ℕ → ℕ → Bool
auxiliary block b = is_set block b && is_auxiliary b

abbrev pub unknown : List ℕ → ℕ → Bool
unknown block b = is_set block b && not (b == 24 || (is_condition b || is_auxiliary b))

unfoldable pub read_faults : List ℕ → NativeFaultReport
unfolding labels_of
read_faults block = record {
  reference_labels = labels_of block reference_labels;
  unlabelled_condition_bits = filter (unlabelled block) (range 0 256);
  auxiliary_bits = filter (auxiliary block) (range 0 256);
  unknown_bits = filter (unknown block) (range 0 256);
}

unfoldable pub decode_fault_report : NativeFrame → List ℕ → Result NativeFaultReport
unfolding read_faults
decode_fault_report packet serial =
    if not (packet.command == 108)
      || (not (length packet.raw == 99) || not (get_or packet.raw 33 0 == 1))
    then err value_error
    else do
      value ← check_serial serial
      if not (list_eq (rstrip (slice 34 66 packet.raw)) value)
            || not (list_eq (take 4 (slice 66 98 packet.raw)) (0 ∷ 0 ∷ 0 ∷ 1 ∷ []))
          then err value_error
          else ok (read_faults (slice 66 98 packet.raw))
