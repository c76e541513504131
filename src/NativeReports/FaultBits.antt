-- ===== src/NativeReports/FaultBits.antt =====
-- Where a fault report tells each bit.
use goodwe_wallbox_sems_home.NativeProtocol.Frame.{NativeFrame, Result, ok, err, value_error, ◌>>=◌}
use goodwe_wallbox_sems_home.NativeProtocol.Status.{check_serial, rstrip}
use mathlib.Core.Path.{subst}
use goodwe_wallbox_sems_home.Prelude.{
  Bool-cases, inl, inr, ℕ, zero, suc, ◌+◌, ◌<◌, ◌≡◌, refl, Bool, true, false, not, ◌&&◌, ◌||◌, List,
  [], ◌∷◌, ◌==◌, length, arith, String, ◌≤◌, get_or, list_eq, take, ap, slice, if◌then◌else◌, ◌∙◌,
}
use goodwe_wallbox_sems_home.NativeReports.Faults.{
  filter, is_labelled, is_condition, is_auxiliary, labels_of, reference_labels, is_set, range,
  unlabelled, auxiliary, unknown, NativeFaultReport, read_faults, decode_fault_report,
}

-- A test on `count` numbers from a first one on.
every : (ℕ → Bool) → ℕ → ℕ → Bool
every test first zero = true
every test first (suc count) = test first && every test (first + 1) count

every_at :
    (test : ℕ → Bool) (first count b : ℕ)
    → every test first count ≡ true
    → first ≤ b
    → b < first + count
    → test b ≡ true
unfolding every
every_at test first zero b h l u = absurd (omega (arith, l, u))
every_at test first (suc count) b h l u = elim (Bool-cases (first == b)) [
  | inl e ↦
      let same : first ≡ b = ground (arith, e) in
      subst (λ n. test n ≡ true) same (ground (arith, h))
  | inr e ↦
      every_at test (first + 1) count b (ground (arith, h)) (ground (arith, e, l))
        (omega (arith, u))
]

abbrev pub one : Bool → ℕ
one true = 1
one false = 0

-- In how many of the five classes a bit is.
abbrev classes : ℕ → ℕ
classes b =
    one (is_labelled b)
    + (one (is_condition b && not (is_labelled b))
        + (one (is_auxiliary b)
            + (one (not (b == 24 || (is_condition b || is_auxiliary b))) + one (b == 24))))

classes_table : every (λ b. classes b == 1) 0 256 ≡ true
unfolding every
classes_table = refl

-- How many items satisfy a test.
unfoldable pub count : (ℕ → Bool) → List ℕ → ℕ
count p [] = 0
count p (n ∷ ns) = one (p n) + count p ns

length-filter : (p : ℕ → Bool) (ns : List ℕ) → length (filter p ns) ≡ count p ns
unfolding count
length-filter p [] = refl
length-filter p (n ∷ ns) = ground (arith, length-filter p ns)

-- How many of the listed bits are set.
abbrev marked : List ℕ → List (ℕ × String) → ℕ
marked block [] = 0
marked block ((b, t) ∷ r) = one (is_set block b) + marked block r

length-labels_of :
    (block : List ℕ) (ls : List (ℕ × String)) → length (labels_of block ls) ≡ marked block ls
unfolding labels_of
length-labels_of block [] = refl
length-labels_of block ((b, t) ∷ r) = ground (arith, length-labels_of block r)

marked-range :
    (block : List ℕ)
    → marked block reference_labels ≡ count (λ b. is_labelled b && is_set block b) (range 0 256)
unfolding count
marked-range block = omega arith

classes_one : (b : ℕ) → b < 256 → classes b ≡ 1
classes_one b h =
    ground
      (arith, every_at (λ b. classes b == 1) 0 256 b classes_table (omega arith) (omega (arith, h)))

-- A set bit is counted once.
counted_once :
    (s l c a e : Bool)
    → one l + (one (c && not l) + (one a + (one (not (e || (c || a))) + one e))) ≡ 1
    → one s
      ≡ one (l && s)
        + (one ((s && c) && not l)
            + (one (s && a) + (one (s && not (e || (c || a))) + one (e && s))))
counted_once s l c a e h = ground (arith, h)

-- How often a bit is in a list.
abbrev pub times : ℕ → List ℕ → ℕ
times b xs = count (λ n. n == b) xs

times-below : (p : ℕ → Bool) (b n k : ℕ) → b < n → times b (filter p (range n k)) ≡ 0
unfolding count
times-below p b n zero h = refl
times-below p b n (suc k) h =
    go (p n) (ground (arith, h)) (times-below p b (n + 1) k (omega (arith, h)))
  where
    go :
        (x : Bool)
        → (n == b) ≡ false
        → times b (filter p (range (n + 1) k)) ≡ 0
        → times b (if x then n ∷ filter p (range (n + 1) k) else filter p (range (n + 1) k)) ≡ 0
    go true e t = ground (arith, e, t)
    go false e t = t

times-filter :
    (p : ℕ → Bool) (b n k : ℕ) → n ≤ b → b < n + k → times b (filter p (range n k)) ≡ one (p b)
unfolding count
times-filter p b n zero l u = absurd (omega (arith, l, u))
times-filter p b n (suc k) l u = elim (Bool-cases (n == b)) [
  | inl e ↦
      let same : n ≡ b = ground (arith, e) in
      here (p n) e (times-below p b (n + 1) k (omega (arith, same))) ∙ ap (λ m. one (p m)) same
  | inr e ↦
      let rest : times b (filter p (range (n + 1) k)) ≡ one (p b) =
        times-filter p b (n + 1) k (ground (arith, e, l)) (omega (arith, u)) in
      there (p n) e rest
]
  where
    here :
        (x : Bool)
        → (n == b) ≡ true
        → times b (filter p (range (n + 1) k)) ≡ 0
        → times b (if x then n ∷ filter p (range (n + 1) k) else filter p (range (n + 1) k)) ≡ one x
    here true e t = ground (arith, e, t)
    here false e t = t

    there :
        (x : Bool)
        → (n == b) ≡ false
        → times b (filter p (range (n + 1) k)) ≡ one (p b)
        → times b (if x then n ∷ filter p (range (n + 1) k) else filter p (range (n + 1) k))
          ≡ one (p b)
    there true e t = ground (arith, e, t)
    there false e t = t

-- Where a report tells the bit `b` of its block.
abbrev pub IsTold : List ℕ → ℕ → NativeFaultReport → Type 0
IsTold block b r =
    (one (is_set block b)
      ≡ one (is_labelled b && is_set block b)
        + (times b r.unlabelled_condition_bits
            + (times b r.auxiliary_bits
                + (times b r.unknown_bits + one (b == 24 && is_set block b)))))
    × (times b r.unlabelled_condition_bits
        ≡ one ((is_set block b && is_condition b) && not (is_labelled b)))
    × (times b r.auxiliary_bits ≡ one (is_set block b && is_auxiliary b))
    × (times b r.unknown_bits
        ≡ one (is_set block b && not (b == 24 || (is_condition b || is_auxiliary b))))
    × (length r.reference_labels ≡ count (λ n. is_labelled n && is_set block n) (range 0 256))

read_faults-IsTold : (block : List ℕ) (b : ℕ) → b < 256 → IsTold block b (read_faults block)
unfolding read_faults
read_faults-IsTold block b h =
    let l = times-filter (unlabelled block) b 0 256 (omega arith) (omega (arith, h)) in
    let a = times-filter (auxiliary block) b 0 256 (omega arith) (omega (arith, h)) in
    let u = times-filter (unknown block) b 0 256 (omega arith) (omega (arith, h)) in
    let c =
      counted_once (is_set block b) (is_labelled b) (is_condition b) (is_auxiliary b) (b == 24)
        (classes_one b h) in
    (
      omega (arith, l, a, u, c),
      l,
      a,
      u,
      length-labels_of block reference_labels ∙ marked-range block,
    )

-- Of a fault report that is decoded, the lists of the other condition bits, the auxiliary and the
-- unknown bits have just the set bits of their class, once each. A set bit is in exactly one of
-- them, unless it has a label or is the marker's, and then in none; and there are as many labels as
-- set bits that have one.
pub decode_fault_report-IsTold :
    (packet : NativeFrame) (serial : List ℕ) (r : NativeFaultReport) (b : ℕ)
    → decode_fault_report packet serial ≡ ok r
    → b < 256
    → IsTold (slice 66 98 packet.raw) b r
unfolding decode_fault_report
decode_fault_report-IsTold packet serial r b h bound =
    go
      (not (packet.command == 108)
        || (not (length packet.raw == 99) || not (get_or packet.raw 33 0 == 1)))
      (check_serial serial) h
  where
    block : List ℕ
    block = slice 66 98 packet.raw

    decoded : Result NativeFaultReport → NativeFaultReport
    decoded (ok x) = x
    decoded (err e) = r

    read :
        (x : Bool)
        → (let s : Result NativeFaultReport =
              if x then err value_error else ok (read_faults block) in
            s ≡ ok r)
        → IsTold block b r
    read true k = absurd (ground (arith, k))
    read false k = subst (IsTold block b) (ap (λ x. decoded x) k) (read_faults-IsTold block b bound)

    go :
        (x : Bool) (v : Result (List ℕ))
        → (let s : Result NativeFaultReport =
              if x
              then err value_error
              else (v >>= λ value.
                  if not (list_eq (rstrip (slice 34 66 packet.raw)) value)
                    || not (list_eq (take 4 block) (0 ∷ 0 ∷ 0 ∷ 1 ∷ []))
                  then err value_error
                  else ok (read_faults block)) in
            s ≡ ok r)
        → IsTold block b r
    go true v k = absurd (ground (arith, k))
    go false (err e) k = absurd (ground (arith, k))
    go false (ok value) k =
        read
          (not (list_eq (rstrip (slice 34 66 packet.raw)) value)
            || not (list_eq (take 4 block) (0 ∷ 0 ∷ 0 ∷ 1 ∷ [])))
          k
