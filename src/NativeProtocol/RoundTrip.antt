-- ===== src/NativeProtocol/RoundTrip.antt =====
-- `_frame` and the decoder: what one side writes, the other reads.
use goodwe_wallbox_sems_home.Prelude.{
  ℕ, suc, ◌+◌, ◌-◌, ◌%◌, ◌<◌, ◌≡◌, refl, List, [], ◌∷◌, ◌++◌, arith, length, slice, sum,
  append_assoc, length-append, take-length, get_or, zero, drop-length, All, some, sym, ◌∙◌, ◌≤◌,
}
use goodwe_wallbox_sems_home.NativeProtocol.Frame.{NativeFrame, ok, frame, u16, from_little}
use goodwe_wallbox_sems_home.NativeProtocol.Decoder.{
  emit, verify, round, drain, feed, feed_all, new,
}
use goodwe_wallbox_sems_home.NativeProtocol.Drain.{drain-emit, drain-pause, shorter}
use goodwe_wallbox_sems_home.NativeProtocol.Stream.{join, feed_all-join}
use mathlib.Core.Path.{subst}

-- The bytes of a frame, and the part of them that the checksum covers.
abbrev pub payload : ℕ → List ℕ → List ℕ → List ℕ
payload command body identity = u16 command ++ (identity ++ body)

abbrev pub header : ℕ → ℕ → List ℕ
header size sequence = 0xaa ∷ 0xf5 ∷ (u16 size ++ (16 ∷ sequence ∷ []))

abbrev pub envelope : ℕ → List ℕ → List ℕ → ℕ → List ℕ
envelope command body identity sequence =
    let p = payload command body identity in
    header (length p + 7) sequence ++ (p ++ (sum p % 256 ∷ []))

record IsFramed (command : ℕ) (body identity : List ℕ) (sequence : ℕ) (bytes : List ℕ)
    : Type 0 where
  identity_size : length identity ≡ 22
  sequence_byte : sequence < 256
  command_word : command < 65536
  size_word : length body + 31 < 65536
  bytes_eq : bytes ≡ envelope command body identity sequence

frame-IsFramed :
    (command : ℕ) (body identity : List ℕ) (sequence : ℕ) (bytes : List ℕ)
    → frame command body identity sequence ≡ ok bytes
    → IsFramed command body identity sequence bytes
unfolding frame
frame-IsFramed command body identity sequence bytes h = ground (arith, length-append identity body)

pub frame-envelope :
    (command : ℕ) (body identity : List ℕ) (sequence : ℕ)
    → length identity ≡ 22
    → sequence < 256
    → command < 65536
    → length body + 31 < 65536
    → frame command body identity sequence ≡ ok (envelope command body identity sequence)
unfolding frame
frame-envelope command body identity sequence hi hs hc hb =
    ground (arith, length-append identity body)

pub length-envelope_lem :
    (command : ℕ) (body identity : List ℕ) (sequence : ℕ)
    → length identity ≡ 22
    → length (envelope command body identity sequence) ≡ length body + 31
length-envelope_lem command body identity sequence h = omega (
  arith,
  length-append (identity ++ body) (sum (payload command body identity) % 256 ∷ []),
  length-append identity body,
)

from_little-u16 : (n : ℕ) → n < 65536 → from_little (u16 n) ≡ n
from_little-u16 n h = omega arith

get_or_last : (xs : List ℕ) (c : ℕ) → get_or (xs ++ c ∷ []) (length (xs ++ c ∷ []) - 1) 0 ≡ c
get_or_last [] c = refl
get_or_last (x ∷ xs) c =
    let e : length ((x ∷ xs) ++ c ∷ []) - 1 ≡ suc (length (xs ++ c ∷ []) - 1) =
      omega (arith, length-append xs (c ∷ [])) in
    rw e (get_or_last xs c)

module _ (command : ℕ) (body identity : List ℕ) (sequence : ℕ)
    (framed : IsFramed command body identity sequence
      (envelope command body identity sequence)) where
  abbrev bytes : List ℕ
  bytes = envelope command body identity sequence

  length-envelope : length bytes ≡ length body + 31
  length-envelope = omega (
    arith,
    framed,
    length-append (identity ++ body) (sum (payload command body identity) % 256 ∷ []),
    length-append identity body,
  )

  covered : slice 6 (length bytes - 1) bytes ≡ payload command body identity
  covered =
      let p = payload command body identity in
      let e : length bytes - 1 - 6 ≡ length p =
        omega (arith, framed, length-envelope, length-append identity body) in
      rw e (take-length p (sum p % 256 ∷ []))

  checksum : get_or bytes (length bytes - 1) 0 ≡ sum (payload command body identity) % 256
  checksum =
      let p = payload command body identity in
      get_or_last (header (length p + 7) sequence ++ p) (sum p % 256)

  identity_bytes : slice 8 30 bytes ≡ identity
  identity_bytes =
      rw
        (
          append_assoc identity body (sum (payload command body identity) % 256 ∷ []),
          ← framed.identity_size,
        )
        (take-length identity _)

  command_bytes : from_little (slice 6 8 bytes) ≡ command
  command_bytes = from_little-u16 command framed.command_word

  verify-envelope :
      (size : ℕ)
      → verify bytes size
        ≡ emit
            (record { command = command; sequence = sequence; identity = identity; raw = bytes })
            size
  unfolding verify
  verify-envelope size = ground (arith, covered, checksum, identity_bytes, command_bytes)

  round-envelope :
      (m : ℕ) (more : List ℕ)
      → length bytes ≤ m
      → round m (bytes ++ more)
        ≡ emit
            (record { command = command; sequence = sequence; identity = identity; raw = bytes })
            (length bytes)
  unfolding round
  round-envelope m more fits =
      let size : from_little (u16 (length (payload command body identity) + 7)) ≡ length bytes =
        omega (arith, framed, length-envelope, length-append identity body) in
      ground (
        arith,
        framed,
        size,
        length-envelope,
        length-append bytes more,
        take-length bytes more,
        verify-envelope (length bytes),
      )

-- A frame that the protocol can send, with the bytes that `_frame` makes of it.
pub record IsSent (m : ℕ) (f : NativeFrame) : Type 0 where
  pub body : List ℕ
  pub framed : frame f.command body f.identity f.sequence ≡ ok f.raw
  pub fits : length f.raw ≤ m

round-IsSent :
    (m : ℕ) (f : NativeFrame) (more : List ℕ)
    → IsSent m f
    → round m (f.raw ++ more) ≡ emit f (length f.raw)
round-IsSent m f more s =
    let framed = frame-IsFramed f.command s.body f.identity f.sequence f.raw s.framed in
    let same = framed.bytes_eq in
    subst (λ r. round m (r ++ more) ≡ emit (record f { raw = r }) (length r)) (sym same)
      (round-envelope f.command s.body f.identity f.sequence (rw same at framed) m more
        (subst (λ r. length r ≤ m) same s.fits))

abbrev pub raws : List NativeFrame → List ℕ
raws [] = []
raws (f ∷ fs) = f.raw ++ raws fs

drain-raws :
    (m k : ℕ) (fs : List NativeFrame)
    → All (IsSent m) fs
    → length (raws fs) < k
    → drain m k (raws fs) ≡ (some fs, [])
drain-raws m zero fs s h = absurd (omega arith)
drain-raws m (suc k) [] s h = drain-pause m k [] (unfold round in refl)
drain-raws m (suc k) (f ∷ fs) s h =
    let n = length f.raw in
    let step = round-IsSent m f (raws fs) s.0 in
    let cut = drop-length f.raw (raws fs) in
    let ih = drain-raws m k fs s.1 (rw (← cut) (shorter m n k (f.raw ++ raws fs) f step h)) in
    drain-emit m k n (f.raw ++ raws fs) f step ∙ rw (cut, ih)

-- The stream of any frames that fit the size limit, cut into reads in any way whatever, decodes
-- to exactly these frames, in order, and leaves an empty buffer.
pub feed_all-raws :
    (m : ℕ) (fs : List NativeFrame) (chunks : List (List ℕ))
    → All (IsSent m) fs
    → join chunks ≡ raws fs
    → feed_all (new m) chunks ≡ (some fs, new m)
unfolding new
feed_all-raws m fs chunks sent cut =
    feed_all-join (new m) (new m) chunks fs (unfold round in refl)
      (unfold feed in rw (cut, drain-raws m (length (raws fs) + 1) fs sent (omega arith)))
