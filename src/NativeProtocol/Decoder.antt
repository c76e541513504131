-- ===== src/NativeProtocol/Decoder.antt =====
-- NativeDecoder of native_protocol.py: complete frames out of a fragmented byte stream.
use goodwe_wallbox_sems_home.Prelude.{
  ℕ, zero, suc, ◌+◌, ◌-◌, ◌%◌, not, ◌&&◌, ◌||◌, Option, none, some, List, [], ◌∷◌, ◌++◌, ltb, leb,
  ◌==◌, if◌then◌else◌, length, get_or, take, drop, slice, sum, list_eq,
}
use goodwe_wallbox_sems_home.NativeProtocol.Frame.{NativeFrame, from_little}

pub record NativeDecoder : Type 0 where
  pub buffer : List ℕ
  pub max_length : ℕ

unfoldable pub new : ℕ → NativeDecoder
new max_length = record { buffer = []; max_length = max_length }

-- One round of the loop of `feed`: the buffer holds no complete frame, or the round raises
-- ValueError, or it yields a frame and its size.
pub data Round : Type 0 where
  pause invalid : Round
  emit : NativeFrame → ℕ → Round

-- The checks on a complete frame. `raw` has 31 bytes or more, so that its indices are in range.
unfoldable pub verify : List ℕ → ℕ → Round
verify raw size =
    if not (get_or raw 4 0 == 16)
      || not (sum (slice 6 (length raw - 1) raw) % 256 == get_or raw (length raw - 1) 0)
    then invalid
    else emit
        (record {
          command = from_little (slice 6 8 raw);
          sequence = get_or raw 5 0;
          identity = slice 8 30 raw;
          raw = raw;
        })
        size

unfoldable pub round : ℕ → List ℕ → Round
round max_length buffer =
    if ltb (length buffer) 4
    then pause
    else let size = from_little (slice 2 4 buffer) in
      if not (list_eq (take 2 buffer) (0xaa ∷ 0xf5 ∷ []))
        || not (leb 31 size && leb size max_length)
      then invalid
      else if ltb (length buffer) size
      then pause
      else verify (take size buffer) size

-- Frames that were read before the rest; an error loses them.
abbrev pub prepend {ℓ} :
    {S : Type ℓ} → List NativeFrame → Option (List NativeFrame) × S → Option (List NativeFrame) × S
prepend fs (none, s) = (none, s)
prepend fs (some gs, s) = (some (fs ++ gs), s)

-- The loop of `feed`, with the buffer that it leaves; `none` is the ValueError, which loses the
-- frames of the same call. A round removes 31 bytes or more, so that fuel above the length of
-- the buffer is enough.
unfoldable pub drain : ℕ → ℕ → List ℕ → Option (List NativeFrame) × List ℕ
drain max_length zero buffer = (some [], buffer)
drain max_length (suc fuel) buffer = elim (round max_length buffer) [
  | pause ↦ (some [], buffer)
  | invalid ↦ (none, buffer)
  | emit f size ↦ prepend (f ∷ []) (drain max_length fuel (drop size buffer))
]

unfoldable pub feed : NativeDecoder → List ℕ → Option (List NativeFrame) × NativeDecoder
feed decoder bytes =
    let buffer = decoder.buffer ++ bytes in
    let (frames, rest) = drain decoder.max_length (length buffer + 1) buffer in
    (frames, record decoder { buffer = rest })

-- The frames of a sequence of reads from the socket; the first error ends it.
abbrev pub resume :
    Option (List NativeFrame) × NativeDecoder
    → (NativeDecoder → Option (List NativeFrame) × NativeDecoder)
    → Option (List NativeFrame) × NativeDecoder
resume (none, d) k = (none, d)
resume (some fs, d) k = prepend fs (k d)

unfoldable pub feed_all : NativeDecoder → List (List ℕ) → Option (List NativeFrame) × NativeDecoder
feed_all decoder [] = (some [], decoder)
feed_all decoder (chunk ∷ chunks) = resume (feed decoder chunk) (λ d. feed_all d chunks)
