-- ===== src/NativeProtocol/Drain.antt =====
-- The loop of `NativeDecoder.feed` on a buffer and on the bytes that come after it.
use goodwe_wallbox_sems_home.Prelude.{
  ℕ, zero, suc, ◌≤◌, ◌<◌, ◌≡◌, ◌≢◌, ◌⊎◌, refl, sym, ap, ◌∙◌, Option, none, some, List, [], ◌∷◌,
  ◌++◌, arith, length, take, drop, slice, append_assoc, inl, inr, length-append, length-drop,
  take-append, drop-append,
}
use goodwe_wallbox_sems_home.NativeProtocol.Frame.{NativeFrame, from_little}
use goodwe_wallbox_sems_home.NativeProtocol.Decoder.{
  Round, pause, invalid, emit, verify, round, prepend, drain,
}

verify_size : (raw : List ℕ) (size n : ℕ) (f : NativeFrame) → verify raw size ≡ emit f n → n ≡ size
unfolding verify
verify_size raw size n f h = ground arith

-- An emitted frame lies within the buffer and has 31 bytes or more.
round-emit_bounds :
    (m : ℕ) (buffer : List ℕ) (f : NativeFrame) (n : ℕ)
    → round m buffer ≡ emit f n
    → (n ≤ length buffer) × (31 ≤ n) × (n ≤ m)
unfolding round
round-emit_bounds m buffer f n h = ground (
  arith,
  verify_size (take (from_little (slice 2 4 buffer)) buffer) (from_little (slice 2 4 buffer)) n f,
)

slice-append : (xs ys : List ℕ) → 4 ≤ length xs → slice 2 4 (xs ++ ys) ≡ slice 2 4 xs
slice-append xs ys h =
    ap (take 2) (drop-append 2 xs ys (omega arith))
    ∙ take-append 2 (drop 2 xs) ys (omega (arith, length-drop 2 xs))

round-append :
    (m : ℕ) (buffer more : List ℕ)
    → round m buffer ≢ pause
    → round m (buffer ++ more) ≡ round m buffer
unfolding round
round-append m buffer more h = ground (
  arith,
  length-append buffer more,
  slice-append buffer more,
  take-append 2 buffer more,
  take-append (from_little (slice 2 4 buffer)) buffer more,
)

Round-cases :
    (r : Round) → (r ≡ pause) ⊎ ((r ≡ invalid) ⊎ ((f : NativeFrame) × (n : ℕ) × (r ≡ emit f n)))
Round-cases pause = inl refl
Round-cases invalid = inr (inl refl)
Round-cases (emit f n) = inr (inr (f, n, refl))

module _ {ℓ} {S : Type ℓ} where
  prepend-nil : (r : Option (List NativeFrame) × S) → prepend [] r ≡ r
  prepend-nil (none, s) = refl
  prepend-nil (some fs, s) = refl

  prepend-prepend :
      (fs gs : List NativeFrame) (r : Option (List NativeFrame) × S)
      → prepend fs (prepend gs r) ≡ prepend (fs ++ gs) r
  prepend-prepend fs gs (none, s) = refl
  prepend-prepend fs gs (some hs, s) =
      ap (λ (t : List NativeFrame). (some t, s)) (sym (append_assoc fs gs hs))

  -- A result with frames comes from a rest with frames.
  pub prepend-eq-some :
      (fs gs : List NativeFrame) (r : Option (List NativeFrame) × S) (s : S)
      → prepend fs r ≡ (some gs, s)
      → (hs : List NativeFrame) × (r ≡ (some hs, s)) × (gs ≡ fs ++ hs)
  prepend-eq-some fs gs (none, s') s h = cc
  prepend-eq-some fs gs (some hs, s') s h = (hs, cc, cc)

module _ {ℓ} {S : Type ℓ} where
  prepend-none :
      (fs : List NativeFrame) (r : Option (List NativeFrame) × S) (s : S)
      → prepend fs r ≡ (none, s)
      → r ≡ (none, s)
  prepend-none fs (none, s') s h = h
  prepend-none fs (some gs, s') s h = cc

  none-prepend :
      (fs : List NativeFrame) (r : Option (List NativeFrame) × S)
      → r.0 ≡ none
      → (prepend fs r).0 ≡ none
  none-prepend fs (none, s) h = refl
  none-prepend fs (some gs, s) h = cc

some_pair :
    (fs gs : List NativeFrame) (xs ys : List ℕ)
    → ◌≡◌ {A = Option (List NativeFrame) × List ℕ} (some fs, xs) (some gs, ys)
    → (fs ≡ gs) × (xs ≡ ys)
some_pair fs gs xs ys h = (cc, cc)

-- One step of the loop on an emitted frame.
pub drain-emit :
    (m g n : ℕ) (buffer : List ℕ) (f : NativeFrame)
    → round m buffer ≡ emit f n
    → drain m (suc g) buffer ≡ prepend (f ∷ []) (drain m g (drop n buffer))
unfolding drain
drain-emit m g n buffer f h = rw (h, drain)

pub drain-pause :
    (m g : ℕ) (buffer : List ℕ)
    → round m buffer ≡ pause
    → drain m (suc g) buffer ≡ (some [], buffer)
unfolding drain
drain-pause m g buffer h = rw (h, drain)

drain-invalid :
    (m g : ℕ) (buffer : List ℕ) → round m buffer ≡ invalid → drain m (suc g) buffer ≡ (none, buffer)
unfolding drain
drain-invalid m g buffer h = rw (h, drain)

pub shorter :
    (m n f : ℕ) (buffer : List ℕ) (fr : NativeFrame)
    → round m buffer ≡ emit fr n
    → length buffer < suc f
    → length (drop n buffer) < f
shorter m n f buffer fr h lt =
    omega (arith, round-emit_bounds m buffer fr n h, length-drop n buffer)

-- Fuel above the length of the buffer is enough: more of it changes nothing.
pub drain_fuel :
    (m f g : ℕ) (buffer : List ℕ)
    → length buffer < f
    → length buffer < g
    → drain m f buffer ≡ drain m g buffer
drain_fuel m zero g buffer hf hg = absurd (omega arith)
drain_fuel m (suc f) zero buffer hf hg = absurd (omega arith)
drain_fuel m (suc f) (suc g) buffer hf hg = elim (Round-cases (round m buffer)) [
  | inl p ↦ cc (drain-pause m f buffer p, drain-pause m g buffer p)
  | inr (inl p) ↦ cc (drain-invalid m f buffer p, drain-invalid m g buffer p)
  | inr (inr (fr, n, p)) ↦
      let ih =
        drain_fuel m f g (drop n buffer) (shorter m n f buffer fr p hf)
          (shorter m n g buffer fr p hg) in
      cc (drain-emit m f n buffer fr p, drain-emit m g n buffer fr p)
]

-- What a finished drain leaves is continued by the bytes that come next.
pub drain-append :
    (m f g k : ℕ) (buffer more rest : List ℕ) (fs : List NativeFrame)
    → length buffer < f
    → length (buffer ++ more) < g
    → length (rest ++ more) < k
    → drain m f buffer ≡ (some fs, rest)
    → drain m g (buffer ++ more) ≡ prepend fs (drain m k (rest ++ more))
drain-append m zero g k buffer more rest fs hf hg hk h = absurd (omega arith)
drain-append m (suc f) zero k buffer more rest fs hf hg hk h = absurd (omega arith)
drain-append m (suc f) (suc g) k buffer more rest fs hf hg hk h =
    elim (Round-cases (round m buffer)) [
      | inl p ↦
          let (no_frame, same) = some_pair [] fs buffer rest (sym (drain-pause m f buffer p) ∙ h) in
          rw (← no_frame, ← same)
            (drain_fuel m (suc g) k (buffer ++ more) hg (rw same hk) ∙ sym (prepend-nil _))
      | inr (inl p) ↦ let raised = sym (drain-invalid m f buffer p) ∙ h in cc
      | inr (inr (fr, n, p)) ↦
          let (hs, tail, eq) =
            prepend-eq-some (fr ∷ []) fs (drain m f (drop n buffer)) rest
              (sym (drain-emit m f n buffer fr p) ∙ h) in
          let fits = (round-emit_bounds m buffer fr n p).0 in
          let cut = drop-append n buffer more fits in
          let next = round-append m buffer more (λ e. cc) ∙ p in
          let ih =
            drain-append m f g k (drop n buffer) more rest hs (shorter m n f buffer fr p hf)
              (rw (← cut) (shorter m n g (buffer ++ more) fr next hg)) hk tail in
          drain-emit m g n (buffer ++ more) fr next
          ∙ (rw (cut, ih, eq) (prepend-prepend (fr ∷ []) hs (drain m k (rest ++ more))))
    ]

-- Once a drain has ended without an error, its buffer holds no complete frame.
pub drain-settled :
    (m f : ℕ) (buffer rest : List ℕ) (fs : List NativeFrame)
    → length buffer < f
    → drain m f buffer ≡ (some fs, rest)
    → round m rest ≡ pause
drain-settled m zero buffer rest fs hf h = absurd (omega arith)
drain-settled m (suc f) buffer rest fs hf h = elim (Round-cases (round m buffer)) [
  | inl p ↦ rw (← (some_pair [] fs buffer rest (sym (drain-pause m f buffer p) ∙ h)).1) p
  | inr (inl p) ↦ let raised = sym (drain-invalid m f buffer p) ∙ h in cc
  | inr (inr (fr, n, p)) ↦
      let (hs, tail, eq) =
        prepend-eq-some (fr ∷ []) fs (drain m f (drop n buffer)) rest
          (sym (drain-emit m f n buffer fr p) ∙ h) in
      drain-settled m f (drop n buffer) rest hs (shorter m n f buffer fr p hf) tail
]

-- An error is not undone by the bytes that come next.
pub drain-append_none :
    (m f g : ℕ) (buffer more rest : List ℕ)
    → length buffer < f
    → length (buffer ++ more) < g
    → drain m f buffer ≡ (none, rest)
    → (drain m g (buffer ++ more)).0 ≡ none
drain-append_none m zero g buffer more rest hf hg h = absurd (omega arith)
drain-append_none m (suc f) zero buffer more rest hf hg h = absurd (omega arith)
drain-append_none m (suc f) (suc g) buffer more rest hf hg h = elim (Round-cases (round m buffer)) [
  | inl p ↦ let done = sym (drain-pause m f buffer p) ∙ h in cc
  | inr (inl p) ↦ rw (drain-invalid m g (buffer ++ more) (round-append m buffer more (λ e. cc) ∙ p))
  | inr (inr (fr, n, p)) ↦
      let cut = drop-append n buffer more (round-emit_bounds m buffer fr n p).0 in
      let next = round-append m buffer more (λ e. cc) ∙ p in
      let ih =
        drain-append_none m f g (drop n buffer) more rest (shorter m n f buffer fr p hf)
          (rw (← cut) (shorter m n g (buffer ++ more) fr next hg))
          (prepend-none (fr ∷ []) _ rest (sym (drain-emit m f n buffer fr p) ∙ h)) in
      rw (drain-emit m g n (buffer ++ more) fr next, cut) (none-prepend (fr ∷ []) _ ih)
]
