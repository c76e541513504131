-- ===== src/NativeProtocol/Stream.antt =====
-- Decoding does not depend on how the stream is cut.
use goodwe_wallbox_sems_home.Prelude.{
  ℕ, suc, ◌+◌, ◌≡◌, refl, sym, ap, ◌∙◌, Option, none, some, List, [], ◌∷◌, ◌++◌, arith, length,
  append_assoc, append-nil,
}
use goodwe_wallbox_sems_home.NativeProtocol.Frame.{NativeFrame}
use goodwe_wallbox_sems_home.NativeProtocol.Decoder.{
  NativeDecoder, round, pause, prepend, drain, feed, feed_all,
}
use goodwe_wallbox_sems_home.NativeProtocol.Drain.{
  drain-append, drain-settled, drain-append_none, drain-pause, prepend-eq-some,
}

abbrev keep_buffer :
    ℕ → Option (List NativeFrame) × List ℕ → Option (List NativeFrame) × NativeDecoder
keep_buffer m r = (r.0, record { buffer = r.1; max_length = m })

keep_buffer-prepend :
    (m : ℕ) (fs : List NativeFrame) (r : Option (List NativeFrame) × List ℕ)
    → keep_buffer m (prepend fs r) ≡ prepend fs (keep_buffer m r)
keep_buffer-prepend m fs (none, b) = refl
keep_buffer-prepend m fs (some gs, b) = refl

-- Feeding what comes in two reads gives the frames of both, in order, and the same buffer, as
-- feeding it in one read, whenever the first read raises no error.
pub feed-append :
    (d e : NativeDecoder) (chunk more : List ℕ) (fs : List NativeFrame)
    → feed d chunk ≡ (some fs, e)
    → feed d (chunk ++ more) ≡ prepend fs (feed e more)
unfolding feed
feed-append d e chunk more fs h =
    let m = d.max_length in
    let whole = d.buffer ++ chunk in
    let first : drain m (length whole + 1) whole ≡ (some fs, e.buffer) =
      λ i. ((h i).0, (h i).1.buffer) in
    let bound : e.max_length ≡ m = λ i. (sym h i).1.max_length in
    let both =
      drain-append m (length whole + 1) (length (whole ++ more) + 1) (length (e.buffer ++ more) + 1)
        whole more e.buffer fs (omega arith) (omega arith) (omega arith) first in
    rw (← append_assoc d.buffer chunk more, bound)
      (ap (keep_buffer m) both ∙ keep_buffer-prepend m fs _)

-- A decoder whose buffer holds no complete frame, as `feed` leaves it.
abbrev pub IsSettled : NativeDecoder → Type 0
IsSettled d = round d.max_length d.buffer ≡ pause

feed-IsSettled :
    (d e : NativeDecoder) (chunk : List ℕ) (fs : List NativeFrame)
    → feed d chunk ≡ (some fs, e)
    → IsSettled e
unfolding feed
feed-IsSettled d e chunk fs h =
    let bound : e.max_length ≡ d.max_length = λ i. (sym h i).1.max_length in
    let whole = d.buffer ++ chunk in
    rw bound (
      drain-settled d.max_length (length whole + 1) whole e.buffer fs (omega arith)
        (λ i. ((h i).0, (h i).1.buffer)))

feed-nil : (d : NativeDecoder) → IsSettled d → feed d [] ≡ (some [], d)
unfolding feed
feed-nil d s =
    let m = d.max_length in
    let one : length d.buffer + 1 ≡ suc (length d.buffer) = omega arith in
    rw (append-nil, one) (ap (keep_buffer m) (drain-pause m (length d.buffer) d.buffer s))

data Fed (d : NativeDecoder) (chunk : List ℕ) : Type 0 where
  raised : (e : NativeDecoder) → feed d chunk ≡ (none, e) → Fed d chunk
  decoded : (fs : List NativeFrame) (e : NativeDecoder) → feed d chunk ≡ (some fs, e) → Fed d chunk

feed-Fed : (d : NativeDecoder) (chunk : List ℕ) → Fed d chunk
feed-Fed d chunk = go (feed d chunk) refl
  where
    go : (r : Option (List NativeFrame) × NativeDecoder) → feed d chunk ≡ r → Fed d chunk
    go (none, e) p = raised e p
    go (some fs, e) p = decoded fs e p

feed-none :
    (d e : NativeDecoder) (chunk more : List ℕ)
    → feed d chunk ≡ (none, e)
    → (feed d (chunk ++ more)).0 ≡ none
unfolding feed
feed-none d e chunk more h =
    let whole = d.buffer ++ chunk in
    rw (← append_assoc d.buffer chunk more) (
      drain-append_none d.max_length (length whole + 1) (length (whole ++ more) + 1) whole more
        e.buffer (omega arith) (omega arith) (λ i. ((h i).0, (h i).1.buffer)))

abbrev pub join : List (List ℕ) → List ℕ
join [] = []
join (c ∷ cs) = c ++ join cs

-- However a stream is cut into reads, if feeding it whole gives frames, feeding the reads one
-- after the other gives the same frames in the same order, and leaves the same buffer.
pub feed_all-join :
    (d e : NativeDecoder) (chunks : List (List ℕ)) (fs : List NativeFrame)
    → IsSettled d
    → feed d (join chunks) ≡ (some fs, e)
    → feed_all d chunks ≡ (some fs, e)
unfolding feed_all
feed_all-join d e [] fs s h = sym (feed-nil d s) ∙ h
feed_all-join d e (c ∷ cs) fs s h = elim (feed-Fed d c) [
  | raised d' p ↦ let lost = feed-none d d' c (join cs) p in let kept = ap (λ r. r.0) h in cc
  | decoded gs d' p ↦
      let (hs, tail, eq) =
        prepend-eq-some gs fs (feed d' (join cs)) e (sym (feed-append d d' c (join cs) gs p) ∙ h) in
      rw (p, feed_all-join d' e cs hs (feed-IsSettled d d' c gs p) tail, eq)
]
