-- ===== src/L3/Stream/Frames.antt =====
-- A stream of encoded frames, with noise between them, yields exactly those frames.
use multi.Common.{
  ℕ, ◌+◌, ◌≤◌, ◌≡◌, refl, sym, ap, subst, ◌∙◌, List, [], ◌∷◌, ◌++◌, some, length, drop, ok, err,
  arith, All, length-append, drop-length_append,
}
use mathlib.Core.List.{append_assoc}
use multi.Common.Find.{find_tag-append}
use multi.L3.Consts.{magic, header_len}
use multi.L3.Frame.{Frame, IsTyped, IsWire, wire_len}
use multi.L3.Encode.{wire_bytes}
use multi.L3.Decode.{DecodeError, parse_header}
use multi.L3.Decode.Layout.{parse_header-wire_bytes, payload_slice, length-wire_bytes, header_of}
use multi.L3.Stream.{stop, again, emit, find_magic, after_header, at_magic, round}
use multi.L3.Stream.Rounds.{round_at, at_magic_long}
use multi.L3.Stream.Extends.{Extends, round-Extends}
use multi.L3.Stream.Runs.{Drains, stops, skips, yields, drained, push_bytes-Drains}
use multi.L3.Stream.Chunks.{feed, feed_chunking}
use multi.Common.Chunks.{concat}

after_header-wire_bytes :
    (f : Frame) (rest : List ℕ)
    → after_header (wire_bytes f ++ rest) (ok (header_of f)) ≡ emit f rest
unfolding after_header wire_len
after_header-wire_bytes f rest = ground (
  arith,
  payload_slice f rest,
  length-wire_bytes f,
  length-append (wire_bytes f) rest,
  drop-length_append (header_len + length f.payload) (wire_bytes f) rest,
)

at_magic-wire_bytes :
    (f : Frame) (rest : List ℕ)
    → IsTyped f
    → IsWire f
    → at_magic (wire_bytes f ++ rest) ≡ emit f rest
at_magic-wire_bytes f rest t w =
    at_magic_long (wire_bytes f ++ rest)
      (unfold wire_len in omega (arith, length-append (wire_bytes f) rest, length-wire_bytes f))
    ∙ ap (after_header (wire_bytes f ++ rest)) (parse_header-wire_bytes f rest t w)
    ∙ after_header-wire_bytes f rest

-- Noise that the decoder gets past: bytes in which no magic begins, also not one that the next frame
-- would complete; or bytes with a header that is refused, and noise again behind its first byte.
pub data IsNoise : List ℕ → Type 0 where
  quiet : (noise : List ℕ) → find_magic (noise ++ magic) ≡ some (length noise) → IsNoise noise
  corrupt :
      (noise : List ℕ) (p : ℕ) (e : DecodeError)
      → find_magic noise ≡ some p
      → header_len ≤ length (drop p noise)
      → parse_header (drop p noise) ≡ err e
      → IsNoise (drop 1 (drop p noise))
      → IsNoise noise

behind_magic : Frame → List ℕ
behind_magic f = drop 4 (wire_bytes f)

wire_bytes-magic : (f : Frame) → wire_bytes f ≡ magic ++ behind_magic f
unfolding wire_bytes behind_magic
wire_bytes-magic f = refl

quiet-round :
    (noise : List ℕ) (f : Frame) (rest : List ℕ)
    → find_magic (noise ++ magic) ≡ some (length noise)
    → IsTyped f
    → IsWire f
    → round (noise ++ (wire_bytes f ++ rest)) ≡ emit f rest
unfolding find_magic
quiet-round noise f rest q t w =
    round_at (noise ++ (wire_bytes f ++ rest)) (length noise) (rw regrouped found)
    ∙ ap at_magic (drop-length_append (length noise) noise (wire_bytes f ++ rest) refl)
    ∙ at_magic-wire_bytes f rest t w
  where
    tail : List ℕ
    tail = behind_magic f ++ rest

    found : find_magic ((noise ++ magic) ++ tail) ≡ some (length noise)
    found = find_tag-append _ _ _ _ (noise ++ magic) tail (length noise) q

    regrouped : noise ++ (wire_bytes f ++ rest) ≡ (noise ++ magic) ++ tail
    regrouped =
        ap (λ x. noise ++ (x ++ rest)) (wire_bytes-magic f) ∙ sym (append_assoc noise magic tail)

corrupt-round :
    (noise : List ℕ) (p : ℕ) (e : DecodeError)
    → find_magic noise ≡ some p
    → header_len ≤ length (drop p noise)
    → parse_header (drop p noise) ≡ err e
    → round noise ≡ again (drop 1 (drop p noise))
unfolding after_header
corrupt-round noise p e q long bad =
    round_at noise p q ∙ at_magic_long (drop p noise) long ∙ ap (after_header (drop p noise)) bad

-- Behind noise the decoder finds the frame.
noise-Drains :
    {noise rest out : List ℕ} {gs : List Frame} (f : Frame)
    → IsNoise noise
    → IsTyped f
    → IsWire f
    → Drains rest gs out
    → Drains (noise ++ (wire_bytes f ++ rest)) (f ∷ gs) out
noise-Drains {rest = r} f (quiet n q) t w d = yields (quiet-round n f r q t w) d
noise-Drains {rest = r} f (corrupt n p e q long bad more) t w d =
    let tail = wire_bytes f ++ r in
    skips (subst (Extends n tail) (corrupt-round n p e q long bad) (round-Extends n tail))
      (noise-Drains f more t w d)

-- A stretch of a stream: noise, then a frame.
pub record Segment : Type 0 where
  pub noise : List ℕ
  pub frame : Frame

pub record IsSegment (s : Segment) : Type 0 where
  pub noise_passed : IsNoise s.noise
  pub typed : IsTyped s.frame
  pub wire : IsWire s.frame

abbrev pub stream : List Segment → List ℕ → List ℕ
stream [] tail = tail
stream (s ∷ ss) tail = s.noise ++ (wire_bytes s.frame ++ stream ss tail)

abbrev pub frames_of : List Segment → List Frame
frames_of [] = []
frames_of (s ∷ ss) = s.frame ∷ frames_of ss

stream-Drains :
    (ss : List Segment) (tail : List ℕ)
    → All IsSegment ss
    → round tail ≡ stop tail
    → Drains (stream ss tail) (frames_of ss) tail
stream-Drains [] tail v settled = stops settled
stream-Drains (s ∷ ss) tail v settled =
    noise-Drains s.frame v.0.noise_passed v.0.typed v.0.wire (stream-Drains ss tail v.1 settled)

-- Frames that were encoded one behind the other, with noise before each (bytes in which no magic
-- begins, or refused headers), come out of a new decoder in order, none lost and none added, however
-- the stream is cut into chunks; a tail on which the decoder waits stays in its buffer.
pub feed-stream :
    (ss : List Segment) (tail : List ℕ) (cs : List (List ℕ))
    → All IsSegment ss
    → round tail ≡ stop tail
    → concat cs ≡ stream ss tail
    → feed cs [] ≡ some (drained (frames_of ss) tail)
feed-stream ss tail cs v settled e =
    feed_chunking cs
    ∙ push_bytes-Drains [] (concat cs) tail (frames_of ss) (rw e (stream-Drains ss tail v settled))
