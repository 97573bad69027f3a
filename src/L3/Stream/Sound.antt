-- ===== src/L3/Stream/Sound.antt =====
-- What the streaming decoder hands over stood in its input, and what it keeps is bounded.
use multi.Common.{
  ℕ, ◌+◌, ◌-◌, ◌<◌, ◌≡◌, refl, sym, ap, subst, ◌∙◌, List, [], ◌∷◌, ◌++◌, some, inl, inr, length,
  take, drop, take-append-drop, All, All-append_right, All-drop, Result, ok, err, arith, min,
  Option-cases, length-drop,
}
use mathlib.Core.List.{append_assoc}
use multi.Common.Bytes.{IsByte}
use multi.L3.Consts.{header_len, max_payload_ceiling}
use multi.L3.Frame.{Frame, IsTyped, IsWire}
use multi.L3.Encode.{wire_bytes}
use multi.L3.Decode.{Header, DecodeError, parse_header}
use multi.L3.Decode.RoundTrip.{framed_split, framed-ReadFrom, parse_header-IsHeaderOf}
use multi.L3.Stream.{
  Round, stop, again, emit, find_magic, after_header, at_magic, round, push_bytes, Drained,
}
use multi.L3.Stream.Rounds.{
  round_at, round-none, at_magic_short, at_magic_long, after_header_short, after_header_whole,
}
use multi.L3.Stream.Runs.{
  Drains, stops, skips, yields, drained, push_bytes_inv, run, push_bytes-Drains,
}
use native.Mathlib.Decide.{dec_lt}

-- What a round takes off the front of its buffer.
abbrev Cuts : List ℕ → Round → Type 0
Cuts buf (stop rest) = (pre : List ℕ) × (buf ≡ pre ++ rest)
Cuts buf (again rest) = (pre : List ℕ) × (buf ≡ pre ++ rest)
Cuts buf (emit f rest) =
    (pre : List ℕ) × (buf ≡ pre ++ (wire_bytes f ++ rest)) × IsTyped f × IsWire f

after_header-Cuts :
    (buf : List ℕ) (r : Result DecodeError Header)
    → All IsByte buf
    → parse_header buf ≡ r
    → Cuts buf (after_header buf r)
unfolding after_header
after_header-Cuts buf (err e) b q = (take 1 buf, sym (take-append-drop 1 buf))
after_header-Cuts buf (ok h) b q = elim (dec_lt (length buf) (header_len + h.payload_len)) [
  | yes short ↦ rw (after_header_short buf h short) ([], refl)
  | no fits ↦
      let (typed, wire, _, same) = framed-ReadFrom buf h b q (omega arith) in
      rw (after_header_whole buf h (omega arith))
        ([], framed_split buf h b q (omega arith), typed, wire)
]

at_magic-Cuts : (buf : List ℕ) → All IsByte buf → Cuts buf (at_magic buf)
at_magic-Cuts buf b = elim (dec_lt (length buf) header_len) [
  | yes short ↦ rw (at_magic_short buf short) ([], refl)
  | no long ↦ rw (at_magic_long buf (omega arith)) (after_header-Cuts buf (parse_header buf) b refl)
]

-- Bytes dropped before the round do not matter.
behind_prefix : (pre buf : List ℕ) (r : Round) → Cuts buf r → Cuts (pre ++ buf) r
behind_prefix pre buf (stop rest) (p, e) =
    (pre ++ p, ap (λ x. pre ++ x) e ∙ sym (append_assoc pre p rest))
behind_prefix pre buf (again rest) (p, e) =
    (pre ++ p, ap (λ x. pre ++ x) e ∙ sym (append_assoc pre p rest))
behind_prefix pre buf (emit f rest) (p, e, t, w) =
    (pre ++ p, ap (λ x. pre ++ x) e ∙ sym (append_assoc pre p (wire_bytes f ++ rest)), t, w)

dropped : (n : ℕ) (buf : List ℕ) (r : Round) → Cuts (drop n buf) r → Cuts buf r
dropped n buf r c = rw take-append-drop at (behind_prefix (take n buf) (drop n buf) r c)

round-Cuts : (buf : List ℕ) → All IsByte buf → Cuts buf (round buf)
round-Cuts buf b = elim (Option-cases (find_magic buf)) [
  | inl e ↦
      let lost = length buf - min 3 (length buf) in
      rw (round-none buf e) (take lost buf, sym (take-append-drop lost buf))
  | inr (p, e) ↦
      rw (round_at buf p e) (dropped p buf _ (at_magic-Cuts (drop p buf) (All-drop IsByte p buf b)))
]

-- Frames that stand in a byte string, whole, one behind the other, with any bytes between.
pub data Occurs : List Frame → List ℕ → Type 0 where
  nothing : (buf : List ℕ) → Occurs [] buf
  next :
      {buf : List ℕ} {f : Frame} {fs : List Frame} (noise rest : List ℕ)
      → buf ≡ noise ++ (wire_bytes f ++ rest)
      → IsTyped f
      → IsWire f
      → Occurs fs rest
      → Occurs (f ∷ fs) buf

Occurs-behind :
    {fs : List Frame} {buf rest : List ℕ} (pre : List ℕ)
    → buf ≡ pre ++ rest
    → Occurs fs rest
    → Occurs fs buf
Occurs-behind {buf = buf} pre e (nothing _) = nothing buf
Occurs-behind pre e (next noise rest p t w o) =
    next (pre ++ noise) rest (e ∙ ap (λ x. pre ++ x) p ∙ sym (append_assoc pre noise _)) t w o

IsByte-behind :
    {buf : List ℕ} (pre rest : List ℕ) → buf ≡ pre ++ rest → All IsByte buf → All IsByte rest
IsByte-behind pre rest e b = All-append_right IsByte pre rest (subst (All IsByte) e b)

Drains-Occurs :
    {buf rest : List ℕ} {fs : List Frame} → All IsByte buf → Drains buf fs rest → Occurs fs buf
Drains-Occurs {buf} b (stops e) = nothing buf
Drains-Occurs {buf} b (skips {next = n} e d) =
    let (pre, q) = subst (Cuts buf) e (round-Cuts buf b) in
    Occurs-behind pre q (Drains-Occurs (IsByte-behind pre n q b) d)
Drains-Occurs {buf} b (yields {next = n} {f = f} e d) =
    let (pre, q, t, w) = subst (Cuts buf) e (round-Cuts buf b) in
    let behind = IsByte-behind (wire_bytes f) n refl (IsByte-behind pre (wire_bytes f ++ n) q b) in
    next pre n q t w (Drains-Occurs behind d)

-- Every frame that a push hands over stands in the buffered bytes and the chunk: its wire bytes,
-- whole, behind those of the frame before it. Each is typed and within the limits of the wire.
pub push_bytes-Occurs :
    (buf chunk : List ℕ) (d : Drained)
    → All IsByte (buf ++ chunk)
    → push_bytes buf chunk ≡ some d
    → Occurs d.frames (buf ++ chunk)
push_bytes-Occurs buf chunk d b e = Drains-Occurs b (push_bytes_inv buf chunk d.buf d.frames e)

abbrev Held : Round → Type 0
Held (stop rest) = length rest < header_len + max_payload_ceiling
Held (again rest) = Unit
Held (emit f rest) = Unit

after_header-Held :
    (buf : List ℕ) (r : Result DecodeError Header)
    → parse_header buf ≡ r
    → Held (after_header buf r)
unfolding after_header
after_header-Held buf (err e) q = tt
after_header-Held buf (ok h) q = elim (dec_lt (length buf) (header_len + h.payload_len)) [
  | yes short ↦
      rw (after_header_short buf h short) (omega (arith, (parse_header-IsHeaderOf buf h q).8))
  | no fits ↦ rw (after_header_whole buf h (omega arith)) tt
]

at_magic-Held : (buf : List ℕ) → Held (at_magic buf)
at_magic-Held buf = elim (dec_lt (length buf) header_len) [
  | yes short ↦ rw (at_magic_short buf short) (omega arith)
  | no long ↦ rw (at_magic_long buf (omega arith)) (after_header-Held buf (parse_header buf) refl)
]

round-Held : (buf : List ℕ) → Held (round buf)
round-Held buf = elim (Option-cases (find_magic buf)) [
  | inl e ↦ rw (round-none buf e) (omega (arith, length-drop (length buf - min 3 (length buf)) buf))
  | inr (p, e) ↦ rw (round_at buf p e) (at_magic-Held (drop p buf))
]

Drains-Held :
    {buf rest : List ℕ} {fs : List Frame}
    → Drains buf fs rest
    → length rest < header_len + max_payload_ceiling
Drains-Held {buf} (stops e) = subst Held e (round-Held buf)
Drains-Held (skips e d) = Drains-Held d
Drains-Held (yields e d) = Drains-Held d

-- A push returns, whatever was buffered and pushed, and the buffer it leaves is shorter than a
-- header and the largest payload together.
pub push_bytes_bounded :
    (buf chunk : List ℕ)
    → (d : Drained) × (push_bytes buf chunk ≡ some d)
      × (length d.buf < header_len + max_payload_ceiling)
push_bytes_bounded buf chunk =
    let (fs, rest, d) = run (buf ++ chunk) in
    (drained fs rest, push_bytes-Drains buf chunk rest fs d, Drains-Held d)
