-- ===== src/L3/Decode/Permanence.antt =====
-- Which answers of the decoder can change when more bytes arrive.
use multi.Common.{
  ℕ, ◌+◌, ◌-◌, ◌≤◌, ◌<◌, ◌≡◌, ◌≢◌, sym, ◌∙◌, List, ◌∷◌, ◌++◌, length, take, drop, ok, err, arith,
  length-append, inl, inr, Result-cases, slice-take, take-append_le, drop-append_le, length-drop,
  false, replicate, length-replicate,
}
use multi.L3.Consts.{header_len}
use multi.L3.Frame.{Frame}
use multi.L3.Decode.{
  Header, DecodeError, parse_fields, into_frame, has_magic, parse_header, decode, too_short,
}
use multi.L3.Decode.Layout.{parse_header-append}
use native.Mathlib.Decide.{dec_lt}

short_header : (buf : List ℕ) → length buf < header_len → decode buf ≡ err too_short
unfolding decode parse_header
short_header buf h = ground arith

decode_refused : (buf : List ℕ) (e : DecodeError) → parse_header buf ≡ err e → decode buf ≡ err e
unfolding decode
decode_refused buf e q = rw q

decode_short :
    (buf : List ℕ) (h : Header)
    → parse_header buf ≡ ok h
    → length buf < header_len + h.payload_len
    → decode buf ≡ err too_short
unfolding decode
decode_short buf h q short = ground arith

decode_whole :
    (buf : List ℕ) (h : Header)
    → parse_header buf ≡ ok h
    → header_len + h.payload_len ≤ length buf
    → decode buf
      ≡ ok (into_frame h (take h.payload_len (drop header_len buf)), header_len + h.payload_len)
unfolding decode
decode_whole buf h q fits = ground (arith, slice-take buf header_len h.payload_len)

-- The bytes of a whole frame do not change when others follow.
pub payload-append :
    (n : ℕ) (buf more : List ℕ)
    → header_len + n ≤ length buf
    → take n (drop header_len (buf ++ more)) ≡ take n (drop header_len buf)
payload-append n buf more fits =
    rw (drop-append_le header_len buf more (omega arith))
      (take-append_le n (drop header_len buf) more (omega (arith, length-drop header_len buf)))

header-cases :
    (buf : List ℕ) (h : Header)
    → parse_header buf ≡ ok h
    → decode buf ≢ err too_short
    → header_len + h.payload_len ≤ length buf
header-cases buf h q final = elim (dec_lt (length buf) (header_len + h.payload_len)) [
  | yes short ↦ absurd (final (decode_short buf h q short))
  | no fits ↦ omega arith
]

-- Any answer but `too_short`, a frame or an error, is final: no bytes behind the buffer change it.
pub decode_final :
    (buf more : List ℕ) → decode buf ≢ err too_short → decode (buf ++ more) ≡ decode buf
decode_final buf more final = elim (dec_lt (length buf) header_len) [
  | yes short ↦ absurd (final (short_header buf short))
  | no long ↦ elim (Result-cases (parse_header buf)) [
    | inl (h, q) ↦ ground (
      arith,
      header-cases buf h q final,
      decode_whole buf h q,
      decode_whole (buf ++ more) h,
      parse_header-append buf more (omega arith),
      payload-append h.payload_len buf more,
      length-append buf more,
    )
    | inr (e, q) ↦
        decode_refused (buf ++ more) e (parse_header-append buf more (omega arith) ∙ q)
        ∙ sym (decode_refused buf e q)
  ]
]

parse_header_long : (buf : List ℕ) → header_len ≤ length buf → parse_header buf ≢ err too_short
unfolding parse_header parse_fields
parse_header_long buf long e = ground arith

waiting :
    (buf : List ℕ) (h : Header)
    → parse_header buf ≡ ok h
    → decode buf ≡ err too_short
    → length buf ≤ header_len + h.payload_len
waiting buf h q e = elim (dec_lt (length buf) (header_len + h.payload_len)) [
  | yes short ↦ omega arith
  | no fits ↦ ground (arith, decode_whole buf h q)
]

missing : List ℕ → Header → List ℕ
missing buf h = replicate (header_len + h.payload_len - length buf) 0

-- With a whole header in the buffer, `too_short` means what it says: some bytes complete a frame.
pub decode_incomplete :
    (buf : List ℕ)
    → header_len ≤ length buf
    → decode buf ≡ err too_short
    → (more : List ℕ) × (f : Frame) × (decode (buf ++ more) ≡ ok (f, length (buf ++ more)))
unfolding missing
decode_incomplete buf long e = elim (Result-cases (parse_header buf)) [
  | inl (h, q) ↦
      let filled = buf ++ missing buf h in
      let whole : length filled ≡ header_len + h.payload_len = omega (
        arith,
        waiting buf h q e,
        length-append buf (missing buf h),
        length-replicate {A = ℕ} (header_len + h.payload_len - length buf) 0,
      ) in
      (
        missing buf h,
        into_frame h (take h.payload_len (drop header_len filled)),
        rw whole (
            decode_whole filled h (parse_header-append buf (missing buf h) long ∙ q) (omega arith)),
      )
  | inr (x, q) ↦ absurd (ground (arith, decode_refused buf x q, parse_header_long buf long))
]

misfit : (b : ℕ) (bs : List ℕ) → b ≢ 0x4D → has_magic (b ∷ bs) ≡ false
unfolding has_magic
misfit b bs other = ground arith

-- With less than a header `too_short` may be wrong: a buffer that begins with another byte than the magic's first
-- is answered `too_short`, and no bytes behind it make a frame of it.
pub decode_hopeless :
    (b : ℕ) (bs more : List ℕ) (r : Frame × ℕ)
    → b ≢ 0x4D
    → length (b ∷ bs) < header_len
    → (decode (b ∷ bs) ≡ err too_short) × (decode (b ∷ (bs ++ more)) ≢ ok r)
unfolding decode parse_header
decode_hopeless b bs more r other short =
    (short_header (b ∷ bs) short, λ e. ground (arith, misfit b (bs ++ more) other))
