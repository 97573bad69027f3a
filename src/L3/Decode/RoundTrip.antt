-- ===== src/L3/Decode/RoundTrip.antt =====
-- Decoding and encoding are inverse to one another.
use multi.Common.{
  ℕ, ◌+◌, ◌≤◌, ◌≡◌, sym, ap, subst, ◌∙◌, List, [], ◌∷◌, ◌++◌, length, take, drop, ok, arith, All,
  All-take, All-drop, take-add, slice-take, take-reads, take-append-drop, length-take, length-drop,
  true, inl, inr, Result-cases,
}
use multi.Common.Bytes.{
  IsByte, byte_at, u16_at, u32_at, to_be16, to_be32, to_be16-from, to_be32-from, from_be16-IsU16,
  from_be32-IsU32, byte_at-IsByte,
}
use multi.L3.Consts.{magic, header_len, max_payload_ceiling}
use multi.L3.FrameType
use multi.L3.Channel
use multi.L3.Channel.{IsChannel}
use multi.L3.Frame.{Frame, IsTyped, IsWire, wire_len}
use multi.L3.Encode.{wire_bytes, encode}
use multi.L3.Encode.Limits.{encode-IsWire, encode-wire_bytes}
use multi.L3.Decode.{Header, into_frame, has_magic, parse_fields, parse_header, decode}
use multi.L3.Decode.Layout.{decode-wire_bytes, length-wire_bytes}

-- Every frame that encodes, with field values that Rust's types allow, decodes from its bytes
-- again, whatever bytes follow: the result is the frame and the number of bytes that it took.
pub decode-encode :
    (f : Frame) (bs rest : List ℕ)
    → IsTyped f
    → encode f ≡ ok bs
    → decode (bs ++ rest) ≡ ok (f, length bs)
decode-encode f bs rest t e =
    let (w, q) = encode-IsWire f bs e in rw (q, length-wire_bytes f) (decode-wire_bytes f rest t w)

-- What a header that parses says of the buffer.
abbrev pub IsHeaderOf : List ℕ → Header → Type 0
IsHeaderOf buf h =
    (header_len ≤ length buf)
    × (has_magic buf ≡ true)
    × (FrameType.to_u8 h.ty ≡ byte_at buf 4)
    × (Channel.to_u8 h.channel ≡ byte_at buf 5)
    × IsChannel h.channel
    × (h.flags ≡ u16_at buf 6)
    × (h.request_id ≡ u32_at buf 8)
    × (h.payload_len ≡ u32_at buf 12)
    × (h.payload_len ≤ max_payload_ceiling)

pub parse_header-IsHeaderOf :
    (buf : List ℕ) (h : Header) → parse_header buf ≡ ok h → IsHeaderOf buf h
unfolding parse_header parse_fields
parse_header-IsHeaderOf buf h e = ground (
  arith,
  FrameType.to_u8-from_u8 (byte_at buf 4) {t = h.ty},
  Channel.to_u8-from_u8 (byte_at buf 5) {c = h.channel},
  Channel.from_u8-IsChannel (byte_at buf 5) h.channel,
)

has_magic-bytes : (buf : List ℕ) → has_magic buf ≡ true → take 4 buf ≡ magic
unfolding has_magic
has_magic-bytes [] h = cc
has_magic-bytes (a ∷ []) h = cc
has_magic-bytes (a ∷ b ∷ []) h = cc
has_magic-bytes (a ∷ b ∷ c ∷ []) h = cc
has_magic-bytes (a ∷ b ∷ c ∷ d ∷ r) h = ground arith

header_bytes :
    (buf : List ℕ) (h : Header)
    → All IsByte buf
    → IsHeaderOf buf h
    → take header_len buf
      ≡ magic
        ++ (FrameType.to_u8 h.ty
            ∷ Channel.to_u8 h.channel
            ∷ (to_be16 h.flags ++ (to_be32 h.request_id ++ to_be32 h.payload_len)))
header_bytes buf h b p = ground (
  arith,
  p,
  take-reads 16 buf 0 p.0,
  take-reads 4 buf 0,
  has_magic-bytes buf p.1,
  to_be16-from (byte_at buf 6) (byte_at buf 7) (is_byte 6) (is_byte 7),
  to_be32-from (byte_at buf 8) (byte_at buf 9) (byte_at buf 10) (byte_at buf 11) (is_byte 8)
      (is_byte 9) (is_byte 10) (is_byte 11),
  to_be32-from (byte_at buf 12) (byte_at buf 13) (byte_at buf 14) (byte_at buf 15) (is_byte 12)
      (is_byte 13) (is_byte 14) (is_byte 15),
)
  where
    is_byte : (i : ℕ) → IsByte (byte_at buf i)
    is_byte i = byte_at-IsByte buf i b

-- `Header::into_frame` on the bytes behind a header.
abbrev pub framed : List ℕ → Header → Frame
framed buf h = into_frame h (take h.payload_len (drop header_len buf))

framed-length :
    (buf : List ℕ) (h : Header)
    → header_len + h.payload_len ≤ length buf
    → length (framed buf h).payload ≡ h.payload_len
framed-length buf h fits =
    omega (arith, length-take h.payload_len (drop 16 buf), length-drop 16 buf)

framed-IsTyped :
    (buf : List ℕ) (h : Header) → All IsByte buf → IsHeaderOf buf h → IsTyped (framed buf h)
framed-IsTyped buf h b p = record {
  flags_u16 = rw p.5 (from_be16-IsU16 _ _ (is_byte 6) (is_byte 7));
  request_id_u32 =
      rw p.6 (from_be32-IsU32 _ _ _ _ (is_byte 8) (is_byte 9) (is_byte 10) (is_byte 11));
  payload_u8 = All-take IsByte _ _ (All-drop IsByte 16 buf b);
}
  where
    is_byte : (i : ℕ) → IsByte (byte_at buf i)
    is_byte i = byte_at-IsByte buf i b

framed-wire_bytes :
    (buf : List ℕ) (h : Header)
    → All IsByte buf
    → IsHeaderOf buf h
    → header_len + h.payload_len ≤ length buf
    → wire_bytes (framed buf h) ≡ take (header_len + h.payload_len) buf
unfolding wire_bytes
framed-wire_bytes buf h b p fits = ground (
  arith,
  p,
  framed-length buf h fits,
  header_bytes buf h b p,
  take-add header_len h.payload_len buf,
)

-- What a frame that was read from a buffer is.
abbrev pub ReadFrom : List ℕ → Frame → Type 0
ReadFrom buf f =
    IsTyped f × IsWire f × (wire_len f ≤ length buf) × (wire_bytes f ≡ take (wire_len f) buf)

pub framed-ReadFrom :
    (buf : List ℕ) (h : Header)
    → All IsByte buf
    → parse_header buf ≡ ok h
    → header_len + h.payload_len ≤ length buf
    → ReadFrom buf (framed buf h)
unfolding wire_len
framed-ReadFrom buf h b e fits =
    let p = parse_header-IsHeaderOf buf h e in
    let len = framed-length buf h fits in
    (
      framed-IsTyped buf h b p,
      record { channel_valid = p.4; payload_fits = omega (arith, len, p.8) },
      omega (arith, len),
      rw len (framed-wire_bytes buf h b p fits),
    )

pub framed_split :
    (buf : List ℕ) (h : Header)
    → All IsByte buf
    → parse_header buf ≡ ok h
    → header_len + h.payload_len ≤ length buf
    → buf ≡ wire_bytes (framed buf h) ++ drop (header_len + h.payload_len) buf
framed_split buf h b e fits =
    rw (framed-wire_bytes buf h b (parse_header-IsHeaderOf buf h e) fits)
      (sym (take-append-drop (header_len + h.payload_len) buf))

decode_parts :
    (buf : List ℕ) (f : Frame) (n : ℕ)
    → decode buf ≡ ok (f, n)
    → (h : Header) × (parse_header buf ≡ ok h)
      × (header_len + h.payload_len ≤ length buf)
      × (f ≡ framed buf h)
      × (n ≡ header_len + h.payload_len)
unfolding decode
decode_parts buf f n e = elim (Result-cases (parse_header buf)) [
  | inl (h, q) ↦
      let cut = slice-take buf header_len h.payload_len in
      (h, q, ground arith, ground arith, ground arith)
  | inr (x, q) ↦ ground arith
]

-- What decodes encodes again to the bytes that it was decoded from. The frame is typed and within
-- the limits of the wire, and the number of bytes used is its wire length and lies in the buffer.
pub encode-decode :
    (buf : List ℕ) (f : Frame) (n : ℕ)
    → All IsByte buf
    → decode buf ≡ ok (f, n)
    → (encode f ≡ ok (take n buf)) × IsTyped f × IsWire f × (n ≡ wire_len f) × (n ≤ length buf)
unfolding wire_len
encode-decode buf f n b e =
    let (h, q, fits, same, used) = decode_parts buf f n e in
    let r = framed-ReadFrom buf h b q fits in
    let w = subst (ReadFrom buf) (sym same) r in
    let len = ap (λ (g : Frame). length g.payload) same ∙ framed-length buf h fits in
    let taken : n ≡ header_len + length f.payload = omega arith in
    (
      encode-wire_bytes f w.1 ∙ ap ok (w.3 ∙ ap (λ k. take k buf) (sym taken)),
      w.0,
      w.1,
      taken,
      omega arith,
    )
