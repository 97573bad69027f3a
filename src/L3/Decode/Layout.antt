-- ===== src/L3/Decode/Layout.antt =====
-- What a decoder reads in the bytes that an encoder wrote, and how far it looks.
use multi.Common.{
  ℕ, ◌+◌, ◌%◌, ◌^◌, ◌≤◌, ◌<◌, ◌≡◌, refl, List, [], ◌∷◌, ◌++◌, length, slice, ok, arith,
  take-length_append, get_or-append, length-append,
}
use multi.Common.Bytes.{byte_at, from_be16-to, from_be32-to}
use multi.L3.Consts.{header_len}
use multi.L3.FrameType
use multi.L3.Channel
use multi.L3.Frame.{Frame, IsTyped, IsWire, wire_len}
use multi.L3.Encode.{wire_bytes}
use multi.L3.Decode.{Header, has_magic, parse_fields, parse_header, decode}

abbrev pub header_of : Frame → Header
header_of f = record {
  ty = f.ty;
  channel = f.channel;
  flags = f.flags;
  request_id = f.request_id;
  payload_len = length f.payload;
}

pub parse_header-wire_bytes :
    (f : Frame) (rest : List ℕ)
    → IsTyped f
    → IsWire f
    → parse_header (wire_bytes f ++ rest) ≡ ok (header_of f)
unfolding parse_header parse_fields has_magic wire_bytes
parse_header-wire_bytes f rest t w = ground (
  arith,
  FrameType.from_u8-to_u8 f.ty,
  Channel.from_u8-to_u8 f.channel w.channel_valid,
  from_be16-to f.flags t.flags_u16,
  from_be32-to f.request_id t.request_id_u32,
  from_be32-to (length f.payload % 2 ^ 32),
)

pub length-wire_bytes : (f : Frame) → length (wire_bytes f) ≡ wire_len f
unfolding wire_bytes wire_len
length-wire_bytes f = omega arith

pub payload_slice :
    (f : Frame) (rest : List ℕ)
    → slice (wire_bytes f ++ rest) header_len (header_len + length f.payload) ≡ f.payload
unfolding wire_bytes
payload_slice f rest = take-length_append _ f.payload rest (omega arith)

-- A byte string that begins with a whole frame decodes to it.
pub decode-wire_bytes :
    (f : Frame) (rest : List ℕ)
    → IsTyped f
    → IsWire f
    → decode (wire_bytes f ++ rest) ≡ ok (f, wire_len f)
unfolding decode wire_len
decode-wire_bytes f rest t w = ground (
  arith,
  parse_header-wire_bytes f rest t w,
  payload_slice f rest,
  length-wire_bytes f,
  length-append (wire_bytes f) rest,
)

has_magic-append : (buf more : List ℕ) → 4 ≤ length buf → has_magic (buf ++ more) ≡ has_magic buf
unfolding has_magic
has_magic-append [] more h = absurd (omega arith)
has_magic-append (a ∷ []) more h = absurd (omega arith)
has_magic-append (a ∷ b ∷ []) more h = absurd (omega arith)
has_magic-append (a ∷ b ∷ c ∷ []) more h = absurd (omega arith)
has_magic-append (a ∷ b ∷ c ∷ d ∷ r) more h = refl

-- The fields stand in the first sixteen bytes.
parse_fields-append :
    (buf more : List ℕ) → 16 ≤ length buf → parse_fields (buf ++ more) ≡ parse_fields buf
unfolding parse_fields
parse_fields-append buf more h = rw (
  at 4 (omega arith),
  at 5 (omega arith),
  at 6 (omega arith),
  at 7 (omega arith),
  at 8 (omega arith),
  at 9 (omega arith),
  at 10 (omega arith),
  at 11 (omega arith),
  at 12 (omega arith),
  at 13 (omega arith),
  at 14 (omega arith),
  at 15 (omega arith),
)
  where
    at : (i : ℕ) → i < length buf → byte_at (buf ++ more) i ≡ byte_at buf i
    at i p = get_or-append buf more i 0 p

pub parse_header-append :
    (buf more : List ℕ) → header_len ≤ length buf → parse_header (buf ++ more) ≡ parse_header buf
unfolding parse_header
parse_header-append buf more h =
    ground
      (arith, has_magic-append buf more, parse_fields-append buf more h, length-append buf more)
