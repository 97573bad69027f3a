-- ===== src/L3/Decode.antt =====
-- crates/l3/src/decode.rs, without the streaming decoder.
pub mod Layout
pub mod RoundTrip
pub mod Permanence
use multi.Common.{
  ℕ, ◌+◌, List, [], ◌∷◌, length, take, slice, Result, ok, err, ◌>>=◌, ◌>>◌, fail_if, ok_or, ltb,
  not, Bool, true, false, ◌==◌, ◌&&◌,
}
use multi.Common.Bytes.{byte_at, u16_at, u32_at}
use multi.Common.Find.{starts_with}
use multi.L3.Consts.{header_len, max_payload_ceiling}
use multi.L3.FrameType
use multi.L3.FrameType.{FrameType}
use multi.L3.Channel
use multi.L3.Channel.{Channel}
use multi.L3.Frame.{Frame}

pub data DecodeError : Type 0 where
  too_short bad_magic invalid_payload_length : DecodeError
  unknown_frame_type invalid_channel payload_too_large : ℕ → DecodeError

pub record Header : Type 0 where
  pub ty : FrameType
  pub channel : Channel
  pub flags : ℕ
  pub request_id : ℕ
  pub payload_len : ℕ

abbrev pub into_frame : Header → List ℕ → Frame
into_frame h payload = record {
  ty = h.ty;
  channel = h.channel;
  flags = h.flags;
  request_id = h.request_id;
  payload = payload;
}

-- `buf[0..4] == MAGIC`
unfoldable pub has_magic : List ℕ → Bool
unfolding starts_with
has_magic buf = starts_with 0x4D 0x36 0x34 0x42 buf

-- The fields behind a magic that matched.
unfoldable pub parse_fields : List ℕ → Result DecodeError Header
parse_fields buf = do
  ty ← ok_or (FrameType.from_u8 (byte_at buf 4)) (unknown_frame_type (byte_at buf 4))
  channel ← ok_or (Channel.from_u8 (byte_at buf 5)) (invalid_channel (byte_at buf 5))
  let payload_len = u32_at buf 12
  fail_if (ltb max_payload_ceiling payload_len) (payload_too_large payload_len)
  ok (record {
    ty = ty;
    channel = channel;
    flags = u16_at buf 6;
    request_id = u32_at buf 8;
    payload_len = payload_len;
  })

unfoldable pub parse_header : List ℕ → Result DecodeError Header
parse_header buf = do
  fail_if (ltb (length buf) header_len) too_short
  fail_if (not (has_magic buf)) bad_magic
  parse_fields buf

-- `decode_frame` and `Frame::decode`: the frame, and the number of bytes that it took.
unfoldable pub decode : List ℕ → Result DecodeError (Frame × ℕ)
decode buf = do
  header ← parse_header buf
  let total = header_len + header.payload_len
  fail_if (ltb (length buf) total) too_short
  ok (into_frame header (slice buf header_len total), total)
