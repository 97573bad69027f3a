-- ===== src/L3/Handshake.antt =====
-- The `HANDSHAKE` and `HANDSHAKE_OK` frames of crates/l3/src/lib.rs. The builders return `Ok` always.
pub mod RoundTrip
use multi.Common.{ℕ, List, [], ◌∷◌, ◌++◌, length, Result, ok, err, ◌>>=◌, ◌>>◌, fail_if, not, ◌==◌}
use multi.Common.Bytes.{byte_at, u32_at, to_be32}
use multi.L3.Consts.{proto_major, proto_minor}
use multi.L3.FrameType
use multi.L3.Channel
use multi.L3.Frame.{Frame}
use multi.L3.Encode.{EncodeError}
use multi.L3.Decode.{DecodeError, invalid_payload_length}

unfoldable pub handshake_client_frame : ℕ → ℕ → Result EncodeError Frame
handshake_client_frame max_payload features = ok (record {
  ty = FrameType.handshake;
  channel = Channel.control;
  flags = 0;
  request_id = 0;
  payload = proto_major ∷ proto_minor ∷ 0 ∷ 0 ∷ (to_be32 max_payload ++ to_be32 features);
})

unfoldable pub parse_handshake_client : List ℕ → Result DecodeError (ℕ × ℕ × ℕ × ℕ)
parse_handshake_client payload = do
  fail_if (not (length payload == 12)) invalid_payload_length
  ok (byte_at payload 0, byte_at payload 1, u32_at payload 4, u32_at payload 8)

unfoldable pub handshake_ok_frame : ℕ → ℕ → ℕ → Result EncodeError Frame
handshake_ok_frame major minor effective_max_payload = ok (record {
  ty = FrameType.handshake_ok;
  channel = Channel.control;
  flags = 0;
  request_id = 0;
  payload = major ∷ minor ∷ 0 ∷ 0 ∷ to_be32 effective_max_payload;
})

unfoldable pub parse_handshake_ok : List ℕ → Result DecodeError (ℕ × ℕ × ℕ)
parse_handshake_ok payload = do
  fail_if (not (length payload == 8)) invalid_payload_length
  ok (byte_at payload 0, byte_at payload 1, u32_at payload 4)
