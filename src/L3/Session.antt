-- ===== src/L3/Session.antt =====
-- crates/l3/src/session.rs: the session state, and the frames that open and close a session.
pub mod State
pub mod RoundTrip
use multi.Common.{
  ℕ, ◌+◌, ◌%◌, ◌^◌, Bool, true, false, List, [], ◌∷◌, ◌++◌, Option, none, some, length, drop,
  Result, ok, err, ◌>>=◌, ◌>>◌, fail_if, not, ◌==◌, ◌||◌, ltb, if◌then◌else◌,
}
use multi.Common.Bytes.{byte_at, u16_at, u32_at, to_be16, to_be32}
use multi.Common.Utf8.{is_utf8}
use multi.L3.FrameType
use multi.L3.Channel
use multi.L3.Frame.{Frame, final_flag}
use multi.L3.Encode.{EncodeError, payload_too_large}
use multi.L3.Decode.{DecodeError, invalid_payload_length}

unfoldable pub session_open_frame : ℕ → Result EncodeError Frame
session_open_frame session_id = ok (record {
  ty = FrameType.session_open;
  channel = Channel.control;
  flags = final_flag;
  request_id = 0;
  payload = to_be32 session_id ++ (0 ∷ 0 ∷ []);
})

unfoldable pub parse_session_open : List ℕ → Result DecodeError ℕ
parse_session_open payload = do
  fail_if (not (length payload == 6)) invalid_payload_length
  fail_if (not (byte_at payload 4 == 0) || not (byte_at payload 5 == 0)) invalid_payload_length
  ok (u32_at payload 0)

unfoldable pub session_open_ok_frame : ℕ → Result EncodeError Frame
session_open_ok_frame session_id = ok (record {
  ty = FrameType.session_open_ok;
  channel = Channel.control;
  flags = final_flag;
  request_id = 0;
  payload = to_be32 session_id;
})

unfoldable pub parse_session_open_ok : List ℕ → Result DecodeError ℕ
parse_session_open_ok payload = do
  fail_if (not (length payload == 4)) invalid_payload_length
  ok (u32_at payload 0)

-- `message.unwrap_or("")`, as bytes.
abbrev pub message_bytes : Option (List ℕ) → List ℕ
message_bytes none = []
message_bytes (some msg) = msg

abbrev pub u16_max : ℕ
u16_max = 65535

unfoldable pub session_close_frame : ℕ → Option (List ℕ) → Result EncodeError Frame
session_close_frame reason message = do
  let msg_bytes = message_bytes message
  fail_if (ltb u16_max (length msg_bytes)) (payload_too_large (4 + length msg_bytes) u16_max)
  ok (record {
    ty = FrameType.session_close;
    channel = Channel.control;
    flags = final_flag;
    request_id = 0;
    payload = to_be16 reason ++ (to_be16 (length msg_bytes % 2 ^ 16) ++ msg_bytes);
  })

unfoldable pub parse_session_close : List ℕ → Result DecodeError (ℕ × List ℕ)
parse_session_close payload = do
  fail_if (ltb (length payload) 4) invalid_payload_length
  let msg_len = u16_at payload 2
  fail_if (not (length payload == 4 + msg_len)) invalid_payload_length
  fail_if (not (is_utf8 (drop 4 payload))) invalid_payload_length
  ok (u16_at payload 0, drop 4 payload)

unfoldable pub session_close_ack_frame : ℕ → Result EncodeError Frame
session_close_ack_frame request_id = ok (record {
  ty = FrameType.session_close_ack;
  channel = Channel.control;
  flags = final_flag;
  request_id = request_id;
  payload = [];
})
