-- ===== src/L3/Session/RoundTrip.antt =====
-- The session frames over the wire.
use multi.Common.{
  ℕ, ◌≤◌, ◌≡◌, refl, true, List, ◌++◌, Option, length, ok, arith, All, All-append, ◌%◌, ◌^◌,
}
use multi.Common.Bytes.{IsByte, IsU16, IsU32, to_be16, from_be16-to, from_be32-to}
use multi.Common.Utf8.{is_utf8}
use multi.L3.FrameType
use multi.L3.Channel
use multi.L3.Frame.{Frame, final_flag}
use multi.L3.Carried.{Carried, carried}
use multi.L3.Session.{
  session_open_frame, parse_session_open, session_open_ok_frame, parse_session_open_ok,
  message_bytes, u16_max, session_close_frame, parse_session_close,
}

-- `SESSION_OPEN` and `SESSION_OPEN_OK` carry any u32 session id to the other side.
pub session_open-Carried :
    (id : ℕ) (rest : List ℕ)
    → IsU32 id
    → (f g : Frame) × (session_open_frame id ≡ ok f)
      × Carried f rest
      × (parse_session_open f.payload ≡ ok id)
      × (session_open_ok_frame id ≡ ok g)
      × Carried g rest
      × (parse_session_open_ok g.payload ≡ ok id)
unfolding session_open_frame parse_session_open session_open_ok_frame parse_session_open_ok
session_open-Carried id rest h = (
  _,
  _,
  refl,
  carried _ rest (omega arith) (record { channel_valid = tt; payload_fits = omega arith }),
  ground (arith, from_be32-to id h),
  refl,
  carried _ rest (omega arith) (record { channel_valid = tt; payload_fits = omega arith }),
  ground (arith, from_be32-to id h),
)

-- A `SESSION_CLOSE` with any u16 reason and a message of at most 65535 bytes (none is the empty one)
-- reaches the other side with both.
pub session_close-Carried :
    (reason : ℕ) (message : Option (List ℕ)) (rest : List ℕ)
    → IsU16 reason
    → All IsByte (message_bytes message)
    → is_utf8 (message_bytes message) ≡ true
    → length (message_bytes message) ≤ u16_max
    → (f : Frame) × (session_close_frame reason message ≡ ok f)
      × Carried f rest
      × (parse_session_close f.payload ≡ ok (reason, message_bytes message))
unfolding session_close_frame parse_session_close
session_close-Carried reason message rest hr hb hu hl = (
  close_frame,
  ground arith,
  carried close_frame rest
      (record {
        flags_u16 = omega arith;
        request_id_u32 = omega arith;
        payload_u8 =
            All-append IsByte (to_be16 reason)
              (to_be16 (length (message_bytes message) % 2 ^ 16) ++ message_bytes message)
              (omega arith) (omega arith, (omega arith, hb));
      })
      (record { channel_valid = tt; payload_fits = omega arith }),
  ground (arith, from_be16-to reason hr, from_be16-to (length (message_bytes message) % 2 ^ 16)),
)
  where
    close_frame : Frame
    close_frame = record {
      ty = FrameType.session_close;
      channel = Channel.control;
      flags = final_flag;
      request_id = 0;
      payload =
          to_be16 reason
          ++ (to_be16 (length (message_bytes message) % 2 ^ 16) ++ message_bytes message);
    }
