-- ===== src/L3/Handshake/RoundTrip.antt =====
-- The handshake frames over the wire.
use multi.Common.{ℕ, ◌≡◌, refl, List, ok, arith}
use multi.Common.Bytes.{IsByte, IsU32, from_be32-to}
use multi.L3.Consts.{proto_major, proto_minor}
use multi.L3.Frame.{Frame}
use multi.L3.Carried.{Carried, carried}
use multi.L3.Handshake.{
  handshake_client_frame, parse_handshake_client, handshake_ok_frame, parse_handshake_ok,
}

-- A `HANDSHAKE` with any u32 limits reaches the other side: the frame is built, goes over the wire
-- with any bytes behind it, and its payload parses to the version of the protocol and the two limits.
pub handshake_client-Carried :
    (max_payload features : ℕ) (rest : List ℕ)
    → IsU32 max_payload
    → IsU32 features
    → (f : Frame) × (handshake_client_frame max_payload features ≡ ok f)
      × Carried f rest
      × (parse_handshake_client f.payload ≡ ok (proto_major, proto_minor, max_payload, features))
unfolding handshake_client_frame parse_handshake_client
handshake_client-Carried m ft rest hm hf = (
  _,
  refl,
  carried _ rest
      (record { flags_u16 = omega arith; request_id_u32 = omega arith; payload_u8 = omega arith })
      (record { channel_valid = tt; payload_fits = omega arith }),
  ground (arith, from_be32-to m hm, from_be32-to ft hf),
)

-- A `HANDSHAKE_OK` with any version and any u32 limit reaches the other side: the frame is built, goes
-- over the wire with any bytes behind it, and its payload parses to the version and the limit.
pub handshake_ok-Carried :
    (major minor max_payload : ℕ) (rest : List ℕ)
    → IsByte major
    → IsByte minor
    → IsU32 max_payload
    → (f : Frame) × (handshake_ok_frame major minor max_payload ≡ ok f)
      × Carried f rest
      × (parse_handshake_ok f.payload ≡ ok (major, minor, max_payload))
unfolding handshake_ok_frame parse_handshake_ok
handshake_ok-Carried major minor m rest h1 h2 hm = (
  _,
  refl,
  carried _ rest
      (record { flags_u16 = omega arith; request_id_u32 = omega arith; payload_u8 = omega arith })
      (record { channel_valid = tt; payload_fits = omega arith }),
  ground (arith, from_be32-to m hm),
)
