-- ===== src/L3/Frame.antt =====
-- `Frame` and `FrameFlags` of crates/l3/src/types.rs, and `wire_len` of lib.rs.
use Prim.Native.Nat.{bit_and}
use multi.Common.{ℕ, ◌+◌, ◌≤◌, Bool, List, length, ◌==◌, All}
use multi.Common.Bytes.{IsByte, IsU16, IsU32}
use multi.L3.Consts.{header_len, max_payload_ceiling}
use multi.L3.FrameType.{FrameType}
use multi.L3.Channel.{Channel, IsChannel}

-- `flags` is the u16 inside `FrameFlags`.
pub record Frame : Type 0 where
  pub ty : FrameType
  pub channel : Channel
  pub flags : ℕ
  pub request_id : ℕ
  pub payload : List ℕ

abbrev pub final_flag : ℕ
final_flag = 0x0001

pub contains : ℕ → ℕ → Bool
contains flags other = bit_and flags other == other

unfoldable pub wire_len : Frame → ℕ
wire_len f = header_len + length f.payload

-- The field ranges that Rust's types give every `Frame`.
pub record IsTyped (f : Frame) : Type 0 where
  pub flags_u16 : IsU16 f.flags
  pub request_id_u32 : IsU32 f.request_id
  pub payload_u8 : All IsByte f.payload

-- A frame that has a place on the wire: a channel of the standard or the experimental range, and a
-- payload within the ceiling of the protocol.
pub record IsWire (f : Frame) : Type 0 where
  pub channel_valid : IsChannel f.channel
  pub payload_fits : length f.payload ≤ max_payload_ceiling
