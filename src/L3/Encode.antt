-- ===== src/L3/Encode.antt =====
-- crates/l3/src/encode.rs.
pub mod Limits
use Prim.Native.Nat.{min}
use multi.Common.{
  ℕ, ◌+◌, ◌%◌, ◌^◌, ◌≡◌, List, [], ◌∷◌, ◌++◌, Option, none, some, length, Result, ok, err, ◌>>=◌,
  ◌>>◌, fail_if, ltb, not,
}
use multi.Common.Bytes.{to_be16, to_be32}
use multi.L3.Consts.{magic, max_payload_ceiling}
use multi.L3.FrameType
use multi.L3.Channel
use multi.L3.Frame.{Frame}
use mathlib.Core.Option.{IsSome}
use mathlib.Core.Bool.{Bool, true, false}

pub data EncodeError : Type 0 where
  payload_too_large : ℕ → ℕ → EncodeError
  invalid_channel : ℕ → EncodeError
  invalid_frame_type : ℕ → EncodeError

-- `max_payload.map_or(CEILING, |m| m.min(CEILING))`
unfoldable pub effective_cap : Option ℕ → ℕ
effective_cap none = max_payload_ceiling
effective_cap (some m) = min m max_payload_ceiling

abbrev pub is_none {ℓ} : {A : Type ℓ} → Option A → Bool
is_none none = true
is_none (some a) = false

-- The bytes that `out` receives, in order.
unfoldable pub wire_bytes : Frame → List ℕ
wire_bytes f =
    magic
    ++ (FrameType.to_u8 f.ty
        ∷ Channel.to_u8 f.channel
        ∷ (to_be16 f.flags
            ++ (to_be32 f.request_id ++ (to_be32 (length f.payload % 2 ^ 32) ++ f.payload))))

unfoldable pub encode_frame_with_cap : Frame → Option ℕ → Result EncodeError (List ℕ)
unfolding effective_cap wire_bytes
encode_frame_with_cap f max_payload = do
  let plen = length f.payload
  let max = effective_cap max_payload
  fail_if (ltb max plen) (payload_too_large plen max)
  let ty = FrameType.to_u8 f.ty
  fail_if (is_none (FrameType.from_u8 ty)) (invalid_frame_type ty)
  let ch = Channel.to_u8 f.channel
  fail_if (not (Channel.is_some_of (Channel.from_u8 ch) f.channel)) (invalid_channel ch)
  ok (wire_bytes f)

-- `Frame::encode`
unfoldable pub encode : Frame → Result EncodeError (List ℕ)
unfolding encode_frame_with_cap
encode f = encode_frame_with_cap f none
