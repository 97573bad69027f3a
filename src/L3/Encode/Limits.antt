-- ===== src/L3/Encode/Limits.antt =====
-- When a frame encodes, and what an encoder that refuses says.
use multi.Common.{
  ℕ, ◌≤◌, ◌<◌, ◌⊎◌, inl, inr, ◌≡◌, refl, List, Option, none, length, Result, ok, err, arith, Bool,
  true, false,
}
use native.Mathlib.Decide.{dec_lt}
use multi.L3.FrameType
use multi.L3.Channel
use multi.L3.Channel.{IsChannel}
use multi.L3.Frame.{Frame, IsWire}
use multi.L3.Encode.{
  EncodeError, payload_too_large, invalid_channel, effective_cap, wire_bytes, encode_frame_with_cap,
  encode,
}

abbrev accepted : Channel.Channel → Bool
accepted c = Channel.is_some_of (Channel.from_u8 (Channel.to_u8 c)) c

accepted-IsChannel : (c : Channel.Channel) → accepted c ≡ true → IsChannel c
accepted-IsChannel Channel.application h = tt
accepted-IsChannel Channel.log h = tt
accepted-IsChannel Channel.control h = tt
accepted-IsChannel (Channel.experimental v) h =
    unfold Channel.is_some_of Channel.from_u8 Channel.to_u8 in ground arith

IsChannel-accepted : (c : Channel.Channel) → IsChannel c → accepted c ≡ true
unfolding Channel.is_some_of
IsChannel-accepted c h = rw (Channel.from_u8-to_u8 c h) (Channel.same_self c)

pub encode_frame_with_cap-ok :
    (f : Frame) (cap : Option ℕ)
    → length f.payload ≤ effective_cap cap
    → IsChannel f.channel
    → encode_frame_with_cap f cap ≡ ok (wire_bytes f)
unfolding encode_frame_with_cap
encode_frame_with_cap-ok f cap h v =
    ground (arith, FrameType.from_u8-to_u8 f.ty, IsChannel-accepted f.channel v)

-- The three ends of an encoding, each with the condition under which it is reached.
abbrev pub Outcome : Frame → Option ℕ → Result EncodeError (List ℕ) → Type 0
Outcome f cap r =
    ((effective_cap cap < length f.payload)
      × (r ≡ err (payload_too_large (length f.payload) (effective_cap cap))))
    ⊎ ((length f.payload ≤ effective_cap cap)
        × (¬ IsChannel f.channel)
        × (r ≡ err (invalid_channel (Channel.to_u8 f.channel))))
    ⊎ ((length f.payload ≤ effective_cap cap) × IsChannel f.channel × (r ≡ ok (wire_bytes f)))

refused :
    (f : Frame) (cap : Option ℕ)
    → length f.payload ≤ effective_cap cap
    → accepted f.channel ≡ false
    → encode_frame_with_cap f cap ≡ err (invalid_channel (Channel.to_u8 f.channel))
unfolding encode_frame_with_cap
refused f cap h v = ground (arith, FrameType.from_u8-to_u8 f.ty)

too_large :
    (f : Frame) (cap : Option ℕ)
    → effective_cap cap < length f.payload
    → encode_frame_with_cap f cap ≡ err (payload_too_large (length f.payload) (effective_cap cap))
unfolding encode_frame_with_cap
too_large f cap h = ground arith

within :
    (f : Frame) (cap : Option ℕ)
    → length f.payload ≤ effective_cap cap
    → (b : Bool) → accepted f.channel ≡ b
    → Outcome f cap (encode_frame_with_cap f cap)
within f cap h true e =
    let v = accepted-IsChannel f.channel e in inr (inr (h, v, encode_frame_with_cap-ok f cap h v))
within f cap h false e =
    inr (inl (h, (λ v. cc (IsChannel-accepted f.channel v)), refused f cap h e))

-- With any cap an encoding ends in one of three ways: refused as too large, when the payload is
-- longer than the smaller of the cap and the ceiling of the protocol; refused for its channel, when
-- the payload fits and the channel is of neither the standard nor the experimental range; or done,
-- when the payload fits and the channel is valid, with the bytes of the layout.
-- The error for an invalid frame type is never returned.
pub encode_frame_with_cap_outcome :
    (f : Frame) (cap : Option ℕ) → Outcome f cap (encode_frame_with_cap f cap)
encode_frame_with_cap_outcome f cap = elim (dec_lt (effective_cap cap) (length f.payload)) [
  | yes over ↦ inl (over, too_large f cap over)
  | no fits ↦ within f cap (omega arith) (accepted f.channel) refl
]

pub encode-wire_bytes : (f : Frame) → IsWire f → encode f ≡ ok (wire_bytes f)
unfolding encode effective_cap
encode-wire_bytes f w = encode_frame_with_cap-ok f none w.payload_fits w.channel_valid

pub encode-IsWire : (f : Frame) (bs : List ℕ) → encode f ≡ ok bs → IsWire f × (bs ≡ wire_bytes f)
unfolding encode effective_cap
encode-IsWire f bs h = elim (encode_frame_with_cap_outcome f none) [
  | inl (a, b) ↦ cc
  | inr (inl (a, b, c)) ↦ cc
  | inr (inr (a, b, c)) ↦ (record { channel_valid = b; payload_fits = a }, ground arith)
]
