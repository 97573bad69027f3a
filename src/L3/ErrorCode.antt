-- ===== src/L3/ErrorCode.antt =====
-- `ErrorCode` of crates/l3/src/types.rs.
use multi.Common.{ℕ, ◌≡◌, sym, Option, none, some, arith, ◌==◌, if◌then◌else◌, ◌↔◌}

pub data ErrorCode : Type 0 where
  unspecified version_unsupported frame_too_large malformed_frame : ErrorCode
  unknown_frame_type buffer_full transport_timeout session_reset : ErrorCode
  feature_unsupported session_layer_required session_not_open : ErrorCode

unfoldable pub to_u16 : ErrorCode → ℕ
to_u16 unspecified = 0x0000
to_u16 version_unsupported = 0x0001
to_u16 frame_too_large = 0x0002
to_u16 malformed_frame = 0x0003
to_u16 unknown_frame_type = 0x0004
to_u16 buffer_full = 0x0005
to_u16 transport_timeout = 0x0006
to_u16 session_reset = 0x0007
to_u16 feature_unsupported = 0x0008
to_u16 session_layer_required = 0x0009
to_u16 session_not_open = 0x000A

unfoldable pub from_u16 : ℕ → Option ErrorCode
from_u16 v =
    if v == 0x0000
    then some unspecified
    else if v == 0x0001
    then some version_unsupported
    else if v == 0x0002
    then some frame_too_large
    else if v == 0x0003
    then some malformed_frame
    else if v == 0x0004
    then some unknown_frame_type
    else if v == 0x0005
    then some buffer_full
    else if v == 0x0006
    then some transport_timeout
    else if v == 0x0007
    then some session_reset
    else if v == 0x0008
    then some feature_unsupported
    else if v == 0x0009
    then some session_layer_required
    else if v == 0x000A
    then some session_not_open
    else none

from_u16-to_u16 : (e : ErrorCode) → from_u16 (to_u16 e) ≡ some e
unfolding from_u16 to_u16
from_u16-to_u16 e = ground arith

to_u16-from_u16 : (v : ℕ) (e : ErrorCode) → from_u16 v ≡ some e → to_u16 e ≡ v
unfolding from_u16 to_u16
to_u16-from_u16 v e h = ground arith

-- Exactly the number of an error code decodes to it.
pub from_u16_iff : (v : ℕ) (e : ErrorCode) → (from_u16 v ≡ some e) ↔ (v ≡ to_u16 e)
from_u16_iff v e = (λ h. sym (to_u16-from_u16 v e h), λ h. rw h (from_u16-to_u16 e))
