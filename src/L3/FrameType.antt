-- ===== src/L3/FrameType.antt =====
-- `FrameType` of crates/l3/src/types.rs, with its byte code.
use multi.Common.{ℕ, ◌<◌, ◌≡◌, refl, Option, none, some, arith, ◌==◌, if◌then◌else◌}

pub data FrameType : Type 0 where
  handshake handshake_ok handshake_reject : FrameType
  data_frame ack error : FrameType
  heartbeat heartbeat_ack : FrameType
  session_open session_open_ok session_close session_close_ack : FrameType

unfoldable pub to_u8 : FrameType → ℕ
to_u8 handshake = 0x01
to_u8 handshake_ok = 0x02
to_u8 handshake_reject = 0x03
to_u8 data_frame = 0x10
to_u8 ack = 0x11
to_u8 error = 0x12
to_u8 heartbeat = 0x20
to_u8 heartbeat_ack = 0x21
to_u8 session_open = 0x30
to_u8 session_open_ok = 0x31
to_u8 session_close = 0x32
to_u8 session_close_ack = 0x33

unfoldable pub from_u8 : ℕ → Option FrameType
from_u8 v =
    if v == 0x01
    then some handshake
    else if v == 0x02
    then some handshake_ok
    else if v == 0x03
    then some handshake_reject
    else if v == 0x10
    then some data_frame
    else if v == 0x11
    then some ack
    else if v == 0x12
    then some error
    else if v == 0x20
    then some heartbeat
    else if v == 0x21
    then some heartbeat_ack
    else if v == 0x30
    then some session_open
    else if v == 0x31
    then some session_open_ok
    else if v == 0x32
    then some session_close
    else if v == 0x33
    then some session_close_ack
    else none

pub from_u8-to_u8 : (t : FrameType) → from_u8 (to_u8 t) ≡ some t
unfolding from_u8 to_u8
from_u8-to_u8 handshake = refl
from_u8-to_u8 handshake_ok = refl
from_u8-to_u8 handshake_reject = refl
from_u8-to_u8 data_frame = refl
from_u8-to_u8 ack = refl
from_u8-to_u8 error = refl
from_u8-to_u8 heartbeat = refl
from_u8-to_u8 heartbeat_ack = refl
from_u8-to_u8 session_open = refl
from_u8-to_u8 session_open_ok = refl
from_u8-to_u8 session_close = refl
from_u8-to_u8 session_close_ack = refl

pub to_u8-from_u8 : (v : ℕ) {t : FrameType} → from_u8 v ≡ some t → to_u8 t ≡ v
unfolding from_u8 to_u8
to_u8-from_u8 v h = ground arith

pub to_u8-IsByte : (t : FrameType) → to_u8 t < 256
unfolding to_u8
to_u8-IsByte t = ground arith
