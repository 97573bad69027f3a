-- ===== src/L3/Channel.antt =====
-- `Channel` of crates/l3/src/types.rs, with its byte code.
use multi.Common.{
  ℕ, ◌≤◌, ◌<◌, ◌≡◌, refl, Option, none, some, arith, ◌==◌, if◌then◌else◌, leb, ◌&&◌, Bool, true,
  false,
}

pub data Channel : Type 0 where
  application log control : Channel
  experimental : ℕ → Channel

unfoldable pub to_u8 : Channel → ℕ
to_u8 application = 0x00
to_u8 log = 0x01
to_u8 control = 0x02
to_u8 (experimental v) = v

unfoldable pub from_u8 : ℕ → Option Channel
from_u8 v =
    if v == 0x00
    then some application
    else if v == 0x01
    then some log
    else if v == 0x02
    then some control
    else if leb 0x80 v && leb v 0xFF
    then some (experimental v)
    else none

-- The derived `PartialEq`.
unfoldable pub same : Channel → Channel → Bool
same application application = true
same log log = true
same control control = true
same (experimental v) (experimental w) = v == w
same _ _ = false

-- `Channel::from_u8(ch) == Some(channel)`
unfoldable pub is_some_of : Option Channel → Channel → Bool
unfolding same
is_some_of none c = false
is_some_of (some d) c = same d c

pub same→eq : (c d : Channel) → same c d ≡ true → c ≡ d
unfolding same
same→eq c d h = ground arith

pub same_self : (c : Channel) → same c c ≡ true
unfolding same
same_self c = ground arith

-- The channels that have a place on the wire.
abbrev pub IsChannel : Channel → Type 0
IsChannel application = Unit
IsChannel log = Unit
IsChannel control = Unit
IsChannel (experimental v) = (0x80 ≤ v) × (v ≤ 0xFF)

pub from_u8-to_u8 : (c : Channel) → IsChannel c → from_u8 (to_u8 c) ≡ some c
unfolding from_u8 to_u8
from_u8-to_u8 application h = refl
from_u8-to_u8 log h = refl
from_u8-to_u8 control h = refl
from_u8-to_u8 (experimental v) h = ground arith

pub to_u8-from_u8 : (v : ℕ) {c : Channel} → from_u8 v ≡ some c → to_u8 c ≡ v
unfolding from_u8 to_u8
to_u8-from_u8 v h = ground arith

pub from_u8-IsChannel : (v : ℕ) (c : Channel) → from_u8 v ≡ some c → IsChannel c
unfolding from_u8
from_u8-IsChannel v application h = tt
from_u8-IsChannel v log h = tt
from_u8-IsChannel v control h = tt
from_u8-IsChannel v (experimental w) h = ground arith

pub to_u8-IsByte : (c : Channel) → IsChannel c → to_u8 c < 256
unfolding to_u8
to_u8-IsByte application h = omega arith
to_u8-IsByte log h = omega arith
to_u8-IsByte control h = omega arith
to_u8-IsByte (experimental v) h = omega arith
