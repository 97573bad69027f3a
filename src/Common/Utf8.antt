-- ===== src/Common/Utf8.antt =====
-- `std::str::from_utf8`: whether bytes are UTF-8 (RFC 3629, table 3-7 of the Unicode standard).
-- A `&str` or `String` is the list of its bytes, with `is_utf8` true of it.
use multi.Common.{
  ℕ, ◌-◌, Bool, false, List, [], ◌∷◌, Option, none, some, if◌then◌else◌, ltb, leb, ◌==◌, ◌&&◌,
}

-- How many continuation bytes are due, and the range of the next.
pub record Pending : Type 0 where
  pub due : ℕ
  pub lo : ℕ
  pub hi : ℕ

abbrev boundary : Pending
boundary = record { due = 0; lo = 0x80; hi = 0xBF }

abbrev within : ℕ → ℕ → ℕ → Bool
within lo hi b = leb lo b && leb b hi

lead_byte : ℕ → Option Pending
lead_byte b =
    if ltb b 0x80
    then some boundary
    else if within 0xC2 0xDF b
    then some (record { due = 1; lo = 0x80; hi = 0xBF })
    else if b == 0xE0
    then some (record { due = 2; lo = 0xA0; hi = 0xBF })
    else if b == 0xED
    then some (record { due = 2; lo = 0x80; hi = 0x9F })
    else if within 0xE1 0xEF b
    then some (record { due = 2; lo = 0x80; hi = 0xBF })
    else if b == 0xF0
    then some (record { due = 3; lo = 0x90; hi = 0xBF })
    else if within 0xF1 0xF3 b
    then some (record { due = 3; lo = 0x80; hi = 0xBF })
    else if b == 0xF4
    then some (record { due = 3; lo = 0x80; hi = 0x8F })
    else none

next_byte : Pending → ℕ → Option Pending
unfolding lead_byte
next_byte p b =
    if p.due == 0
    then lead_byte b
    else if within p.lo p.hi b
    then some (record boundary { due = p.due - 1 })
    else none

scan : Option Pending → List ℕ → Bool
unfolding next_byte
scan none bs = false
scan (some p) [] = p.due == 0
scan (some p) (b ∷ bs) = scan (next_byte p b) bs

unfoldable pub is_utf8 : List ℕ → Bool
unfolding scan
is_utf8 bs = scan (some boundary) bs
