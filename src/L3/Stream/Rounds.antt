-- ===== src/L3/Stream/Rounds.antt =====
-- One round of the streaming decoder: how it shrinks the buffer.
use multi.Common.{
  ℕ, zero, suc, ◌+◌, ◌-◌, ◌≤◌, ◌<◌, ◌≡◌, refl, List, Option, none, some, length, drop, slice-take,
  Result, ok, err, arith, length-drop, min,
}
use multi.L3.Consts.{header_len}
use multi.L3.Decode.{Header, DecodeError, parse_header}
use multi.L3.Stream.{
  Round, stop, again, emit, find_magic, after_header, at_magic, without_magic, from_magic, round,
}
use multi.L3.Decode.RoundTrip.{framed}

-- A round that goes on has dropped a byte at least.
abbrev pub Shrinks : List ℕ → Round → Type 0
Shrinks buf (stop rest) = length rest ≤ length buf
Shrinks buf (again rest) = length rest < length buf
Shrinks buf (emit f rest) = length rest < length buf

after_header-Shrinks :
    (buf : List ℕ) (r : Result DecodeError Header)
    → header_len ≤ length buf
    → Shrinks buf (after_header buf r)
unfolding after_header
after_header-Shrinks buf (err e) h = omega (arith, length-drop 1 buf)
after_header-Shrinks buf (ok header) h =
    ground (arith, length-drop (header_len + header.payload_len) buf)

at_magic-Shrinks : (buf : List ℕ) → Shrinks buf (at_magic buf)
unfolding at_magic
at_magic-Shrinks buf = ground (arith, after_header-Shrinks buf (parse_header buf))

Shrinks-mono :
    (buf more : List ℕ) (r : Round) → length buf ≤ length more → Shrinks buf r → Shrinks more r
Shrinks-mono buf more (stop rest) h s = omega arith
Shrinks-mono buf more (again rest) h s = omega arith
Shrinks-mono buf more (emit f rest) h s = omega arith

pub from_magic-some : (buf : List ℕ) (p : ℕ) → from_magic buf (some p) ≡ at_magic (drop p buf)
unfolding from_magic
from_magic-some buf zero = refl
from_magic-some buf (suc p) = ground arith

from_magic-Shrinks : (buf : List ℕ) (o : Option ℕ) → Shrinks buf (from_magic buf o)
from_magic-Shrinks buf none =
    unfold from_magic without_magic in
    omega (arith, length-drop (length buf - min 3 (length buf)) buf)
from_magic-Shrinks buf (some p) = rw (from_magic-some buf p) (
    Shrinks-mono (drop p buf) buf _ (omega (arith, length-drop p buf))
      (at_magic-Shrinks (drop p buf)))

pub round-Shrinks : (buf : List ℕ) → Shrinks buf (round buf)
unfolding round
round-Shrinks buf = from_magic-Shrinks buf (find_magic buf)

pub after_header_short :
    (buf : List ℕ) (h : Header)
    → length buf < header_len + h.payload_len
    → after_header buf (ok h) ≡ stop buf
unfolding after_header
after_header_short buf h short = ground arith

pub after_header_whole :
    (buf : List ℕ) (h : Header)
    → header_len + h.payload_len ≤ length buf
    → after_header buf (ok h) ≡ emit (framed buf h) (drop (header_len + h.payload_len) buf)
unfolding after_header
after_header_whole buf h fits = ground (arith, slice-take buf header_len h.payload_len)

pub round-none :
    (buf : List ℕ)
    → find_magic buf ≡ none
    → round buf ≡ stop (drop (length buf - min 3 (length buf)) buf)
unfolding round from_magic without_magic
round-none buf e = rw e

pub round_at : (buf : List ℕ) (p : ℕ) → find_magic buf ≡ some p → round buf ≡ at_magic (drop p buf)
unfolding round
round_at buf p e = rw e (from_magic-some buf p)

pub at_magic_short : (buf : List ℕ) → length buf < header_len → at_magic buf ≡ stop buf
unfolding at_magic
at_magic_short buf h = ground arith

pub at_magic_long :
    (buf : List ℕ) → header_len ≤ length buf → at_magic buf ≡ after_header buf (parse_header buf)
unfolding at_magic
at_magic_long buf h = ground arith
