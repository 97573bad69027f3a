-- ===== src/Sc64/Wire/Rounds.antt =====
-- One round of the search for the next packet: it shrinks the buffer, and more bytes behind the
-- buffer do not change what it finds.
use multi.Common.{
  ℕ, ◌+◌, ◌≤◌, ◌<◌, ◌≡◌, refl, sym, ap, ◌∙◌, List, ◌++◌, Option, none, some, length, take, drop,
  slice, slice-take, arith, length-append, length-drop, drop-append_le, take-append_le,
  get_or-append,
}
use multi.Common.Bytes.{byte_at}
use multi.Sc64.Wire.{
  Round, wait, skip, event, data_cap, header_data_len, event_of, after_header, round,
}
use native.Mathlib.Decide.{dec_lt}

abbrev pub Shrinks : List ℕ → Round → Type 0
Shrinks buf (wait rest) = rest ≡ buf
Shrinks buf (skip rest) = length rest < length buf
Shrinks buf (event e rest) = length rest < length buf

after_header-Shrinks :
    (buf : List ℕ) (o : Option ℕ) → 8 ≤ length buf → Shrinks buf (after_header buf o)
unfolding after_header
after_header-Shrinks buf none h = omega (arith, length-drop 1 buf)
after_header-Shrinks buf (some len) h = ground (arith, length-drop (8 + len) buf)

pub round_short : (buf : List ℕ) → length buf < 8 → round buf ≡ wait buf
unfolding round
round_short buf h = ground arith

pub round_long :
    (buf : List ℕ) → 8 ≤ length buf → round buf ≡ after_header buf (header_data_len buf)
unfolding round
round_long buf h = ground arith

pub round-Shrinks : (buf : List ℕ) → Shrinks buf (round buf)
round-Shrinks buf = elim (dec_lt (length buf) 8) [
  | yes short ↦ rw (round_short buf short) refl
  | no long ↦
      rw (round_long buf (omega arith))
        (after_header-Shrinks buf (header_data_len buf) (omega arith))
]

-- The first eight bytes decide what the header is.
pub header_data_len-append :
    (buf more : List ℕ) → 8 ≤ length buf → header_data_len (buf ++ more) ≡ header_data_len buf
unfolding header_data_len data_cap
header_data_len-append buf more h = rw (
  at 0 (omega arith),
  at 1 (omega arith),
  at 2 (omega arith),
  at 4 (omega arith),
  at 5 (omega arith),
  at 6 (omega arith),
  at 7 (omega arith),
)
  where
    at : (i : ℕ) → i < length buf → byte_at (buf ++ more) i ≡ byte_at buf i
    at i p = get_or-append buf more i 0 p

contents-append :
    (buf more : List ℕ) (len : ℕ)
    → 8 + len ≤ length buf
    → slice (buf ++ more) 8 (8 + len) ≡ slice buf 8 (8 + len)
contents-append buf more len h =
    slice-take (buf ++ more) 8 len
    ∙ ap (take len) (drop-append_le 8 buf more (omega arith))
    ∙ take-append_le len (drop 8 buf) more (omega (arith, length-drop 8 buf))
    ∙ sym (slice-take buf 8 len)

event_of-append :
    (buf more : List ℕ) (len : ℕ)
    → 8 + len ≤ length buf
    → event_of (buf ++ more) (8 + len) ≡ event_of buf (8 + len)
unfolding event_of
event_of-append buf more len h = rw (
  contents-append buf more len h,
  at 0 (omega arith),
  at 1 (omega arith),
  at 2 (omega arith),
  at 3 (omega arith),
)
  where
    at : (i : ℕ) → i < length buf → byte_at (buf ++ more) i ≡ byte_at buf i
    at i p = get_or-append buf more i 0 p

abbrev pub Extends : List ℕ → List ℕ → Round → Type 0
Extends buf more (wait rest) = rest ≡ buf
Extends buf more (skip rest) = round (buf ++ more) ≡ skip (rest ++ more)
Extends buf more (event e rest) = round (buf ++ more) ≡ event e (rest ++ more)

after_header-Extends :
    (buf more : List ℕ) (o : Option ℕ)
    → 8 ≤ length buf
    → round (buf ++ more) ≡ after_header (buf ++ more) o
    → Extends buf more (after_header buf o)
unfolding after_header
after_header-Extends buf more none h e = e ∙ ap skip (drop-append_le 1 buf more (omega arith))
after_header-Extends buf more (some len) h e = ground (
  arith,
  e,
  event_of-append buf more len,
  drop-append_le (8 + len) buf more,
  length-append buf more,
)

pub round-Extends : (buf more : List ℕ) → Extends buf more (round buf)
round-Extends buf more = elim (dec_lt (length buf) 8) [
  | yes short ↦ rw (round_short buf short) refl
  | no long ↦ rw (round_long buf (omega arith)) (
      after_header-Extends buf more (header_data_len buf) (omega arith) (
        round_long (buf ++ more) (omega (arith, length-append buf more))
        ∙ ap (after_header (buf ++ more)) (header_data_len-append buf more (omega arith))))
]
