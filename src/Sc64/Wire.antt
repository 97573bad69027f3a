-- ===== src/Sc64/Wire.antt =====
-- `WireBuffer` (crates/sc64-link/src/wire.rs), `header_data_len` and `ResponseBuffer` (lib.rs). A
-- buffer is its list of bytes.
pub mod Rounds
pub mod Pops
pub mod Layout
pub mod Responses
use multi.Common.{
  ℕ, zero, suc, ◌+◌, ◌≤◌, Bool, true, false, List, [], ◌∷◌, ◌++◌, Option, none, some, length, drop,
  slice, ltb, leb, ◌==◌, ◌&&◌, ◌||◌, if◌then◌else◌,
}
use multi.Common.Bytes.{byte_at, u32_at}

pub record PktPacket : Type 0 where
  pub id : ℕ
  pub contents : List ℕ

pub record CmpResponse : Type 0 where
  pub accepted : Bool
  pub cmd_id : ℕ
  pub contents : List ℕ

pub data WireEvent : Type 0 where
  cmp : CmpResponse → WireEvent
  pkt : PktPacket → WireEvent

abbrev pub max_cmp_data_len : ℕ
max_cmp_data_len = 0x0800_0000

abbrev pub max_pkt_data_len : ℕ
max_pkt_data_len = 0x0100_0003

-- `&buf[0..3] == tag`
abbrev pub has_tag : ℕ → ℕ → ℕ → List ℕ → Bool
has_tag a b c buf = byte_at buf 0 == a && byte_at buf 1 == b && byte_at buf 2 == c

abbrev pub is_cmp : List ℕ → Bool
is_cmp = has_tag b'C' b'M' b'P'

abbrev pub is_err : List ℕ → Bool
is_err = has_tag b'E' b'R' b'R'

abbrev pub is_pkt : List ℕ → Bool
is_pkt = has_tag b'P' b'K' b'T'

unfoldable pub data_cap : List ℕ → Option ℕ
data_cap buf =
    if is_cmp buf || is_err buf
    then some max_cmp_data_len
    else if is_pkt buf
    then some max_pkt_data_len
    else none

-- `(len <= cap).then_some(len)`
abbrev pub within_cap : Option ℕ → ℕ → Option ℕ
within_cap none len = none
within_cap (some cap) len = if leb len cap then some len else none

unfoldable pub header_data_len : List ℕ → Option ℕ
unfolding data_cap
header_data_len buf = within_cap (data_cap buf) (u32_at buf 4)

-- One round of the loop of `next_event`: `None`, `continue`, or an event, and the buffer then.
pub data Round : Type 0 where
  wait : List ℕ → Round
  skip : List ℕ → Round
  event : WireEvent → List ℕ → Round

unfoldable pub event_of : List ℕ → ℕ → WireEvent
event_of buf total =
    if is_pkt buf
    then pkt (record { id = byte_at buf 3; contents = slice buf 8 total })
    else cmp
        (record { accepted = is_cmp buf; cmd_id = byte_at buf 3; contents = slice buf 8 total })

unfoldable pub after_header : List ℕ → Option ℕ → Round
unfolding event_of
after_header buf none = skip (drop 1 buf)
after_header buf (some len) =
    let total = 8 + len in
    if ltb (length buf) total then wait buf else event (event_of buf total) (drop total buf)

unfoldable pub round : List ℕ → Round
unfolding after_header header_data_len
round buf = if ltb (length buf) 8 then wait buf else after_header buf (header_data_len buf)

-- The answer of a call, and the buffer that it leaves.
pub record Popped (A : Type 0) : Type 0 where
  pub result : Option A
  pub buf : List ℕ

-- The loop; `none` means that the fuel ran out.
unfoldable pub next_loop : ℕ → List ℕ → Option (Popped WireEvent)
next_loop zero buf = none
next_loop (suc fuel) buf = elim (round buf) [
  | wait rest ↦ some (record { result = none; buf = rest })
  | skip rest ↦ next_loop fuel rest
  | event e rest ↦ some (record { result = some e; buf = rest })
]

-- Each round but the last drops a byte.
unfoldable pub next_event : List ℕ → Option (Popped WireEvent)
unfolding next_loop
next_event buf = next_loop (suc (length buf)) buf

-- The loop of `ResponseBuffer::next_cmp`, on one call of `next_event` each round.
unfoldable pub cmp_loop : ℕ → List ℕ → Option (Popped CmpResponse)
cmp_loop zero buf = none
cmp_loop (suc fuel) buf = elim (next_event buf) [
  | none ↦ none
  | some p ↦ elim p.result [
    | none ↦ some (record { result = none; buf = p.buf })
    | some (cmp c) ↦ some (record { result = some c; buf = p.buf })
    | some (pkt q) ↦ cmp_loop fuel p.buf
  ]
]

unfoldable pub next_cmp : List ℕ → Option (Popped CmpResponse)
unfolding cmp_loop
next_cmp buf = cmp_loop (suc (length buf)) buf
