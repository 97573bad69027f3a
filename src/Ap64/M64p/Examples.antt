-- ===== src/Ap64/M64p/Examples.antt =====
-- Requests and answers at concrete bytes: tests, and the theorems at these inputs.
use multi.Common.{ℕ, ◌≡◌, refl, arith, true, List, [], ◌∷◌, ◌++◌, ok}
use multi.Ap64.M64p.{Region, Slot, Response, peek_v}
use multi.Ap64.M64p.Msg
use multi.Ap64.M64p.Request.{
  header, check_limits, encode_peek, encode_pokev, encode_watch, add_lens, check_slots, check_slot,
}
use multi.Ap64.M64p.Reply.{parse}
use multi.Ap64.M64p.Reply.RoundTrip.{body_bytes, msg_of, parse-IsReply}

abbrev two_writes : List (ℕ × List ℕ)
two_writes = (0x8000_0400, 1 ∷ 2 ∷ 3 ∷ []) ∷ (0x8000_0500, 9 ∷ []) ∷ []

abbrev writes_sent : List ℕ
writes_sent =
    0x4D ∷ 0x36 ∷ 0x34 ∷ 0x50 ∷ 3 ∷ 0 ∷ 7 ∷ 2 ∷ 0x80 ∷ 0 ∷ 4 ∷ 0 ∷ 0 ∷ 3 ∷ 1 ∷ 2 ∷ 3 ∷ 0x80 ∷ 0 ∷ 5
    ∷ 0 ∷ 0 ∷ 1 ∷ 9 ∷ []

writes_encode : encode_pokev 7 two_writes ≡ ok writes_sent
unfolding encode_pokev check_limits add_lens
writes_encode = refl

abbrev one_region : List Region
one_region = record { addr = 0x8000_0400; len = 4 } ∷ []

abbrev region_asked : List ℕ
region_asked = 0x4D ∷ 0x36 ∷ 0x34 ∷ 0x50 ∷ 2 ∷ 0 ∷ 7 ∷ 1 ∷ 0x80 ∷ 0 ∷ 4 ∷ 0 ∷ 0 ∷ 4 ∷ []

region_encode : encode_peek Msg.peekv 7 one_region ≡ ok region_asked
unfolding encode_peek check_limits add_lens
region_encode = refl

abbrev one_slot : List Slot
one_slot = record { addr = 0x0040_002C; len = 4; place = 1; values = 0 ∷ 1 ∷ [] } ∷ []

abbrev slot_sent : List ℕ
slot_sent = 0x4D ∷ 0x36 ∷ 0x34 ∷ 0x50 ∷ 5 ∷ 0 ∷ 7 ∷ 1 ∷ 0 ∷ 0x40 ∷ 0 ∷ 0x2C ∷ 4 ∷ 1 ∷ 2 ∷ 0 ∷ 1 ∷ []

slot_encode : encode_watch 7 one_slot ≡ ok slot_sent
unfolding encode_watch check_slots check_slot
slot_encode = refl

abbrev answer : Response
answer = peek_v (record {
  rid = 7;
  regions = (1 ∷ 2 ∷ []) ∷ [] ∷ [];
  events = record { slot = 0; bytes = 5 ∷ [] } ∷ [];
  dropped = 2;
})

parse-IsReply_example : parse (header (msg_of answer) ++ body_bytes true answer) ≡ ok answer
parse-IsReply_example =
    parse-IsReply true answer (omega arith, omega arith, (omega arith, (omega arith, tt)), λ h. cc)

abbrev long_lens : List ℕ
long_lens = 16 ∷ 4097 ∷ []
