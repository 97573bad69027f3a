-- ===== src/Ap64/M64p/Reply.antt =====
-- `parse` of crates/ap64-cart/src/m64p.rs. Where the code keeps an offset into the body, the loops
-- keep the bytes from there on.
pub mod Echo
pub mod RoundTrip
use multi.Common.{
  ℕ, zero, suc, ◌+◌, List, [], ◌∷◌, Option, none, some, length, take, drop, Result, ok, err, ◌>>=◌,
  ◌>>◌, fail_if, ltb, leb, not, ◌==◌, ◌||◌, if◌then◌else◌,
}
use multi.Common.Bytes.{byte_at, u16_at, u32_at}
use multi.Common.Find.{starts_with}
use multi.Ap64.M64p.{
  Event, HelloAck, PeekV, Response, hello_ack, peek_v, peek_rom, poke_ack, watch_ack, refusal,
  Error, not_m64p, truncated, unknown_msg, echoed_request, flag_cart_rom, flag_watch, has_flag,
}
use multi.Ap64.M64p.Msg

-- `b.get(off)`, or the error `Truncated`.
abbrev pub get_byte : List ℕ → ℕ → Result Error ℕ
get_byte b off = do fail_if (leb (length b) off) truncated; ok (byte_at b off)

unfoldable pub rom_field : List ℕ → Result Error (Option ℕ)
rom_field b =
    if has_flag (byte_at b 7) flag_cart_rom
    then (do fail_if (ltb (length b) 12) truncated; ok (some (u32_at b 8)))
    else ok none

abbrev pub slots_offset : Option ℕ → ℕ
slots_offset none = 8
slots_offset (some n) = 12

unfoldable pub slots_field : List ℕ → ℕ → Result Error (Option ℕ)
slots_field b off =
    if has_flag (byte_at b 7) flag_watch
    then (do slots ← get_byte b off; ok (some slots))
    else ok none

unfoldable pub parse_hello_ack : List ℕ → Result Error Response
unfolding rom_field slots_field
parse_hello_ack b = do
  fail_if (ltb (length b) 8) truncated
  rom_bytes ← rom_field b
  watch_slots ← slots_field b (slots_offset rom_bytes)
  ok (
      hello_ack (record {
        proto = byte_at b 0;
        agent_ver = u16_at b 1;
        rdram_bytes = u32_at b 3;
        flags = byte_at b 7;
        rom_bytes = rom_bytes;
        watch_slots = watch_slots;
      }))

unfoldable pub parse_regions : ℕ → List ℕ → Result Error (List (List ℕ) × List ℕ)
parse_regions zero b = ok ([], b)
parse_regions (suc n) b = do
  fail_if (ltb (length b) 2) truncated
  let len = u16_at b 0
  let rest = drop 2 b
  fail_if (ltb (length rest) len) truncated
  p ← parse_regions n (drop len rest)
  ok (take len rest ∷ p.0, p.1)

unfoldable pub parse_events : ℕ → List ℕ → Result Error (List Event)
parse_events zero b = ok []
parse_events (suc n) b = do
  fail_if (ltb (length b) 2) truncated
  let len = byte_at b 1
  let rest = drop 2 b
  fail_if (ltb (length rest) len) truncated
  events ← parse_events n (drop len rest)
  ok (record { slot = byte_at b 0; bytes = take len rest } ∷ events)

-- The trailer of a `PEEKV_RESP`: the events, and how many the agent lost.
unfoldable pub parse_trailer : List ℕ → Result Error (List Event × ℕ)
unfolding parse_events
parse_trailer b =
    if leb 3 (length b)
    then (do events ← parse_events (byte_at b 0) (drop 3 b); ok (events, u16_at b 1))
    else ok ([], 0)

-- `parse` from the regions on, with what follows them.
unfoldable pub answer_peek : ℕ → ℕ → List (List ℕ) → List ℕ → Result Error Response
unfolding parse_trailer
answer_peek msg rid regions rest =
    if msg == Msg.peekrom_resp then ok (peek_rom rid regions) else (do
      t ← parse_trailer rest
      ok (peek_v (record { rid = rid; regions = regions; events = t.0; dropped = t.1 })))

unfoldable pub parse_peek : ℕ → List ℕ → Result Error Response
unfolding parse_regions answer_peek
parse_peek msg b = do
  fail_if (ltb (length b) 3) truncated
  p ← parse_regions (byte_at b 2) (drop 3 b)
  answer_peek msg (u16_at b 0) p.0 p.1

-- The answers that are an id and a byte.
unfoldable pub parse_short : (ℕ → ℕ → Response) → List ℕ → Result Error Response
parse_short answer b = do
  fail_if (ltb (length b) 3) truncated
  ok (answer (u16_at b 0) (byte_at b 2))

unfoldable pub parse_body : ℕ → List ℕ → Result Error Response
unfolding parse_hello_ack parse_peek parse_short
parse_body msg b =
    if msg == Msg.hello_ack
    then parse_hello_ack b
    else if msg == Msg.peekv_resp || msg == Msg.peekrom_resp
    then parse_peek msg b
    else if msg == Msg.poke_ack
    then parse_short poke_ack b
    else if msg == Msg.watch_ack
    then parse_short watch_ack b
    else if msg == Msg.err
    then parse_short refusal b
    else if msg == Msg.hello
        || msg == Msg.peekv
        || msg == Msg.pokev
        || msg == Msg.peekrom
        || msg == Msg.watch
    then err (echoed_request msg)
    else err (unknown_msg msg)

unfoldable pub parse : List ℕ → Result Error Response
unfolding parse_body starts_with
parse app = do
  fail_if (ltb (length app) 5 || not (starts_with 0x4D 0x36 0x34 0x50 app)) not_m64p
  parse_body (byte_at app 4) (drop 5 app)
