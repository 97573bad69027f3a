-- ===== src/Ap64/M64p/Reply/RoundTrip.antt =====
-- The answers, as the protocol (docs/spec/memory-l3-application-v0.md) lays them out, and that `parse`
-- reads them.
use multi.Common.{
  ℕ, ◌%◌, ◌/◌, ◌^◌, ◌<◌, ◌≡◌, refl, ap, ◌∙◌, Bool, true, false, List, [], ◌∷◌, ◌++◌, Option, none,
  some, length, ok, arith, All, take-length_append, drop-length_append, length-append,
}
use multi.Common.Bytes.{
  IsU16, IsU32, to_be16, to_be32, from_be16, from_be16-to, from_be32, from_be32-to,
}
use multi.Ap64.M64p.{
  Event, Response, hello_ack, peek_v, peek_rom, poke_ack, watch_ack, refusal, flag_cart_rom,
  flag_watch, has_flag,
}
use multi.Ap64.M64p.Msg
use multi.Ap64.M64p.Request.{header}
use multi.Ap64.M64p.Reply.{
  rom_field, slots_field, parse_hello_ack, parse_regions, parse_events, parse_trailer, answer_peek,
  parse_peek, parse_short, parse_body, parse,
}
use multi.Ap64.M64p.Reply.Echo.{parse-header}

-- Regions and events, with what follows them.
abbrev pub regions_bytes : List (List ℕ) → List ℕ → List ℕ
regions_bytes [] rest = rest
regions_bytes (r ∷ rs) rest = to_be16 (length r) ++ (r ++ regions_bytes rs rest)

abbrev pub events_bytes : List Event → List ℕ
events_bytes [] = []
events_bytes (e ∷ es) = e.slot ∷ length e.bytes ∷ (e.bytes ++ events_bytes es)

-- An agent that watches nothing may leave the trailer out.
abbrev pub trailer_bytes : Bool → List Event → ℕ → List ℕ
trailer_bytes false events dropped = []
trailer_bytes true events dropped = length events ∷ (to_be16 dropped ++ events_bytes events)

abbrev pub rom_bytes_field : Option ℕ → List ℕ
rom_bytes_field none = []
rom_bytes_field (some n) = to_be32 n

abbrev pub slots_bytes_field : Option ℕ → List ℕ
slots_bytes_field none = []
slots_bytes_field (some n) = n ∷ []

parse_regions-bytes :
    (rs : List (List ℕ)) (rest : List ℕ)
    → All (λ r. length r < 2 ^ 16) rs
    → parse_regions (length rs) (regions_bytes rs rest) ≡ ok (rs, rest)
unfolding parse_regions
parse_regions-bytes [] rest h = refl
parse_regions-bytes (r ∷ rs) rest h = ground (
  arith,
  from_be16-to (length r) h.0,
  take-length_append (length r) r (regions_bytes rs rest) refl,
  drop-length_append (length r) r (regions_bytes rs rest) refl,
  length-append r (regions_bytes rs rest),
  parse_regions-bytes rs rest h.1,
)

parse_events-bytes : (es : List Event) → parse_events (length es) (events_bytes es) ≡ ok es
unfolding parse_events
parse_events-bytes [] = refl
parse_events-bytes (e ∷ es) = ground (
  arith,
  take-length_append (length e.bytes) e.bytes (events_bytes es) refl,
  drop-length_append (length e.bytes) e.bytes (events_bytes es) refl,
  length-append e.bytes (events_bytes es),
  parse_events-bytes es,
)

parse_trailer-bytes :
    (trailer : Bool) (events : List Event) (dropped : ℕ)
    → IsU16 dropped
    → (trailer ≡ false → (events ≡ []) × (dropped ≡ 0))
    → parse_trailer (trailer_bytes trailer events dropped) ≡ ok (events, dropped)
unfolding parse_trailer
parse_trailer-bytes false events dropped h bare = rw ((bare refl).0, (bare refl).1) refl
parse_trailer-bytes true events dropped h bare =
    ground (arith, from_be16-to dropped h, parse_events-bytes events)

-- What an agent may answer. Flag bits 1 and 2 of a `HELLO_ACK` say which fields follow them. A trailer
-- may be left out where there is nothing to report.
abbrev pub HasField : Bool → Option ℕ → Type 0
HasField flag none = flag ≡ false
HasField flag (some n) = (flag ≡ true) × IsU32 n

abbrev pub IsReply : Bool → Response → Type 0
IsReply trailer (hello_ack a) =
    IsU16 a.agent_ver
    × IsU32 a.rdram_bytes
    × HasField (has_flag a.flags flag_cart_rom) a.rom_bytes
    × HasField (has_flag a.flags flag_watch) a.watch_slots
IsReply trailer (peek_v p) =
    IsU16 p.rid
    × IsU16 p.dropped
    × All (λ r. length r < 2 ^ 16) p.regions
    × (trailer ≡ false → (p.events ≡ []) × (p.dropped ≡ 0))
IsReply trailer (peek_rom rid rs) = IsU16 rid × All (λ r. length r < 2 ^ 16) rs
IsReply trailer (poke_ack rid n) = IsU16 rid
IsReply trailer (watch_ack rid n) = IsU16 rid
IsReply trailer (refusal rid n) = IsU16 rid

abbrev pub body_bytes : Bool → Response → List ℕ
body_bytes trailer (hello_ack a) =
    a.proto
    ∷ (to_be16 a.agent_ver
        ++ (to_be32 a.rdram_bytes
            ++ (a.flags ∷ (rom_bytes_field a.rom_bytes ++ slots_bytes_field a.watch_slots))))
body_bytes trailer (peek_v p) =
    to_be16 p.rid
    ++ (length p.regions ∷ regions_bytes p.regions (trailer_bytes trailer p.events p.dropped))
body_bytes trailer (peek_rom rid rs) = to_be16 rid ++ (length rs ∷ regions_bytes rs [])
body_bytes trailer (poke_ack rid n) = to_be16 rid ++ (n ∷ [])
body_bytes trailer (watch_ack rid n) = to_be16 rid ++ (n ∷ [])
body_bytes trailer (refusal rid n) = to_be16 rid ++ (n ∷ [])

abbrev pub msg_of : Response → ℕ
msg_of (hello_ack a) = Msg.hello_ack
msg_of (peek_v p) = Msg.peekv_resp
msg_of (peek_rom rid rs) = Msg.peekrom_resp
msg_of (poke_ack rid n) = Msg.poke_ack
msg_of (watch_ack rid n) = Msg.watch_ack
msg_of (refusal rid n) = Msg.err

parse_short-bytes :
    (answer : ℕ → ℕ → Response) (rid n : ℕ)
    → IsU16 rid
    → parse_short answer (to_be16 rid ++ (n ∷ [])) ≡ ok (answer rid n)
unfolding parse_short
parse_short-bytes answer rid n h = ap ok (ap (λ r. answer r n) (from_be16-to rid h))

hello_fields :
    (p a b c d e f g : ℕ) (rom slots : Option ℕ)
    → HasField (has_flag g flag_cart_rom) rom
    → HasField (has_flag g flag_watch) slots
    → parse_hello_ack
        (p ∷ a ∷ b ∷ c ∷ d ∷ e ∷ f ∷ g ∷ (rom_bytes_field rom ++ slots_bytes_field slots))
      ≡ ok (
          hello_ack (record {
            proto = p;
            agent_ver = from_be16 a b;
            rdram_bytes = from_be32 c d e f;
            flags = g;
            rom_bytes = rom;
            watch_slots = slots;
          }))
unfolding parse_hello_ack rom_field slots_field
hello_fields p a b c d e f g none none hr hs = rw (hr, hs) refl
hello_fields p a b c d e f g none (some s) hr hs = rw (hr, hs.0) refl
hello_fields p a b c d e f g (some n) none hr hs = rw (hr.0, hs) (rw (from_be32-to n hr.1) refl)
hello_fields p a b c d e f g (some n) (some s) hr hs =
    rw (hr.0, hs.0) (rw (from_be32-to n hr.1) refl)

peek_answer :
    (msg rid : ℕ) (rs : List (List ℕ)) (rest : List ℕ)
    → IsU16 rid
    → All (λ r. length r < 2 ^ 16) rs
    → parse_peek msg (to_be16 rid ++ (length rs ∷ regions_bytes rs rest))
      ≡ answer_peek msg rid rs rest
unfolding parse_peek
peek_answer msg rid rs rest h v =
    rw (from_be16-to rid h) (ground (arith, parse_regions-bytes rs rest v))

-- Each answer that an agent may give, its fields within the ranges of the protocol, `parse` reads
-- back, with every field: the flags of a `HELLO_ACK` say which fields follow, and a `PEEKV_RESP` may
-- carry its trailer or, with nothing to report, leave it out.
pub parse-IsReply :
    (trailer : Bool) (r : Response)
    → IsReply trailer r
    → parse (header (msg_of r) ++ body_bytes trailer r) ≡ ok r
unfolding parse_body
parse-IsReply trailer (hello_ack a) (hv, hd, hr, hs) =
    parse-header Msg.hello_ack (body_bytes trailer (hello_ack a))
    ∙ (hello_fields a.proto (a.agent_ver / 256 % 256) (a.agent_ver % 256)
          (a.rdram_bytes / 16777216 % 256) (a.rdram_bytes / 65536 % 256) (a.rdram_bytes / 256 % 256)
          (a.rdram_bytes % 256) a.flags a.rom_bytes a.watch_slots hr hs
        ∙ rw (from_be16-to a.agent_ver hv, from_be32-to a.rdram_bytes hd) refl)
parse-IsReply trailer (peek_v p) (hi, hd, hv, hb) =
    parse-header Msg.peekv_resp (body_bytes trailer (peek_v p))
    ∙ (peek_answer Msg.peekv_resp p.rid p.regions (trailer_bytes trailer p.events p.dropped) hi hv
        ∙ unfold answer_peek in rw (parse_trailer-bytes trailer p.events p.dropped hd hb) refl)
parse-IsReply trailer (peek_rom rid rs) (hi, hv) =
    parse-header Msg.peekrom_resp (body_bytes trailer (peek_rom rid rs))
    ∙ (peek_answer Msg.peekrom_resp rid rs [] hi hv ∙ unfold answer_peek in refl)
parse-IsReply trailer (poke_ack rid n) h =
    parse-header Msg.poke_ack (body_bytes trailer (poke_ack rid n))
    ∙ parse_short-bytes poke_ack rid n h
parse-IsReply trailer (watch_ack rid n) h =
    parse-header Msg.watch_ack (body_bytes trailer (watch_ack rid n))
    ∙ parse_short-bytes watch_ack rid n h
parse-IsReply trailer (refusal rid n) h =
    parse-header Msg.err (body_bytes trailer (refusal rid n)) ∙ parse_short-bytes refusal rid n h
