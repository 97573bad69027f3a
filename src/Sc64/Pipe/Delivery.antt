-- ===== src/Sc64/Pipe/Delivery.antt =====
-- What `process_wire_events` queues from a stream of packets.
use multi.Common.{
  ℕ, zero, suc, ◌<◌, ◌≡◌, sym, ap, ◌∙◌, Bool, true, false, List, [], ◌∷◌, ◌++◌, Option, none, some,
  ok, err, length, arith, All, length-append, ◌==◌, if◌then◌else◌,
}
use mathlib.Core.List.{append_assoc, append-nil}
use multi.Sc64.Wire.{WireEvent, cmp, pkt, next_event}
use multi.Sc64.Wire.Pops.{popped}
use multi.Sc64.Wire.Layout.{IsEvent, IsNoise, event_bytes, next_event-event_bytes, header_whole}
use multi.Sc64.Write.{pkt_u_multi64_l3_payload}
use multi.Sc64.Pipe.{
  connection_reset, extend_rx, take_event, Processed, process_loop, process_wire_events,
}

-- A packet on the wire, with noise before it.
pub record Arrival : Type 0 where
  pub noise : List ℕ
  pub event : WireEvent

pub record IsArrival (a : Arrival) : Type 0 where
  pub fits : IsEvent a.event
  pub passed : IsNoise a.noise (event_bytes a.event)

abbrev pub on_wire : List Arrival → List ℕ → List ℕ
on_wire [] tail = tail
on_wire (a ∷ ps) tail = a.noise ++ (event_bytes a.event ++ on_wire ps tail)

-- The L3 bytes that an event carries.
abbrev pub l3_of : WireEvent → List ℕ
l3_of (cmp c) = []
l3_of (pkt p) = if p.id == b'U' then extend_rx [] (pkt_u_multi64_l3_payload p.contents) else []

abbrev pub l3_of_all : List Arrival → List ℕ
l3_of_all [] = []
l3_of_all (a ∷ ps) = l3_of a.event ++ l3_of_all ps

-- The report that data was flushed.
abbrev pub is_flush : WireEvent → Bool
is_flush (cmp c) = false
is_flush (pkt p) = p.id == b'G'

abbrev pub IsQuiet : Arrival → Type 0
IsQuiet a = is_flush a.event ≡ false

take_event-quiet :
    (rx : List ℕ) (e : WireEvent) → is_flush e ≡ false → take_event rx e ≡ ok (rx ++ l3_of e)
unfolding take_event
take_event-quiet rx (cmp c) h = ap ok (sym (append-nil rx))
take_event-quiet rx (pkt p) h = ground (arith, append-nil rx)

take_event-flush :
    (rx : List ℕ) (e : WireEvent) → is_flush e ≡ true → take_event rx e ≡ err connection_reset
unfolding take_event
take_event-flush rx (cmp c) h = cc
take_event-flush rx (pkt p) h = ground arith

module _ (fuel : ℕ) (rx tail : List ℕ) (a : Arrival) (v : IsArrival a) where
  pub loop-quiet :
      IsQuiet a
      → process_loop (suc fuel) (a.noise ++ (event_bytes a.event ++ tail)) rx
        ≡ process_loop fuel tail (rx ++ l3_of a.event)
  unfolding process_loop
  loop-quiet q = rw (
    next_event-event_bytes a.noise a.event tail v.fits v.passed,
    process_loop,
    take_event-quiet rx a.event q,
  )

  pub loop-flush :
      is_flush a.event ≡ true
      → process_loop (suc fuel) (a.noise ++ (event_bytes a.event ++ tail)) rx
        ≡ some (record { wire = tail; l3_rx = rx; outcome = err connection_reset })
  unfolding process_loop
  loop-flush q = rw (
    next_event-event_bytes a.noise a.event tail v.fits v.passed,
    process_loop,
    take_event-flush rx a.event q,
  )

  pub shorter : length tail < length (a.noise ++ (event_bytes a.event ++ tail))
  shorter = omega (
    arith,
    length-append a.noise (event_bytes a.event ++ tail),
    length-append (event_bytes a.event) tail,
    header_whole a.event,
  )

loop-on_wire :
    (ps : List Arrival) (rest rx : List ℕ) (fuel : ℕ) (P : Option Processed)
    → All IsArrival ps
    → All IsQuiet ps
    → length (on_wire ps rest) < fuel
    → ((f : ℕ) → length rest < f → process_loop f rest (rx ++ l3_of_all ps) ≡ P)
    → process_loop fuel (on_wire ps rest) rx ≡ P
loop-on_wire [] rest rx fuel P v q h k = rw append-nil at (k fuel h)
loop-on_wire (a ∷ ps) rest rx zero P v q h k = elim h [ ]
loop-on_wire (a ∷ ps) rest rx (suc fuel) P v q h k =
    loop-quiet fuel rx (on_wire ps rest) a v.0 q.0
    ∙ loop-on_wire ps rest (rx ++ l3_of a.event) fuel P v.1 q.1
        (omega (arith, shorter fuel rx (on_wire ps rest) a v.0))
        (λ f p. rw (append_assoc rx (l3_of a.event) (l3_of_all ps)) (k f p))

settled_end :
    (tail rx : List ℕ) (f : ℕ)
    → next_event tail ≡ some (popped none tail)
    → length tail < f
    → process_loop f tail rx ≡ some (record { wire = tail; l3_rx = rx; outcome = ok tt })
unfolding process_loop
settled_end tail rx zero e h = elim h [ ]
settled_end tail rx (suc f) e h = rw (e, process_loop)

-- From packets among which is no report of flushed data, with noise between them, the L3 bytes of the
-- data packets join the queue in order, and nothing else does. What waits for more bytes is kept.
pub process_wire_events-on_wire :
    (ps : List Arrival) (tail rx : List ℕ)
    → All IsArrival ps
    → All IsQuiet ps
    → next_event tail ≡ some (popped none tail)
    → process_wire_events (on_wire ps tail) rx
      ≡ some (record { wire = tail; l3_rx = rx ++ l3_of_all ps; outcome = ok tt })
unfolding process_wire_events
process_wire_events-on_wire ps tail rx v q e =
    loop-on_wire ps tail rx (suc (length (on_wire ps tail))) _ v q (omega arith)
      (λ f p. settled_end tail (rx ++ l3_of_all ps) f e p)

-- A report of flushed data ends the call with an error: the L3 bytes before it are in the queue, and
-- the packets behind it are kept.
pub process_wire_events-flush :
    (ps : List Arrival) (a : Arrival) (behind rx : List ℕ)
    → All IsArrival ps
    → All IsQuiet ps
    → IsArrival a
    → is_flush a.event ≡ true
    → process_wire_events (on_wire ps (on_wire (a ∷ []) behind)) rx
      ≡ some (record { wire = behind; l3_rx = rx ++ l3_of_all ps; outcome = err connection_reset })
unfolding process_wire_events
process_wire_events-flush ps a behind rx v q va fa =
    loop-on_wire ps (on_wire (a ∷ []) behind) rx
      (suc (length (on_wire ps (on_wire (a ∷ []) behind)))) _ v q (omega arith)
      (λ f p. flush_end f p)
  where
    flush_end :
        (f : ℕ)
        → length (on_wire (a ∷ []) behind) < f
        → process_loop f (on_wire (a ∷ []) behind) (rx ++ l3_of_all ps)
          ≡ some
              (record { wire = behind; l3_rx = rx ++ l3_of_all ps; outcome = err connection_reset })
    flush_end zero p = elim p [ ]
    flush_end (suc f) p = loop-flush f (rx ++ l3_of_all ps) behind a va fa
