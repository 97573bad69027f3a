-- ===== src/Sc64/Wire/Responses.antt =====
-- `next_cmp` on a stream of packets.
use multi.Common.{
  ℕ, zero, suc, ◌<◌, ◌≡◌, List, [], ◌∷◌, ◌++◌, some, length, arith, All, length-append,
}
use multi.Sc64.Wire.{cmp, pkt, PktPacket, CmpResponse, cmp_loop, next_cmp}
use multi.Sc64.Wire.Layout.{IsEvent, event_bytes, next_event-event_bytes, header_whole}

abbrev pub pkts_bytes : List PktPacket → List ℕ → List ℕ
pkts_bytes [] tail = tail
pkts_bytes (p ∷ ps) tail = event_bytes (pkt p) ++ pkts_bytes ps tail

cmp_loop-pkts :
    (ps : List PktPacket) (c : CmpResponse) (rest : List ℕ) (fuel : ℕ)
    → All (λ p. IsEvent (pkt p)) ps
    → IsEvent (cmp c)
    → length (pkts_bytes ps (event_bytes (cmp c) ++ rest)) < fuel
    → cmp_loop fuel (pkts_bytes ps (event_bytes (cmp c) ++ rest))
      ≡ some (record { result = some c; buf = rest })
unfolding cmp_loop
cmp_loop-pkts ps c rest zero hp hc h = elim h [ ]
cmp_loop-pkts [] c rest (suc fuel) hp hc h =
    rw (next_event-event_bytes [] (cmp c) rest hc tt, cmp_loop)
cmp_loop-pkts (p ∷ ps) c rest (suc fuel) hp hc h =
    let tail = pkts_bytes ps (event_bytes (cmp c) ++ rest) in
    rw (next_event-event_bytes [] (pkt p) tail hp.0 tt, cmp_loop)
      (cmp_loop-pkts ps c rest fuel hp.1 hc
        (omega (arith, header_whole (pkt p), length-append (event_bytes (pkt p)) tail)))

-- `next_cmp` skips any asynchronous packets and answers the response behind them, accepted or not,
-- with what follows left in the buffer.
pub next_cmp-pkts :
    (ps : List PktPacket) (c : CmpResponse) (rest : List ℕ)
    → All (λ p. IsEvent (pkt p)) ps
    → IsEvent (cmp c)
    → next_cmp (pkts_bytes ps (event_bytes (cmp c) ++ rest))
      ≡ some (record { result = some c; buf = rest })
unfolding next_cmp
next_cmp-pkts ps c rest hp hc =
    cmp_loop-pkts ps c rest (suc (length (pkts_bytes ps (event_bytes (cmp c) ++ rest)))) hp hc
      (omega arith)
