-- ===== src/Sc64/Bridge.antt =====
-- L3 frames from the cart to the PC: packets on the wire, the receive queue, the streaming decoder.
use multi.Common.{
  ℕ, ◌^◌, ◌<◌, ◌≡◌, refl, sym, ap, ◌∙◌, List, [], ◌∷◌, ◌++◌, some, ok, length, arith, All,
}
use mathlib.Core.List.{append-nil}
use multi.Sc64.Wire.{pkt, next_event, round}
use multi.Sc64.Write.{pkt_u_multi64_l3_payload}
use multi.Sc64.Write.Stream.{pkt_u_bytes, pkt_u-bytes}
use multi.Sc64.Pipe.{Processed, process_wire_events, extend_rx}
use multi.Sc64.Pipe.Delivery.{
  Arrival, IsArrival, on_wire, l3_of, l3_of_all, IsQuiet, process_wire_events-on_wire,
}
use multi.L3.Stream.{push_bytes, round as L3round}
use multi.L3.Stream.Runs.{drained}
use multi.L3.Stream.Chunks.{feed_chunking}
use multi.Common.Chunks.{concat}
use multi.L3.Stream.Frames.{Segment, IsSegment, stream, frames_of, feed-stream}

-- The packet in which the cart sends a piece of its L3 stream.
abbrev pub data_packet : List ℕ → Arrival
data_packet piece = record {
  noise = [];
  event = pkt (record { id = b'U'; contents = pkt_u_bytes piece });
}

abbrev pub data_packets : List (List ℕ) → List Arrival
data_packets [] = []
data_packets (c ∷ cs) = data_packet c ∷ data_packets cs

abbrev pub IsPiece : List ℕ → Type 0
IsPiece c = length c < 2 ^ 24

packets-IsArrival : (cs : List (List ℕ)) → All IsPiece cs → All IsArrival (data_packets cs)
packets-IsArrival [] h = tt
packets-IsArrival (c ∷ cs) h =
    (record { fits = omega arith; passed = tt }, packets-IsArrival cs h.1)

packets-IsQuiet : (cs : List (List ℕ)) → All IsQuiet (data_packets cs)
packets-IsQuiet [] = tt
packets-IsQuiet (c ∷ cs) = (refl, packets-IsQuiet cs)

l3_of-data_packet : (c : List ℕ) → IsPiece c → l3_of (data_packet c).event ≡ c
unfolding extend_rx
l3_of-data_packet c h =
    let whole : pkt_u_multi64_l3_payload (pkt_u_bytes c) ≡ some c =
      rw append-nil at (pkt_u-bytes c [] h) in
    ap (extend_rx []) whole

l3_of_all-packets : (cs : List (List ℕ)) → All IsPiece cs → l3_of_all (data_packets cs) ≡ concat cs
l3_of_all-packets [] h = refl
l3_of_all-packets (c ∷ cs) h =
    ap (λ x. x ++ l3_of_all (data_packets cs)) (l3_of-data_packet c h.0)
    ∙ ap (λ y. c ++ y) (l3_of_all-packets cs h.1)

-- Frames that the cart sends, with noise between them, in data packets of any sizes below 2 ^ 24 that
-- cut the stream anywhere, are the frames that the PC's decoder hands over once the packets are read.
pub frames_arrive :
    (ss : List Segment) (cs : List (List ℕ))
    → All IsSegment ss
    → All IsPiece cs
    → concat cs ≡ stream ss []
    → (q : Processed) × (process_wire_events (on_wire (data_packets cs) []) [] ≡ some q)
      × (q.outcome ≡ ok tt)
      × (push_bytes [] q.l3_rx ≡ some (drained (frames_of ss) []))
unfolding next_event round
frames_arrive ss cs vs vc e = (
  record { wire = []; l3_rx = l3_of_all (data_packets cs); outcome = ok tt },
  process_wire_events-on_wire (data_packets cs) [] [] (packets-IsArrival cs vc) (packets-IsQuiet cs)
      refl,
  refl,
  ap (push_bytes []) (l3_of_all-packets cs vc)
      ∙ sym (feed_chunking cs)
      ∙ feed-stream ss [] cs vs (unfold L3round in refl) e,
)
