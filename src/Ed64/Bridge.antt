-- ===== src/Ed64/Bridge.antt =====
-- L3 frames between the PC and the cart over the X7's link: messages both ways, and the streaming decoder.
use multi.Common.{
  ℕ, ◌+◌, ◌-◌, ◌≤◌, ◌≡◌, refl, sym, ap, ◌∙◌, List, [], ◌∷◌, ◌++◌, some, ok, length, arith, All,
  replicate, length-replicate,
}
use multi.Ed64.Wire.{
  wire_align, align_up, max_message_bytes, next_message, resync, drop_to, message_at,
}
use multi.Ed64.Pipe.{Processed, process_wire_messages, multi64_l3_type}
use multi.Ed64.Pipe.Delivery.{Arrival, IsArrival, on_wire, l3_of_all, process_wire_messages-on_wire}
use multi.Common.Find.{find_tag, starts_with}
use multi.L3.Stream.{push_bytes, round as L3round}
use multi.L3.Stream.Runs.{drained}
use multi.L3.Stream.Chunks.{feed_chunking}
use multi.Common.Chunks.{concat}
use multi.L3.Stream.Frames.{Segment, IsSegment, stream, frames_of, feed-stream}

-- The message in which the cart sends a piece of its L3 stream, with a byte of any value to align it.
abbrev pub piece_message : ℕ → List ℕ → Arrival
piece_message filler piece = record {
  noise = [];
  message = record { datatype = multi64_l3_type; payload = piece };
  pad = replicate (align_up (12 + length piece) wire_align - (12 + length piece)) filler;
}

abbrev pub piece_messages : ℕ → List (List ℕ) → List Arrival
piece_messages filler [] = []
piece_messages filler (c ∷ cs) = piece_message filler c ∷ piece_messages filler cs

abbrev pub FitsMessage : List ℕ → Type 0
FitsMessage c = length c ≤ max_message_bytes

messages-IsArrival :
    (filler : ℕ) (cs : List (List ℕ))
    → All FitsMessage cs
    → All IsArrival (piece_messages filler cs)
unfolding find_tag starts_with
messages-IsArrival filler [] h = tt
messages-IsArrival filler (c ∷ cs) h = (
  record {
    whole = record {
      datatype_u8 = omega arith;
      size_fits = h.0;
      padded = length-replicate (align_up (12 + length c) wire_align - (12 + length c)) filler;
    };
    passed = refl;
  },
  messages-IsArrival filler cs h.1,
)

l3_of_all-pieces :
    (filler : ℕ) (cs : List (List ℕ)) → l3_of_all (piece_messages filler cs) ≡ concat cs
l3_of_all-pieces filler [] = refl
l3_of_all-pieces filler (c ∷ cs) = ap (λ ys. c ++ ys) (l3_of_all-pieces filler cs)

-- Frames that the cart sends, with noise between them, in messages of the X7's link that cut the stream
-- anywhere, each aligned with a byte of any value, are the frames that the PC's decoder hands over once
-- the messages are read.
pub frames_arrive_by_x7 :
    (filler : ℕ) (ss : List Segment) (cs : List (List ℕ))
    → All IsSegment ss
    → All FitsMessage cs
    → concat cs ≡ stream ss []
    → (q : Processed) × (process_wire_messages (on_wire (piece_messages filler cs) []) [] ≡ some q)
      × (q.outcome ≡ ok tt)
      × (push_bytes [] q.l3_rx ≡ some (drained (frames_of ss) []))
unfolding next_message resync drop_to message_at starts_with find_tag
frames_arrive_by_x7 filler ss cs vs vc e = (
  record { wire = []; l3_rx = l3_of_all (piece_messages filler cs); outcome = ok tt },
  process_wire_messages-on_wire (piece_messages filler cs) [] [] (ok tt)
      (messages-IsArrival filler cs vc) refl,
  refl,
  ap (push_bytes []) (l3_of_all-pieces filler cs)
      ∙ sym (feed_chunking cs)
      ∙ feed-stream ss [] cs vs (unfold L3round in refl) e,
)
