-- ===== src/Ed64/Examples.antt =====
-- Messages at concrete bytes: the theorems at these inputs.
use multi.Common.{ℕ, ◌≡◌, refl, List, [], ◌∷◌, some, ok, err, arith, All, drop, ◌==◌, if◌then◌else◌}
use multi.Common.Chunks.{concat, IsChunk}
use multi.Common.Find.{starts_with, find_tag}
use multi.Ed64.Wire.{bad_trailer, next_message, resync, drop_to, message_at, whole_message}
use multi.Ed64.Wire.Layout.{message_bytes}
use multi.Ed64.Pipe.{
  Processed, process_wire_messages, Pipe, PortRead, got, timed_out, read_l3_bytes, taken,
  failed_after, Port, Sent, write_l3_stream_with_max,
}
use multi.Ed64.Pipe.Delivery.{Arrival, IsArrival, on_wire, process_wire_messages-on_wire}
use multi.Ed64.Pipe.Reading.{FairCall, waiting, read_l3_bytes-FairCall, read_l3_bytes-stalled}
use multi.Ed64.Pipe.Writing.{SentOutcome, write_l3_stream-Reads}
use multi.Ed64.Bridge.{piece_messages, frames_arrive_by_x7}
use multi.L3.Stream.{push_bytes, find_magic}
use multi.L3.Stream.Runs.{drained}
use multi.L3.Stream.Frames.{IsSegment, quiet}
use multi.L3.Frame.{Frame}
use multi.L3.Encode.{wire_bytes}
use multi.L3.FrameType
use multi.L3.Channel

abbrev odd : Arrival
odd = record {
  noise = 1 ∷ 0x44 ∷ [];
  message = record { datatype = 1; payload = 7 ∷ 8 ∷ 9 ∷ [] };
  pad = 0x55 ∷ [];
}

odd-IsArrival : IsArrival odd
unfolding find_tag starts_with
odd-IsArrival = record {
  whole = record { datatype_u8 = omega arith; size_fits = omega arith; padded = refl };
  passed = refl;
}

-- Two bytes, and a trailer that is not one.
abbrev spoiled : List ℕ
spoiled = 0x44 ∷ 0x4D ∷ 0x41 ∷ 0x40 ∷ 1 ∷ 0 ∷ 0 ∷ 2 ∷ 5 ∷ 6 ∷ 0x43 ∷ 0x4D ∷ 0x50 ∷ 0 ∷ []

process_wire_messages-on_wire_example :
    process_wire_messages (on_wire (odd ∷ []) spoiled) []
    ≡ some (record { wire = drop 4 spoiled; l3_rx = 7 ∷ 8 ∷ 9 ∷ []; outcome = err bad_trailer })
unfolding next_message resync drop_to message_at whole_message starts_with find_tag
process_wire_messages-on_wire_example =
    process_wire_messages-on_wire (odd ∷ []) spoiled [] (err bad_trailer) (odd-IsArrival, tt) refl

abbrev fresh : Pipe
fresh = waiting [] 0 500

abbrev busy_port : List (ℕ × PortRead)
busy_port = (3, got (message_bytes odd.message odd.pad)) ∷ (100, timed_out) ∷ []

read_l3_bytes-FairCall_example : FairCall 2 (read_l3_bytes fresh 2 busy_port)
read_l3_bytes-FairCall_example = read_l3_bytes-FairCall fresh 2 busy_port (omega arith)

-- The first ten bytes of a message of four.
abbrev cut_short : List ℕ
cut_short = 0x4D ∷ 0x41 ∷ 0x40 ∷ 1 ∷ 0 ∷ 0 ∷ 4 ∷ 5 ∷ 6 ∷ []

read_l3_bytes-stalled_example :
    read_l3_bytes
      (waiting (0x44 ∷ cut_short) 450 500)
      8
      ((60, got (message_bytes odd.message odd.pad)) ∷ [])
    ≡ read_l3_bytes (waiting [] 0 500) 8 ((1, got (message_bytes odd.message odd.pad)) ∷ [])
unfolding next_message resync drop_to message_at whole_message starts_with find_tag
read_l3_bytes-stalled_example =
    read_l3_bytes-stalled 0x44 cut_short (message_bytes odd.message odd.pad) 450 60 500 8 1 [] refl
      (omega arith) (omega arith)

-- A port that takes one byte of the second message.
abbrev torn : Port
torn = record { writes = λ i. if i == 1 then failed_after 1 else taken; flush = ok tt }

write_l3_stream-Reads_example :
    (cs : List (List ℕ)) × (out : Sent) × (write_l3_stream_with_max torn (1 ∷ 2 ∷ 3 ∷ []) 2
      ≡ some out)
    × (concat cs ≡ 1 ∷ 2 ∷ 3 ∷ [])
    × All (IsChunk 2) cs
    × SentOutcome torn 0 cs out
write_l3_stream-Reads_example = write_l3_stream-Reads torn (1 ∷ 2 ∷ 3 ∷ []) 2

abbrev beat : Frame
beat = record {
  ty = FrameType.heartbeat;
  channel = Channel.control;
  flags = 0;
  request_id = 7;
  payload = [];
}

beat-IsSegment : IsSegment (record { noise = []; frame = beat })
unfolding find_magic starts_with
beat-IsSegment = record {
  noise_passed = quiet [] refl;
  typed = omega arith;
  wire = record { channel_valid = tt; payload_fits = omega arith };
}

-- Its sixteen bytes, in messages of five and of eleven.
abbrev beat_pieces : List (List ℕ)
beat_pieces =
    (0x4D ∷ 0x36 ∷ 0x34 ∷ 0x42 ∷ 0x20 ∷ [])
    ∷ (0x02 ∷ 0 ∷ 0 ∷ 0 ∷ 0 ∷ 0 ∷ 7 ∷ 0 ∷ 0 ∷ 0 ∷ 0 ∷ [])
    ∷ []

frames_arrive_by_x7_example :
    (q : Processed) × (process_wire_messages (on_wire (piece_messages 0xFF beat_pieces) []) []
      ≡ some q)
    × (q.outcome ≡ ok tt)
    × (push_bytes [] q.l3_rx ≡ some (drained (beat ∷ []) []))
unfolding wire_bytes FrameType.to_u8 Channel.to_u8
frames_arrive_by_x7_example =
    frames_arrive_by_x7 0xFF (record { noise = []; frame = beat } ∷ []) beat_pieces
      (beat-IsSegment, tt) (omega arith) refl
