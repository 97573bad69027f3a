-- ===== src/Sc64/Examples.antt =====
-- Packets at concrete bytes: tests, and the theorems at these inputs.
use multi.Common.{ℕ, ◌≡◌, refl, true, List, [], ◌∷◌, ◌++◌, none, some, ok, arith, All}
use multi.Sc64.Wire.{cmp, pkt, CmpResponse, PktPacket, next_event, round}
use multi.Sc64.Wire.Pops.{popped, next_event-append}
use multi.Sc64.Wire.Layout.{event_bytes}
use multi.Sc64.Write.{usb_write_l3_stream, usb_write_l3_chunk}
use multi.Sc64.Write.Stream.{write_packets}
use multi.Common.Chunks.{chunks, chunk_loop}
use multi.Sc64.Pipe.{Pipe, Processed, process_wire_events, connection_reset}
use multi.Sc64.Pipe.Delivery.{Arrival, IsArrival, on_wire}
use multi.Sc64.Bridge.{data_packet, data_packets, frames_arrive}
use multi.L3.Stream.{push_bytes, find_magic}
use multi.L3.Stream.Runs.{drained}
use multi.L3.Stream.Frames.{Segment, IsSegment, quiet}
use multi.Common.Find.{starts_with}
use multi.L3.Frame.{Frame}
use multi.L3.Encode.{wire_bytes}
use multi.L3.FrameType
use multi.L3.Channel

abbrev identifier : CmpResponse
identifier = record { accepted = true; cmd_id = b'v'; contents = 0x53 ∷ 0x43 ∷ 0x76 ∷ 0x32 ∷ [] }

abbrev button : PktPacket
button = record { id = b'B'; contents = [] }

-- A `PKT` tag whose length no packet can have.
abbrev oversized : List ℕ
oversized = b'P' ∷ b'K' ∷ b'T' ∷ b'U' ∷ 0x20 ∷ 0 ∷ 0 ∷ 0 ∷ []

after_oversized :
    next_event (oversized ++ event_bytes (cmp identifier))
    ≡ some (popped (some (cmp identifier)) [])
unfolding next_event round
after_oversized = refl

next_event-append_example :
    next_event (b'C' ∷ b'M' ∷ 1 ∷ 2 ∷ []) ≡ next_event (b'C' ∷ b'M' ∷ 1 ∷ 2 ∷ [])
unfolding next_event round
next_event-append_example =
    next_event-append (b'C' ∷ b'M' ∷ []) (b'C' ∷ b'M' ∷ []) (1 ∷ 2 ∷ []) none refl

written :
    usb_write_l3_stream (1 ∷ 2 ∷ 3 ∷ []) 2 ≡ some (write_packets ((1 ∷ 2 ∷ []) ∷ (3 ∷ []) ∷ []))
unfolding usb_write_l3_stream chunks chunk_loop usb_write_l3_chunk
written = refl

abbrev arrivals : List Arrival
arrivals = record { noise = []; event = cmp identifier } ∷ data_packet (5 ∷ 6 ∷ []) ∷ []

abbrev flushed : Arrival
flushed = record { noise = []; event = pkt (record { id = b'G'; contents = [] }) }

arrivals-IsArrival : All IsArrival arrivals
arrivals-IsArrival =
    (record { fits = omega arith; passed = tt }, (record { fits = omega arith; passed = tt }, tt))

abbrev held_pipe : Pipe
held_pipe = record { wire = []; l3_rx = 4 ∷ []; pending_err = some connection_reset }

abbrev beat : Frame
beat = record {
  ty = FrameType.heartbeat;
  channel = Channel.control;
  flags = 0;
  request_id = 7;
  payload = [];
}

abbrev beat_segment : Segment
beat_segment = record { noise = []; frame = beat }

beat-IsSegment : IsSegment beat_segment
unfolding find_magic starts_with
beat-IsSegment = record {
  noise_passed = quiet [] refl;
  typed = omega arith;
  wire = record { channel_valid = tt; payload_fits = omega arith };
}

-- Its sixteen bytes, cut inside the header.
abbrev beat_pieces : List (List ℕ)
beat_pieces =
    (0x4D ∷ 0x36 ∷ 0x34 ∷ 0x42 ∷ 0x20 ∷ [])
    ∷ (0x02 ∷ 0 ∷ 0 ∷ 0 ∷ 0 ∷ 0 ∷ 7 ∷ 0 ∷ 0 ∷ 0 ∷ 0 ∷ [])
    ∷ []

frames_arrive_example :
    (q : Processed) × (process_wire_events (on_wire (data_packets beat_pieces) []) [] ≡ some q)
    × (q.outcome ≡ ok tt)
    × (push_bytes [] q.l3_rx ≡ some (drained (beat ∷ []) []))
unfolding wire_bytes FrameType.to_u8 Channel.to_u8
frames_arrive_example =
    frames_arrive (beat_segment ∷ []) beat_pieces (beat-IsSegment, tt) (omega arith) refl
