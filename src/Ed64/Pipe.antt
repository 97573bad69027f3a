-- ===== src/Ed64/Pipe.antt =====
-- `process_wire_messages` and the two sides of `Ed64L2Pipe` (crates/ed64-l2/src/lib.rs). The serial
-- port is the list of what its next reads answer, each with the time it took; where the list ends
-- they time out at once. Times are in milliseconds. What is written is what the port takes of the messages.
pub mod Delivery
pub mod Writing
pub mod Reading
use multi.Common.{
  ℕ, zero, suc, ◌+◌, Bool, true, false, List, [], ◌∷◌, ◌++◌, Option, none, some, length, take, drop,
  min, ltb, Result, ok, err, ◌>>=◌, ◌>>◌, ◌==◌, if◌then◌else◌,
}
use multi.Common.Chunks.{chunks}
use multi.Ed64.Wire.{
  WireMessage, WireError, port_failed, Next, next_message, discard_partial, encode_message,
  max_message_bytes,
}

abbrev pub multi64_l3_type : ℕ
multi64_l3_type = 0x01

abbrev pub partial_message_stall : ℕ
partial_message_stall = 500

unfoldable pub take_message : List ℕ → WireMessage → List ℕ
take_message l3_rx m = if m.datatype == multi64_l3_type then l3_rx ++ m.payload else l3_rx

pub record Processed : Type 0 where
  pub wire : List ℕ
  pub l3_rx : List ℕ
  pub outcome : Result WireError (Unit {0})

-- The `while let` loop; `none` means that the fuel ran out.
unfoldable pub process_loop : ℕ → List ℕ → List ℕ → Option Processed
unfolding take_message
process_loop zero wire l3_rx = none
process_loop (suc fuel) wire l3_rx =
    let next = next_message wire in
    elim next.result [
      | err e ↦ some (record { wire = next.buf; l3_rx = l3_rx; outcome = err e })
      | ok none ↦ some (record { wire = next.buf; l3_rx = l3_rx; outcome = ok tt })
      | ok (some m) ↦ process_loop fuel next.buf (take_message l3_rx m)
    ]

-- Each message takes twelve bytes at least.
unfoldable pub process_wire_messages : List ℕ → List ℕ → Option Processed
unfolding process_loop
process_wire_messages wire l3_rx = process_loop (suc (length wire)) wire l3_rx

pub record Pipe : Type 0 where
  pub wire : List ℕ
  pub l3_rx : List ℕ
  pub pending_err : Option WireError
  pub quiet : ℕ
  pub stall : ℕ

pub data PortRead : Type 0 where
  got : List ℕ → PortRead
  timed_out failed : PortRead

-- The bytes that a call wrote to the front of `out`, or its error; the pipe, and the reads left.
pub record Read : Type 0 where
  pub answer : Result WireError (List ℕ)
  pub pipe : Pipe
  pub port : List (ℕ × PortRead)

abbrev pub pending_of : Result WireError (Unit {0}) → Option WireError → Option WireError
pending_of (ok t) was = was
pending_of (err e) was = some e

-- The pipe when what `wire` holds has been processed.
unfoldable pub parse_held : Pipe → Option Pipe
parse_held p = elim (process_wire_messages p.wire p.l3_rx) [
  | none ↦ none
  | some q ↦ some (record p {
    wire = q.wire;
    l3_rx = q.l3_rx;
    pending_err = pending_of q.outcome p.pending_err;
  })
]

-- `if !self.wire.buf.is_empty()` before a read
unfoldable pub parse_unread : Pipe → List ℕ → Option Pipe
unfolding parse_held
parse_unread p [] = some p
parse_unread p (b ∷ bs) = parse_held p

-- The pipe when `scratch` has been pushed and processed.
unfoldable pub receive : Pipe → List ℕ → Option Pipe
unfolding parse_held
receive p scratch = parse_held (record p { wire = p.wire ++ scratch; quiet = 0 })

unfoldable pub count_waited : Pipe → ℕ → List ℕ → Pipe
unfolding discard_partial
count_waited p waited [] = record p { quiet = 0 }
count_waited p waited (b ∷ bs) =
    if ltb (p.quiet + waited) p.stall
    then record p { quiet = p.quiet + waited }
    else record p { quiet = 0; wire = (discard_partial (b ∷ bs)).1 }

unfoldable pub count_quiet : Pipe → ℕ → Pipe
unfolding count_waited
count_quiet p waited = count_waited p waited p.wire

-- What the loop hands out with no read: queued bytes first, then a held error.
unfoldable pub hand_out : Pipe → ℕ → List (ℕ × PortRead) → List ℕ → Option WireError → Option Read
hand_out p room port (b ∷ bs) held =
    let n = min (length (b ∷ bs)) room in
    some (record {
      answer = ok (take n (b ∷ bs));
      pipe = record p { l3_rx = drop n (b ∷ bs) };
      port = port;
    })
hand_out p room port [] (some e) =
    some (record { answer = err e; pipe = record p { pending_err = none }; port = port })
hand_out p room port [] none = none

-- What the loop hands out at its head.
abbrev pub offer : Pipe → ℕ → List (ℕ × PortRead) → Option Read
offer p room port = hand_out p room port p.l3_rx p.pending_err

abbrev pub ends : Result WireError (List ℕ) → Pipe → List (ℕ × PortRead) → Option Read
ends answer p port = some (record { answer = answer; pipe = p; port = port })

-- How a round of the loop stands before its read: it has an answer, or reads with this pipe.
pub data Ready : Type 0 where
  answered : Read → Ready
  reads : Pipe → Ready
  stuck : Ready

abbrev pub or_reads : Option Read → Pipe → Ready
or_reads (some r) p = answered r
or_reads none p = reads p

-- A round that parsed something before its read goes on to the next one, which hands that out.
unfoldable pub ready : Pipe → ℕ → List (ℕ × PortRead) → Ready
unfolding hand_out parse_unread
ready p room port = elim (offer p room port) [
  | some r ↦ answered r
  | none ↦ elim (parse_unread p p.wire) [ none ↦ stuck | some q ↦ or_reads (offer q room port) q ]
]

-- The loop, a round for each read of the port.
unfoldable pub read_loop : Pipe → ℕ → List (ℕ × PortRead) → Option Read
unfolding ready receive count_quiet
read_loop p room [] = elim (ready p room []) [
  | answered r ↦ some r
  | stuck ↦ none
  | reads q ↦ ends (ok []) (count_quiet q 0) []
]
read_loop p room ((waited, read) ∷ port) = elim (ready p room ((waited, read) ∷ port)) [
  | answered r ↦ some r
  | stuck ↦ none
  | reads q ↦ elim read [
    | timed_out ↦ ends (ok []) (count_quiet q waited) port
    | failed ↦ ends (err port_failed) (count_quiet q waited) port
    | got bytes ↦ elim bytes [
      | [] ↦ ends (ok []) (count_quiet q waited) port
      | b ∷ bs ↦ elim (receive (count_quiet q waited) (b ∷ bs)) [
        | none ↦ none
        | some next ↦ read_loop next room port
      ]
    ]
  ]
]

unfoldable pub read_l3_bytes : Pipe → ℕ → List (ℕ × PortRead) → Option Read
unfolding read_loop
read_l3_bytes p room port = if room == 0 then ends (ok []) p port else read_loop p room port

-- How the port takes what is written: a `write_all` may fail after some of its bytes.
pub data PortWrite : Type 0 where
  taken : PortWrite
  failed_after : ℕ → PortWrite

-- What becomes of the `i`-th `write_all` of a call, and of its `flush`.
pub record Port : Type 0 where
  pub writes : ℕ → PortWrite
  pub flush : Result WireError (Unit {0})

-- The bytes that the port took, and how the call ended.
pub record Sent : Type 0 where
  pub bytes : List ℕ
  pub outcome : Result WireError (Unit {0})

abbrev pub write_all : PortWrite → List ℕ → Sent → Sent
write_all taken m rest = record { bytes = m ++ rest.bytes; outcome = rest.outcome }
write_all (failed_after n) m rest = record { bytes = take n m; outcome = err port_failed }

abbrev pub write_encoded : PortWrite → Result WireError (List ℕ) → Sent → Sent
write_encoded w (err e) rest = record { bytes = []; outcome = err e }
write_encoded w (ok m) rest = write_all w m rest

-- The loop over the chunks from the `i`-th, and the flush behind it.
unfoldable pub write_messages : Port → ℕ → List (List ℕ) → Sent
unfolding encode_message
write_messages port i [] = record { bytes = []; outcome = port.flush }
write_messages port i (c ∷ cs) =
    write_encoded (port.writes i) (encode_message multi64_l3_type c)
      (write_messages port (suc i) cs)

-- `max_chunk.clamp(1, MAX_MESSAGE_BYTES)`
abbrev pub clamped : ℕ → ℕ
clamped n = if ltb n 1 then 1 else min n max_message_bytes

abbrev pub write_cut : Port → Option (List (List ℕ)) → Option Sent
write_cut port none = none
write_cut port (some cs) = some (write_messages port 0 cs)

-- `none` would be the panic of `chunks(0)`.
unfoldable pub write_l3_stream_with_max : Port → List ℕ → ℕ → Option Sent
unfolding write_messages
write_l3_stream_with_max port buf max_chunk = write_cut port (chunks (clamped max_chunk) buf)
