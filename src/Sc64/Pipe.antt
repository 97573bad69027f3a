-- ===== src/Sc64/Pipe.antt =====
-- `process_wire_events` and the receiving side of `Sc64L2Pipe` (crates/sc64-l2/src/lib.rs). The serial
-- port is the list of what its next reads answer; where the list ends they time out.
pub mod Delivery
pub mod Reading
use multi.Common.{
  ℕ, zero, suc, ◌+◌, Bool, true, false, List, [], ◌∷◌, ◌++◌, Option, none, some, length, drop, take,
  Result, ok, err, ◌==◌, if◌then◌else◌, min,
}
use multi.Sc64.Wire.{WireEvent, cmp, pkt, Popped, next_event}
use multi.Sc64.Write.{pkt_u_multi64_l3_payload}

pub data IoError : Type 0 where
  connection_reset port_failed : IoError

-- `l3_rx.extend(l3)` if the packet carries L3 bytes.
unfoldable pub extend_rx : List ℕ → Option (List ℕ) → List ℕ
extend_rx l3_rx none = l3_rx
extend_rx l3_rx (some l3) = l3_rx ++ l3

-- What one event does to the queue: `b'U'` is data, `b'G'` the report that data was flushed.
unfoldable pub take_event : List ℕ → WireEvent → Result IoError (List ℕ)
unfolding extend_rx
take_event l3_rx (cmp c) = ok l3_rx
take_event l3_rx (pkt p) =
    if p.id == b'U'
    then ok (extend_rx l3_rx (pkt_u_multi64_l3_payload p.contents))
    else if p.id == b'G'
    then err connection_reset
    else ok l3_rx

pub record Processed : Type 0 where
  pub wire : List ℕ
  pub l3_rx : List ℕ
  pub outcome : Result IoError (Unit {0})

-- The `while let` loop; `none` means that the fuel ran out.
unfoldable pub process_loop : ℕ → List ℕ → List ℕ → Option Processed
process_loop zero wire l3_rx = none
process_loop (suc fuel) wire l3_rx = elim (next_event wire) [
  | none ↦ none
  | some p ↦ elim p.result [
    | none ↦ some (record { wire = p.buf; l3_rx = l3_rx; outcome = ok tt })
    | some e ↦ elim (take_event l3_rx e) [
      | ok l3_rx' ↦ process_loop fuel p.buf l3_rx'
      | err x ↦ some (record { wire = p.buf; l3_rx = l3_rx; outcome = err x })
    ]
  ]
]

-- Each event takes eight bytes at least.
unfoldable pub process_wire_events : List ℕ → List ℕ → Option Processed
unfolding process_loop
process_wire_events wire l3_rx = process_loop (suc (length wire)) wire l3_rx

pub record Pipe : Type 0 where
  pub wire : List ℕ
  pub l3_rx : List ℕ
  pub pending_err : Option IoError

pub data PortRead : Type 0 where
  got : List ℕ → PortRead
  timed_out failed : PortRead

-- The bytes that a call wrote to the front of `out`, or its error; the pipe, and the reads left.
pub record Read : Type 0 where
  pub answer : Result IoError (List ℕ)
  pub pipe : Pipe
  pub port : List PortRead

abbrev pub pending_of : Result IoError (Unit {0}) → Option IoError → Option IoError
pending_of (ok t) was = was
pending_of (err e) was = some e

-- The pipe when `scratch` has been pushed and processed.
unfoldable pub receive : Pipe → List ℕ → Option Pipe
receive p scratch = elim (process_wire_events (p.wire ++ scratch) p.l3_rx) [
  | none ↦ none
  | some q ↦
      some (record {
        wire = q.wire;
        l3_rx = q.l3_rx;
        pending_err = pending_of q.outcome p.pending_err;
      })
]

-- What the loop hands out with no read: queued bytes first, then a held error.
unfoldable pub hand_out : Pipe → ℕ → List PortRead → List ℕ → Option IoError → Option Read
hand_out p room port (b ∷ bs) held =
    let n = min (length (b ∷ bs)) room in
    some (record {
      answer = ok (take n (b ∷ bs));
      pipe = record p { l3_rx = drop n (b ∷ bs) };
      port = port;
    })
hand_out p room port [] (some e) =
    some (record { answer = err e; pipe = record p { pending_err = none }; port = port })
hand_out p room port [] none = none

-- The loop of `read_l3_bytes`, a round for each read of the port.
unfoldable pub read_loop : Pipe → ℕ → List PortRead → Option Read
read_loop p room [] = elim (hand_out p room [] p.l3_rx p.pending_err) [
  | some r ↦ some r
  | none ↦ some (record { answer = ok []; pipe = p; port = [] })
]
read_loop p room (read ∷ port) = elim (hand_out p room (read ∷ port) p.l3_rx p.pending_err) [
  | some r ↦ some r
  | none ↦ elim read [
    | timed_out ↦ some (record { answer = ok []; pipe = p; port = port })
    | failed ↦ some (record { answer = err port_failed; pipe = p; port = port })
    | got bytes ↦ elim bytes [
      | [] ↦ some (record { answer = ok []; pipe = p; port = port })
      | b ∷ bs ↦ elim (receive p (b ∷ bs)) [ none ↦ none | some q ↦ read_loop q room port ]
    ]
  ]
]

unfoldable pub read_l3_bytes : Pipe → ℕ → List PortRead → Option Read
unfolding read_loop
read_l3_bytes p room port =
    if room == 0
    then some (record { answer = ok []; pipe = p; port = port })
    else read_loop p room port
