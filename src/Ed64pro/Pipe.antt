-- ===== src/Ed64pro/Pipe.antt =====
-- `Ed64ProL2Pipe` of crates/ed64pro-l2/src/lib.rs: L3 bytes written to the ROM's FIFO. Time is a number; before the
-- `i`-th chunk of a call and while it is written, some of it passes.
pub mod Writing
use multi.Common.{
  ℕ, suc, ◌+◌, List, [], ◌∷◌, Option, none, some, Result, ok, err, ltb, if◌then◌else◌,
}
use multi.Common.Chunks.{chunks}
use multi.Ed64pro.Link.{Link, Error}
use multi.Ed64pro.Device.{fifo_write}

abbrev pub rom_fifo_capacity : ℕ
rom_fifo_capacity = 2048

abbrev pub default_fifo_chunk : ℕ
default_fifo_chunk = 1024

pub record Pipe : Type 0 where
  pub chunk_gap : ℕ
  pub next_write_at : Option ℕ

-- When a chunk began to be written, and when it had been.
abbrev pub Slot : Type 0
Slot = ℕ × ℕ

-- What passes before a chunk, and while it is written.
abbrev pub Delays : Type 0
Delays = ℕ → ℕ × ℕ

-- The time after the sleep, if there is one.
abbrev pub wake_at : Option ℕ → ℕ → ℕ
wake_at none now = now
wake_at (some at) now = if ltb now at then at else now

-- How a call ended, the device and the pipe that it left, and the slots of the chunks that it wrote.
pub record Call : Type 0 where
  pub outcome : Result Error (Unit {0})
  pub dev : Link
  pub pipe : Pipe
  pub slots : List Slot

-- What is left of a call after its next chunk: the rest of it, or the error (`?`).
abbrev pub after_write : Result Error (Unit {0}) × Link → Pipe → Slot → Call → Call
after_write (ok t, l) p slot rest = record rest { slots = slot ∷ rest.slots }
after_write (err e, l) p slot rest = record { outcome = err e; dev = l; pipe = p; slots = [] }

-- The loop over the chunks from the `i`-th.
unfoldable pub write_chunks : Delays → ℕ → Pipe → ℕ → List (List ℕ) → Link → Call
write_chunks delays i p now [] l = record { outcome = ok tt; dev = l; pipe = p; slots = [] }
write_chunks delays i p now (c ∷ cs) l =
    let begin = wake_at p.next_write_at (now + (delays i).0) in
    let done = begin + (delays i).1 in
    after_write (fifo_write c l) p (begin, done)
      (write_chunks delays (suc i) (record p { next_write_at = some (done + p.chunk_gap) }) done cs
        (fifo_write c l).1)

-- `clamp(1, ROM_FIFO_CAPACITY)`.
abbrev pub clamp : ℕ → ℕ
clamp n = if ltb n 1 then 1 else if ltb rom_fifo_capacity n then rom_fifo_capacity else n

-- `chunks` of a size that is not 0 does not fail.
abbrev pub write_cut : Delays → Pipe → ℕ → Option (List (List ℕ)) → Link → Call
write_cut delays p now none l = record { outcome = ok tt; dev = l; pipe = p; slots = [] }
write_cut delays p now (some cs) l = write_chunks delays 0 p now cs l

unfoldable pub write_l3_stream_with_max : Delays → Pipe → ℕ → List ℕ → ℕ → Link → Call
write_l3_stream_with_max delays p now buf max_chunk l =
    write_cut delays p now (chunks (clamp max_chunk) buf) l

unfoldable pub write_l3_stream : Delays → Pipe → ℕ → List ℕ → Link → Call
write_l3_stream delays p now buf l = write_l3_stream_with_max delays p now buf default_fifo_chunk l
