-- ===== src/L3/Stream.antt =====
-- `StreamDecoder` of crates/l3/src/decode.rs. The decoder is its buffer, a list of bytes, and
-- `emit` is the list of the frames that a call hands over, oldest first.
pub mod Rounds
pub mod Extends
pub mod Runs
pub mod Chunks
pub mod Frames
pub mod Sound
use multi.Common.{
  ℕ, zero, suc, ◌+◌, ◌-◌, min, List, [], ◌∷◌, ◌++◌, Option, none, some, length, drop, slice, ltb,
  Result, ok, err, if◌then◌else◌,
}
use multi.Common.Find.{find_tag}
use multi.L3.Consts.{header_len}
use multi.L3.Frame.{Frame}
use multi.L3.Decode.{Header, DecodeError, into_frame, parse_header}
use mathlib.Core.Option

unfoldable pub find_magic : List ℕ → Option ℕ
unfolding find_tag
find_magic buf = find_tag 0x4D 0x36 0x34 0x42 buf

-- One round of the loop of `drain_frames`: `return` with a buffer, `continue` with a buffer, or a
-- frame to emit and the buffer behind it.
pub data Round : Type 0 where
  stop : List ℕ → Round
  again : List ℕ → Round
  emit : Frame → List ℕ → Round

-- The round from `parse_header` on, with the result of that call.
unfoldable pub after_header : List ℕ → Result DecodeError Header → Round
after_header buf (err e) = again (drop 1 buf)
after_header buf (ok header) =
    let total = header_len + header.payload_len in
    if ltb (length buf) total
    then stop buf
    else emit (into_frame header (slice buf header_len total)) (drop total buf)

-- The round on a buffer that begins with the magic.
unfoldable pub at_magic : List ℕ → Round
unfolding after_header
at_magic buf = if ltb (length buf) header_len then stop buf else after_header buf (parse_header buf)

-- `(MAGIC.len() - 1).min(buf.len())` bytes are kept where no magic is found.
unfoldable pub without_magic : List ℕ → Round
without_magic buf = stop (drop (length buf - min 3 (length buf)) buf)

unfoldable pub from_magic : List ℕ → Option ℕ → Round
unfolding without_magic at_magic
from_magic buf none = without_magic buf
from_magic buf (some magic_pos) = at_magic (if ltb 0 magic_pos then drop magic_pos buf else buf)

unfoldable pub round : List ℕ → Round
unfolding from_magic find_magic
round buf = from_magic buf (find_magic buf)

pub record Drained : Type 0 where
  pub frames : List Frame
  pub buf : List ℕ

abbrev pub emitting : Frame → Option Drained → Option Drained
emitting f = Option.map λ d. record { frames = f ∷ d.frames; buf = d.buf }

-- The loop of `drain_frames`; `none` means that the fuel ran out.
unfoldable pub drain_frames : ℕ → List ℕ → Option Drained
drain_frames zero buf = none
drain_frames (suc fuel) buf = elim (round buf) [
  | stop rest ↦ some (record { frames = []; buf = rest })
  | again rest ↦ drain_frames fuel rest
  | emit frame rest ↦ emitting frame (drain_frames fuel rest)
]

-- Each round but the last drops a byte at least.
unfoldable pub push_bytes : List ℕ → List ℕ → Option Drained
unfolding drain_frames
push_bytes buf chunk = drain_frames (suc (length (buf ++ chunk))) (buf ++ chunk)
