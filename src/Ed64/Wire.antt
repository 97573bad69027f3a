-- ===== src/Ed64/Wire.antt =====
-- `WireBuffer` and `encode_message` of crates/ed64-l2/src/lib.rs. A buffer is its list of bytes.
pub mod Layout
pub mod Host
use multi.Common.{
  ℕ, zero, suc, ◌+◌, ◌-◌, ◌*◌, ◌/◌, ◌%◌, ◌^◌, min, Bool, true, false, List, [], ◌∷◌, ◌++◌, Option,
  none, some, length, drop, slice, replicate, ltb, leb, not, ◌&&◌, Result, ok, err, if◌then◌else◌,
}
use multi.Common.Bytes.{byte_at, u32_at, from_be32, to_be32}
use multi.Common.Find.{starts_with, find_tag}

-- `DMA@`
abbrev pub dma_magic : List ℕ
dma_magic = 0x44 ∷ 0x4D ∷ 0x41 ∷ 0x40 ∷ []

-- `CMPH`
abbrev pub cmp_magic : List ℕ
cmp_magic = 0x43 ∷ 0x4D ∷ 0x50 ∷ 0x48 ∷ []

abbrev pub wire_align : ℕ
wire_align = 2

abbrev pub max_message_bytes : ℕ
max_message_bytes = 0x00FF_FFFF

-- `n.div_ceil(to) * to`
abbrev pub align_up : ℕ → ℕ → ℕ
align_up n to = (n + (to - 1)) / to * to

pub record WireMessage : Type 0 where
  pub datatype : ℕ
  pub payload : List ℕ

pub data WireError : Type 0 where
  bad_trailer : WireError
  message_too_large : ℕ → WireError
  port_failed : WireError

abbrev pub at_dma : List ℕ → Bool
at_dma = starts_with 0x44 0x4D 0x41 0x40

abbrev pub find_dma : List ℕ → Option ℕ
find_dma = find_tag 0x44 0x4D 0x41 0x40

-- How many bytes are dropped, and the buffer then.
unfoldable pub drop_to : List ℕ → Option ℕ → ℕ × List ℕ
drop_to buf (some place) = (place, drop place buf)
drop_to buf none = let dropped = length buf - min 3 (length buf) in (dropped, drop dropped buf)

unfoldable pub resync : List ℕ → ℕ × List ℕ
unfolding drop_to
resync buf = if at_dma buf then (0, buf) else drop_to buf (find_dma buf)

-- How many bytes were held, and the size that a header among them gave; the buffer then.
unfoldable pub discard_partial : List ℕ → (ℕ × Option ℕ) × List ℕ
discard_partial buf =
    let size =
      if leb 8 (length buf) && at_dma buf
      then some (from_be32 0 (byte_at buf 5) (byte_at buf 6) (byte_at buf 7))
      else none in
    ((length buf, size), [])

pub record Next : Type 0 where
  pub result : Result WireError (Option WireMessage)
  pub buf : List ℕ

-- `next_message` behind its first length check, with the fields of the header.
unfoldable pub whole_message : List ℕ → ℕ → ℕ → Next
whole_message buf datatype size =
    let trailer = 8 + size in
    let total = align_up (trailer + 4) wire_align in
    if ltb (length buf) total
    then record { result = ok none; buf = buf }
    else if not (starts_with 0x43 0x4D 0x50 0x48 (slice buf trailer (trailer + 4)))
    then record { result = err bad_trailer; buf = drop 4 buf }
    else record {
      result = ok (some (record { datatype = datatype; payload = slice buf 8 trailer }));
      buf = drop total buf;
    }

-- `next_message` once `resync` has run.
unfoldable pub message_at : List ℕ → Next
unfolding whole_message
message_at buf =
    if ltb (length buf) 8
    then record { result = ok none; buf = buf }
    else whole_message buf (u32_at buf 4 / 2 ^ 24 % 2 ^ 8) (u32_at buf 4 % 2 ^ 24)

unfoldable pub next_message : List ℕ → Next
unfolding resync message_at
next_message buf = message_at (resync buf).1

unfoldable pub encode_message : ℕ → List ℕ → Result WireError (List ℕ)
encode_message datatype payload =
    let padded = align_up (length payload) wire_align in
    let head = datatype * 2 ^ 24 + length payload % 2 ^ 24 in
    if ltb max_message_bytes (length payload)
    then err (message_too_large (length payload))
    else ok (
        dma_magic
        ++ (to_be32 head ++ (payload ++ (replicate (padded - length payload) 0 ++ cmp_magic))))
