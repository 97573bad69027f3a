-- ===== src/Sc64/Write/Stream.antt =====
-- L3 bytes to the cart and back.
use multi.Common.{
  ℕ, ◌/◌, ◌%◌, ◌^◌, ◌≤◌, ◌<◌, ◌≡◌, refl, ap, List, [], ◌∷◌, ◌++◌, some, length, map, arith, All,
  length-append, take-length_append,
}
use multi.Common.Bytes.{to_be32}
use multi.Sc64.Write.{
  multi64_l3_type, usb_write_l3_chunk, usb_write_l3_stream, pkt_u_multi64_l3_payload,
}
use multi.Common.Chunks.{concat, IsChunk, chunks_lem}

-- The packet for a chunk: `CMDU`, the datatype and the length in four bytes each, the chunk.
abbrev pub write_packet : List ℕ → List ℕ
write_packet c = b'C' ∷ b'M' ∷ b'D' ∷ b'U' ∷ (to_be32 1 ++ (to_be32 (length c) ++ c))

abbrev pub write_packets : List (List ℕ) → List (List ℕ)
write_packets [] = []
write_packets (c ∷ cs) = write_packet c ∷ write_packets cs

map-write_packets :
    (n : ℕ) (cs : List (List ℕ))
    → n < 2 ^ 32
    → All (IsChunk n) cs
    → map usb_write_l3_chunk cs ≡ write_packets cs
unfolding usb_write_l3_chunk
map-write_packets n [] h v = refl
map-write_packets n (c ∷ cs) h v =
    let fits : length c % 2 ^ 32 ≡ length c = omega arith in rw (fits, map-write_packets n cs h v.1)

-- With a chunk size that is a u32 and not 0, the bytes of a stream go out in `USB_WRITE` commands, one
-- for each chunk: the chunks are not empty, none is longer than the size, and they are the stream in
-- order.
pub usb_write_l3_stream_lem :
    (payload : List ℕ) (n : ℕ)
    → n < 2 ^ 32
    → 1 ≤ n
    → (cs : List (List ℕ)) × (usb_write_l3_stream payload n ≡ some (write_packets cs))
      × (concat cs ≡ payload)
      × All (IsChunk n) cs
unfolding usb_write_l3_stream
usb_write_l3_stream_lem payload n h p =
    let (cs, e, whole, parts) = chunks_lem n payload p in
    (cs, rw e (ap some (map-write_packets n cs h parts)), whole, parts)

-- The inside of a `PKT` `U` that carries L3 bytes: the datatype, the length in three bytes, the bytes.
abbrev pub pkt_u_bytes : List ℕ → List ℕ
pkt_u_bytes l3 =
    multi64_l3_type ∷ (length l3 / 65536) ∷ (length l3 / 256 % 256) ∷ (length l3 % 256) ∷ l3

pub pkt_u-bytes :
    (l3 rest : List ℕ)
    → length l3 < 2 ^ 24
    → pkt_u_multi64_l3_payload (pkt_u_bytes l3 ++ rest) ≡ some l3
unfolding pkt_u_multi64_l3_payload
pkt_u-bytes l3 rest h =
    ground (arith, take-length_append (length l3) l3 rest, length-append l3 rest)
