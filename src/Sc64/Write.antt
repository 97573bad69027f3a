-- ===== src/Sc64/Write.antt =====
-- Commands to the cart (crates/sc64-link/src/lib.rs), and the L3 bytes inside a `PKT`.
pub mod Stream
use multi.Common.{
  ℕ, zero, suc, ◌+◌, ◌*◌, ◌-◌, ◌%◌, ◌^◌, List, [], ◌∷◌, ◌++◌, Option, none, some, length, take,
  drop, slice, map, ltb, ◌==◌, not, if◌then◌else◌,
}
use mathlib.Core.Option
use multi.Common.Chunks.{chunks}
use multi.Common.Bytes.{byte_at, to_be32}

abbrev pub multi64_l3_type : ℕ
multi64_l3_type = 0x01

unfoldable pub cmd_packet : ℕ → ℕ → ℕ → List ℕ → List ℕ
cmd_packet cmd_id arg0 arg1 payload =
    b'C' ∷ b'M' ∷ b'D' ∷ cmd_id ∷ (to_be32 arg0 ++ (to_be32 arg1 ++ payload))

unfoldable pub usb_write_l3_chunk : List ℕ → List ℕ
unfolding cmd_packet
usb_write_l3_chunk chunk = cmd_packet b'U' multi64_l3_type (length chunk % 2 ^ 32) chunk

unfoldable pub usb_write_l3_stream : List ℕ → ℕ → Option (List (List ℕ))
usb_write_l3_stream payload max_chunk =
    Option.map (map usb_write_l3_chunk) (chunks max_chunk payload)

-- `saturating_add` cannot saturate here: the length has 24 bits.
unfoldable pub pkt_u_multi64_l3_payload : List ℕ → Option (List ℕ)
pkt_u_multi64_l3_payload pkt_u =
    if ltb (length pkt_u) 4
    then none
    else if not (byte_at pkt_u 0 == multi64_l3_type)
    then none
    else let end = 4 + ((byte_at pkt_u 1 * 65536 + byte_at pkt_u 2 * 256) + byte_at pkt_u 3) in
      if ltb (length pkt_u) end then none else some (slice pkt_u 4 end)
