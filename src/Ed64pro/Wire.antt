-- ===== src/Ed64pro/Wire.antt =====
-- crates/ed64pro-link/src/wire.rs.
pub mod Fs
use Prim.Native.Nat.{bit_xor, bit_and}
use multi.Common.{
  ℕ, ◌%◌, ◌^◌, List, [], ◌∷◌, ◌++◌, Option, none, some, Bool, length, not, leb, ◌==◌, if◌then◌else◌,
}
use multi.Common.Bytes.{to_be16, to_be32, u16_at, u32_at, byte_at}

abbrev pub status_key : ℕ
status_key = 0x5A

abbrev pub status_key_legacy : ℕ
status_key_legacy = 0xA5

abbrev pub protocol_id_n64 : ℕ
protocol_id_n64 = 0x07

abbrev pub device_id_ed64_pro : ℕ
device_id_ed64_pro = 0x27

abbrev pub protocol_id_mega : ℕ
protocol_id_mega = 0x05

abbrev pub protocol_id_n8 : ℕ
protocol_id_n8 = 0x06

abbrev pub cmd_status : ℕ
cmd_status = 0x10

abbrev pub cmd_nresp : ℕ
cmd_nresp = 0x13

abbrev pub cmd_status2 : ℕ
cmd_status2 = 0x40

abbrev pub cmd_fs : ℕ
cmd_fs = 0x80

abbrev pub cmd_epo : ℕ
cmd_epo = 0x81

abbrev pub epo_scmd_xfer : ℕ
epo_scmd_xfer = 0x10

abbrev pub ack_block : ℕ
ack_block = 1024

abbrev pub max_write_block : ℕ
max_write_block = 4096

abbrev pub wake_zeros : ℕ
wake_zeros = 66

abbrev pub fifo_addr : ℕ
fifo_addr = 0x1001_0000

abbrev pub attr_dir : ℕ
attr_dir = 0x10

pub data Endpoint : Type 0 where
  link link_ack file memory : Endpoint

abbrev pub endpoint_code : Endpoint → ℕ
endpoint_code link = 0x10
endpoint_code link_ack = 0x11
endpoint_code file = 0x12
endpoint_code memory = 0x13

abbrev pub cmd_frame : ℕ → List ℕ
cmd_frame cmd = b'+' ∷ bit_xor b'+' 0xFF ∷ cmd ∷ bit_xor cmd 0xFF ∷ []

abbrev pub scmd_frame : ℕ → ℕ → List ℕ
scmd_frame cmd scmd = b'+' ∷ bit_xor b'+' 0xFF ∷ cmd ∷ bit_xor cmd 0xFF ∷ scmd ∷ []

-- The string is its bytes.
unfoldable pub string_field : List ℕ → Option (List ℕ)
string_field s = if leb (length s) 65535 then some (to_be16 (length s) ++ s) else none

-- The last three bytes are the reserved u16 and the byte that starts the transfer.
abbrev pub epo_xfer : Endpoint → Endpoint → ℕ → ℕ → ℕ → List ℕ
epo_xfer src dst src_addr dst_addr len =
    to_be32 src_addr
    ++ (to_be32 dst_addr
        ++ (to_be32 len ++ (endpoint_code src ∷ endpoint_code dst ∷ 0 ∷ 0 ∷ 0 ∷ [])))

pub record FileInfo : Type 0 where
  pub size : ℕ
  pub date : ℕ
  pub time : ℕ
  pub attributes : ℕ
  pub name : List ℕ

abbrev pub is_dir : FileInfo → Bool
is_dir f = not (bit_and f.attributes attr_dir == 0)

abbrev pub file_info_head : List ℕ → ℕ × ℕ × ℕ × ℕ
file_info_head b = (u32_at b 0, u16_at b 4, u16_at b 6, byte_at b 8)
