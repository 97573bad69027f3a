-- ===== src/Ed64pro/Device.antt =====
-- `Ed64Pro` of crates/ed64pro-link/src/device.rs. An operation's `buf` is its length, and what it filled
-- in is its result. A path is its bytes, and so is a string; `from_utf8_lossy` of Rust's `String` is a parameter.
pub mod Sending
pub mod Steps
pub mod Connecting
pub mod Records
pub mod Transfers
pub mod Failing
use multi.Common.{
  ℕ, zero, suc, ◌+◌, ◌-◌, ◌*◌, ◌%◌, ◌^◌, ◌≤◌, min, List, [], ◌∷◌, ◌++◌, Option, none, some, length,
  take, drop, replicate, Result, ok, err, Bool, true, false, ltb, leb, not, ◌==◌, ◌&&◌, ◌||◌,
  if◌then◌else◌,
}
use multi.Common.Bytes.{to_be16, to_be32, byte_at, u16_at, u32_at}
use multi.Common.Chunks.{chunks}
use multi.Ed64pro.Wire.{
  status_key, status_key_legacy, protocol_id_n64, device_id_ed64_pro, protocol_id_mega,
  protocol_id_n8, cmd_status, cmd_nresp, cmd_status2, cmd_fs, cmd_epo, epo_scmd_xfer, ack_block,
  max_write_block, wake_zeros, fifo_addr, Endpoint, link, link_ack, file, memory, cmd_frame,
  scmd_frame, string_field, epo_xfer, FileInfo, file_info_head,
}
use multi.Ed64pro.Wire.Fs
use multi.Ed64pro.Link.{
  Link, M, Error, io, timed_out, invalid_input, unexpected_status_key, other_console,
  wrong_protocol, wrong_device, operation, bad_ack, path_too_long, pure, fail, ◌>>=◌, ◌>>◌, fail_if,
  ignore, set_timeout, write_all, flush, clear_input, read_exact,
}

abbrev pub open_timeout : ℕ
open_timeout = 200

abbrev pub operation_timeout : ℕ
operation_timeout = 2000

abbrev pub max_name_len : ℕ
max_name_len = 1023

pub record Identity : Type 0 where
  pub protocol_id : ℕ
  pub device_id : ℕ
  pub status : ℕ

abbrev pub block_len : ℕ → ℕ
block_len rest = if min rest max_write_block == 512 then 256 else min rest max_write_block

-- The loop of `send`. Each block takes a byte at least, so that as much fuel as there are bytes is enough.
unfoldable pub send_loop : ℕ → List ℕ → M (Unit {0})
send_loop zero rest = pure tt
send_loop (suc fuel) [] = pure tt
send_loop (suc fuel) (b ∷ bs) = do
  let n = block_len (length (b ∷ bs))
  write_all (take n (b ∷ bs))
  send_loop fuel (drop n (b ∷ bs))

unfoldable pub send : List ℕ → M (Unit {0})
unfolding send_loop
send bytes = do send_loop (length bytes) bytes; flush

unfoldable pub identity : M Identity
unfolding send
identity = do
  send (cmd_frame cmd_status)
  id ← read_exact 4
  fail_if (not (byte_at id 0 == status_key)) (unexpected_status_key (byte_at id 0))
  fail_if (not (byte_at id 1 == protocol_id_n64)) (wrong_protocol (byte_at id 1))
  pure (record { protocol_id = byte_at id 1; device_id = byte_at id 2; status = byte_at id 3 })

-- The first two bytes of the answer to the probe name a cart of another kind, or not.
unfoldable pub check_head : List ℕ → M (Unit {0})
check_head head =
    if byte_at head 0 == status_key
    then pure tt
    else if byte_at head 0 == status_key_legacy || byte_at head 1 == status_key_legacy
    then fail (other_console (byte_at head 1))
    else fail (unexpected_status_key (byte_at head 0))

-- A cart of the older generation answers both commands of the probe.
unfoldable pub check_generation : List ℕ → M (Unit {0})
check_generation head =
    if byte_at head 1 == protocol_id_mega || byte_at head 1 == protocol_id_n8
    then (do ignore (read_exact 2); fail (other_console (byte_at head 1)))
    else pure tt

unfoldable pub connect : M (Unit {0})
unfolding check_head check_generation identity
connect = do
  set_timeout open_timeout
  write_all (replicate wake_zeros 0)
  flush
  clear_input
  write_all (cmd_frame cmd_status2 ++ cmd_frame cmd_status)
  flush
  head ← read_exact 2
  check_head head
  tail ← read_exact 2
  check_generation head
  id ← identity
  fail_if (not (id.device_id == device_id_ed64_pro)) (wrong_device id.device_id)
  set_timeout operation_timeout

-- `check_status` once the status is there.
unfoldable pub report_status : ℕ → M (Unit {0})
unfolding send
report_status status = if status == 0 then pure tt else (do
  send (cmd_frame cmd_nresp ++ (status ∷ []))
  detail ← read_exact 1
  fail (operation status (some (byte_at detail 0))))

unfoldable pub check_status : M (Unit {0})
unfolding identity report_status
check_status = do id ← identity; report_status id.status

abbrev pub field_of : ℕ → Option (List ℕ) → M (List ℕ)
field_of len none = fail (path_too_long len)
field_of len (some f) = pure f

unfoldable pub path_field : List ℕ → M (List ℕ)
path_field path = field_of (length path) (string_field path)

unfoldable pub transfer_len : ℕ → M ℕ
transfer_len len = if ltb len (2 ^ 32) then pure len else fail (io invalid_input)

unfoldable pub epo : Endpoint → Endpoint → ℕ → ℕ → ℕ → M (Unit {0})
unfolding send
epo src dst src_addr dst_addr len =
    send (scmd_frame cmd_epo epo_scmd_xfer ++ epo_xfer src dst src_addr dst_addr len)

unfoldable pub path_command : ℕ → List ℕ → M (Unit {0})
unfolding path_field send
path_command scmd path = do field ← path_field path; send (scmd_frame cmd_fs scmd ++ field)

unfoldable pub fs_init : M (Unit {0})
unfolding send check_status
fs_init = do send (scmd_frame cmd_fs Fs.init); check_status

unfoldable pub file_open : List ℕ → ℕ → M (Unit {0})
unfolding path_field send check_status
file_open path mode = do
  field ← path_field path
  send (scmd_frame cmd_fs Fs.file_open ++ (mode ∷ field))
  check_status

unfoldable pub file_close : M (Unit {0})
unfolding send check_status
file_close = do send (scmd_frame cmd_fs Fs.file_close); check_status

unfoldable pub file_available : M ℕ
unfolding send
file_available = do
  send (scmd_frame cmd_fs Fs.available)
  b ← read_exact 8
  pure (u32_at b 0 + u32_at b 4 * 2 ^ 32)

unfoldable pub file_seek : ℕ → M (Unit {0})
unfolding send check_status
file_seek position = do send (scmd_frame cmd_fs Fs.file_seek ++ to_be32 position); check_status

unfoldable pub file_read : ℕ → M (List ℕ)
unfolding transfer_len epo check_status
file_read n = if n == 0 then pure [] else (do
  len ← transfer_len n
  epo file link 0 0 len
  bytes ← read_exact n
  check_status
  pure bytes)

-- The loop of `send_acked` over the blocks.
unfoldable pub send_blocks : List (List ℕ) → M (Unit {0})
unfolding send
send_blocks [] = pure tt
send_blocks (block ∷ blocks) = do
  ack ← read_exact 1
  fail_if (not (byte_at ack 0 == 0)) (bad_ack (byte_at ack 0))
  send block
  send_blocks blocks

abbrev pub send_cut : Option (List (List ℕ)) → M (Unit {0})
send_cut none = pure tt
send_cut (some blocks) = send_blocks blocks

-- `chunks` of a size that is not 0 does not fail.
unfoldable pub send_acked : List ℕ → M (Unit {0})
unfolding send_blocks
send_acked bytes = send_cut (chunks ack_block bytes)

unfoldable pub file_write : List ℕ → M (Unit {0})
unfolding transfer_len epo send_acked check_status
file_write bytes = if length bytes == 0 then pure tt else (do
  len ← transfer_len (length bytes)
  epo link_ack file 0 0 len
  send_acked bytes
  check_status)

abbrev pub info_of : ℕ × ℕ × ℕ × ℕ → List ℕ → FileInfo
info_of (size, date, time, attributes) name = record {
  size = size;
  date = date;
  time = time;
  attributes = attributes;
  name = name;
}

module _ (from_utf8_lossy : List ℕ → List ℕ) where
  unfoldable pub read_record : M FileInfo
  read_record = do
    resp ← read_exact 1
    fail_if (not (byte_at resp 0 == 0)) (operation (byte_at resp 0) none)
    head ← read_exact 9
    len ← read_exact 2
    name ← read_exact (u16_at len 0)
    pure (info_of (file_info_head head) (from_utf8_lossy name))

  unfoldable pub file_info : List ℕ → M FileInfo
  unfolding path_field send read_record
  file_info path = do
    field ← path_field path
    send (scmd_frame cmd_fs Fs.file_info ++ field)
    read_record

  -- The loop of `dir_list`: `left` entries from `index` on.
  unfoldable pub list_entries : ℕ → ℕ → M (List FileInfo)
  unfolding send read_record
  list_entries zero index = pure []
  list_entries (suc left) index = do
    send (scmd_frame cmd_fs Fs.dir_get ++ (to_be16 index ++ (to_be16 1 ++ to_be16 max_name_len)))
    entry ← read_record
    entries ← list_entries left (suc index)
    pure (entry ∷ entries)

  unfoldable pub dir_list : List ℕ → ℕ → M (List FileInfo)
  unfolding path_field send check_status list_entries
  dir_list path options = do
    field ← path_field path
    send (scmd_frame cmd_fs Fs.dir_load ++ (options ∷ field))
    check_status
    send (scmd_frame cmd_fs Fs.dir_size)
    size ← read_exact 2
    list_entries (u16_at size 0) 0

unfoldable pub dir_make : List ℕ → M (Unit {0})
unfolding path_command check_status
dir_make path = do path_command Fs.dir_make path; check_status

unfoldable pub delete : List ℕ → M (Unit {0})
unfolding path_command check_status
delete path = do path_command Fs.delete path; check_status

unfoldable pub file_exists : List ℕ → M Bool
unfolding path_command identity
file_exists path = do path_command Fs.file_test path; id ← identity; pure (id.status == 0)

unfoldable pub dir_exists : List ℕ → M Bool
unfolding path_command identity
dir_exists path = do path_command Fs.dir_test path; id ← identity; pure (id.status == 0)

unfoldable pub mem_read : ℕ → ℕ → M (List ℕ)
unfolding transfer_len epo check_status
mem_read addr n = if n == 0 then pure [] else (do
  len ← transfer_len n
  epo memory link addr 0 len
  bytes ← read_exact n
  check_status
  pure bytes)

unfoldable pub mem_write : ℕ → List ℕ → M (Unit {0})
unfolding transfer_len epo send
mem_write addr bytes =
    if length bytes == 0
    then pure tt
    else (do len ← transfer_len (length bytes); epo link memory 0 addr len; send bytes)

unfoldable pub fifo_write : List ℕ → M (Unit {0})
unfolding mem_write
fifo_write bytes = mem_write fifo_addr bytes
