-- ===== src/Lib.antt =====
-- Multi64 connects a PC to a Nintendo 64 through a flash cart's USB cable. This library models the core of
-- its crates and proves what makes them correct.
--
-- L3 (crates/l3) is the framed protocol between the PC and the cart:
--   L3/Consts, L3/FrameType, L3/Channel, L3/ErrorCode, L3/Frame: the constants and types of lib.rs and
--     types.rs, with their wire codes;
--   L3/Encode: `encode_frame_with_cap` and `encode` of encode.rs; L3/Decode: `parse_header` and
--     `decode_frame` (here `decode`) of decode.rs;
--   L3/Stream: `StreamDecoder` of decode.rs. A round of the loop of `drain_frames` is `round`; the loop
--     runs on fuel, one round more than there are bytes, which is enough since every round that goes on
--     drops a byte. `feed` is a caller that pushes chunk after chunk;
--   L3/Handshake, L3/Session, L3/Session/State: the messages of lib.rs and session.rs, and `SessionState`.
--
-- Bytes are numbers below 256, in lists. A u16 or u32 is a number below 2 ^ 16 or 2 ^ 32, and the theorems
-- state these ranges as hypotheses where they matter. Sizes (`usize`) do not wrap: the buffers that exist
-- are shorter than 2 ^ 32. Text is the list of its UTF-8 bytes.
--
-- SC64 (crates/sc64-link, crates/sc64-l2) carries L3 over the SummerCart64's serial port:
--   Sc64/Wire: `WireBuffer::next_event` of sc64-link/src/wire.rs, `header_data_len` and
--     `ResponseBuffer::next_cmp` of sc64-link/src/lib.rs. The loops run on fuel, one round more than there
--     are bytes: each round but the last drops one at least;
--   Sc64/Write: `cmd_packet`, `usb_write_l3_stream` and `pkt_u_multi64_l3_payload` of sc64-link/src/lib.rs;
--   Sc64/Pipe: `process_wire_events` and `Sc64L2Pipe::read_l3_bytes` of sc64-l2/src/lib.rs. The serial port
--     is the list of what its next reads answer, so `read_l3_bytes` takes one round for each of them;
--   Sc64/Bridge: the wire and the L3 decoder together.
--
-- Ap64 (crates/ap64-cart) reads and writes the memory of a running game through the cart:
--   Ap64/Watch: `Watch` of watch.rs, a queue of the changes that a slot went through;
--   Ap64/M64p: the constants and types of m64p.rs; Ap64/M64p/Request its encoders, Ap64/M64p/Reply its
--     `parse`. The loops go over the lists, or count down the number of items that the bytes give. What an
--     agent sends and reads is stated by the layout of docs/spec/memory-l3-application-v0.md, in
--     Ap64/M64p/Request/Reading and Ap64/M64p/Reply/RoundTrip;
--   Ap64/Backend: `read_many` and `write_many` of `Multi64` in backend.rs, with `coalesce`, `split`, `batches` and
--     `stitch`. What they are on top of, requests with their retries and the watch, is the record Link, which
--     may fail any request. Laws in Ap64/Backend/Reading and Ap64/Backend/Writing say what an answered one did, and
--     Ap64/Backend/Requests which requests the protocol allows; Ap64/Backend/Memory says what memory is, and
--     Ap64/Backend/Wire puts the requests through the encoder of Ap64/M64p/Request. The loop of
--     `split` runs on as much fuel as a region has bytes;
--   Ap64/Backend/RomPages: `read_rom_many` and `fill_rom_pages` of backend.rs. The loop over a region's pages runs on as
--     much fuel as the region has bytes; the link is again a record with laws on the requests that it
--     answers;
--   Ap64/Backend/Stalls: `StallLog` of backend.rs.
--
-- Sd (crates/multi64-sc64-sd) is the SD card in the cart:
--   Sd/ReadCache: `SdReadCache` of sd_read_cache.rs. The closures that read and write the card are
--     parameters. The eviction loop runs on fuel, one round more than there are entries in `order`.
--
-- Ed64 (crates/ed64-l2/src/lib.rs) carries L3 over the EverDrive-64 X7's serial port:
--   Ed64/Wire: `WireBuffer` and `encode_message`. The two directions pad a message differently;
--     Ed64/Wire/Host states how the cart takes one apart;
--   Ed64/Pipe: `process_wire_messages` and `Ed64L2Pipe`. The serial port is the list of what its next
--     reads answer and how long each took, and what becomes of each write. The parsing loop runs on fuel, one round more than there are
--     bytes, and a message takes twelve; the read loop takes one round for each read of the port;
--   Ed64/Bridge: the wire and the L3 decoder together.
--
-- Ed64pro (crates/ed64pro-link) speaks to the EverDrive-64 PRO:
--   Ed64pro/Wire: the constants and frames of wire.rs;
--   Ed64pro/Link: the serial connection, as what the cart will still send, what has been written, and when the port
--     fails;
--   Ed64pro/Device: `Ed64Pro` of device.rs. An operation passes the connection on, or an error.
--     Ed64pro/Device/Sending defines what it is for an operation, given answers, to send bytes over
--     a port that takes them, and Ed64pro/Device/Failing what operations that only write do over any port.
--     `from_utf8_lossy` of Rust's `String` is a parameter;
--   Ed64pro/Pipe: what `Ed64ProL2Pipe` of crates/ed64pro-l2/src/lib.rs writes, and when. Time is a number, and
--     what passes of it is a parameter.
--
-- Xfer64 (crates/xfer64/src-tauri) is the desktop application that copies files:
--   Xfer64/CloseGuard: `CloseGuardState` of close_guard.rs and the three events that use it. Whether
--     Xfer64 exits is a result;
--   Xfer64/CopyPlan: `refuse_shared_destinations` of copy_plan.rs, with `fat_name_key` of
--     crates/multi64-sc64-sd/src/partition.rs. `to_uppercase` and `is_whitespace` of Rust's `char` are
--     parameters. Xfer64/CopyPlan/Places and Xfer64/CopyPlan/Paths say what one place is;
--
-- Rom (crates/ap64-core) is a game's ROM file:
--   Rom: rom.rs, with Rom/Orders and Rom/Words for the byte orders and the words of the header;
--   Rom/Crc: `compute`, `stored` and `fix` of crc.rs. The loop counts down the words of the summed range;
--   Rom/Yaz0: `yaz0` of transform.rs. The outer loop runs on fuel, as much as the header says there are bytes:
--     each round writes one at least. Rom/Yaz0/Format tells the format from the other side, by tokens;
--   Rom/Dma: `dma_entries`, `rom_address` and `yaz0_dmadata` of transform.rs. The loop over the table counts down
--     the entries that the code takes before it gives up. A panic is an error.
--
-- Not modelled: ROM patches, the repacking of a patched image and the SHA-1 of the boot code; the retries and
-- reconnections of the memory backend and the transport under it; the reading side of the EverDrive-64 PRO's
-- L3 pipe; the file systems and the copy plans that walk them; the connectors and the daemon. The user
-- interfaces, the C agent and the test programs are left out, and of each pipe what opens and clears its
-- serial port.
--
-- Common holds the shared helpers: tests on numbers, lists, results, big-endian bytes, the search for a tag,
-- UTF-8, `slice::chunks`, and keys.
pub mod Ap64
pub mod Common
pub mod Ed64
pub mod Ed64pro
pub mod L3
pub mod Rom
pub mod Sc64
pub mod Sd
pub mod Xfer64
