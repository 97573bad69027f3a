-- ===== src/Ed64pro/Wire/Fs.antt =====
-- The subcommands of `CMD_FS`: `mod fs` of crates/ed64pro-link/src/wire.rs.
use multi.Common.{ℕ}

abbrev pub init : ℕ
init = 0x10

abbrev pub dir_load : ℕ
dir_load = 0x13

abbrev pub dir_size : ℕ
dir_size = 0x14

abbrev pub dir_get : ℕ
dir_get = 0x16

abbrev pub file_open : ℕ
file_open = 0x17

abbrev pub file_close : ℕ
file_close = 0x18

abbrev pub file_seek : ℕ
file_seek = 0x19

abbrev pub file_info : ℕ
file_info = 0x1A

abbrev pub dir_make : ℕ
dir_make = 0x1C

abbrev pub delete : ℕ
delete = 0x1D

abbrev pub available : ℕ
available = 0x1F

abbrev pub dir_test : ℕ
dir_test = 0x22

abbrev pub file_test : ℕ
file_test = 0x23
