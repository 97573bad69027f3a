-- ===== src/Ap64/M64p/Msg.antt =====
-- The message codes of crates/ap64-cart/src/m64p.rs.
use multi.Common.{ℕ}

abbrev pub hello : ℕ
hello = 0x01

abbrev pub peekv : ℕ
peekv = 0x02

abbrev pub pokev : ℕ
pokev = 0x03

abbrev pub peekrom : ℕ
peekrom = 0x04

abbrev pub watch : ℕ
watch = 0x05

abbrev pub hello_ack : ℕ
hello_ack = 0x81

abbrev pub peekv_resp : ℕ
peekv_resp = 0x82

abbrev pub poke_ack : ℕ
poke_ack = 0x83

abbrev pub peekrom_resp : ℕ
peekrom_resp = 0x84

abbrev pub watch_ack : ℕ
watch_ack = 0x85

abbrev pub err : ℕ
err = 0xE0
