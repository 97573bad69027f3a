-- ===== src/Rom/Crc.antt =====
-- crates/ap64-core/src/crc.rs: the two check words in the header, over the ROM from `crc_start` to `crc_end`.
-- `identify` compares a SHA-1 digest, which is a parameter there: it is left out.
pub mod Bounds
pub mod Fixing
use Prim.Native.Nat.{bit_xor}
use multi.Common.{
  ℕ, zero, suc, ◌+◌, ◌-◌, ◌*◌, ◌/◌, ◌%◌, ◌^◌, List, [], ◌∷◌, Option, none, some, length, Bool, true,
  false, ltb, if◌then◌else◌,
}
use mathlib.Core.Option
use multi.Common.Bytes.{u32_at}
use multi.Rom.{read_u32, write_u32}

abbrev pub crc_start : ℕ
crc_start = 0x1000

abbrev pub crc_end : ℕ
crc_end = 0x101000

abbrev pub crc_offset : ℕ
crc_offset = 0x10

pub data Cic : Type 0 where
  cic6101 cic6102 cic6103 cic6105 : Cic

abbrev pub seed : Cic → ℕ
seed cic6101 = 0xF8CA_4DDC
seed cic6102 = 0xF8CA_4DDC
seed cic6103 = 0xA388_6759
seed cic6105 = 0xDF26_F436

-- `wrapping_add` of u32.
abbrev pub wrapping_add : ℕ → ℕ → ℕ
wrapping_add a b = (a + b) % 2 ^ 32

-- `rotate_left` of u32, by less than 32.
abbrev pub rotate_left : ℕ → ℕ → ℕ
rotate_left d n = (d * 2 ^ n + d / 2 ^ (32 - n)) % 2 ^ 32

pub record Sums : Type 0 where
  pub t1 : ℕ
  pub t2 : ℕ
  pub t3 : ℕ
  pub t4 : ℕ
  pub t5 : ℕ
  pub t6 : ℕ

-- 6105's IPL3 mixes in a word of itself at the offset `i`, the others mix in `t5`.
abbrev pub own_word : List ℕ → Cic → ℕ → Option ℕ
own_word rom cic6105 i = some (u32_at rom (0x40 + 0x0710 + i % 2 ^ 8))
own_word rom cic6101 i = none
own_word rom cic6102 i = none
own_word rom cic6103 i = none

abbrev pub or_t5 : Option ℕ → ℕ → ℕ
or_t5 (some own) t5 = own
or_t5 none t5 = t5

-- The body of the loop, on the word there.
unfoldable pub add_data : ℕ → Option ℕ → Sums → Sums
add_data d own s =
    let sum = wrapping_add s.t6 d in
    let rot = rotate_left d (d % 2 ^ 5) in
    let t5 = wrapping_add s.t5 rot in
    record {
      t1 = wrapping_add s.t1 (bit_xor (or_t5 own t5) d);
      t2 = bit_xor s.t2 (if ltb d s.t2 then rot else bit_xor sum d);
      t3 = bit_xor s.t3 d;
      t4 = if ltb sum s.t6 then wrapping_add s.t4 1 else s.t4;
      t5 = t5;
      t6 = sum;
    }

unfoldable pub add_word : List ℕ → Cic → ℕ → Sums → Sums
unfolding add_data
add_word rom cic i s = add_data (u32_at rom i) (own_word rom cic i) s

-- The loop, over as many words from the offset on.
unfoldable pub add_words : ℕ → List ℕ → Cic → ℕ → Sums → Sums
unfolding add_word
add_words zero rom cic i s = s
add_words (suc words) rom cic i s = add_words words rom cic (i + 4) (add_word rom cic i s)

abbrev pub finish : Cic → Sums → ℕ × ℕ
finish cic6103 s = (wrapping_add (bit_xor s.t6 s.t4) s.t3, wrapping_add (bit_xor s.t5 s.t2) s.t1)
finish cic6101 s = (bit_xor (bit_xor s.t6 s.t4) s.t3, bit_xor (bit_xor s.t5 s.t2) s.t1)
finish cic6102 s = (bit_xor (bit_xor s.t6 s.t4) s.t3, bit_xor (bit_xor s.t5 s.t2) s.t1)
finish cic6105 s = (bit_xor (bit_xor s.t6 s.t4) s.t3, bit_xor (bit_xor s.t5 s.t2) s.t1)

abbrev pub first_sums : ℕ → Sums
first_sums n = record { t1 = n; t2 = n; t3 = n; t4 = n; t5 = n; t6 = n }

abbrev pub crc_words : ℕ
crc_words = 0x40000

-- `none` is the panic of an index past the end of the ROM.
unfoldable pub compute : List ℕ → Cic → Option (ℕ × ℕ)
unfolding add_words
compute rom cic =
    if ltb (length rom) crc_end
    then none
    else some (finish cic (add_words crc_words rom cic crc_start (first_sums (seed cic))))

abbrev pub pair : Option ℕ → Option ℕ → Option (ℕ × ℕ)
pair (some a) (some b) = some (a, b)
pair _ _ = none

unfoldable pub stored : List ℕ → Option (ℕ × ℕ)
unfolding read_u32
stored rom = pair (read_u32 rom crc_offset) (read_u32 rom (crc_offset + 4))

-- The ROM with the check words stored, and the words.
abbrev pub store_words : ℕ × ℕ → List ℕ → Option (List ℕ × (ℕ × ℕ))
store_words (a, b) rom = elim (write_u32 rom crc_offset a) [
  | none ↦ none
  | some half ↦ elim (write_u32 half (crc_offset + 4) b) [
    | none ↦ none
    | some whole ↦ some (whole, (a, b))
  ]
]

unfoldable pub fix : List ℕ → Cic → Option (List ℕ × (ℕ × ℕ))
unfolding compute write_u32
fix rom cic = elim (compute rom cic) [ none ↦ none | some sums ↦ store_words sums rom ]
