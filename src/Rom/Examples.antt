-- ===== src/Rom/Examples.antt =====
-- The theorems on ROM files and check words at concrete inputs.
use multi.Common.{
  ℕ, zero, suc, ◌≤◌, ◌≡◌, refl, List, [], ◌∷◌, some, length, take, drop, replicate, All, arith, sym,
  ◌∙◌, ok, WhenOk, length-replicate,
}
use multi.Common.Find.{starts_with}
use multi.Common.Bytes.{IsByte}
use mathlib.Core.List.{append-nil}
use multi.Rom.{read_u32, z64, v64, n64, byte_order, to_big_endian}
use multi.Rom.Orders.{IsStored, orders_normalize}
use multi.Rom.Crc.{cic6103, compute, stored, fix, crc_end}
use multi.Rom.Crc.Fixing.{fix-stored}
use multi.Rom.Yaz0
use multi.Rom.Yaz0.{length_at, back_reference, token, bits, group, groups, yaz0}
use multi.Rom.Yaz0.Lengths.{Sized, yaz0-WhenOk}
use multi.Rom.Yaz0.Format.{
  Token, literal, copies, token_bytes, expand, Fits, expand_all, AllFit, code_of, stream,
  expand_groups, GroupsFit, compressed,
}
use multi.Rom.Yaz0.Streams.{yaz0-compressed}

abbrev small_rom : List ℕ
small_rom = 0x80 ∷ 0x37 ∷ 0x12 ∷ 0x40 ∷ 1 ∷ 2 ∷ 3 ∷ []

is_z64 : byte_order small_rom ≡ some z64
unfolding byte_order starts_with
is_z64 = refl

-- The last bytes are not of a whole word.
stored_as_n64 : to_big_endian small_rom n64 ≡ 0x40 ∷ 0x12 ∷ 0x37 ∷ 0x80 ∷ 1 ∷ 2 ∷ 3 ∷ []
unfolding to_big_endian
stored_as_n64 = refl

orders_normalize_example :
    ((file : List ℕ)
      → IsStored v64 small_rom file
      → (byte_order file ≡ some v64) × (to_big_endian file v64 ≡ small_rom))
    × ((file : List ℕ) × IsStored v64 small_rom file)
orders_normalize_example = orders_normalize small_rom v64 is_z64

-- A ROM of equal bytes.
unfoldable blank : ℕ → List ℕ
blank n = replicate n 0x5A

blank-IsByte : (n : ℕ) → All IsByte (blank n)
unfolding blank
blank-IsByte zero = tt
blank-IsByte (suc n) = (omega arith, blank-IsByte n)

length-blank : (n : ℕ) → length (blank n) ≡ n
unfolding blank
length-blank n = length-replicate n 0x5A

blank_long : crc_end ≤ length (blank crc_end)
blank_long = omega (arith, length-blank crc_end)

fix-stored_example :
    (fixed : List ℕ) × (sums : ℕ × ℕ) × (fix (blank crc_end) cic6103 ≡ some (fixed, sums))
    × (stored fixed ≡ some sums)
    × (compute fixed cic6103 ≡ some sums)
    × (length fixed ≡ length (blank crc_end))
    × (take 0x10 fixed ≡ take 0x10 (blank crc_end))
    × (drop 0x18 fixed ≡ drop 0x18 (blank crc_end))
fix-stored_example = fix-stored (blank crc_end) cic6103 (blank-IsByte crc_end) blank_long

-- Three letters, then seventeen bytes that repeat them, and a reference of three bytes.
abbrev abc_tokens : List (List Token)
abc_tokens = (literal b'a' ∷ literal b'b' ∷ literal b'c' ∷ copies 3 17 ∷ copies 1 18 ∷ []) ∷ []

abbrev abc_file : List ℕ
abc_file =
    0x59 ∷ 0x61 ∷ 0x7A ∷ 0x30 ∷ 0 ∷ 0 ∷ 0 ∷ 38 ∷ 0 ∷ 0 ∷ 0 ∷ 0 ∷ 0 ∷ 0 ∷ 0 ∷ 0 ∷ 0xE0 ∷ b'a' ∷ b'b'
    ∷ b'c' ∷ 0xF0 ∷ 2 ∷ 0 ∷ 0 ∷ 0 ∷ []

abc_lem : compressed abc_tokens ≡ abc_file
unfolding compressed expand_groups expand_all expand stream code_of token_bytes
abc_lem = refl

abc_fit : GroupsFit [] abc_tokens
unfolding GroupsFit AllFit Fits expand_all expand
abc_fit = (
  (
    tt,
    (
      tt,
      (
        tt,
        (
          (omega arith, omega arith, omega arith, omega arith, omega arith),
          ((omega arith, omega arith, omega arith, omega arith, omega arith), tt),
        ),
      ),
    ),
  ),
  omega arith,
  omega arith,
  tt,
  tt,
)

abc_length : length (expand_groups [] abc_tokens) ≡ 38
unfolding expand_groups expand_all expand
abc_length = refl

yaz0-compressed_example : yaz0 (7 ∷ 7 ∷ abc_file) 2 38 ≡ ok (expand_groups [] abc_tokens)
yaz0-compressed_example =
    yaz0-compressed (7 ∷ 7 ∷ abc_file) 2 abc_tokens 38 [] abc_fit (omega (arith, abc_length))
      (omega (arith, abc_length)) (sym abc_lem ∙ sym (append-nil (compressed abc_tokens)))

-- A header of one byte, and a reference that writes eighteen more.
abbrev overrun : List ℕ
overrun =
    0x59 ∷ 0x61 ∷ 0x7A ∷ 0x30 ∷ 0 ∷ 0 ∷ 0 ∷ 2 ∷ 0 ∷ 0 ∷ 0 ∷ 0 ∷ 0 ∷ 0 ∷ 0 ∷ 0 ∷ 0x80 ∷ 5 ∷ 0 ∷ 0 ∷ 0
    ∷ []

overrun_lem : yaz0 overrun 0 2 ≡ ok (replicate 19 5)
unfolding yaz0 starts_with read_u32 groups group bits token Yaz0.literal back_reference length_at
overrun_lem = refl

yaz0-WhenOk_example : WhenOk (Sized 2 2) (yaz0 overrun 0 2)
unfolding read_u32
yaz0-WhenOk_example = yaz0-WhenOk overrun 0 overrun_bytes 2 2 size
  where
    size : read_u32 overrun 4 ≡ some 2
    size = refl

    overrun_bytes : All IsByte overrun
    overrun_bytes = ground arith
