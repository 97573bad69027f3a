-- ===== src/Rom.antt =====
-- crates/ap64-core/src/rom.rs: ROM files as they arrive. A file is its bytes, and so is a name. The check
-- words of crates/ap64-core/src/crc.rs are in Rom/Crc.
pub mod Crc
pub mod Words
pub mod Orders
pub mod Yaz0
pub mod Dma
mod Examples
use multi.Common.{
  ℕ, ◌+◌, ◌≤◌, List, [], ◌∷◌, ◌++◌, Option, none, some, length, take, drop, slice, map, Bool, true,
  false, ltb, leb, ◌==◌, ◌&&◌, if◌then◌else◌,
}
use multi.Common.Bytes.{byte_at, u32_at, to_be32}
use multi.Common.Find.{starts_with}

pub data ByteOrder : Type 0 where
  z64 v64 n64 : ByteOrder

unfoldable pub byte_order : List ℕ → Option ByteOrder
unfolding starts_with
byte_order data_bytes =
    if starts_with 0x80 0x37 0x12 0x40 data_bytes
    then some z64
    else if starts_with 0x37 0x80 0x40 0x12 data_bytes
    then some v64
    else if starts_with 0x40 0x12 0x37 0x80 data_bytes
    then some n64
    else none

-- `as_chunks_mut::<2>`, each swapped.
abbrev pub swap_pairs : List ℕ → List ℕ
swap_pairs [] = []
swap_pairs (a ∷ []) = a ∷ []
swap_pairs (a ∷ b ∷ bs) = b ∷ a ∷ swap_pairs bs

-- `as_chunks_mut::<4>`, each reversed.
abbrev pub reverse_words : List ℕ → List ℕ
reverse_words (a ∷ b ∷ c ∷ d ∷ bs) = d ∷ c ∷ b ∷ a ∷ reverse_words bs
reverse_words bs = bs

unfoldable pub to_big_endian : List ℕ → ByteOrder → List ℕ
to_big_endian bs z64 = bs
to_big_endian bs v64 = swap_pairs bs
to_big_endian bs n64 = reverse_words bs

pub record Header : Type 0 where
  pub name : List ℕ
  pub game_code : List ℕ
  pub version : ℕ

-- A byte that is ASCII graphic or a space stays, another becomes a dot.
abbrev pub text_byte : ℕ → ℕ
text_byte b = if leb 0x20 b && leb b 0x7E then b else b'.'

abbrev pub text : List ℕ → List ℕ
text bs = map text_byte bs

-- `trim_end`: of the bytes that `text` gives, only the space is white.
abbrev pub trim_end : List ℕ → List ℕ
trim_end [] = []
trim_end (b ∷ bs) = trim_front b (trim_end bs)
  where
    trim_front : ℕ → List ℕ → List ℕ
    trim_front b [] = if b == 0x20 then [] else b ∷ []
    trim_front b (c ∷ cs) = b ∷ c ∷ cs

unfoldable pub header : List ℕ → Option Header
header rom =
    if ltb (length rom) 0x1000
    then none
    else some (record {
      name = trim_end (text (slice rom 0x20 0x34));
      game_code = text (slice rom 0x3B 0x3F);
      version = byte_at rom 0x3F;
    })

unfoldable pub read_u32 : List ℕ → ℕ → Option ℕ
read_u32 rom place = if leb (place + 4) (length rom) then some (u32_at rom place) else none

-- `none` is the panic of a slice that reaches past the end.
unfoldable pub write_u32 : List ℕ → ℕ → ℕ → Option (List ℕ)
write_u32 rom place value =
    if leb (place + 4) (length rom)
    then some (take place rom ++ (to_be32 value ++ drop (place + 4) rom))
    else none
