-- ===== src/Rom/Dma.antt =====
-- The file table of crates/ap64-core/src/transform.rs: what it says, and `yaz0_dmadata`, which lays a ROM out by it.
-- An error carries what its message says; a panic is an error of its own.
pub mod Table
pub mod Over
pub mod Files
pub mod Image
pub mod Total
mod Examples
use multi.Common.{
  ℕ, zero, suc, ◌+◌, ◌-◌, ◌*◌, ◌%◌, ◌^◌, List, [], ◌∷◌, ◌++◌, Option, none, some, length, take,
  drop, slice, replicate, Result, ok, err, ◌>>=◌, ◌>>◌, ok_or, fail_if, Bool, true, false, not, ltb,
  leb, ◌==◌, ◌&&◌, if◌then◌else◌,
}
use multi.Rom.{read_u32, write_u32}
use multi.Rom.Yaz0.{Yaz0Error, yaz0}
use mathlib.Core.Option

pub data DmaError : Type 0 where
  past_end no_end ends_early panicked : DmaError
  no_table too_big file_past_end : ℕ → DmaError
  in_file : ℕ → Yaz0Error → DmaError

pub record DmaEntry : Type 0 where
  pub place : ℕ
  pub vrom_start : ℕ
  pub vrom_end : ℕ
  pub rom_start : ℕ
  pub rom_end : ℕ

abbrev pub word : List ℕ → ℕ → Result DmaError ℕ
word rom place = ok_or (read_u32 rom place) past_end

unfoldable pub entry_at : List ℕ → ℕ → Result DmaError DmaEntry
entry_at rom place = do
  a ← word rom place
  b ← word rom (place + 4)
  c ← word rom (place + 8)
  d ← word rom (place + 12)
  ok (record { place = place; vrom_start = a; vrom_end = b; rom_start = c; rom_end = d })

-- The entry that ends a table, which is not its first.
abbrev pub ends_table : ℕ → DmaEntry → Bool
ends_table table e = e.vrom_start == 0 && e.vrom_end == 0 && ltb table e.place

-- The loop, which may put `left` entries more into the result before it gives up.
unfoldable pub entries_from : List ℕ → ℕ → ℕ → ℕ → Result DmaError (List DmaEntry)
entries_from rom table zero place = err no_end
entries_from rom table (suc left) place = do
  e ← entry_at rom place
  let rest = entries_from rom table left (place + 16)
  if ends_table table e then ok [] else (rest >>= λ es. ok (e ∷ es))

unfoldable pub dma_entries : List ℕ → ℕ → Result DmaError (List DmaEntry)
dma_entries rom table = entries_from rom table 0x2001 table

-- Whether an entry has a file.
abbrev pub used : DmaEntry → Bool
used e = not (e.rom_start == 0xFFFF_FFFF)

unfoldable pub used_entries : List DmaEntry → List DmaEntry
used_entries [] = []
used_entries (e ∷ es) = if used e then e ∷ used_entries es else used_entries es

abbrev pub holds : ℕ → DmaEntry → Bool
holds vrom e = used e && leb e.vrom_start vrom && ltb vrom e.vrom_end

unfoldable pub find_holder : List DmaEntry → ℕ → Option DmaEntry
find_holder [] vrom = none
find_holder (e ∷ es) vrom = if holds vrom e then some e else find_holder es vrom

abbrev pub plain_address : ℕ → DmaEntry → Option ℕ
plain_address vrom e =
    if e.rom_end == 0 then some ((e.rom_start + (vrom - e.vrom_start)) % 2 ^ 32) else none

unfoldable pub rom_address : List DmaEntry → ℕ → Option ℕ
rom_address es vrom = Option.bind (find_holder es vrom) (plain_address vrom)

-- `out[place..place + data.len()].copy_from_slice(&data)`.
abbrev pub put : List ℕ → ℕ → List ℕ → Result DmaError (List ℕ)
put out place data_bytes =
    if leb (place + length data_bytes) (length out)
    then ok (take place out ++ (data_bytes ++ drop (place + length data_bytes) out))
    else err panicked

abbrev pub in_vrom : ℕ → Result Yaz0Error (List ℕ) → Result DmaError (List ℕ)
in_vrom vrom (ok bs) = ok bs
in_vrom vrom (err e) = err (in_file vrom e)

-- The file of an entry that spans `len` bytes.
unfoldable pub file_data : List ℕ → DmaEntry → ℕ → Result DmaError (List ℕ)
file_data rom e len =
    if e.rom_end == 0
    then (if leb (e.rom_start + len) (length rom)
        then ok (slice rom e.rom_start (e.rom_start + len))
        else err (file_past_end e.vrom_start))
    else in_vrom e.vrom_start (yaz0 rom e.rom_start len)

unfoldable pub copy_files : List ℕ → List DmaEntry → List ℕ → Result DmaError (List ℕ)
copy_files rom [] out = ok out
copy_files rom (e ∷ es) out = do
  fail_if (ltb e.vrom_end e.vrom_start) ends_early
  bs ← file_data rom e (e.vrom_end - e.vrom_start)
  out' ← put out e.vrom_start bs
  copy_files rom es out'

abbrev pub write_words : ℕ → List ℕ → List ℕ → Result DmaError (List ℕ)
write_words place [] out = ok out
write_words place (w ∷ ws) out = do
  out' ← ok_or (write_u32 out place w) panicked
  write_words (place + 4) ws out'

-- The loop that rewrites the entries as those of plain files in their places.
unfoldable pub mark_plain : List DmaEntry → List ℕ → Result DmaError (List ℕ)
mark_plain [] out = ok out
mark_plain (e ∷ es) out = do
  out' ← write_words e.place (e.vrom_start ∷ e.vrom_end ∷ e.vrom_start ∷ 0 ∷ []) out
  mark_plain es out'

abbrev pub max_of : ℕ → ℕ → ℕ
max_of a b = if leb a b then b else a

abbrev pub end_of : List DmaEntry → ℕ
end_of [] = 0
end_of (e ∷ es) = max_of e.vrom_end (end_of es)

abbrev pub names_itself : ℕ → List DmaEntry → Bool
names_itself table [] = false
names_itself table (e ∷ es) =
    if e.vrom_start == table && e.rom_start == table then true else names_itself table es

-- `vec![0u8; n]`.
unfoldable pub zeros : ℕ → List ℕ
zeros n = replicate n 0

-- `&rom[..0x1000]`.
unfoldable pub front_of : List ℕ → List ℕ
front_of rom = take 0x1000 rom

-- A blank image for files up to `end`, with the ROM's header.
unfoldable pub blank_image : List ℕ → ℕ → Result DmaError (List ℕ)
blank_image rom end = do
  fail_if (ltb (length rom) 0x1000) panicked
  put (zeros (max_of end 0x0010_1000)) 0 (front_of rom)

unfoldable pub yaz0_dmadata : List ℕ → ℕ → Result DmaError (List ℕ)
yaz0_dmadata rom table = do
  es ← dma_entries rom table
  fail_if (not (names_itself table es)) (no_table table)
  let end = end_of (used_entries es)
  fail_if (ltb 0x0400_0000 end) (too_big end)
  out ← blank_image rom end
  out' ← copy_files rom (used_entries es) out
  mark_plain (used_entries es) out'
