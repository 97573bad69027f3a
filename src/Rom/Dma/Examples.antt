-- ===== src/Rom/Dma/Examples.antt =====
-- The theorems on file tables at a concrete ROM: 4 KiB of zeros, a table of itself and a file, and the file.
use multi.Common.{
  ℕ, zero, suc, ◌+◌, ◌≤◌, ◌≡◌, refl, ◌∙◌, inl, inr, List, [], ◌∷◌, ◌++◌, some, length, drop,
  replicate, All, ok, WhenOk, Gives, arith, length-append, drop-length_append, All-append,
  length-replicate,
}
use multi.Common.Bytes.{IsByte}
use multi.Rom.Dma.{
  DmaEntry, dma_entries, rom_address, find_holder, used_entries, yaz0_dmadata, end_of,
}
use multi.Rom.Dma.Table.{row_bytes, table_bytes, IsRow, IsLast, AreRows, dma_entries-table}
use multi.Rom.Dma.Files.{Alone}
use multi.Rom.Dma.Over.{Outside}
use multi.Rom.Dma.Image.{Agrees, rom_address-Agrees}
use multi.Rom.Dma.Total.{IsPlain, image_length, yaz0_dmadata-Gives}
use mathlib.Core.Option

abbrev self_entry : DmaEntry
self_entry = record {
  place = 0x1000;
  vrom_start = 0x1000;
  vrom_end = 0x1030;
  rom_start = 0x1000;
  rom_end = 0;
}

abbrev file_entry : DmaEntry
file_entry = record {
  place = 0x1010;
  vrom_start = 0x2000;
  vrom_end = 0x2004;
  rom_start = 0x1030;
  rom_end = 0;
}

abbrev end_entry : DmaEntry
end_entry = record { place = 0x1020; vrom_start = 0; vrom_end = 0; rom_start = 0; rom_end = 0 }

abbrev entries : List DmaEntry
entries = self_entry ∷ file_entry ∷ []

abbrev file : List ℕ
file = 1 ∷ 2 ∷ 3 ∷ 4 ∷ []

-- What stands behind the zeros.
unfoldable tail_bytes : List ℕ
tail_bytes = table_bytes entries ++ (row_bytes end_entry ++ file)

unfoldable head_bytes : ℕ → List ℕ
head_bytes n = replicate n 0

unfoldable demo_rom : List ℕ
demo_rom = head_bytes 0x1000 ++ tail_bytes

length-head_bytes : (n : ℕ) → length (head_bytes n) ≡ n
unfolding head_bytes
length-head_bytes n = length-replicate n 0

length-tail_bytes : length tail_bytes ≡ 0x34
unfolding tail_bytes table_bytes row_bytes
length-tail_bytes = refl

tail_lem : tail_bytes ≡ table_bytes entries ++ (row_bytes end_entry ++ file)
unfolding tail_bytes
tail_lem = refl

tail_bytes-IsByte : All IsByte tail_bytes
unfolding tail_bytes table_bytes row_bytes
tail_bytes-IsByte = ground arith

length-demo_rom : length demo_rom ≡ 0x1034
unfolding demo_rom
length-demo_rom = omega (
  arith,
  length-append (head_bytes 0x1000) tail_bytes,
  length-head_bytes 0x1000,
  length-tail_bytes,
)

drop-demo_rom : drop 0x1000 demo_rom ≡ table_bytes entries ++ (row_bytes end_entry ++ file)
unfolding demo_rom
drop-demo_rom =
    drop-length_append 0x1000 (head_bytes 0x1000) tail_bytes (length-head_bytes 0x1000) ∙ tail_lem

head_bytes-IsByte : (n : ℕ) → All IsByte (head_bytes n)
unfolding head_bytes
head_bytes-IsByte zero = tt
head_bytes-IsByte (suc n) = (omega arith, head_bytes-IsByte n)

are_rows : AreRows 0x1000 0x1000 entries
unfolding AreRows IsRow
are_rows = (a_row, inl refl, (a_row', inr (omega arith), tt))
  where
    a_row : IsRow 0x1000 self_entry
    a_row = (refl, omega arith, omega arith, omega arith, omega arith)

    a_row' : IsRow 0x1010 file_entry
    a_row' = (refl, omega arith, omega arith, omega arith, omega arith)

ending : IsLast 0x1020 end_entry
unfolding IsRow
ending = ((refl, omega arith, omega arith, omega arith, omega arith), refl, refl)

read_entries : dma_entries demo_rom 0x1000 ≡ ok entries
read_entries =
    dma_entries-table demo_rom 0x1000 entries end_entry file (omega arith) (omega arith) are_rows
      ending drop-demo_rom

demo_rom-IsByte : All IsByte demo_rom
unfolding demo_rom
demo_rom-IsByte =
    All-append IsByte (head_bytes 0x1000) tail_bytes (head_bytes-IsByte 0x1000) tail_bytes-IsByte

at_address : rom_address entries 0x2001 ≡ some 0x1031
unfolding rom_address find_holder Option.bind
at_address = refl

alone : Alone 0x2001 (used_entries entries)
unfolding Alone used_entries
alone = tt

apart : All (λ e. Outside 0x2001 e.place 16) (used_entries entries)
unfolding used_entries
apart = (inr (omega arith), (inr (omega arith), tt))

rom_address-Agrees_example : WhenOk (Agrees demo_rom 0x2001 0x1031) (yaz0_dmadata demo_rom 0x1000)
rom_address-Agrees_example =
    rom_address-Agrees demo_rom 0x1000 entries 0x2001 0x1031 demo_rom-IsByte
      (omega (arith, length-demo_rom)) read_entries at_address alone apart

end_lem : end_of (used_entries entries) ≤ 0x0400_0000
unfolding used_entries
end_lem = omega arith

plain : All (IsPlain demo_rom) (used_entries entries)
unfolding used_entries
plain = (
  (refl, omega arith, omega (arith, length-demo_rom)),
  ((refl, omega arith, omega (arith, length-demo_rom)), tt),
)

inside : All (λ e. e.place + 16 ≤ image_length entries) (used_entries entries)
unfolding used_entries
inside = (omega arith, (omega arith, tt))

yaz0_dmadata-Gives_example :
    Gives (λ image. length image ≡ image_length entries) (yaz0_dmadata demo_rom 0x1000)
yaz0_dmadata-Gives_example =
    yaz0_dmadata-Gives demo_rom 0x1000 entries (omega (arith, length-demo_rom)) read_entries refl
      end_lem plain inside

dma_entries-table_example : dma_entries demo_rom 0x1000 ≡ ok entries
dma_entries-table_example =
    dma_entries-table demo_rom 0x1000 entries end_entry file (omega arith) (omega arith) are_rows
      ending drop-demo_rom
