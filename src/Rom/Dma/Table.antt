-- ===== src/Rom/Dma/Table.antt =====
-- `dma_entries` of crates/ap64-core/src/transform.rs on the bytes of a table.
use multi.Common.{
  ℕ, zero, suc, ◌+◌, ◌*◌, ◌≤◌, ◌<◌, ◌⊎◌, ◌≡◌, refl, sym, subst, ◌∙◌, List, [], ◌∷◌, ◌++◌, length,
  drop, ok, true, false, arith,
}
use multi.Common.Bytes.{to_be32, IsU32}
use multi.Rom.Words.{behind, read_u32_found}
use multi.Rom.Dma.{DmaEntry, entry_at, ends_table, entries_from, dma_entries}
use mathlib.Core.List.{append_assoc}

-- An entry as it stands in a ROM.
unfoldable pub row_bytes : DmaEntry → List ℕ
row_bytes e =
    to_be32 e.vrom_start ++ (to_be32 e.vrom_end ++ (to_be32 e.rom_start ++ to_be32 e.rom_end))

unfoldable pub table_bytes : List DmaEntry → List ℕ
table_bytes [] = []
table_bytes (e ∷ es) = row_bytes e ++ table_bytes es

unfoldable pub IsRow : ℕ → DmaEntry → Type 0
IsRow place e =
    (e.place ≡ place) × IsU32 e.vrom_start × IsU32 e.vrom_end × IsU32 e.rom_start × IsU32 e.rom_end

-- Entries one behind the other, of which only the first may be of a file from 0 to 0.
unfoldable pub AreRows : ℕ → ℕ → List DmaEntry → Type 0
AreRows table place [] = Unit
AreRows table place (e ∷ es) =
    IsRow place e
    × ((place ≡ table) ⊎ (1 ≤ e.vrom_start + e.vrom_end))
    × AreRows table (place + 16) es

-- An entry behind the first that is of a file from 0 to 0.
abbrev pub IsLast : ℕ → DmaEntry → Type 0
IsLast place e = IsRow place e × (e.vrom_start ≡ 0) × (e.vrom_end ≡ 0)

goes_on :
    (table place : ℕ) (e : DmaEntry)
    → IsRow place e
    → (place ≡ table) ⊎ (1 ≤ e.vrom_start + e.vrom_end)
    → ends_table table e ≡ false
unfolding IsRow
goes_on table place e row h = ground (arith, row.0)

ends : (table place : ℕ) (e : DmaEntry) → table < place → IsLast place e → ends_table table e ≡ true
unfolding IsRow
ends table place e h (row, p, q) = ground (arith, row.0)

entry_at_lem :
    (rom : List ℕ) (place : ℕ) (e : DmaEntry) (rest : List ℕ)
    → IsRow place e
    → drop place rom ≡ row_bytes e ++ rest
    → entry_at rom place ≡ ok e
unfolding entry_at IsRow row_bytes
entry_at_lem rom place e rest (p, a, b, c, d) k =
    let second =
      behind place rom (to_be32 e.vrom_start)
        (to_be32 e.vrom_end ++ (to_be32 e.rom_start ++ (to_be32 e.rom_end ++ rest))) k in
    let third =
      behind place rom (to_be32 e.vrom_start ++ to_be32 e.vrom_end)
        (to_be32 e.rom_start ++ (to_be32 e.rom_end ++ rest)) k in
    let last =
      behind place rom (to_be32 e.vrom_start ++ (to_be32 e.vrom_end ++ to_be32 e.rom_start))
        (to_be32 e.rom_end ++ rest) k in
    rw
      (
        read_u32_found place e.vrom_start rom
            (to_be32 e.vrom_end ++ (to_be32 e.rom_start ++ (to_be32 e.rom_end ++ rest))) a k,
        read_u32_found (place + 4) e.vrom_end rom
            (to_be32 e.rom_start ++ (to_be32 e.rom_end ++ rest)) b second,
        read_u32_found (place + 8) e.rom_start rom (to_be32 e.rom_end ++ rest) c third,
        read_u32_found (place + 12) e.rom_end rom rest d last,
        sym p,
      )
      refl

behind_row :
    (place : ℕ) (rom : List ℕ) (e : DmaEntry) (rest : List ℕ)
    → drop place rom ≡ row_bytes e ++ rest
    → drop (place + 16) rom ≡ rest
unfolding row_bytes
behind_row place rom e rest k = behind place rom (row_bytes e) rest k

-- What the rows of a table are read as, with room in the result for one more than there are.
entries_from_lem :
    (rom : List ℕ) (table left place : ℕ) (es : List DmaEntry) (fin : DmaEntry) (rest : List ℕ)
    → length es + 1 ≤ left
    → AreRows table place es
    → table < place + 16 * length es
    → IsLast (place + 16 * length es) fin
    → drop place rom ≡ table_bytes es ++ (row_bytes fin ++ rest)
    → entries_from rom table left place ≡ ok es
unfolding entries_from AreRows table_bytes
entries_from_lem rom table zero place es fin rest bound rows long last k =
    absurd (omega (arith, bound))
entries_from_lem rom table (suc left) place [] fin rest bound rows long last k =
    let row = subst (λ p. IsLast p fin) at_place last in
    rw (entry_at_lem rom place fin rest row.0 k, ends table place fin (omega (arith, long)) row)
      refl
  where
    at_place : place + 16 * 0 ≡ place
    at_place = omega arith
entries_from_lem rom table (suc left) place (e ∷ es) fin rest bound rows long last k =
    let here : drop place rom ≡ row_bytes e ++ (table_bytes es ++ (row_bytes fin ++ rest)) =
      k ∙ append_assoc (row_bytes e) (table_bytes es) (row_bytes fin ++ rest) in
    let after = behind_row place rom e (table_bytes es ++ (row_bytes fin ++ rest)) here in
    let others =
      entries_from_lem rom table left (place + 16) es fin rest (omega (arith, bound)) rows.2
        (omega (arith, long)) (subst (λ p. IsLast p fin) at_place last) after in
    rw
      (
        entry_at_lem rom place e (table_bytes es ++ (row_bytes fin ++ rest)) rows.0 here,
        goes_on table place e rows.0 rows.1,
        others,
      )
      refl
  where
    at_place : place + 16 * suc (length es) ≡ place + 16 + 16 * length es
    at_place = omega arith

-- A table of one entry at least and 0x2000 at most, of which only the first may be of a file from 0 to 0, and
-- behind them an entry of a file from 0 to 0: where a ROM has their bytes at a place, and any bytes behind,
-- `dma_entries` reads these entries there, without the last.
pub dma_entries-table :
    (rom : List ℕ) (table : ℕ) (es : List DmaEntry) (fin : DmaEntry) (rest : List ℕ)
    → 1 ≤ length es
    → length es ≤ 0x2000
    → AreRows table table es
    → IsLast (table + 16 * length es) fin
    → drop table rom ≡ table_bytes es ++ (row_bytes fin ++ rest)
    → dma_entries rom table ≡ ok es
unfolding dma_entries
dma_entries-table rom table es fin rest some_rows bound rows last k =
    entries_from_lem rom table 0x2001 table es fin rest (omega (arith, bound)) rows
      (omega (arith, some_rows)) last k
