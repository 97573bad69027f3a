-- ===== src/Sd/ReadCache/Examples.antt =====
-- A cache at concrete sectors: the theorems at these inputs.
use multi.Common.{
  ℕ, ◌*◌, ◌≤◌, ◌<◌, ◌≡◌, ◌⊎◌, refl, arith, List, [], ◌∷◌, Result, ok, ◌==◌, if◌then◌else◌,
}
use multi.Sd.ReadCache.{SdReadCache, sector_bytes, read_through, write_through}
use multi.Sd.ReadCache.Coherence.{
  bytes_at, IsCoherent, IsFetch, Served, read_through-Served, write_through-IsCoherent,
}

-- Every byte of the card is 7; a write then changes the first byte of sector 3.
abbrev blank : ℕ → ℕ
blank i = 7

abbrev written : ℕ → ℕ
written i = if i == 1536 then 9 else 7

abbrev fetched : ℕ → ℕ → Result ℕ (List ℕ)
fetched lba len = ok (bytes_at blank (lba * sector_bytes) len)

abbrev warm : SdReadCache
warm = record {
  entries = record { start = 2; bytes = bytes_at blank 1024 4 } ∷ [];
  order = 2 ∷ [];
  bytes = 4;
}

warm-IsCoherent : IsCoherent blank warm
warm-IsCoherent = record { agrees = (refl, tt); tracked = (refl, tt) }

fetched-IsFetch : IsFetch blank fetched
fetched-IsFetch lba len bs h = cc

read_through-Served_example : Served blank 2 3 (fetched 2 3) (read_through warm 2 3 fetched)
read_through-Served_example =
    read_through-Served blank warm 2 3 fetched warm-IsCoherent fetched-IsFetch

written_apart : (i : ℕ) → (i < 3 * sector_bytes) ⊎ (4 * sector_bytes ≤ i) → written i ≡ blank i
written_apart i h = ground arith

write_through-IsCoherent_example :
    IsCoherent written (write_through warm 3 (9 ∷ []) (λ lba buf. lba)).1
write_through-IsCoherent_example =
    write_through-IsCoherent blank written warm 3 (9 ∷ []) (λ lba buf. lba) warm-IsCoherent
      written_apart
