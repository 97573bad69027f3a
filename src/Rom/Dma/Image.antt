-- ===== src/Rom/Dma/Image.antt =====
-- `yaz0_dmadata` and `rom_address` of crates/ap64-core/src/transform.rs: where the bytes of a plain file are.
use multi.Common.{
  ℕ, ◌+◌, ◌-◌, ◌*◌, ◌%◌, ◌^◌, ◌≤◌, ◌<◌, ◌≡◌, refl, ap, ◌∙◌, inl, inr, List, [], ◌∷◌, Option, none,
  some, get_elem?, length, All, ok, ok_or, WhenOk, WhenOk-bind, WhenOk-fail_if, WhenOk-weaken, true,
  not, ltb, leb, ◌==◌, arith, Bool-cases, Option-cases,
}
use multi.Common.Bytes.{to_be32, IsByte}
use multi.Rom.{write_u32}
use multi.Rom.Dma.{
  DmaError, DmaEntry, used_entries, find_holder, rom_address, copy_files, write_words, mark_plain,
  dma_entries, names_itself, end_of, yaz0_dmadata, blank_image,
}
use mathlib.Core.Option
use multi.Rom.Dma.Over.{Outside, over-Outside}
use multi.Rom.Dma.Files.{Same, Alone, find_holder-used, Stored, copy_files-Stored, WhenOk-any}

write_u32-WhenOk :
    (out : List ℕ) (place w i : ℕ)
    → Outside i place 4
    → WhenOk (Same i out) (ok_or (write_u32 out place w) DmaError.panicked)
unfolding write_u32
write_u32-WhenOk out place w i h = elim (Bool-cases (leb (place + 4) (length out))) [
  | inl e ↦ rw e (over-Outside out place (to_be32 w) i (ground arith) h)
  | inr e ↦ rw e tt
]

write_words-WhenOk :
    (place : ℕ) (ws out : List ℕ) (i : ℕ)
    → Outside i place (4 * length ws)
    → WhenOk (Same i out) (write_words place ws out)
write_words-WhenOk place [] out i h = refl
write_words-WhenOk place (w ∷ ws) out i h =
    WhenOk-bind (Same i out) (Same i out) (ok_or (write_u32 out place w) DmaError.panicked)
      (λ out'. write_words (place + 4) ws out') (write_u32-WhenOk out place w i (this h))
      λ out' same.
        WhenOk-weaken (Same i out') (Same i out) (λ last q. q ∙ same)
          (write_words (place + 4) ws out') (write_words-WhenOk (place + 4) ws out' i (others h))
  where
    this : Outside i place (4 * length (w ∷ ws)) → Outside i place 4
    this (inl p) = inl p
    this (inr p) = inr (omega (arith, p))

    others : Outside i place (4 * length (w ∷ ws)) → Outside i (place + 4) (4 * length ws)
    others (inl p) = inl (omega (arith, p))
    others (inr p) = inr (omega (arith, p))

mark_plain-WhenOk :
    (es : List DmaEntry) (out : List ℕ) (i : ℕ)
    → All (λ e. Outside i e.place 16) es
    → WhenOk (Same i out) (mark_plain es out)
unfolding mark_plain
mark_plain-WhenOk [] out i h = refl
mark_plain-WhenOk (e ∷ es) out i h =
    let ws = e.vrom_start ∷ e.vrom_end ∷ e.vrom_start ∷ 0 ∷ [] in
    WhenOk-bind (Same i out) (Same i out) (write_words e.place ws out) (λ out'. mark_plain es out')
      (write_words-WhenOk e.place ws out i h.0)
      λ out' same.
        WhenOk-weaken (Same i out') (Same i out) (λ last q. q ∙ same) (mark_plain es out')
          (mark_plain-WhenOk es out' i h.1)

-- That an image has at one place what a ROM has at another, which is in the ROM.
abbrev pub Agrees : List ℕ → ℕ → ℕ → List ℕ → Type 0
Agrees rom vrom address image =
    (address < length rom) × (get_elem? image vrom ≡ get_elem? rom address)

-- The file that gives an address.
rom_address-holder :
    (es : List DmaEntry) (vrom address : ℕ)
    → rom_address es vrom ≡ some address
    → (e : DmaEntry) × (find_holder es vrom ≡ some e)
      × ((e.rom_end == 0) ≡ true)
      × ((e.rom_start + (vrom - e.vrom_start)) % 2 ^ 32 ≡ address)
unfolding rom_address Option.bind
rom_address-holder es vrom address h = elim (Option-cases (find_holder es vrom)) [
  | inl none_held ↦
      absurd (let no : ◌≡◌ {A = Option ℕ} none (some address) = rw none_held at h in cc)
  | inr (e, held) ↦ elim (Bool-cases (e.rom_end == 0)) [
    | inl plain ↦ (
      e,
      held,
      plain,
      (let it : ◌≡◌ {A = Option ℕ} (some ((e.rom_start + (vrom - e.vrom_start)) % 2 ^ 32))
              (some address) =
            rw plain at (rw held at h) in
          cc),
    )
    | inr packed ↦
        absurd (let no : ◌≡◌ {A = Option ℕ} none (some address) = rw packed at (rw held at h) in cc)
  ]
]

-- An address that does not wrap around is where the file is stored.
Stored-Agrees :
    (rom : List ℕ) (bytes : All IsByte rom) (e : DmaEntry) (vrom address : ℕ) (image : List ℕ)
    → length rom ≤ 2 ^ 32
    → (e.rom_start + (vrom - e.vrom_start)) % 2 ^ 32 ≡ address
    → Stored rom bytes e vrom image
    → Agrees rom vrom address image
Stored-Agrees rom bytes e vrom address image small p q =
    let same : e.rom_start + (vrom - e.vrom_start) ≡ address = omega (arith, p, q.0, small) in
    (omega (arith, q.0, same), q.1 ∙ ap (λ k. get_elem? rom k) same)

-- Where a ROM of bytes, not over 4 GiB, has a file table of the entries `es`, and `rom_address` gives an
-- address for `vrom`, then in every image that `yaz0_dmadata` gives for the ROM the byte at `vrom` is the byte at that address of
-- the ROM. This is where no file behind the one that holds `vrom` reaches to it, and no entry of a used file stands there.
pub rom_address-Agrees :
    (rom : List ℕ) (table : ℕ) (es : List DmaEntry) (vrom address : ℕ)
    → All IsByte rom
    → length rom ≤ 2 ^ 32
    → dma_entries rom table ≡ ok es
    → rom_address es vrom ≡ some address
    → Alone vrom (used_entries es)
    → All (λ e. Outside vrom e.place 16) (used_entries es)
    → WhenOk (Agrees rom vrom address) (yaz0_dmadata rom table)
unfolding yaz0_dmadata
rom_address-Agrees rom table es vrom address bytes small read at_address alone apart =
    let us = used_entries es in
    let end = end_of us in
    rw read (
      WhenOk-fail_if (Agrees rom vrom address) (not (names_itself table es)) _ _ λ e.
        WhenOk-fail_if (Agrees rom vrom address) (ltb 0x0400_0000 end) _ _ λ e'.
          WhenOk-bind (λ out. Unit {0}) (Agrees rom vrom address) (blank_image rom end) _
            (WhenOk-any (blank_image rom end))
            λ out u.
              WhenOk-bind (Agrees rom vrom address) (Agrees rom vrom address)
                (copy_files rom us out) (λ out'. mark_plain us out') (found out)
                λ out' q.
                  WhenOk-weaken (Same vrom out') (Agrees rom vrom address)
                    (λ image same. (q.0, same ∙ q.1)) (mark_plain us out')
                    (mark_plain-WhenOk us out' vrom apart))
  where
    found : (out : List ℕ) → WhenOk (Agrees rom vrom address) (copy_files rom (used_entries es) out)
    found out =
        let (e, holder, plain, where_it_is) = rom_address-holder es vrom address at_address in
        WhenOk-weaken (Stored rom bytes e vrom) (Agrees rom vrom address)
          (λ image q. Stored-Agrees rom bytes e vrom address image small where_it_is q)
          (copy_files rom (used_entries es) out)
          (copy_files-Stored rom bytes (used_entries es) out vrom e
            (find_holder-used es vrom ∙ holder) plain alone)
