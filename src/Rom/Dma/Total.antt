-- ===== src/Rom/Dma/Total.antt =====
-- `yaz0_dmadata` of crates/ap64-core/src/transform.rs on ROMs whose files are all plain.
use multi.Common.{
  ℕ, ◌+◌, ◌-◌, ◌*◌, ◌≤◌, ◌≡◌, subst, ◌∙◌, List, [], ◌∷◌, ◌++◌, length, length-take, length-drop,
  length-append, length-replicate, take, drop, All, ok, ok_or, Gives, Gives-bind, Gives-fail_if,
  true, false, ltb, leb, ◌==◌, arith,
}
use multi.Common.Bytes.{to_be32}
use multi.Rom.{write_u32}
use multi.Rom.Dma.{
  DmaError, DmaEntry, used_entries, put, file_data, copy_files, write_words, mark_plain,
  dma_entries, names_itself, max_of, end_of, blank_image, zeros, front_of, yaz0_dmadata,
}

abbrev HasLength : ℕ → List ℕ → Type 0
HasLength n out = length out ≡ n

length-over :
    (out : List ℕ) (place : ℕ) (bs : List ℕ)
    → place + length bs ≤ length out
    → length (take place out ++ (bs ++ drop (place + length bs) out)) ≡ length out
length-over out place bs h = omega (
  arith,
  h,
  length-append (take place out) (bs ++ drop (place + length bs) out),
  length-append bs (drop (place + length bs) out),
  length-take place out,
  length-drop (place + length bs) out,
)

put-Gives :
    (out : List ℕ) (place : ℕ) (bs : List ℕ)
    → place + length bs ≤ length out
    → Gives (HasLength (length out)) (put out place bs)
put-Gives out place bs h =
    let inside : leb (place + length bs) (length out) ≡ true = ground arith in
    rw inside (length-over out place bs h)

write_u32-Gives :
    (out : List ℕ) (place w : ℕ)
    → place + 4 ≤ length out
    → Gives (HasLength (length out)) (ok_or (write_u32 out place w) DmaError.panicked)
unfolding write_u32
write_u32-Gives out place w h =
    let inside : leb (place + 4) (length out) ≡ true = ground arith in
    rw inside (length-over out place (to_be32 w) h)

write_words-Gives :
    (n place : ℕ) (ws out : List ℕ)
    → length out ≡ n
    → place + 4 * length ws ≤ n
    → Gives (HasLength n) (write_words place ws out)
write_words-Gives n place [] out e h = e
write_words-Gives n place (w ∷ ws) out e h =
    Gives-bind (HasLength (length out)) (HasLength n)
      (ok_or (write_u32 out place w) DmaError.panicked) (λ out'. write_words (place + 4) ws out')
      (write_u32-Gives out place w (omega (arith, h, e)))
      λ out' e'. write_words-Gives n (place + 4) ws out' (e' ∙ e) (omega (arith, h))

mark_plain-Gives :
    (n : ℕ) (es : List DmaEntry) (out : List ℕ)
    → length out ≡ n
    → All (λ e. e.place + 16 ≤ n) es
    → Gives (HasLength n) (mark_plain es out)
unfolding mark_plain
mark_plain-Gives n [] out e h = e
mark_plain-Gives n (x ∷ es) out e h =
    let ws = x.vrom_start ∷ x.vrom_end ∷ x.vrom_start ∷ 0 ∷ [] in
    Gives-bind (HasLength n) (HasLength n) (write_words x.place ws out) (λ out'. mark_plain es out')
      (write_words-Gives n x.place ws out e h.0) λ out' e'. mark_plain-Gives n es out' e' h.1

-- A plain file that ends behind its start and is in the ROM.
abbrev pub IsPlain : List ℕ → DmaEntry → Type 0
IsPlain rom e =
    ((e.rom_end == 0) ≡ true)
    × (e.vrom_start ≤ e.vrom_end)
    × (e.rom_start + (e.vrom_end - e.vrom_start) ≤ length rom)

file_data-Gives :
    (rom : List ℕ) (e : DmaEntry)
    → IsPlain rom e
    → Gives (HasLength (e.vrom_end - e.vrom_start)) (file_data rom e (e.vrom_end - e.vrom_start))
unfolding file_data
file_data-Gives rom e (p, q, h) =
    let len = e.vrom_end - e.vrom_start in
    let inside : leb (e.rom_start + len) (length rom) ≡ true = ground arith in
    rw (p, inside)
      (omega (
        arith,
        h,
        length-take (e.rom_start + len - e.rom_start) (drop e.rom_start rom),
        length-drop e.rom_start rom,
      ))

copy_files-Gives :
    (rom : List ℕ) (n : ℕ) (es : List DmaEntry) (out : List ℕ)
    → length out ≡ n
    → end_of es ≤ n
    → All (IsPlain rom) es
    → Gives (HasLength n) (copy_files rom es out)
unfolding copy_files
copy_files-Gives rom n [] out e h plain = e
copy_files-Gives rom n (x ∷ es) out e h (plain, others) =
    let len = x.vrom_end - x.vrom_start in
    let here : x.vrom_end ≤ n = ground arith in
    let ordered : ltb x.vrom_end x.vrom_start ≡ false = ground (arith, plain.1) in
    Gives-fail_if (HasLength n) (ltb x.vrom_end x.vrom_start) _ _ ordered (
      Gives-bind (HasLength len) (HasLength n) (file_data rom x len) _ (file_data-Gives rom x plain)
        λ bs size.
          Gives-bind (HasLength (length out)) (HasLength n) (put out x.vrom_start bs)
            (λ out'. copy_files rom es out')
            (put-Gives out x.vrom_start bs (omega (arith, size, e, here, plain.1)))
            λ out' e'. copy_files-Gives rom n es out' (e' ∙ e) (ground arith) others)

-- How long the image is.
abbrev pub image_length : List DmaEntry → ℕ
image_length es = max_of (end_of (used_entries es)) 0x0010_1000

length-zeros : (n : ℕ) → length (zeros n) ≡ n
unfolding zeros
length-zeros n = length-replicate n 0

length-front_of : (rom : List ℕ) → length (front_of rom) ≤ 0x1000
unfolding front_of
length-front_of rom = omega (arith, length-take 0x1000 rom)

blank_image-Gives :
    (rom : List ℕ) (end : ℕ)
    → 0x1000 ≤ length rom
    → Gives (HasLength (max_of end 0x0010_1000)) (blank_image rom end)
unfolding blank_image
blank_image-Gives rom end h =
    let n = max_of end 0x0010_1000 in
    let long : 0x1000 ≤ n = ground arith in
    let first = zeros n in
    let enough : ltb (length rom) 0x1000 ≡ false = ground arith in
    let room : 0 + length (front_of rom) ≤ length first =
      omega (arith, length-front_of rom, long, length-zeros n) in
    Gives-fail_if (HasLength n) (ltb (length rom) 0x1000) _ _ enough (
      subst (λ k. Gives (HasLength k) (put first 0 (front_of rom))) (length-zeros n)
        (put-Gives first 0 (front_of rom) room))

-- A ROM of 4 KiB at least has a file table of the entries `es`, one of which is for the table; every file is plain, in
-- the ROM, and ends at 64 MiB at most; every entry is in the image, which ends where the last file does and is not
-- shorter than 0x101000 bytes. Then `yaz0_dmadata` gives an image of this length.
pub yaz0_dmadata-Gives :
    (rom : List ℕ) (table : ℕ) (es : List DmaEntry)
    → 0x1000 ≤ length rom
    → dma_entries rom table ≡ ok es
    → names_itself table es ≡ true
    → end_of (used_entries es) ≤ 0x0400_0000
    → All (IsPlain rom) (used_entries es)
    → All (λ e. e.place + 16 ≤ image_length es) (used_entries es)
    → Gives (λ image. length image ≡ image_length es) (yaz0_dmadata rom table)
unfolding yaz0_dmadata
yaz0_dmadata-Gives rom table es long read named bound plain inside =
    let us = used_entries es in
    let end = end_of us in
    let n = max_of end 0x0010_1000 in
    let reaches : end ≤ n = ground arith in
    let small : ltb 0x0400_0000 end ≡ false = ground arith in
    rw (read, named)
      (Gives-fail_if (HasLength n) (ltb 0x0400_0000 end) _ _ small (
        Gives-bind (HasLength n) (HasLength n) (blank_image rom end) _
          (blank_image-Gives rom end long)
          λ out e.
            Gives-bind (HasLength n) (HasLength n) (copy_files rom us out)
              (λ out'. mark_plain us out') (copy_files-Gives rom n us out e reaches plain)
              λ out' e'. mark_plain-Gives n us out' e' inside))
