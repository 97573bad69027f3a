-- ===== src/Rom/Crc/Fixing.antt =====
-- Storing the check words, and computing them again.
use multi.Common.{
  ℕ, zero, suc, ◌+◌, ◌-◌, ◌%◌, ◌^◌, ◌≤◌, ◌≡◌, refl, sym, ap, ◌∙◌, List, none, some, length, take,
  drop, get_or, ltb, if◌then◌else◌, arith, All,
}
use multi.Common.Bytes.{byte_at, u32_at, IsByte}
use multi.Rom.{read_u32, write_u32}
use multi.Rom.Words.{
  get_or-drop, take-take, drop-drop, written, write_u32-written, length-written, take-written,
  drop-written, u32_at-written, u32_at-front, read_u32_lem,
}
use multi.Rom.Crc.Bounds.{AreU32, compute-AreU32}
use multi.Rom.Crc.{
  Cic, cic6101, cic6102, cic6103, cic6105, crc_start, crc_end, crc_words, Sums, own_word, add_data,
  add_word, add_words, finish, first_sums, seed, compute, stored, fix, store_words, pair,
}

-- Two lists that agree from a place on.
abbrev IsTail : ℕ → List ℕ → List ℕ → Type 0
IsTail n xs ys = drop n xs ≡ drop n ys

byte_at-IsTail :
    (n : ℕ) (xs ys : List ℕ) (i : ℕ) → IsTail n xs ys → n ≤ i → byte_at xs i ≡ byte_at ys i
byte_at-IsTail n xs ys i h p =
    ap (λ k. get_or xs k 0) place
    ∙ sym (get_or-drop n xs (i - n))
    ∙ ap (λ zs. get_or zs (i - n) 0) h
    ∙ get_or-drop n ys (i - n)
    ∙ ap (λ k. get_or ys k 0) (sym place)
  where
    place : i ≡ n + (i - n)
    place = omega (arith, p)

u32_at-IsTail :
    (n : ℕ) (xs ys : List ℕ) (i : ℕ) → IsTail n xs ys → n ≤ i → u32_at xs i ≡ u32_at ys i
u32_at-IsTail n xs ys i h p =
    rw
      (
        byte_at-IsTail n xs ys i h p,
        byte_at-IsTail n xs ys (i + 1) h (omega arith),
        byte_at-IsTail n xs ys (i + 2) h (omega arith),
        byte_at-IsTail n xs ys (i + 3) h (omega arith),
      )
      refl

-- The sums read nothing before the boot code.
own_word-IsTail :
    (xs ys : List ℕ) (cic : Cic) (i : ℕ) → IsTail 0x18 xs ys → own_word xs cic i ≡ own_word ys cic i
own_word-IsTail xs ys cic6101 i h = refl
own_word-IsTail xs ys cic6102 i h = refl
own_word-IsTail xs ys cic6103 i h = refl
own_word-IsTail xs ys cic6105 i h =
    ap some (u32_at-IsTail 0x18 xs ys (0x40 + 0x0710 + i % 2 ^ 8) h (omega arith))

add_word-IsTail :
    (xs ys : List ℕ) (cic : Cic) (i : ℕ) (s : Sums)
    → IsTail 0x18 xs ys
    → 0x18 ≤ i
    → add_word xs cic i s ≡ add_word ys cic i s
unfolding add_word
add_word-IsTail xs ys cic i s h p =
    ap (λ d. add_data d (own_word xs cic i) s) (u32_at-IsTail 0x18 xs ys i h p)
    ∙ ap (λ own. add_data (u32_at ys i) own s) (own_word-IsTail xs ys cic i h)

add_words-IsTail :
    (n : ℕ) (xs ys : List ℕ) (cic : Cic) (i : ℕ) (s : Sums)
    → IsTail 0x18 xs ys
    → 0x18 ≤ i
    → add_words n xs cic i s ≡ add_words n ys cic i s
unfolding add_words
add_words-IsTail zero xs ys cic i s h p = refl
add_words-IsTail (suc n) xs ys cic i s h p =
    ap (add_words n xs cic (i + 4)) (add_word-IsTail xs ys cic i s h p)
    ∙ add_words-IsTail n xs ys cic (i + 4) (add_word ys cic i s) h (omega arith)

compute-IsTail :
    (xs ys : List ℕ) (cic : Cic)
    → IsTail 0x18 xs ys
    → length xs ≡ length ys
    → compute xs cic ≡ compute ys cic
unfolding compute
compute-IsTail xs ys cic h l =
    let same =
      add_words-IsTail crc_words xs ys cic crc_start (first_sums (seed cic)) h (omega arith) in
    ap (λ s. if ltb (length xs) crc_end then none else some (finish cic s)) same
    ∙ ap
        (λ n.
          if ltb n crc_end
          then none
          else some (finish cic (add_words crc_words ys cic crc_start (first_sums (seed cic)))))
        l

fix_of :
    (rom : List ℕ) (cic : Cic) (sums : ℕ × ℕ)
    → compute rom cic ≡ some sums
    → fix rom cic ≡ store_words sums rom
unfolding fix
fix_of rom cic sums e = ap (λ o. elim o [ none ↦ none | some found ↦ store_words found rom ]) e

module _ (rom : List ℕ) (a b : ℕ) (fits : 0x18 ≤ length rom) where
  abbrev half : List ℕ
  half = written rom 0x10 a

  -- The ROM with both words stored.
  abbrev whole : List ℕ
  whole = written half 0x14 b

  length-half : length half ≡ length rom
  length-half = length-written rom 0x10 a (omega arith)

  fits_half : 0x14 + 4 ≤ length half
  fits_half = omega (arith, length-half, fits)

  length-whole : length whole ≡ length rom
  length-whole = length-written half 0x14 b fits_half ∙ length-half

  store_words-whole : store_words (a, b) rom ≡ some (whole, (a, b))
  store_words-whole =
      ap
        (λ o. elim o [
          | none ↦ none
          | some h ↦ elim (write_u32 h 0x14 b) [ none ↦ none | some w ↦ some (w, (a, b)) ]
        ])
        (write_u32-written rom 0x10 a (omega arith))
      ∙ ap (λ o. elim o [ none ↦ none | some w ↦ some (w, (a, b)) ])
          (write_u32-written half 0x14 b fits_half)

  whole-IsTail : drop 0x18 whole ≡ drop 0x18 rom
  whole-IsTail =
      drop-written half 0x14 b fits_half
      ∙ drop-drop 0x14 4 half
      ∙ ap (drop 4) (drop-written rom 0x10 a (omega arith))
      ∙ sym (drop-drop 0x14 4 rom)

  stored-whole : AreU32 (a, b) → stored whole ≡ some (a, b)
  unfolding stored
  stored-whole (p, q) =
      let first =
        u32_at-front 0x14 whole half 0x10 (take-written half 0x14 b fits_half) (omega arith)
        ∙ u32_at-written rom 0x10 a (omega arith) p in
      let second = u32_at-written half 0x14 b fits_half q in
      ap (λ o. pair o (read_u32 whole 0x14))
        (read_u32_lem whole 0x10 a (omega (arith, length-whole, fits)) first)
      ∙ ap (pair (some a)) (read_u32_lem whole 0x14 b (omega (arith, length-whole, fits)) second)

  front-whole : take 0x10 whole ≡ take 0x10 rom
  front-whole =
      sym (take-take 0x10 4 whole)
      ∙ ap (take 0x10) (take-written half 0x14 b fits_half)
      ∙ take-take 0x10 4 half
      ∙ take-written rom 0x10 a (omega arith)

-- `fix` of a ROM that is long enough succeeds, and stores what it returns: in the new ROM `stored` reads these
-- words, and `compute` gives them again. Nothing but the eight bytes of the words has changed.
pub fix-stored :
    (rom : List ℕ) (cic : Cic)
    → All IsByte rom
    → crc_end ≤ length rom
    → (fixed : List ℕ) × (sums : ℕ × ℕ) × (fix rom cic ≡ some (fixed, sums))
      × (stored fixed ≡ some sums)
      × (compute fixed cic ≡ some sums)
      × (length fixed ≡ length rom)
      × (take 0x10 fixed ≡ take 0x10 rom)
      × (drop 0x18 fixed ≡ drop 0x18 rom)
fix-stored rom cic bytes long =
    let ((a, b), e, words) = compute-AreU32 rom cic bytes long in
    let fits : 0x18 ≤ length rom = omega (arith, long) in
    (
      whole rom a b fits,
      (a, b),
      fix_of rom cic (a, b) e ∙ store_words-whole rom a b fits,
      stored-whole rom a b fits words,
      compute-IsTail (whole rom a b fits) rom cic (whole-IsTail rom a b fits)
            (length-whole rom a b fits)
          ∙ e,
      length-whole rom a b fits,
      front-whole rom a b fits,
      whole-IsTail rom a b fits,
    )
