-- ===== src/Ap64/Backend/RomPages/Pages.antt =====
-- The pages that crates/ap64-cart/src/backend.rs keeps: what is put together from them is the ROM, and none that is needed is missed.
use multi.Common.{
  ℕ, zero, suc, ◌+◌, ◌-◌, ◌*◌, ◌/◌, ◌%◌, ◌^◌, ◌≤◌, ◌<◌, min, ◌≡◌, refl, sym, ap, subst, ◌∙◌, inl,
  inr, List, [], ◌∷◌, ◌++◌, Option, none, some, length, take, drop, slice, slice-take, All, true,
  false, Bool-cases, ltb, leb, ltb→lt, ltb→le, ◌==◌, ==_iff, arith,
}
use multi.Ap64.M64p.{Region}
use multi.Ap64.Backend.Memory.{Memory, block, block_of, block-append}
use multi.Ap64.Backend.Splitting.{blocks}
use multi.Ap64.Backend.RomPages.{
  rom_page, Pages, insert_page, is_kept, page_region, missing_pages, keep_blocks, assemble,
}

-- That a kept page is of the ROM.
abbrev pub AgreesWith : Memory → Pages → Type 0
AgreesWith rom pages =
    (p : ℕ) (bs : List ℕ) → pages p ≡ some bs → bs ≡ block rom (p * rom_page) rom_page

abbrev pub HasPage : Pages → ℕ → Type 0
HasPage pages p = is_kept (pages p) ≡ true

take-block : (rom : Memory) (a k n : ℕ) → k ≤ n → take k (block rom a n) ≡ block rom a k
take-block rom a zero n h = refl
take-block rom a (suc k) zero h = absurd (omega arith)
take-block rom a (suc k) (suc n) h =
    ap (λ ys. rom a ∷ ys) (take-block rom (suc a) k n (omega arith))

drop-block : (rom : Memory) (a k n : ℕ) → drop k (block rom a (k + n)) ≡ block rom (a + k) n
drop-block rom a zero n = rw (here, there) refl
  where
    here : 0 + n ≡ n
    here = omega arith

    there : a + 0 ≡ a
    there = omega arith
drop-block rom a (suc k) n = rw (here, there) (drop-block rom (suc a) k n)
  where
    here : suc k + n ≡ suc (k + n)
    here = omega arith

    there : a + suc k ≡ suc a + k
    there = omega arith

length-block : (rom : Memory) (a n : ℕ) → length (block rom a n) ≡ n
length-block rom a zero = refl
length-block rom a (suc n) = ap suc (length-block rom (suc a) n)

slice-block :
    (rom : Memory) (a off size n : ℕ)
    → off + size ≤ n
    → slice (block rom a n) off (off + size) ≡ block rom (a + off) size
slice-block rom a off size n h =
    let whole : n ≡ off + (n - off) = omega (arith, h) in
    slice-take (block rom a n) off size
    ∙ ap (λ k. take size (drop off (block rom a k))) whole
    ∙ ap (take size) (drop-block rom a off (n - off))
    ∙ take-block rom (a + off) size (n - off) (omega (arith, h))

kept-cases : (o : Option (List ℕ)) → is_kept o ≡ true → (bs : List ℕ) × (o ≡ some bs)
kept-cases none h = absurd cc
kept-cases (some bs) h = (bs, refl)

assemble-end :
    (fuel : ℕ) (pages : Pages) (place end : ℕ)
    → end ≤ place
    → assemble fuel pages place end ≡ some []
unfolding assemble
assemble-end zero pages place end h = refl
assemble-end (suc fuel) pages place end h =
    let no : ltb place end ≡ false = ground arith in rw no refl

within : (m n : ℕ) → m ≤ n → leb m n ≡ true
within m n h = ground arith

pub assemble_lem :
    (rom : Memory) (pages : Pages) (fuel place end : ℕ)
    → AgreesWith rom pages
    → end ≤ place + fuel
    → place ≤ end
    → ((q : ℕ) → place < end → place / rom_page ≤ q → q * rom_page < end → HasPage pages q)
    → assemble fuel pages place end ≡ some (block rom place (end - place))
unfolding assemble
assemble_lem rom pages zero place end agrees h k has =
    let gone : end - place ≡ 0 = omega arith in ap (λ n. some (block rom place n)) (sym gone)
assemble_lem rom pages (suc fuel) place end agrees h k has = elim (Bool-cases (ltb place end)) [
  | inr e ↦
      let past : end ≤ place = ltb→le place end e in
      let gone : end - place ≡ 0 = omega (arith, past) in rw (e, gone) refl
  | inl e ↦
      let part : place < end = ltb→lt place end e in
      let q = place / rom_page in
      let off = place % rom_page in
      let size = min (end - place) (rom_page - off) in
      let (page, kept) = kept-cases (pages q) (has q part (omega arith) (omega (arith, part))) in
      let is : page ≡ block rom (q * rom_page) rom_page = agrees q page kept in
      let size_of : length page ≡ rom_page =
        ap length is ∙ length-block rom (q * rom_page) rom_page in
      let room : leb (off + size) (length page) ≡ true =
        within (off + size) (length page) (omega (arith, size_of)) in
      let rest =
        assemble_lem rom pages fuel (place + size) end agrees (omega (arith, part, h))
          (omega (arith, part)) (λ q' c a b. has q' part (omega (arith, a)) b) in
      let here : q * rom_page + off ≡ place = omega arith in
      let cut : slice page off (off + size) ≡ block rom place size =
        ap (λ ys. slice ys off (off + size)) is
        ∙ slice-block rom (q * rom_page) off size rom_page (omega arith)
        ∙ ap (λ a. block rom a size) here in
      let whole : size + (end - (place + size)) ≡ end - place = omega (arith, part) in
      rw (e, kept, rest, room)
        (ap some (
          ap (λ ys. ys ++ block rom (place + size) (end - (place + size))) cut
          ∙ sym (block-append rom place size (end - (place + size)))
          ∙ ap (block rom place) whole))
]

-- A region of one page, whose address is that of the page.
abbrev pub IsPage : Region → Type 0
IsPage r = (r.len ≡ rom_page) × (r.addr / rom_page * rom_page ≡ r.addr)

pub missing_pages-IsPage : (pages : Pages) (ps : List ℕ) → All IsPage (missing_pages pages ps)
unfolding missing_pages
missing_pages-IsPage pages [] = tt
missing_pages-IsPage pages (p ∷ ps) = elim (Bool-cases (is_kept (pages p))) [
  | inl e ↦ rw e (missing_pages-IsPage pages ps)
  | inr e ↦ rw e ((refl, omega arith), missing_pages-IsPage pages ps)
]

-- Pages that are there, or were missing and have come.
pub missing_pages-HasPage :
    (pages pages' : Pages) (ps : List ℕ)
    → ((p : ℕ) → HasPage pages p → HasPage pages' p)
    → All (λ p. p < 2 ^ 22) ps
    → All (λ r. HasPage pages' (r.addr / rom_page)) (missing_pages pages ps)
    → All (HasPage pages') ps
unfolding missing_pages
missing_pages-HasPage pages pages' [] stays small h = tt
missing_pages-HasPage pages pages' (p ∷ ps) stays (small, smalls) h =
    elim (Bool-cases (is_kept (pages p))) [
      | inl e ↦ (stays p e, missing_pages-HasPage pages pages' ps stays smalls (rw e at h))
      | inr e ↦
          let came : All (λ r. HasPage pages' (r.addr / rom_page))
              (page_region p ∷ missing_pages pages ps) =
            rw e at h in
          let same : p * rom_page % 2 ^ 32 / rom_page ≡ p = omega (arith, small) in
          (
            subst (HasPage pages') same came.0,
            missing_pages-HasPage pages pages' ps stays smalls came.1,
          )
    ]

insert-AgreesWith :
    (rom : Memory) (pages : Pages) (p : ℕ) (bs : List ℕ)
    → bs ≡ block rom (p * rom_page) rom_page
    → AgreesWith rom pages
    → AgreesWith rom (insert_page p bs pages)
insert-AgreesWith rom pages p bs new agrees q cs h = elim (Bool-cases (q == p)) [
  | inl e ↦
      let same : q ≡ p = (==_iff q p).0 e in
      let it : ◌≡◌ {A = Option (List ℕ)} (some bs) (some cs) = rw e at h in
      let known : bs ≡ cs = cc in
      sym known ∙ new ∙ ap (λ k. block rom (k * rom_page) rom_page) (sym same)
  | inr e ↦ agrees q cs (rw e at h)
]

insert-HasPage :
    (pages : Pages) (p q : ℕ) (bs : List ℕ) → HasPage pages q → HasPage (insert_page p bs pages) q
insert-HasPage pages p q bs h = elim (Bool-cases (q == p)) [ inl e ↦ rw e refl | inr e ↦ rw e h ]

insert_page-HasPage : (pages : Pages) (p : ℕ) (bs : List ℕ) → HasPage (insert_page p bs pages) p
insert_page-HasPage pages p bs = let same : (p == p) ≡ true = ground arith in rw same refl

-- What is kept after a request: of the ROM, with all that was there and all that was asked for.
pub keep_blocks_lem :
    (rom : Memory) (rs : List Region) (pages : Pages)
    → All IsPage rs
    → AgreesWith rom pages
    → AgreesWith rom (keep_blocks pages rs (blocks rom rs))
      × ((q : ℕ) → HasPage pages q → HasPage (keep_blocks pages rs (blocks rom rs)) q)
      × All (λ r. HasPage (keep_blocks pages rs (blocks rom rs)) (r.addr / rom_page)) rs
unfolding keep_blocks
keep_blocks_lem rom [] pages h agrees = (agrees, λ q p. p, tt)
keep_blocks_lem rom (r ∷ rs) pages ((len, start), hs) agrees =
    let b = block_of rom r in
    let p = r.addr / rom_page in
    let is : b ≡ block rom (p * rom_page) rom_page = rw (len, start) refl in
    let (ok', stays, come) =
      keep_blocks_lem rom rs (insert_page p b pages) hs
        (insert-AgreesWith rom pages p b is agrees) in
    (
      ok',
      λ q k. stays q (insert-HasPage pages p q b k),
      (stays p (insert_page-HasPage pages p b), come),
    )
