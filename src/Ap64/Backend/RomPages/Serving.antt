-- ===== src/Ap64/Backend/RomPages/Serving.antt =====
-- `read_rom_many` of crates/ap64-cart/src/backend.rs over a link to a ROM.
use multi.Common.{
  ℕ, zero, suc, ◌+◌, ◌-◌, ◌*◌, ◌/◌, ◌%◌, ◌^◌, ◌≤◌, ◌<◌, ◌≡◌, refl, sym, ap, subst, ◌∙◌, ◌⊎◌, inl,
  inr, List, [], ◌∷◌, ◌++◌, some, length, All, All-append, All-front, All-map, All-both,
  All-append_right, Result, Result-cases, ok, err, true, false, Bool-cases, ltb, ◌==◌, ==_iff,
  arith,
}
use multi.Ap64.M64p.{Region, max_region_bytes}
use multi.Ap64.Backend.{batches, fill}
use multi.Ap64.Backend.Memory.{Memory, block}
use multi.Ap64.Backend.Requests.{
  flatten, flatten-fill, IsRequest, IsIn, IsAllowed, fill-IsRequest, All-flatten,
}
use multi.Ap64.Backend.Splitting.{blocks, asked, AreReadable}
use multi.Ap64.Backend.RomPages.{
  rom_page, Pages, RomLink, RomError, rom_link_error, is_kept, missing_pages, keep_blocks,
  pages_from, insert_sorted, sort_dedup, pages_of, assemble, fill_batches, fill_rom_pages,
  pages_needed, assemble_all, read_rom_many,
}
use multi.Ap64.Backend.RomPages.Pages.{
  AgreesWith, HasPage, IsPage, assemble_lem, missing_pages-IsPage, missing_pages-HasPage,
  keep_blocks_lem,
}

module _ (P : ℕ → Type 0) where
  insert_sorted-All : (p : ℕ) (qs : List ℕ) → P p → All P qs → All P (insert_sorted p qs)
  unfolding insert_sorted
  insert_sorted-All p [] h hs = (h, tt)
  insert_sorted-All p (q ∷ qs) h (k, ks) = elim (Bool-cases (ltb p q)) [
    | inl e ↦ rw e (h, (k, ks))
    | inr e ↦ elim (Bool-cases (p == q)) [
      | inl e' ↦ rw (e, e') (k, ks)
      | inr e' ↦ rw (e, e') (k, insert_sorted-All p qs h ks)
    ]
  ]

  sort_dedup-All : (ps : List ℕ) → All P ps → All P (sort_dedup ps)
  unfolding sort_dedup
  sort_dedup-All [] h = tt
  sort_dedup-All (p ∷ ps) (h, hs) = insert_sorted-All p (sort_dedup ps) h (sort_dedup-All ps hs)

  -- Nothing that was put in is lost.
  All-insert_sorted : (p : ℕ) (qs : List ℕ) → All P (insert_sorted p qs) → P p × All P qs
  unfolding insert_sorted
  All-insert_sorted p [] h = (h.0, tt)
  All-insert_sorted p (q ∷ qs) h = elim (Bool-cases (ltb p q)) [
    | inl e ↦ rw e at h
    | inr e ↦ elim (Bool-cases (p == q)) [
      | inl e' ↦
          let kept : All P (q ∷ qs) = rw (e, e') at h in
          (subst P (sym ((==_iff p q).0 e')) kept.0, kept)
      | inr e' ↦
          let kept : All P (q ∷ insert_sorted p qs) = rw (e, e') at h in
          let (here, others) = All-insert_sorted p qs kept.1 in (here, (kept.0, others))
    ]
  ]

  All-sort_dedup : (ps : List ℕ) → All P (sort_dedup ps) → All P ps
  unfolding sort_dedup
  All-sort_dedup [] h = tt
  All-sort_dedup (p ∷ ps) h =
      let (here, others) = All-insert_sorted p (sort_dedup ps) h in (here, All-sort_dedup ps others)

  All-pages_from : (p n q : ℕ) → All P (pages_from p n) → p ≤ q → q < p + n → P q
  All-pages_from p zero q h a b = absurd (omega (arith, a, b))
  All-pages_from p (suc n) q h a b = elim (Bool-cases (p == q)) [
    | inl e ↦ subst P ((==_iff p q).0 e) h.0
    | inr e ↦ All-pages_from (suc p) n q h.1 (ground (arith, a)) (omega (arith, b))
  ]

pages_from-below : (b p n : ℕ) → p + n ≤ b → All (λ q. q < b) (pages_from p n)
pages_from-below b p zero h = tt
pages_from-below b p (suc n) h = (omega (arith, h), pages_from-below b (suc p) n (omega (arith, h)))

-- The pages of a region that is inside are inside, where a whole number of pages is.
pages_of-below : (b addr len : ℕ) → addr + len ≤ b * rom_page → All (λ q. q < b) (pages_of addr len)
pages_of-below b addr zero h = tt
pages_of-below b addr (suc n) h =
    pages_from-below b (addr / rom_page) (suc ((addr + suc n - 1) / rom_page - addr / rom_page))
      (omega (arith, h))

-- The pages of a region hold all of it.
pages_of-hold :
    (P : ℕ → Type 0) (addr len q : ℕ)
    → All P (pages_of addr len)
    → addr < addr + len
    → addr / rom_page ≤ q
    → q * rom_page < addr + len
    → P q
pages_of-hold P addr zero q h c a b = absurd (omega (arith, c))
pages_of-hold P addr (suc n) q h c a b =
    All-pages_from P (addr / rom_page) (suc ((addr + suc n - 1) / rom_page - addr / rom_page)) q h a
      (omega (arith, b))

-- The pages that regions inside the window need, one list behind the other.
abbrev needed : List (ℕ × ℕ) → List ℕ
needed [] = []
needed ((addr, len) ∷ regions) = pages_of addr len ++ needed regions

module _ {S E : Type 0} (link : RomLink S E) where
  pages_needed_lem :
      (window : ℕ) (regions : List (ℕ × ℕ))
      → AreReadable window regions
      → pages_needed link window regions ≡ ok (needed regions)
  unfolding pages_needed
  pages_needed_lem window [] h = refl
  pages_needed_lem window ((addr, len) ∷ regions) (h, hs) =
      let inside : ltb window (addr + len) ≡ false = ground arith in
      rw (inside, pages_needed_lem window regions hs) refl

  assemble_all_lem :
      (rom : Memory) (pages : Pages) (regions : List (ℕ × ℕ))
      → AgreesWith rom pages
      → All (HasPage pages) (needed regions)
      → assemble_all link pages regions ≡ ok (asked rom regions)
  unfolding assemble_all
  assemble_all_lem rom pages [] agrees h = refl
  assemble_all_lem rom pages ((addr, len) ∷ regions) agrees h =
      let here = All-front (HasPage pages) (pages_of addr len) (needed regions) h in
      let others = All-append_right (HasPage pages) (pages_of addr len) (needed regions) h in
      let size : addr + len - addr ≡ len = omega arith in
      let put : assemble len pages addr (addr + len) ≡ some (block rom addr len) =
        assemble_lem rom pages len addr (addr + len) agrees (omega arith) (omega arith)
          (λ q c a b. pages_of-hold (HasPage pages) addr len q here c a b)
        ∙ ap (λ n. some (block rom addr n)) size in
      rw (put, assemble_all_lem rom pages regions agrees others) refl

needed-below :
    (b : ℕ) (regions : List (ℕ × ℕ))
    → AreReadable (b * rom_page) regions
    → All (λ q. q < b) (needed regions)
needed-below b [] h = tt
needed-below b ((addr, len) ∷ regions) (h, hs) =
    All-append (λ q. q < b) (pages_of addr len) (needed regions) (pages_of-below b addr len h)
      (needed-below b regions hs)

missing_pages-IsIn :
    (b : ℕ) (pages : Pages) (ps : List ℕ)
    → b * rom_page < 2 ^ 32
    → All (λ q. q < b) ps
    → All (IsIn Region.addr Region.len (b * rom_page)) (missing_pages pages ps)
unfolding missing_pages
missing_pages-IsIn b pages [] small h = tt
missing_pages-IsIn b pages (p ∷ ps) small (h, hs) = elim (Bool-cases (is_kept (pages p))) [
  | inl e ↦ rw e (missing_pages-IsIn b pages ps small hs)
  | inr e ↦
      let here : p * rom_page % 2 ^ 32 ≡ p * rom_page = omega (arith, h, small) in
      rw (e, here) ((omega (arith, h), omega arith), missing_pages-IsIn b pages ps small hs)
]

-- That where the link says that a request for ROM was answered, it was from one ROM, and that the link does not restart: what is
-- kept stays, and so does the generation. The link may refuse any request.
pub record AnswersRom {S E : Type 0} (link : RomLink S E) (rom : Memory) : Type 0 where
  pub answered :
      (s s' : S) (batch : List Region) (bs : List (List ℕ))
      → link.peek_rom s batch ≡ ok (s', bs)
      → (bs ≡ blocks rom batch)
        × (link.rom_pages s' ≡ link.rom_pages s)
        × (link.generation s' ≡ link.generation s)
  pub keeping : (s : S) (pages : Pages) → link.rom_pages (link.keep_pages s pages) ≡ pages
  pub keeping_generation :
      (s : S) (pages : Pages) → link.generation (link.keep_pages s pages) ≡ link.generation s
  pub counting : (s : S) (n : ℕ) → link.rom_pages (link.rom_counted s n) ≡ link.rom_pages s
  pub counting_generation :
      (s : S) (n : ℕ) → link.generation (link.rom_counted s n) ≡ link.generation s

-- The link refused a request for ROM that it may not.
abbrev pub IsRefusedRom : {S E A : Type 0} → RomLink S E → ℕ → Result (RomError E) A → Type 0
IsRefusedRom {S} {E} link window r =
    (s : S) × (batch : List Region) × (e : E) × IsAllowed Region.addr Region.len window batch
    × (link.peek_rom s batch ≡ err e)
    × (r ≡ err (rom_link_error e))

module _ {S E : Type 0} (link : RomLink S E) (rom : Memory) (answers : AnswersRom link rom) where
  -- What becomes of the pages: they are of the ROM, none is dropped, and those of the regions are there.
  abbrev Filled : S → List Region → S → Type 0
  Filled s rs s' =
      AgreesWith rom (link.rom_pages s')
      × ((q : ℕ) → HasPage (link.rom_pages s) q → HasPage (link.rom_pages s') q)
      × All (λ r. HasPage (link.rom_pages s') (r.addr / rom_page)) rs
      × (link.generation s' ≡ link.generation s)

  fill_batches_lem :
      (window : ℕ) (s : S) (bs : List (List Region))
      → All (IsAllowed Region.addr Region.len window) bs
      → All (All IsPage) bs
      → AgreesWith rom (link.rom_pages s)
      → ((s' : S) × (fill_batches link s bs ≡ ok s') × Filled s (flatten bs) s')
        ⊎ IsRefusedRom link window (fill_batches link s bs)
  unfolding fill_batches
  fill_batches_lem window s [] h k agrees = inl (s, refl, (agrees, (λ q p. p), tt, refl))
  fill_batches_lem window s (batch ∷ bs) (h, hs) (k, ks) agrees =
      let c = link.rom_counted s (length batch) in
      elim (Result-cases (link.peek_rom c batch)) [
        | inr (e, q) ↦ inr (c, batch, e, h, q, (rw q refl))
        | inl ((s1, got), q) ↦
            let (right, same, gen) = answers.answered c s1 batch got q in
            let before : link.rom_pages s1 ≡ link.rom_pages s =
              same ∙ answers.counting s (length batch) in
            let kept = keep_blocks (link.rom_pages s1) batch (blocks rom batch) in
            let s2 = link.keep_pages s1 kept in
            let next : fill_batches link s (batch ∷ bs) ≡ fill_batches link s2 bs =
              rw (q, right) refl in
            let now : link.rom_pages s2 ≡ kept = answers.keeping s1 kept in
            let (agrees', stays, come) =
              keep_blocks_lem rom batch (link.rom_pages s1) k
                (subst (AgreesWith rom) (sym before) agrees) in
            elim (fill_batches_lem window s2 bs hs ks (subst (AgreesWith rom) (sym now) agrees')) [
              | inr (t, b, e, fine, p, stopped) ↦ inr (t, b, e, fine, p, next ∙ stopped)
              | inl (s', rest, (agrees'', stays', come', gen')) ↦
                  let to_end : (q : ℕ) → HasPage kept q → HasPage (link.rom_pages s') q =
                    λ q p. stays' q (subst (λ f. HasPage f q) (sym now) p) in
                  inl (
                    s',
                    next ∙ rest,
                    (
                      agrees'',
                      λ q p. to_end q (stays q (subst (λ f. HasPage f q) (sym before) p)),
                      All-append (λ r. HasPage (link.rom_pages s') (r.addr / rom_page)) batch
                          (flatten bs)
                          (All-map (λ r. HasPage kept (r.addr / rom_page))
                            (λ r. HasPage (link.rom_pages s') (r.addr / rom_page))
                            (λ r p. to_end (r.addr / rom_page) p) batch come)
                          come',
                      gen'
                          ∙ answers.keeping_generation s1 kept
                          ∙ gen
                          ∙ answers.counting_generation s (length batch),
                    ),
                  )
            ]
      ]

  -- Over a link that answers from one ROM the requests for ROM that it answers, does not restart, and may fail any: where the cart
  -- has a window that is a u32 and a whole number of pages, and all regions are in it, and what is kept is of the ROM, `read_rom_many`
  -- brings for each region the bytes of the ROM there, and what is kept then is of the ROM; or it fails with the link's error, since the link refused a
  -- request that is within the limits of the protocol for regions, their lengths and all bytes, and in the window.
  pub read_rom_many-AgreesWith :
      (s : S) (n : ℕ) (regions : List (ℕ × ℕ))
      → link.rom_bytes s ≡ some (n * rom_page)
      → n * rom_page < 2 ^ 32
      → AreReadable (n * rom_page) regions
      → AgreesWith rom (link.rom_pages s)
      → ((s' : S) × (read_rom_many link s regions ≡ ok (s', asked rom regions))
          × AgreesWith rom (link.rom_pages s'))
        ⊎ IsRefusedRom link (n * rom_page) (read_rom_many link s regions)
  unfolding read_rom_many fill_rom_pages batches
  read_rom_many-AgreesWith s n regions e small inside agrees =
      let window = n * rom_page in
      let ps = sort_dedup (needed regions) in
      let rs = missing_pages (link.rom_pages s) ps in
      let bs = fill Region.len [] 0 rs in
      let are_pages = missing_pages-IsPage (link.rom_pages s) ps in
      let below = sort_dedup-All (λ q. q < n) (needed regions) (needed-below n regions inside) in
      let whole = flatten-fill Region.len rs [] 0 in
      let requests =
        fill-IsRequest Region.len rs [] (omega arith) (omega arith) (
          All-map IsPage (λ r. r.len ≤ max_region_bytes) (λ r p. omega (arith, p.0)) rs
            are_pages) in
      let each : All (All (IsIn Region.addr Region.len window)) bs =
        All-flatten (IsIn Region.addr Region.len window) bs (
          subst (All (IsIn Region.addr Region.len window)) (sym whole)
            (missing_pages-IsIn n (link.rom_pages s) ps small below)) in
      let allowed =
        All-both (IsRequest Region.len) (All (IsIn Region.addr Region.len window)) bs requests
          each in
      let needs = pages_needed_lem link window regions inside in
      elim (fill_batches_lem window s bs allowed
        (All-flatten IsPage bs (subst (All IsPage) (sym whole) are_pages)) agrees) [
          | inr (t, b, x, fine, q, stopped) ↦ inr (t, b, x, fine, q, (rw (e, needs, stopped) refl))
          | inl (s', filled, (agrees', stays, come, gen)) ↦
              let has : All (HasPage (link.rom_pages s')) (needed regions) =
                All-sort_dedup (HasPage (link.rom_pages s')) (needed regions) (
                  missing_pages-HasPage (link.rom_pages s) (link.rom_pages s') ps stays
                    (All-map (λ q. q < n) (λ q. q < 2 ^ 22) (λ q p. omega (arith, p, small)) ps
                      below)
                    (subst (All (λ r. HasPage (link.rom_pages s') (r.addr / rom_page))) whole
                      come)) in
              let same : (link.generation s' == link.generation s) ≡ true =
                same_test (link.generation s') (link.generation s) gen in
              let put = assemble_all_lem link rom (link.rom_pages s') regions agrees' has in
              inl (s', (rw (e, needs, filled, same, put) refl), agrees')
        ]
    where
      same_test : (m n : ℕ) → m ≡ n → (m == n) ≡ true
      same_test m n h = ground arith
