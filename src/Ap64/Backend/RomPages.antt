-- ===== src/Ap64/Backend/RomPages.antt =====
-- `read_rom_many` and `fill_rom_pages` of crates/ap64-cart/src/backend.rs: cartridge ROM in pages that are kept. The map of pages
-- is a function. A panic is an error of its own.
pub mod Pages
pub mod Serving
use multi.Common.{
  ℕ, zero, suc, ◌+◌, ◌-◌, ◌*◌, ◌/◌, ◌%◌, ◌^◌, min, List, [], ◌∷◌, ◌++◌, Option, none, some, length,
  slice, Result, ok, err, ◌>>=◌, ◌>>◌, fail_if, ok_or, Bool, true, false, not, ltb, leb, ◌==◌,
  if◌then◌else◌,
}
use multi.Ap64.M64p.{Region}
use multi.Ap64.Backend.{batches}

abbrev pub rom_page : ℕ
rom_page = 1024

pub data RomError (E : Type 0) : Type 0 where
  no_peekrom link_restarted panicked : RomError E
  outside_window : ℕ → ℕ → ℕ → RomError E
  rom_link_error : E → RomError E

abbrev pub Pages : Type 0
Pages = ℕ → Option (List ℕ)

abbrev pub insert_page : ℕ → List ℕ → Pages → Pages
insert_page p bs pages q = if q == p then some bs else pages q

-- The state `S` under it: what it keeps, and a request for ROM that may drop what is kept where the link restarts.
pub record RomLink (S E : Type 0) : Type 0 where
  pub rom_bytes : S → Option ℕ
  pub generation : S → ℕ
  pub rom_pages : S → Pages
  pub keep_pages : S → Pages → S
  pub peek_rom : S → List Region → Result E (S × List (List ℕ))
  pub rom_counted : S → ℕ → S

abbrev pub is_kept : Option (List ℕ) → Bool
is_kept none = false
is_kept (some bs) = true

abbrev pub page_region : ℕ → Region
page_region p = record { addr = p * rom_page % 2 ^ 32; len = rom_page }

unfoldable pub missing_pages : Pages → List ℕ → List Region
missing_pages pages [] = []
missing_pages pages (p ∷ ps) =
    let rest = missing_pages pages ps in if is_kept (pages p) then rest else page_region p ∷ rest

-- `zip`: as long as there is a block for a region.
unfoldable pub keep_blocks : Pages → List Region → List (List ℕ) → Pages
keep_blocks pages [] blocks = pages
keep_blocks pages (r ∷ rs) [] = pages
keep_blocks pages (r ∷ rs) (b ∷ bs) = keep_blocks (insert_page (r.addr / rom_page) b pages) rs bs

-- `first..=last`, as `n` pages from the first.
abbrev pub pages_from : ℕ → ℕ → List ℕ
pages_from p zero = []
pages_from p (suc n) = p ∷ pages_from (suc p) n

-- `sort_unstable` and `dedup`, by putting each in its place.
unfoldable pub insert_sorted : ℕ → List ℕ → List ℕ
insert_sorted p [] = p ∷ []
insert_sorted p (q ∷ qs) =
    let rest = insert_sorted p qs in
    if ltb p q then p ∷ q ∷ qs else if p == q then q ∷ qs else q ∷ rest

unfoldable pub sort_dedup : List ℕ → List ℕ
sort_dedup [] = []
sort_dedup (p ∷ ps) = insert_sorted p (sort_dedup ps)

-- The pages that hold `len` bytes.
abbrev pub pages_of : ℕ → ℕ → List ℕ
pages_of addr zero = []
pages_of addr (suc n) =
    pages_from (addr / rom_page) (suc ((addr + suc n - 1) / rom_page - addr / rom_page))

-- The `while` loop over a region: from each page what it has of it. Each round takes a byte at least.
unfoldable pub assemble : ℕ → Pages → ℕ → ℕ → Option (List ℕ)
assemble zero pages place end = some []
assemble (suc fuel) pages place end =
    let off = place % rom_page in
    let size = min (end - place) (rom_page - off) in
    let rest = assemble fuel pages (place + size) end in
    if ltb place end then from_page (pages (place / rom_page)) off size rest else some []
  where
    from_page : Option (List ℕ) → ℕ → ℕ → Option (List ℕ) → Option (List ℕ)
    from_page (some page) off size (some rest) =
        if leb (off + size) (length page) then some (slice page off (off + size) ++ rest) else none
    from_page page off size rest = none

module _ {S E : Type 0} (link : RomLink S E) where
  abbrev pub over_rom_link : {A : Type 0} → Result E A → Result (RomError E) A
  over_rom_link (ok a) = ok a
  over_rom_link (err e) = err (rom_link_error e)

  unfoldable pub fill_batches : S → List (List Region) → Result (RomError E) S
  fill_batches s [] = ok s
  fill_batches s (batch ∷ bs) = do
    got ← over_rom_link (link.peek_rom (link.rom_counted s (length batch)) batch)
    fill_batches (link.keep_pages got.0 (keep_blocks (link.rom_pages got.0) batch got.1)) bs

  unfoldable pub fill_rom_pages : S → List ℕ → Result (RomError E) S
  fill_rom_pages s ps = fill_batches s (batches (missing_pages (link.rom_pages s) ps))

  unfoldable pub pages_needed : ℕ → List (ℕ × ℕ) → Result (RomError E) (List ℕ)
  pages_needed window [] = ok []
  pages_needed window ((addr, len) ∷ regions) = do
    fail_if (ltb window (addr + len)) (outside_window addr (addr + len) window)
    rest ← pages_needed window regions
    ok (pages_of addr len ++ rest)

  unfoldable pub assemble_all : Pages → List (ℕ × ℕ) → Result (RomError E) (List (List ℕ))
  assemble_all pages [] = ok []
  assemble_all pages ((addr, len) ∷ regions) = do
    bs ← ok_or (assemble len pages addr (addr + len)) panicked
    rest ← assemble_all pages regions
    ok (bs ∷ rest)

  unfoldable pub read_rom_many : S → List (ℕ × ℕ) → Result (RomError E) (S × List (List ℕ))
  read_rom_many s regions = do
    window ← ok_or (link.rom_bytes s) no_peekrom
    ps ← pages_needed window regions
    s' ← fill_rom_pages s (sort_dedup ps)
    fail_if (not (link.generation s' == link.generation s)) link_restarted
    blocks ← assemble_all (link.rom_pages s') regions
    ok (s', blocks)
