-- ===== src/Ap64/Backend/Examples.antt =====
-- The theorems on batches at a link that answers at once, from a memory that is its state.
use multi.Common.{
  ℕ, ◌+◌, ◌%◌, ◌≤◌, All, Option, none, ◌≡◌, ◌⊎◌, refl, sym, ap, subst, List, [], ◌∷◌, length, some,
  Result, ok, err, Bool, true, false, leb, ◌&&◌, arith,
}
use multi.Ap64.M64p.{Region, max_regions, max_region_bytes, max_total_bytes}
use multi.Ap64.Backend.Requests.{write_at}
use multi.Ap64.Backend.{
  Write, insert, insert_bytes, insert_writes, runs_from, runs, coalesce, place_chunks, chunks_of,
  fits_one_request, chunks_to_send, write_len, sum_of, not_empty, write_batches, Link,
}
use multi.Common.Chunks.{chunk_loop}
use multi.Ap64.Backend.Memory.{Memory, apply_writes}
use multi.Ap64.Backend.Coalescing.{AreApart, coalesce-AreApart}
use multi.Ap64.Backend.Writing.{
  MakesWrites, WriteOutcome, write_many-AreInside, write_batches-chunks_to_send,
}
use multi.Ap64.Backend.Wire.{IsOnWire, write_batches-IsOnWire}
use multi.Ap64.Backend.RomPages.{Pages, RomLink, read_rom_many}
use multi.Ap64.Backend.RomPages.Pages.{AgreesWith}
use multi.Ap64.Backend.RomPages.Serving.{AnswersRom, IsRefusedRom, read_rom_many-AgreesWith}
use multi.Ap64.Backend.Stalls.{stall, flushed, run, told, untold, told-run}
use multi.Ap64.Backend.Splitting.{asked, blocks}
use multi.Ap64.Backend.Reading.{AnswersReads, Samples, ReadOutcome, read_many-AreReadable}

abbrev zeros : Memory
zeros = λ x. 0

-- Whether a cart with `size` bytes takes a request.
abbrev all_in : {A : Type 0} → (A → ℕ) → (A → ℕ) → ℕ → List A → Bool
all_in addr_of len_of size [] = true
all_in addr_of len_of size (x ∷ xs) =
    (leb (addr_of x + len_of x) size && leb (len_of x) max_region_bytes)
    && all_in addr_of len_of size xs

abbrev takes : {A : Type 0} → (A → ℕ) → (A → ℕ) → ℕ → List A → Bool
takes addr_of len_of size batch =
    (leb (length batch) max_regions && leb (sum_of len_of batch) max_total_bytes)
    && all_in addr_of len_of size batch

abbrev answer : {A : Type 0} → Bool → A → Result (Unit {0}) A
answer true a = ok a
answer false a = err tt

answer_lem : {A : Type 0} (b : Bool) (a r : A) → answer b a ≡ ok r → a ≡ r
answer_lem true a r h = cc
answer_lem false a r h = cc

-- A cart that refuses what is outside its memory or too much.
abbrev direct : Link Memory (Unit {0})
direct = record {
  rdram_bytes = λ s. 0x80_0000;
  peek = λ s batch. answer (takes Region.addr Region.len 0x80_0000 batch) (s, blocks s batch);
  poke = λ s batch. answer (takes write_at write_len 0x80_0000 batch) (apply_writes s batch);
  counted = λ s n. s;
  arm = λ s. s;
  collect = λ s. s;
  probe = λ s. some (0x10, 2);
  observe = λ s bs. s;
}

makes_writes : MakesWrites direct (λ s. s)
makes_writes = record {
  made = λ s s' batch h.
      sym (answer_lem (takes write_at write_len 0x80_0000 batch) (apply_writes s batch) s' h);
  counting = λ s n. refl;
}

answers_reads : AnswersReads direct (λ s. s)
answers_reads = record {
  answered = λ s s' batch bs h.
      let same : (s, blocks s batch) ≡ (s', bs) =
        answer_lem (takes Region.addr Region.len 0x80_0000 batch) (s, blocks s batch) (s', bs) h in
      (sym (ap (λ p. p.1) same), sym (ap (λ p. p.0) same));
  counting = λ s n. refl;
  arming = λ s. refl;
  collecting = λ s. refl;
  observing = λ s bs. refl;
}

direct-Samples : Samples direct 0x80_0000
direct-Samples s addr len h = inside (0x10, 2) (addr, len) h (omega arith, omega arith)
  where
    inside :
        (x y : ℕ × ℕ)
        → ◌≡◌ {A = Option (ℕ × ℕ)} (some x) (some y)
        → (x.0 + x.1 ≤ 0x80_0000) × (x.1 ≤ max_region_bytes)
        → (y.0 + y.1 ≤ 0x80_0000) × (y.1 ≤ max_region_bytes)
    inside x y e k =
        let same : x ≡ y = cc in
        subst (λ z. (z.0 + z.1 ≤ 0x80_0000) × (z.1 ≤ max_region_bytes)) same k

-- The second write covers the first and what is before it, and the third is behind a gap.
abbrev fields : List Write
fields = (4, 1 ∷ 2 ∷ []) ∷ (2, 7 ∷ 8 ∷ 9 ∷ []) ∷ (8, 3 ∷ []) ∷ []

coalesce-fields : coalesce fields ≡ (2, 7 ∷ 8 ∷ 9 ∷ 2 ∷ []) ∷ (8, 3 ∷ []) ∷ []
unfolding coalesce runs runs_from insert_writes insert_bytes insert
coalesce-fields = refl

fields_fit : fits_one_request (chunks_of (coalesce fields)) ≡ true
unfolding coalesce runs runs_from insert_writes insert_bytes insert chunks_of place_chunks
    chunk_loop
fields_fit = refl

coalesce-AreApart_example :
    (apply_writes zeros (coalesce fields) ≡ apply_writes zeros fields)
    × AreApart 0 0x80_0000 (coalesce fields)
coalesce-AreApart_example =
    coalesce-AreApart zeros 0x80_0000 fields (omega arith)
      (omega arith, (omega arith, (omega arith, tt)))

write_batches-chunks_to_send_example :
    write_batches (chunks_to_send fields) ≡ not_empty write_len (chunks_of (coalesce fields))
write_batches-chunks_to_send_example = write_batches-chunks_to_send fields fields_fit

write_many-AreInside_example : WriteOutcome direct (λ s. s) zeros fields
write_many-AreInside_example =
    write_many-AreInside direct (λ s. s) makes_writes zeros fields (omega arith)

read_many-AreReadable_example : ReadOutcome direct (λ s. s) zeros ((4, 5000) ∷ (0, 2) ∷ [])
read_many-AreReadable_example =
    read_many-AreReadable direct (λ s. s) answers_reads zeros ((4, 5000) ∷ (0, 2) ∷ [])
      (omega arith) direct-Samples

write_batches-IsOnWire_example : All (IsOnWire 7) (write_batches (chunks_to_send fields))
write_batches-IsOnWire_example =
    write_batches-IsOnWire 7 0x80_0000 fields (omega arith) (omega arith)
      (omega arith, (omega arith, (omega arith, tt)))

-- A stall right behind a first one, a forced flush, and one more stall.
told-run_example :
    told
        (run none
          (stall 0 1500 2 ∷ stall 100 2700 3 ∷ flushed 200 true 2 ∷ stall 300 1500 2 ∷ [])).1
      + untold
          (run none
            (stall 0 1500 2 ∷ stall 100 2700 3 ∷ flushed 200 true 2 ∷ stall 300 1500 2 ∷ [])).0
    ≡ 0 + 3
told-run_example =
    told-run none (stall 0 1500 2 ∷ stall 100 2700 3 ∷ flushed 200 true 2 ∷ stall 300 1500 2 ∷ [])
      (omega arith)

-- A ROM of the low bytes of its addresses, of which nothing is kept yet.
abbrev counting_rom : Memory
counting_rom = λ x. x % 256

abbrev direct_rom : RomLink Pages (Unit {0})
direct_rom = record {
  rom_bytes = λ s. some 0x1_0000;
  generation = λ s. 1;
  rom_pages = λ s. s;
  keep_pages = λ s pages. pages;
  peek_rom = λ s batch.
      answer (takes Region.addr Region.len 0x1_0000 batch) (s, blocks counting_rom batch);
  rom_counted = λ s n. s;
}

answers_rom : AnswersRom direct_rom counting_rom
answers_rom = record {
  answered = λ s s' batch bs h.
      let same : (s, blocks counting_rom batch) ≡ (s', bs) =
        answer_lem (takes Region.addr Region.len 0x1_0000 batch) (s, blocks counting_rom batch)
          (s', bs) h in
      (sym (ap (λ p. p.1) same), sym (ap (λ p. p.0) same), refl);
  keeping = λ s pages. refl;
  keeping_generation = λ s pages. refl;
  counting = λ s n. refl;
  counting_generation = λ s n. refl;
}

no_pages-AgreesWith : AgreesWith counting_rom (λ p. none)
no_pages-AgreesWith p bs h = absurd cc

read_rom_many-AgreesWith_example :
    ((s' : Pages) × (read_rom_many direct_rom (λ p. none) ((1020, 8) ∷ (0, 0) ∷ (5000, 1) ∷ [])
        ≡ ok (s', asked counting_rom ((1020, 8) ∷ (0, 0) ∷ (5000, 1) ∷ [])))
      × AgreesWith counting_rom s')
    ⊎ IsRefusedRom direct_rom 0x1_0000
        (read_rom_many direct_rom (λ p. none) ((1020, 8) ∷ (0, 0) ∷ (5000, 1) ∷ []))
read_rom_many-AgreesWith_example =
    read_rom_many-AgreesWith direct_rom counting_rom answers_rom (λ p. none) 64
      ((1020, 8) ∷ (0, 0) ∷ (5000, 1) ∷ []) refl (omega arith)
      (omega arith, (omega arith, (omega arith, tt))) no_pages-AgreesWith
