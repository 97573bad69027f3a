-- ===== src/Ap64/Backend/Reading.antt =====
-- `read_many` of crates/ap64-cart/src/backend.rs over a link to a memory.
use multi.Common.{
  ℕ, ◌+◌, ◌%◌, ◌^◌, ◌≤◌, ◌<◌, ◌≡◌, refl, sym, ap, ◌∙◌, ◌⊎◌, inl, inr, List, [], ◌∷◌, ◌++◌, Option,
  none, some, length, length-append, All, All-append, All-both, subst, Result, Result-cases, ok,
  err, true, Bool-cases, ltb, leb, ◌&&◌, arith,
}
use multi.Ap64.M64p.{Region, max_regions, max_region_bytes, max_total_bytes}
use multi.Ap64.Backend.{
  BackendError, link_error, outside, sum_of, fill, batches, fits, split, Link, pop, fitting,
  read_with, read_batch, read_batches, read_many,
}
use multi.Ap64.Backend.Memory.{Memory, block_of}
use multi.Ap64.Backend.Requests.{
  flatten, flatten-fill, IsRequest, All-flatten, fill-IsRequest, sum_of-append,
}
use multi.Ap64.Backend.Splitting.{
  blocks, IsAllowedRead, Inside, split-IsIn, map-append, asked, AreReadable, Parts, split_lem,
}

-- That where the link says that a request was answered, it was from a memory that the link's state stands for, and that nothing
-- changes it. The link may refuse any request.
pub record AnswersReads {S E : Type 0} (link : Link S E) (memory : S → Memory) : Type 0 where
  pub answered :
      (s s' : S) (batch : List Region) (bs : List (List ℕ))
      → link.peek s batch ≡ ok (s', bs)
      → (bs ≡ blocks (memory s) batch) × (memory s' ≡ memory s)
  pub counting : (s : S) (n : ℕ) → memory (link.counted s n) ≡ memory s
  pub arming : (s : S) → memory (link.arm s) ≡ memory s
  pub collecting : (s : S) → memory (link.collect s) ≡ memory s
  pub observing : (s : S) (bs : List ℕ) → memory (link.observe s bs) ≡ memory s

-- What is sampled is inside and no longer than a region can be.
abbrev pub Samples : {S E : Type 0} → Link S E → ℕ → Type 0
Samples {S} link size =
    (s : S) (addr len : ℕ)
    → link.probe s ≡ some (addr, len)
    → (addr + len ≤ size) × (len ≤ max_region_bytes)

pop-append : (xs : List (List ℕ)) (x : List ℕ) → pop (xs ++ (x ∷ [])) ≡ (xs, x)
pop-append [] x = refl
pop-append (y ∷ []) x = refl
pop-append (y ∷ z ∷ zs) x = ap (λ r. (y ∷ r.0, r.1)) (pop-append (z ∷ zs) x)

with_probe :
    (batch : List Region) (addr len : ℕ)
    → IsRequest Region.len batch
    → fits batch len ≡ true
    → IsRequest Region.len (batch ++ (record { addr = addr; len = len % 2 ^ 16 } ∷ []))
with_probe batch addr len (p, q, r) h =
    let probe : Region = record { addr = addr; len = len % 2 ^ 16 } in
    let (few, small) = both (length batch) (sum_of Region.len batch + len) h in
    (
      omega (arith, length-append batch (probe ∷ [])),
      omega (arith, few, length-append batch (probe ∷ [])),
      omega (arith, small, sum_of-append Region.len batch (probe ∷ [])),
    )
  where
    both :
        (m n : ℕ)
        → (ltb m max_regions && leb n max_total_bytes) ≡ true
        → (m < max_regions) × (n ≤ max_total_bytes)
    both m n e = (ground arith, ground arith)

-- The link refused a request that it may not.
abbrev pub IsRefused : {S E A : Type 0} → Link S E → ℕ → Result (BackendError E) A → Type 0
IsRefused {S} {E} link size r =
    (s : S) × (batch : List Region) × (e : E) × IsAllowedRead size batch
    × (link.peek s batch ≡ err e)
    × (r ≡ err (link_error e))

-- All regions are in RDRAM and their bytes are brought, or the link refused a request that it may not; or none is asked for, since
-- one reaches beyond RDRAM.
abbrev pub ReadOutcome : {S E : Type 0} → Link S E → (S → Memory) → S → List (ℕ × ℕ) → Type 0
ReadOutcome {S} {E} link memory s regions =
    let size = link.rdram_bytes (link.arm s) in
    (AreReadable size regions
      × (((s' : S) × (read_many link s regions ≡ ok (s', asked (memory s) regions))
            × (memory s' ≡ memory s))
          ⊎ IsRefused link size (read_many link s regions)))
    ⊎ ((addr : ℕ) × (end : ℕ) × (◌≡◌ {A = Result (BackendError E) (Parts E)} (split size regions)
          (err (outside addr end size)))
        × (read_many link s regions ≡ err (outside addr end size))
        × (size < end))

module _ {S E : Type 0} (link : Link S E) (memory : S → Memory) (size : ℕ)
    (answers : AnswersReads link memory) (samples : Samples link size) where
  -- A state with the memory of another, and blocks of it that were read; or a request that was refused.
  abbrev Brings : S → List (List ℕ) → Result (BackendError E) (S × List (List ℕ)) → Type 0
  Brings s bs r = ((s' : S) × (r ≡ ok (s', bs)) × (memory s' ≡ memory s)) ⊎ IsRefused link size r

  read_alone_lem :
      (s : S) (batch : List Region)
      → IsAllowedRead size batch
      → Brings s (blocks (memory s) batch) (read_with link s batch none)
  unfolding read_with
  read_alone_lem s batch h =
      let c = link.counted s (length batch) in
      elim (Result-cases (link.peek c batch)) [
        | inr (e, q) ↦ inr (c, batch, e, h, q, (rw q refl))
        | inl ((s', bs), q) ↦
            let (right, same) = answers.answered c s' batch bs q in
            let all : bs ≡ blocks (memory s) batch =
              right ∙ ap (λ m. blocks m batch) (answers.counting s (length batch)) in
            inl (
              link.collect s',
              (rw q (ap (λ ys. ok (link.collect s', ys)) all)),
              answers.collecting s' ∙ same ∙ answers.counting s (length batch),
            )
      ]

  read_with_lem :
      (s : S) (batch : List Region) (addr len : ℕ)
      → IsAllowedRead size batch
      → fits batch len ≡ true
      → (addr + len ≤ size) × (len ≤ max_region_bytes)
      → Brings s (blocks (memory s) batch) (read_with link s batch (some (addr, len)))
  unfolding read_with
  read_with_lem s batch addr len (h, each) k (a, b) =
      let probe : Region = record { addr = addr; len = len % 2 ^ 16 } in
      let whole = batch ++ (probe ∷ []) in
      let c = link.counted s (length whole) in
      let fine : IsAllowedRead size whole = (
        with_probe batch addr len h k,
        All-append (Inside size) batch (probe ∷ []) each ((omega (arith, a), omega (arith, b)), tt),
      ) in
      elim (Result-cases (link.peek c whole)) [
        | inr (e, q) ↦ inr (c, whole, e, fine, q, (rw q refl))
        | inl ((s', bs), q) ↦
            let (right, same) = answers.answered c s' whole bs q in
            let mem = memory c in
            let popped : pop bs ≡ (blocks mem batch, block_of mem probe) =
              ap pop (right ∙ map-append mem batch (probe ∷ []))
              ∙ pop-append (blocks mem batch) (block_of mem probe) in
            let s'' = link.collect (link.observe s' (block_of mem probe)) in
            inl (
              s'',
              rw (q, popped)
                  (ap (λ m. ok (s'', blocks m batch)) (answers.counting s (length whole))),
              answers.collecting (link.observe s' (block_of mem probe))
                  ∙ answers.observing s' (block_of mem probe)
                  ∙ same
                  ∙ answers.counting s (length whole),
            )
      ]

  read_batch_lem :
      (s : S) (batch : List Region)
      → IsAllowedRead size batch
      → Brings s (blocks (memory s) batch) (read_batch link s batch)
  unfolding read_batch
  read_batch_lem s batch h = fitted (link.probe s) refl
    where
      fitted :
          (probe : Option (ℕ × ℕ))
          → link.probe s ≡ probe
          → Brings s (blocks (memory s) batch) (read_with link s batch (fitting batch probe))
      fitted none p = read_alone_lem s batch h
      fitted (some (addr, len)) p = elim (Bool-cases (fits batch len)) [
        | inl e ↦ rw e (read_with_lem s batch addr len h e (samples s addr len p))
        | inr e ↦ rw e (read_alone_lem s batch h)
      ]

  read_batches_lem :
      (s : S) (bs : List (List Region))
      → All (IsAllowedRead size) bs
      → Brings s (blocks (memory s) (flatten bs)) (read_batches link s bs)
  unfolding read_batches
  read_batches_lem s [] h = inl (s, refl, refl)
  read_batches_lem s (batch ∷ bs) (h, hs) = elim (read_batch_lem s batch h) [
    | inr (t, b, e, fine, q, stopped) ↦ inr (t, b, e, fine, q, (rw stopped refl))
    | inl (s', done, same) ↦ elim (read_batches_lem s' bs hs) [
      | inr (t, b, e, fine, q, stopped) ↦ inr (t, b, e, fine, q, (rw (done, stopped) refl))
      | inl (s'', others, same') ↦ inl (
        s'',
        rw (done, others)
            (ap (λ ys. ok (s'', blocks (memory s) batch ++ ys))
                (ap (λ m. blocks m (flatten bs)) same)
              ∙ ap (λ ys. ok (s'', ys)) (sym (map-append (memory s) batch (flatten bs)))),
        same' ∙ same,
      )
    ]
  ]

module _ {S E : Type 0} (link : Link S E) (memory : S → Memory)
    (answers : AnswersReads link memory) where
  -- Over a link that answers from a memory the requests that it answers, and leaves it, and may fail any: where RDRAM has a u32 of
  -- bytes, and what is sampled along is in RDRAM and no longer than a region can be, `read_many` brings for each region the bytes of the
  -- memory there, and leaves the memory; or it fails with the link's error, since the link refused a request that is within the limits of the protocol
  -- for regions, their lengths and all bytes, what is sampled included, and in RDRAM; or it fails before anything is sent, since a region
  -- reaches beyond RDRAM.
  pub read_many-AreReadable :
      (s : S) (regions : List (ℕ × ℕ))
      → link.rdram_bytes (link.arm s) < 2 ^ 32
      → Samples link (link.rdram_bytes (link.arm s))
      → ReadOutcome link memory s regions
  unfolding read_many batches
  read_many-AreReadable s regions small samples =
      let size = link.rdram_bytes (link.arm s) in
      elim (split_lem E (memory (link.arm s)) size regions small) [
        | inr (a, end, refused, h) ↦ inr (a, end, refused, (rw refused refl), h)
        | inl (parts, readable, done, (short, joined)) ↦
            let armed = link.arm s in
            let bs = fill Region.len [] 0 parts.0 in
            let each : All (All (Inside size)) bs = All-flatten (Inside size) bs (
              subst (All (Inside size)) (sym (flatten-fill Region.len parts.0 [] 0))
                (split-IsIn E size regions parts small done)) in
            let requests = fill-IsRequest Region.len parts.0 [] (omega arith) (omega arith) short in
            let allowed = All-both (IsRequest Region.len) (All (Inside size)) bs requests each in
            let whole : blocks (memory armed) (flatten bs) ≡ blocks (memory armed) parts.0 =
              ap (blocks (memory armed)) (flatten-fill Region.len parts.0 [] 0) in
            elim (read_batches_lem link memory size answers samples armed bs allowed) [
              | inr (t, b, e, fine, q, stopped) ↦
                  inl (readable, inr (t, b, e, fine, q, (rw (done, stopped) refl)))
              | inl (s', read, same) ↦ inl (
                readable,
                inl (
                  s',
                  rw (done, read, whole, joined)
                      (ap (λ m. ok (s', asked m regions)) (answers.arming s)),
                  same ∙ answers.arming s,
                ),
              )
            ]
      ]
