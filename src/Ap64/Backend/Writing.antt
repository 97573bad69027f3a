-- ===== src/Ap64/Backend/Writing.antt =====
-- `write_many` of crates/ap64-cart/src/backend.rs over a link to a memory.
use multi.Common.{
  ℕ, suc, ◌+◌, ◌^◌, ◌≤◌, ◌<◌, ◌≡◌, refl, sym, ap, subst, ◌∙◌, ◌⊎◌, inl, inr, List, [], ◌∷◌, ◌++◌,
  length, All, All-both, Result, Result-cases, ok, err, true, Bool-cases, ltb, leb, ltb→lt, ltb→le,
  ◌&&◌, arith,
}
use multi.Ap64.M64p.{max_regions, max_region_bytes, max_total_bytes}
use multi.Ap64.Backend.{
  BackendError, link_error, outside, Write, coalesce, chunks_of, fits_one_request, chunks_to_send,
  sum_of, write_len, not_empty, fill, write_batches, Link, check_all, send_batches, write_many,
}
use multi.Ap64.Backend.Memory.{Memory, apply_writes, apply_writes-append}
use multi.Ap64.Backend.Coalescing.{AreInside, AreApart, coalesce-AreApart}
use multi.Ap64.Backend.Requests.{
  flatten, flatten-fill, IsRequest, fill-IsRequest, fill-fits, chunks_of_lem, chunks_of-IsIn, IsIn,
  IsAllowed, write_at, All-flatten,
}

AreApart-AreInside : (low high : ℕ) (ws : List Write) → AreApart low high ws → AreInside high ws
unfolding AreApart
AreApart-AreInside low high [] h = tt
AreApart-AreInside low high ((start, run) ∷ ws) (p, q, r, h) =
    (r, AreApart-AreInside (suc (start + length run)) high ws h)

-- What is sent has the effect of the writes.
pub chunks_to_send_lem :
    (mem : Memory) (size : ℕ) (ws : List Write)
    → size < 2 ^ 32
    → AreInside size ws
    → (apply_writes mem (chunks_to_send ws) ≡ apply_writes mem ws)
      × All (λ c. write_len c ≤ max_region_bytes) (chunks_to_send ws)
unfolding chunks_to_send
chunks_to_send_lem mem size ws small h =
    elim (Bool-cases (fits_one_request (chunks_of (coalesce ws)))) [
      | inl e ↦
          let (same, apart) = coalesce-AreApart mem size ws small h in
          let (cut, short) =
            chunks_of_lem mem size (coalesce ws) small
              (AreApart-AreInside 0 size (coalesce ws) apart) in
          rw e (cut ∙ same, short)
      | inr e ↦ rw e (chunks_of_lem mem size ws small h)
    ]

-- And is inside, where the writes are.
chunks_to_send-IsIn :
    (size : ℕ) (ws : List Write)
    → size < 2 ^ 32
    → AreInside size ws
    → All (IsIn write_at write_len size) (chunks_to_send ws)
unfolding chunks_to_send
chunks_to_send-IsIn size ws small h =
    elim (Bool-cases (fits_one_request (chunks_of (coalesce ws)))) [
      | inl e ↦
          let (same, apart) = coalesce-AreApart (λ x. 0) size ws small h in
          rw e (
            chunks_of-IsIn size (coalesce ws) small (AreApart-AreInside 0 size (coalesce ws) apart))
      | inr e ↦ rw e (chunks_of-IsIn size ws small h)
    ]

-- That where the link says that a request was answered, its writes were made to a memory that the link's state stands for. The
-- link may refuse any request.
pub record MakesWrites {S E : Type 0} (link : Link S E) (memory : S → Memory) : Type 0 where
  pub made :
      (s s' : S) (batch : List Write)
      → link.poke s batch ≡ ok s'
      → memory s' ≡ apply_writes (memory s) batch
  pub counting : (s : S) (n : ℕ) → memory (link.counted s n) ≡ memory s

-- The link refused one of the requests, and the writes of those before it were made.
abbrev pub IsStopped :
    {S E : Type 0}
    → Link S E
    → (S → Memory)
    → ℕ
    → S
    → List (List Write)
    → Result (BackendError E) S
    → Type 0
IsStopped {S} {E} link memory size s bs r =
    (before : List (List Write)) × (batch : List Write) × (after : List (List Write)) × (s' : S)
    × (e : E) × (bs ≡ before ++ (batch ∷ after))
    × IsAllowed write_at write_len size batch
    × (memory s' ≡ apply_writes (memory s) (flatten before))
    × (link.poke s' batch ≡ err e)
    × (r ≡ err (link_error e))

-- All writes are in RDRAM and made in their order, or the link refused a request that it may not; or none is sent, since one
-- reaches beyond RDRAM.
abbrev pub WriteOutcome : {S E : Type 0} → Link S E → (S → Memory) → S → List Write → Type 0
WriteOutcome {S} link memory s ws =
    (AreInside (link.rdram_bytes s) ws
      × (((s' : S) × (write_many link s ws ≡ ok s') × (memory s' ≡ apply_writes (memory s) ws))
          ⊎ IsStopped link memory (link.rdram_bytes s) s (write_batches (chunks_to_send ws))
              (write_many link s ws)))
    ⊎ ((addr : ℕ) × (end : ℕ) × (check_all link s ws ≡ err (outside addr end (link.rdram_bytes s)))
        × (write_many link s ws ≡ err (outside addr end (link.rdram_bytes s)))
        × (link.rdram_bytes s < end))

module _ {S E : Type 0} (link : Link S E) (memory : S → Memory)
    (makes : MakesWrites link memory) where
  -- All requests were answered and their writes made, or one was refused.
  abbrev Sent : ℕ → S → List (List Write) → Type 0
  Sent size s bs =
      ((s' : S) × (send_batches link s bs ≡ ok s')
        × (memory s' ≡ apply_writes (memory s) (flatten bs)))
      ⊎ IsStopped link memory size s bs (send_batches link s bs)

  then_made :
      (s s' : S) (batch : List Write)
      → link.poke (link.counted s (length batch)) batch ≡ ok s'
      → (ms : List Write) (m : Memory) → m ≡ apply_writes (memory s') ms
      → m ≡ apply_writes (memory s) (batch ++ ms)
  then_made s s' batch sent ms m h =
      h
      ∙ ap (λ f. apply_writes f ms)
          (makes.made (link.counted s (length batch)) s' batch sent
            ∙ ap (λ f. apply_writes f batch) (makes.counting s (length batch)))
      ∙ sym (apply_writes-append (memory s) batch ms)

  send_batches_lem :
      (size : ℕ) (s : S) (bs : List (List Write))
      → All (IsAllowed write_at write_len size) bs
      → Sent size s bs
  unfolding send_batches apply_writes
  send_batches_lem size s [] h = inl (s, refl, refl)
  send_batches_lem size s (batch ∷ bs) (h, hs) =
      elim (Result-cases (link.poke (link.counted s (length batch)) batch)) [
        | inr (e, refused) ↦ inr (
          [],
          batch,
          bs,
          link.counted s (length batch),
          e,
          refl,
          h,
          makes.counting s (length batch),
          refused,
          (rw refused refl),
        )
        | inl (s', sent) ↦ elim (send_batches_lem size s' bs hs) [
          | inl (s'', rest, others) ↦
              inl (s'', (rw sent rest), then_made s s' batch sent (flatten bs) (memory s'') others)
          | inr (before, b, after, s'', e, cut, allowed, others, refused, stopped) ↦ inr (
            batch ∷ before,
            b,
            after,
            s'',
            e,
            ap (λ ys. batch ∷ ys) cut,
            allowed,
            then_made s s' batch sent (flatten before) (memory s'') others,
            refused,
            (rw sent stopped),
          )
        ]
      ]

  -- The check of every address before anything is sent.
  check_all-cases :
      (s : S) (ws : List Write)
      → ((check_all link s ws ≡ ok tt) × AreInside (link.rdram_bytes s) ws)
        ⊎ ((addr : ℕ) × (end : ℕ) × (check_all link s ws
              ≡ err (outside addr end (link.rdram_bytes s)))
            × (link.rdram_bytes s < end))
  check_all-cases s [] = inl (refl, tt)
  check_all-cases s ((addr, bs) ∷ ws) =
      elim (Bool-cases (ltb (link.rdram_bytes s) (addr + length bs))) [
        | inl e ↦
            inr (
              addr,
              addr + length bs,
              (rw e refl),
              ltb→lt (link.rdram_bytes s) (addr + length bs) e,
            )
        | inr e ↦ elim (check_all-cases s ws) [
          | inl (all, inside) ↦
              inl ((rw e all), (ltb→le (link.rdram_bytes s) (addr + length bs) e, inside))
          | inr (a, end, refused, h) ↦ inr (a, end, (rw e refused), h)
        ]
      ]

  -- Over a link that makes the writes of each request that it answers, and may fail any: where RDRAM has a u32 of bytes, `write_many`
  -- succeeds, and the memory is then as the writes leave it in their order; or it fails with the link's error, since the link refused one of its
  -- requests, which is within the limits of the protocol for regions, their lengths and all bytes, and in RDRAM, and to that moment exactly the
  -- requests before that one were made; or it fails before anything is sent, since a write reaches beyond RDRAM.
  pub write_many-AreInside :
      (s : S) (ws : List Write) → link.rdram_bytes s < 2 ^ 32 → WriteOutcome link memory s ws
  unfolding write_many write_batches
  write_many-AreInside s ws small = elim (check_all-cases s ws) [
    | inl (all, inside) ↦
        let size = link.rdram_bytes s in
        let (same, short) = chunks_to_send_lem (memory s) size ws small inside in
        let cs = chunks_to_send ws in
        let bs = fill write_len [] 0 cs in
        let requests = fill-IsRequest write_len cs [] (omega arith) (omega arith) short in
        let each : All (All (IsIn write_at write_len size)) bs =
          All-flatten (IsIn write_at write_len size) bs (
            subst (All (IsIn write_at write_len size)) (sym (flatten-fill write_len cs [] 0))
              (chunks_to_send-IsIn size ws small inside)) in
        let allowed =
          All-both (IsRequest write_len) (All (IsIn write_at write_len size)) bs requests each in
        elim (send_batches_lem size s bs allowed) [
          | inl (s', sent, effect) ↦ inl (
            inside,
            inl (
              s',
              (rw all sent),
              effect ∙ ap (apply_writes (memory s)) (flatten-fill write_len cs [] 0) ∙ same,
            ),
          )
          | inr (before, b, after, s', e, cut, fine, effect, refused, stopped) ↦
              inl (
                inside,
                inr (before, b, after, s', e, cut, fine, effect, refused, (rw all stopped)),
              )
        ]
    | inr (a, end, refused, h) ↦ inr (a, end, refused, (rw refused refl), h)
  ]

-- If the merged writes fit one request, one request with all of them is sent, or none where there is nothing to write.
pub write_batches-chunks_to_send :
    (ws : List Write)
    → fits_one_request (chunks_of (coalesce ws)) ≡ true
    → write_batches (chunks_to_send ws) ≡ not_empty write_len (chunks_of (coalesce ws))
unfolding write_batches chunks_to_send
write_batches-chunks_to_send ws h =
    let cs = chunks_of (coalesce ws) in
    let (few, small) = both (length cs) (sum_of write_len cs) h in
    rw h (fill-fits write_len cs [] (omega (arith, few)) (omega (arith, small)))
  where
    both :
        (m n : ℕ)
        → (leb m max_regions && leb n max_total_bytes) ≡ true
        → (m ≤ max_regions) × (n ≤ max_total_bytes)
    both m n e = (ground arith, ground arith)
