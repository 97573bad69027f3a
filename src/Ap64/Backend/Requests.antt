-- ===== src/Ap64/Backend/Requests.antt =====
-- The requests that crates/ap64-cart/src/backend.rs fills: each is within the limits, and all together they are what was to be sent.
use multi.Common.{
  ℕ, zero, suc, ◌+◌, ◌-◌, ◌*◌, ◌^◌, ◌≤◌, ◌<◌, ◌≡◌, refl, sym, ap, subst, ◌∙◌, inl, inr, List, [],
  ◌∷◌, ◌++◌, take, drop, length, length-append, length-take, length-drop, take-append-drop, All,
  All-append, All-append_right, All-front, true, false, Bool-cases, ltb→lt, ltb→le, ltb, arith,
}
use multi.Common.Chunks.{chunk_loop, chunk_loop_lem, IsChunk}
use multi.Ap64.M64p.{max_regions, max_region_bytes, max_total_bytes}
use multi.Ap64.Backend.{
  Write, address, place_chunks, chunks_of, sum_of, write_len, not_empty, fill, is_full,
}
use multi.Ap64.Backend.Memory.{
  Memory, put_bytes, put_bytes-append, apply_writes, apply_writes-append,
}
use multi.Ap64.Backend.Coalescing.{AreInside}
use mathlib.Core.List.{append_assoc, append-nil}

abbrev pub flatten {ℓ} : {A : Type ℓ} → List (List A) → List A
flatten [] = []
flatten (x ∷ xs) = x ++ flatten xs

pub All-flatten :
    {A : Type 0} (P : A → Type 0) (bs : List (List A)) → All P (flatten bs) → All (All P) bs
All-flatten P [] h = tt
All-flatten P (b ∷ bs) h =
    (All-front P b (flatten bs) h, All-flatten P bs (All-append_right P b (flatten bs) h))

module _ {A : Type 0} (len_of : A → ℕ) where
  -- A request that is not empty and within the limits.
  abbrev pub IsRequest : List A → Type 0
  IsRequest batch =
      (1 ≤ length batch) × (length batch ≤ max_regions) × (sum_of len_of batch ≤ max_total_bytes)

  pub sum_of-append :
      (xs ys : List A) → sum_of len_of (xs ++ ys) ≡ sum_of len_of xs + sum_of len_of ys
  sum_of-append [] ys = omega arith
  sum_of-append (x ∷ xs) ys = omega (arith, sum_of-append xs ys)

  module _ (batch : List A) (bytes : ℕ) (c : A) (cs : List A) where
    fill-full :
        is_full (length batch) (bytes + len_of c) ≡ true
        → fill len_of batch bytes (c ∷ cs) ≡ batch ∷ fill len_of (c ∷ []) (len_of c) cs
    unfolding fill
    fill-full e =
        ap
          (λ t. elim t as (λ x. List (List A)) [
            | true ↦ batch ∷ fill len_of (c ∷ []) (len_of c) cs
            | false ↦ fill len_of (batch ++ (c ∷ [])) (bytes + len_of c) cs
          ])
          e

    fill-more :
        is_full (length batch) (bytes + len_of c) ≡ false
        → fill len_of batch bytes (c ∷ cs) ≡ fill len_of (batch ++ (c ∷ [])) (bytes + len_of c) cs
    unfolding fill
    fill-more e =
        ap
          (λ t. elim t as (λ x. List (List A)) [
            | true ↦ batch ∷ fill len_of (c ∷ []) (len_of c) cs
            | false ↦ fill len_of (batch ++ (c ∷ [])) (bytes + len_of c) cs
          ])
          e

  fill-end : (batch : List A) (bytes : ℕ) → fill len_of batch bytes [] ≡ not_empty len_of batch
  unfolding fill
  fill-end batch bytes = refl

  flatten-not_empty : (batch : List A) → flatten (not_empty len_of batch) ≡ batch ++ []
  flatten-not_empty [] = refl
  flatten-not_empty (b ∷ batch) = refl

  flatten-cons : (x : List A) (xs : List (List A)) → flatten (x ∷ xs) ≡ x ++ flatten xs
  flatten-cons x xs = refl

  pub flatten-fill :
      (cs batch : List A) (bytes : ℕ) → flatten (fill len_of batch bytes cs) ≡ batch ++ cs
  flatten-fill [] batch bytes = ap flatten (fill-end batch bytes) ∙ flatten-not_empty batch
  flatten-fill (c ∷ cs) batch bytes =
      elim (Bool-cases (is_full (length batch) (bytes + len_of c))) [
        | inl e ↦
            ap flatten (fill-full batch bytes c cs e)
            ∙ flatten-cons batch (fill len_of (c ∷ []) (len_of c) cs)
            ∙ ap (λ ys. batch ++ ys) (flatten-fill cs (c ∷ []) (len_of c))
        | inr e ↦
            ap flatten (fill-more batch bytes c cs e)
            ∙ flatten-fill cs (batch ++ (c ∷ [])) (bytes + len_of c)
            ∙ append_assoc batch (c ∷ []) cs
      ]

  not_empty-IsRequest :
      (batch : List A)
      → length batch ≤ max_regions
      → sum_of len_of batch ≤ max_total_bytes
      → All IsRequest (not_empty len_of batch)
  not_empty-IsRequest [] p q = tt
  not_empty-IsRequest (b ∷ batch) p q = ((omega arith, p, q), tt)

  -- A request to which something short is too much is not empty.
  full_lem :
      (batch : List A) (c : A)
      → len_of c ≤ max_region_bytes
      → is_full (length batch) (sum_of len_of batch + len_of c) ≡ true
      → 1 ≤ length batch
  full_lem [] c h e = ground arith
  full_lem (b ∷ batch) c h e = omega arith

  pub fill-IsRequest :
      (cs batch : List A)
      → length batch ≤ max_regions
      → sum_of len_of batch ≤ max_total_bytes
      → All (λ c. len_of c ≤ max_region_bytes) cs
      → All IsRequest (fill len_of batch (sum_of len_of batch) cs)
  fill-IsRequest [] batch p q h =
      subst (All IsRequest) (sym (fill-end batch (sum_of len_of batch)))
        (not_empty-IsRequest batch p q)
  fill-IsRequest (c ∷ cs) batch p q (h, hs) =
      elim (Bool-cases (is_full (length batch) (sum_of len_of batch + len_of c))) [
        | inl e ↦
            let alone : len_of c + 0 ≡ len_of c = omega arith in
            let rest = fill-IsRequest cs (c ∷ []) (omega arith) (omega (arith, h)) hs in
            subst (All IsRequest) (sym (fill-full batch (sum_of len_of batch) c cs e)) (
              (full_lem batch c h e, p, q),
              subst (λ k. All IsRequest (fill len_of (c ∷ []) k cs)) alone rest,
            )
        | inr e ↦
            let size : sum_of len_of (batch ++ (c ∷ [])) ≡ sum_of len_of batch + len_of c =
              omega (arith, sum_of-append batch (c ∷ [])) in
            let rest =
              fill-IsRequest cs (batch ++ (c ∷ [])) (ground (arith, length-append batch (c ∷ [])))
                (ground (arith, size)) hs in
            subst (All IsRequest) (sym (fill-more batch (sum_of len_of batch) c cs e))
              (subst (λ k. All IsRequest (fill len_of (batch ++ (c ∷ [])) k cs)) size rest)
      ]

  -- Where what is left fits, it is all put in one request.
  pub fill-fits :
      (cs batch : List A)
      → length batch + length cs ≤ max_regions
      → sum_of len_of batch + sum_of len_of cs ≤ max_total_bytes
      → fill len_of batch (sum_of len_of batch) cs ≡ not_empty len_of (batch ++ cs)
  fill-fits [] batch p q =
      fill-end batch (sum_of len_of batch) ∙ ap (not_empty len_of) (sym (append-nil batch))
  fill-fits (c ∷ cs) batch p q =
      let room : is_full (length batch) (sum_of len_of batch + len_of c) ≡ false =
        roomy (length batch) (sum_of len_of batch + len_of c) (omega (arith, p))
          (omega (arith, q)) in
      let size : sum_of len_of (batch ++ (c ∷ [])) ≡ sum_of len_of batch + len_of c =
        omega (arith, sum_of-append batch (c ∷ [])) in
      fill-more batch (sum_of len_of batch) c cs room
      ∙ ap (λ k. fill len_of (batch ++ (c ∷ [])) k cs) (sym size)
      ∙ fill-fits cs (batch ++ (c ∷ [])) (omega (arith, p, length-append batch (c ∷ [])))
          (omega (arith, q, size))
      ∙ ap (not_empty len_of) (append_assoc batch (c ∷ []) cs)
    where
      roomy : (m n : ℕ) → m < max_regions → n ≤ max_total_bytes → is_full m n ≡ false
      roomy m n p q = ground arith

chunk_loop-step :
    (fuel n x : ℕ) (xs : List ℕ)
    → chunk_loop (suc fuel) n (x ∷ xs) ≡ take n (x ∷ xs) ∷ chunk_loop fuel n (drop n (x ∷ xs))
unfolding chunk_loop
chunk_loop-step fuel n x xs = refl

chunk_loop-nil : (fuel n : ℕ) → chunk_loop fuel n [] ≡ []
unfolding chunk_loop
chunk_loop-nil zero n = refl
chunk_loop-nil (suc fuel) n = refl

drop_all : (n : ℕ) (xs : List ℕ) → length xs ≤ n → drop n xs ≡ []
drop_all zero [] h = refl
drop_all zero (x ∷ xs) h = absurd (omega arith)
drop_all (suc n) [] h = refl
drop_all (suc n) (x ∷ xs) h = drop_all n xs (omega arith)

place_chunks-cons :
    (mem : Memory) (addr i : ℕ) (c : List ℕ) (cs : List (List ℕ))
    → apply_writes mem (place_chunks addr i (c ∷ cs))
      ≡ apply_writes
          (put_bytes mem (address addr (i * max_region_bytes)) c)
          (place_chunks addr (suc i) cs)
unfolding place_chunks apply_writes
place_chunks-cons mem addr i c cs = refl

place_chunks-nil : (mem : Memory) (addr i : ℕ) → apply_writes mem (place_chunks addr i []) ≡ mem
unfolding place_chunks apply_writes
place_chunks-nil mem addr i = refl

place_chunks_lem :
    (mem : Memory) (fuel addr i size : ℕ) (xs : List ℕ)
    → length xs ≤ fuel
    → addr + i * max_region_bytes + length xs ≤ size
    → size < 2 ^ 32
    → apply_writes mem (place_chunks addr i (chunk_loop fuel max_region_bytes xs))
      ≡ put_bytes mem (addr + i * max_region_bytes) xs
place_chunks_lem mem fuel addr i size [] h inside small =
    ap (λ cs. apply_writes mem (place_chunks addr i cs)) (chunk_loop-nil fuel max_region_bytes)
    ∙ place_chunks-nil mem addr i
place_chunks_lem mem zero addr i size (x ∷ xs) h inside small = absurd (omega arith)
place_chunks_lem mem (suc fuel) addr i size (x ∷ xs) h inside small =
    let n = max_region_bytes in
    let ys = x ∷ xs in
    let a = addr + i * n in
    let here : address addr (i * n) ≡ a = omega (arith, inside, small) in
    let mem' = put_bytes mem a (take n ys) in
    let rest : apply_writes mem' (place_chunks addr (suc i) (chunk_loop fuel n (drop n ys)))
        ≡ put_bytes mem' (a + length (take n ys)) (drop n ys) =
      elim (Bool-cases (ltb (length ys) n)) [
        | inr e ↦
            let long : n ≤ length ys = ltb→le (length ys) n e in
            let size_of : length (take n ys) ≡ n = omega (arith, long, length-take n ys) in
            let left : length (drop n ys) ≡ length ys - n = length-drop n ys in
            let next : addr + suc i * n ≡ a + length (take n ys) = omega (arith, size_of) in
            place_chunks_lem mem' fuel addr (suc i) size (drop n ys) (omega (arith, left, h))
              (omega (arith, left, long, inside)) small
            ∙ ap (λ k. put_bytes mem' k (drop n ys)) next
        | inl e ↦
            let short : length ys < n = ltb→lt (length ys) n e in
            let gone : drop n ys ≡ [] = drop_all n ys (omega (arith, short)) in
            rw gone (
              ap (λ cs. apply_writes mem' (place_chunks addr (suc i) cs)) (chunk_loop-nil fuel n)
              ∙ place_chunks-nil mem' addr (suc i))
      ] in
    ap (λ cs. apply_writes mem (place_chunks addr i cs)) (chunk_loop-step fuel n x xs)
    ∙ place_chunks-cons mem addr i (take n ys) (chunk_loop fuel n (drop n ys))
    ∙ ap
        (λ k.
          apply_writes (put_bytes mem k (take n ys))
            (place_chunks addr (suc i) (chunk_loop fuel n (drop n ys))))
        here
    ∙ rest
    ∙ sym (put_bytes-append mem a (take n ys) (drop n ys))
    ∙ ap (put_bytes mem a) (take-append-drop n ys)

chunk_lens :
    (addr i : ℕ) (cs : List (List ℕ))
    → All (IsChunk max_region_bytes) cs
    → All (λ c. write_len c ≤ max_region_bytes) (place_chunks addr i cs)
unfolding place_chunks
chunk_lens addr i [] h = tt
chunk_lens addr i (c ∷ cs) (h, hs) = (h.1, chunk_lens addr (suc i) cs hs)

-- Chunks have the effect of the writes they are cut from, and none is longer than a region can be.
pub chunks_of_lem :
    (mem : Memory) (size : ℕ) (ws : List Write)
    → size < 2 ^ 32
    → AreInside size ws
    → (apply_writes mem (chunks_of ws) ≡ apply_writes mem ws)
      × All (λ c. write_len c ≤ max_region_bytes) (chunks_of ws)
unfolding chunks_of apply_writes
chunks_of_lem mem size [] small h = (refl, tt)
chunks_of_lem mem size ((addr, bs) ∷ ws) small (h, hs) =
    let cs = chunk_loop (length bs) max_region_bytes bs in
    let placed =
      place_chunks_lem mem (length bs) addr 0 size bs (omega arith) (omega (arith, h)) small in
    let start : addr + 0 * max_region_bytes ≡ addr = omega arith in
    let rest = chunks_of_lem (put_bytes mem addr bs) size ws small hs in
    (
      apply_writes-append mem (place_chunks addr 0 cs) (chunks_of ws)
          ∙ ap (λ f. apply_writes f (chunks_of ws)) (placed ∙ ap (λ k. put_bytes mem k bs) start)
          ∙ rest.0,
      All-append (λ c. write_len c ≤ max_region_bytes) (place_chunks addr 0 cs) (chunks_of ws)
          (chunk_lens addr 0 cs (chunk_loop_lem (length bs) 4095 bs (omega arith)).1) rest.1,
    )

-- A write or a region inside `size` that is no longer than a region can be.
abbrev pub IsIn : {A : Type 0} → (A → ℕ) → (A → ℕ) → ℕ → A → Type 0
IsIn addr_of len_of size x = (addr_of x + len_of x ≤ size) × (len_of x ≤ max_region_bytes)

-- A request that the protocol allows where there are `size` bytes: not empty, within the limits for regions and for all bytes, and each
-- of its regions as long as one can be at most and inside.
abbrev pub IsAllowed : {A : Type 0} → (A → ℕ) → (A → ℕ) → ℕ → List A → Type 0
IsAllowed addr_of len_of size batch = IsRequest len_of batch × All (IsIn addr_of len_of size) batch

abbrev pub write_at : Write → ℕ
write_at w = w.0

place_chunks-IsIn :
    (fuel addr i size : ℕ) (xs : List ℕ)
    → length xs ≤ fuel
    → addr + i * max_region_bytes + length xs ≤ size
    → size < 2 ^ 32
    → All (IsIn write_at write_len size) (place_chunks addr i (chunk_loop fuel max_region_bytes xs))
unfolding place_chunks
place_chunks-IsIn fuel addr i size [] h inside small =
    subst (λ cs. All (IsIn write_at write_len size) (place_chunks addr i cs))
      (sym (chunk_loop-nil fuel max_region_bytes)) tt
place_chunks-IsIn zero addr i size (x ∷ xs) h inside small = absurd (omega arith)
place_chunks-IsIn (suc fuel) addr i size (x ∷ xs) h inside small =
    let n = max_region_bytes in
    let ys = x ∷ xs in
    let here : address addr (i * n) ≡ addr + i * n = omega (arith, inside, small) in
    let size_of = length-take n ys in
    let left : length (drop n ys) ≡ length ys - n = length-drop n ys in
    let first : IsIn write_at write_len size (address addr (i * n), take n ys) =
      (omega (arith, here, size_of, inside), omega (arith, size_of)) in
    let rest : All (IsIn write_at write_len size)
        (place_chunks addr (suc i) (chunk_loop fuel n (drop n ys))) =
      elim (Bool-cases (ltb (length ys) n)) [
        | inr e ↦
            let long : n ≤ length ys = ltb→le (length ys) n e in
            place_chunks-IsIn fuel addr (suc i) size (drop n ys) (omega (arith, left, h))
              (omega (arith, left, long, inside)) small
        | inl e ↦
            let short : length ys < n = ltb→lt (length ys) n e in
            let gone : drop n ys ≡ [] = drop_all n ys (omega (arith, short)) in
            subst
              (λ zs.
                All (IsIn write_at write_len size)
                  (place_chunks addr (suc i) (chunk_loop fuel n zs)))
              (sym gone)
              (subst (λ cs. All (IsIn write_at write_len size) (place_chunks addr (suc i) cs))
                (sym (chunk_loop-nil fuel n)) tt)
      ] in
    subst (λ cs. All (IsIn write_at write_len size) (place_chunks addr i cs))
      (sym (chunk_loop-step fuel n x xs)) (first, rest)

-- Chunks of writes that are inside are inside.
pub chunks_of-IsIn :
    (size : ℕ) (ws : List Write)
    → size < 2 ^ 32
    → AreInside size ws
    → All (IsIn write_at write_len size) (chunks_of ws)
unfolding chunks_of
chunks_of-IsIn size [] small h = tt
chunks_of-IsIn size ((addr, bs) ∷ ws) small (h, hs) =
    All-append (IsIn write_at write_len size)
      (place_chunks addr 0 (chunk_loop (length bs) max_region_bytes bs)) (chunks_of ws)
      (place_chunks-IsIn (length bs) addr 0 size bs (omega arith) (omega (arith, h)) small)
      (chunks_of-IsIn size ws small hs)
