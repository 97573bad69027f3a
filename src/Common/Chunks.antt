-- ===== src/Common/Chunks.antt =====
-- `slice::chunks`: a list cut into pieces of a size, the last one with what is left.
use multi.Common.{
  ℕ, zero, suc, ◌≤◌, ◌≡◌, refl, ap, ◌∙◌, List, [], ◌∷◌, ◌++◌, Option, none, some, length, take,
  drop, arith, All, length-take, length-drop, take-append-drop,
}

abbrev pub concat : List (List ℕ) → List ℕ
concat [] = []
concat (c ∷ cs) = c ++ concat cs

-- Each chunk takes a byte at least, so that as much fuel as there are bytes is enough.
unfoldable pub chunk_loop : ℕ → ℕ → List ℕ → List (List ℕ)
chunk_loop zero n xs = []
chunk_loop (suc fuel) n [] = []
chunk_loop (suc fuel) n (x ∷ xs) = take n (x ∷ xs) ∷ chunk_loop fuel n (drop n (x ∷ xs))

-- `none` is the panic of `chunks(0)`.
unfoldable pub chunks : ℕ → List ℕ → Option (List (List ℕ))
unfolding chunk_loop
chunks zero xs = none
chunks (suc n) xs = some (chunk_loop (length xs) (suc n) xs)

-- A chunk that is written: not empty, and no longer than the limit.
abbrev pub IsChunk : ℕ → List ℕ → Type 0
IsChunk n c = (1 ≤ length c) × (length c ≤ n)

pub chunk_loop_lem :
    (fuel n : ℕ) (xs : List ℕ)
    → length xs ≤ fuel
    → (concat (chunk_loop fuel (suc n) xs) ≡ xs)
      × All (IsChunk (suc n)) (chunk_loop fuel (suc n) xs)
unfolding chunk_loop
chunk_loop_lem zero n [] h = (refl, tt)
chunk_loop_lem zero n (x ∷ xs) h = absurd (omega arith)
chunk_loop_lem (suc fuel) n [] h = (refl, tt)
chunk_loop_lem (suc fuel) n (x ∷ xs) h =
    let (whole, parts) = chunk_loop_lem fuel n (drop n xs) (omega (arith, length-drop n xs)) in
    (
      ap (λ r. take (suc n) (x ∷ xs) ++ r) whole ∙ take-append-drop (suc n) (x ∷ xs),
      (omega (arith, length-take n xs), parts),
    )

pub chunks_lem :
    (n : ℕ) (xs : List ℕ)
    → 1 ≤ n
    → (cs : List (List ℕ)) × (chunks n xs ≡ some cs) × (concat cs ≡ xs) × All (IsChunk n) cs
unfolding chunks
chunks_lem zero xs h = absurd (omega arith)
chunks_lem (suc n) xs h =
    let (whole, parts) = chunk_loop_lem (length xs) n xs (omega arith) in (_, refl, whole, parts)
