-- ===== src/Rom/Words.antt =====
-- `read_u32` and `write_u32`.
use multi.Common.{
  ℕ, zero, suc, ◌+◌, ◌-◌, ◌≤◌, ◌<◌, ◌/◌, ◌%◌, ◌≡◌, refl, sym, ap, ◌∙◌, List, [], ◌∷◌, ◌++◌, some,
  get_elem?, length, take, drop, get_or, true, leb, arith, length-append, length-take, length-drop,
  take-length_append, drop-length_append,
}
use multi.Common.Bytes.{u32_at, to_be32, from_be32-to, IsU32}
use multi.Rom.{read_u32, write_u32}

pub take-take : (m n : ℕ) (xs : List ℕ) → take m (take (m + n) xs) ≡ take m xs
take-take zero n xs = refl
take-take (suc m) n [] = ap (λ k. take (suc m) (take k [])) next
  where
    next : suc m + n ≡ suc (m + n)
    next = omega arith
take-take (suc m) n (x ∷ xs) =
    ap (λ k. take (suc m) (take k (x ∷ xs))) next ∙ ap (λ ys. x ∷ ys) (take-take m n xs)
  where
    next : suc m + n ≡ suc (m + n)
    next = omega arith

-- The ROM with a word written.
abbrev pub written : List ℕ → ℕ → ℕ → List ℕ
written rom place value = take place rom ++ (to_be32 value ++ drop (place + 4) rom)

pub get_or-drop : (n : ℕ) (xs : List ℕ) (i : ℕ) → get_or (drop n xs) i 0 ≡ get_or xs (n + i) 0
get_or-drop zero xs i = ap (λ k. get_or xs k 0) (omega arith)
get_or-drop (suc n) [] i = refl
get_or-drop (suc n) (x ∷ xs) i = get_or-drop n xs i ∙ ap (λ k. get_or (x ∷ xs) k 0) next
  where
    next : suc (n + i) ≡ suc n + i
    next = omega arith

drop_nil : (n : ℕ) → drop {A = ℕ} n [] ≡ []
drop_nil zero = refl
drop_nil (suc n) = refl

pub drop-drop : (m n : ℕ) (xs : List ℕ) → drop (m + n) xs ≡ drop n (drop m xs)
drop-drop zero n xs = ap (λ k. drop k xs) (omega arith)
drop-drop (suc m) n [] = drop_nil (suc m + n) ∙ sym (drop_nil n)
drop-drop (suc m) n (x ∷ xs) = ap (λ k. drop k (x ∷ xs)) next ∙ drop-drop m n xs
  where
    next : suc m + n ≡ suc (m + n)
    next = omega arith

module _ (rom : List ℕ) (place value : ℕ) (fits : place + 4 ≤ length rom) where
  pub write_u32-written : write_u32 rom place value ≡ some (written rom place value)
  unfolding write_u32
  write_u32-written =
      let inside : leb (place + 4) (length rom) ≡ true = ground arith in rw inside refl

  length_front : length (take place rom) ≡ place
  length_front = omega (arith, length-take place rom, fits)

  pub length-written : length (written rom place value) ≡ length rom
  length-written = omega (
    arith,
    length-append (take place rom) (to_be32 value ++ drop (place + 4) rom),
    length_front,
    length-drop (place + 4) rom,
    fits,
  )

  pub take-written : take place (written rom place value) ≡ take place rom
  take-written = take-length_append place (take place rom) _ length_front

  drop_front : drop place (written rom place value) ≡ to_be32 value ++ drop (place + 4) rom
  drop_front = drop-length_append place (take place rom) _ length_front

  pub drop-written : drop (place + 4) (written rom place value) ≡ drop (place + 4) rom
  drop-written = drop-drop place 4 (written rom place value) ∙ ap (drop 4) drop_front

  pub u32_at-written : IsU32 value → u32_at (written rom place value) place ≡ value
  u32_at-written h =
      let w = written rom place value in
      let here : (i : ℕ)
          → get_or w (place + i) 0 ≡ get_or (to_be32 value ++ drop (place + 4) rom) i 0 =
        λ i. sym (get_or-drop place w i) ∙ ap (λ zs. get_or zs i 0) drop_front in
      let first : get_or w place 0 ≡ value / 16777216 % 256 =
        ap (λ k. get_or w k 0) (omega arith) ∙ here 0 in
      rw (first, here 1, here 2, here 3) (from_be32-to value h)

get_or-take : (n : ℕ) (xs : List ℕ) (i : ℕ) → i < n → get_or (take n xs) i 0 ≡ get_or xs i 0
get_or-take zero xs i h = absurd (omega arith)
get_or-take (suc n) [] i h = refl
get_or-take (suc n) (x ∷ xs) zero h = refl
get_or-take (suc n) (x ∷ xs) (suc i) h = get_or-take n xs i (omega arith)

-- Two lists with one front have the same words there.
pub u32_at-front :
    (n : ℕ) (xs ys : List ℕ) (i : ℕ) → take n xs ≡ take n ys → i + 4 ≤ n → u32_at xs i ≡ u32_at ys i
u32_at-front n xs ys i h p =
    let same : (j : ℕ) → j < n → get_or xs j 0 ≡ get_or ys j 0 =
      λ j q. sym (get_or-take n xs j q) ∙ ap (λ zs. get_or zs j 0) h ∙ get_or-take n ys j q in
    rw
      (
        same i (omega arith),
        same (i + 1) (omega arith),
        same (i + 2) (omega arith),
        same (i + 3) (omega arith),
      )
      refl

pub read_u32_lem :
    (rom : List ℕ) (i v : ℕ) → i + 4 ≤ length rom → u32_at rom i ≡ v → read_u32 rom i ≡ some v
unfolding read_u32
read_u32_lem rom i v h e =
    let inside : leb (i + 4) (length rom) ≡ true = ground arith in rw inside (ap some e)

u32_at-drop : (s : ℕ) (xs : List ℕ) → u32_at (drop s xs) 0 ≡ u32_at xs s
u32_at-drop s xs =
    let here : s + 0 ≡ s = omega arith in
    let first : get_or (drop s xs) 0 0 ≡ get_or xs s 0 =
      get_or-drop s xs 0 ∙ ap (λ k. get_or xs k 0) here in
    rw (first, get_or-drop s xs 1, get_or-drop s xs 2, get_or-drop s xs 3) refl

-- A word that stands at a place is read there.
pub read_u32_found :
    (s v : ℕ) (src rest : List ℕ)
    → IsU32 v
    → drop s src ≡ to_be32 v ++ rest
    → read_u32 src s ≡ some v
read_u32_found s v src rest h k =
    let size : length src - s ≡ suc (suc (suc (suc (length rest)))) =
      sym (length-drop s src) ∙ ap length k in
    let word : u32_at src s ≡ v =
      sym (u32_at-drop s src) ∙ ap (λ ys. u32_at ys 0) k ∙ from_be32-to v h in
    read_u32_lem src s v (omega (arith, size)) word

-- What stands at a place, and behind what stands there.
pub found : (s : ℕ) (src rest : List ℕ) (b : ℕ) → drop s src ≡ b ∷ rest → get_elem? src s ≡ some b
found zero [] rest b h = cc
found zero (x ∷ xs) rest b h = ap (λ ys. get_elem? ys 0) h
found (suc s) [] rest b h = cc
found (suc s) (x ∷ xs) rest b h = found s xs rest b h

pub next_of : (s : ℕ) (src rest : List ℕ) (b : ℕ) → drop s src ≡ b ∷ rest → drop (s + 1) src ≡ rest
next_of s src rest b h = drop-drop s 1 src ∙ ap (λ ys. drop 1 ys) h

pub behind :
    (s : ℕ) (src xs rest : List ℕ) → drop s src ≡ xs ++ rest → drop (s + length xs) src ≡ rest
behind s src xs rest h =
    drop-drop s (length xs) src
    ∙ ap (λ ys. drop (length xs) ys) h
    ∙ drop-length_append (length xs) xs rest refl
