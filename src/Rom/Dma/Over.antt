-- ===== src/Rom/Dma/Over.antt =====
-- Lists with some elements written over, as `copy_from_slice` of crates/ap64-core/src/transform.rs leaves them.
use multi.Common.{
  ℕ, zero, suc, ◌+◌, ◌-◌, ◌≤◌, ◌<◌, ◌≡◌, refl, ap, ◌∙◌, ◌⊎◌, inl, inr, List, [], ◌∷◌, ◌++◌,
  get_elem?, length, length-take, take, drop, arith,
}

module _ {A : Type 0} where
  pub get_elem?-drop :
      (n : ℕ) (xs : List A) (i : ℕ) → get_elem? (drop n xs) i ≡ get_elem? xs (n + i)
  get_elem?-drop zero xs i = ap (λ k. get_elem? xs k) (omega arith)
  get_elem?-drop (suc n) [] i = refl
  get_elem?-drop (suc n) (x ∷ xs) i = get_elem?-drop n xs i ∙ ap (λ k. get_elem? (x ∷ xs) k) next
    where
      next : suc (n + i) ≡ suc n + i
      next = omega arith

  pub get_elem?-take :
      (n : ℕ) (xs : List A) (i : ℕ) → i < n → get_elem? (take n xs) i ≡ get_elem? xs i
  get_elem?-take zero xs i h = absurd (omega arith)
  get_elem?-take (suc n) [] i h = refl
  get_elem?-take (suc n) (x ∷ xs) zero h = refl
  get_elem?-take (suc n) (x ∷ xs) (suc i) h = get_elem?-take n xs i (omega arith)

  get_elem?-front :
      (xs ys : List A) (i : ℕ) → i < length xs → get_elem? (xs ++ ys) i ≡ get_elem? xs i
  get_elem?-front [] ys i h = absurd (omega arith)
  get_elem?-front (x ∷ xs) ys zero h = refl
  get_elem?-front (x ∷ xs) ys (suc i) h = get_elem?-front xs ys i (omega arith)

  get_elem?-behind :
      (xs ys : List A) (i : ℕ)
      → length xs ≤ i
      → get_elem? (xs ++ ys) i ≡ get_elem? ys (i - length xs)
  get_elem?-behind [] ys i h = ap (λ k. get_elem? ys k) (omega arith)
  get_elem?-behind (x ∷ xs) ys zero h = absurd (omega arith)
  get_elem?-behind (x ∷ xs) ys (suc i) h =
      get_elem?-behind xs ys i (omega arith) ∙ ap (λ k. get_elem? ys k) same
    where
      same : i - length xs ≡ suc i - suc (length xs)
      same = omega arith

-- A list with some of its elements written over.
abbrev pub over : List ℕ → ℕ → List ℕ → List ℕ
over out place bs = take place out ++ (bs ++ drop (place + length bs) out)

-- Whether a byte is outside of those written.
abbrev pub Outside : ℕ → ℕ → ℕ → Type 0
Outside i place n = (i < place) ⊎ (place + n ≤ i)

pub over-Outside :
    (out : List ℕ) (place : ℕ) (bs : List ℕ) (i : ℕ)
    → place + length bs ≤ length out
    → Outside i place (length bs)
    → get_elem? (over out place bs) i ≡ get_elem? out i
over-Outside out place bs i h (inl p) =
    get_elem?-front (take place out) (bs ++ drop (place + length bs) out) i
      (omega (arith, length-take place out, p))
    ∙ get_elem?-take place out i p
over-Outside out place bs i h (inr p) =
    let front : length (take place out) ≡ place = omega (arith, length-take place out) in
    let whole : place + length bs + (i - place - length bs) ≡ i = omega (arith, p) in
    get_elem?-behind (take place out) (bs ++ drop (place + length bs) out) i
      (omega (arith, front, p))
    ∙ ap (λ k. get_elem? (bs ++ drop (place + length bs) out) (i - k)) front
    ∙ get_elem?-behind bs (drop (place + length bs) out) (i - place) (omega (arith, p))
    ∙ get_elem?-drop (place + length bs) out (i - place - length bs)
    ∙ ap (λ k. get_elem? out k) whole

pub over-inside :
    (out : List ℕ) (place : ℕ) (bs : List ℕ) (i : ℕ)
    → place + length bs ≤ length out
    → place ≤ i
    → i < place + length bs
    → get_elem? (over out place bs) i ≡ get_elem? bs (i - place)
over-inside out place bs i h p q =
    let front : length (take place out) ≡ place = omega (arith, length-take place out) in
    get_elem?-behind (take place out) (bs ++ drop (place + length bs) out) i
      (omega (arith, front, p))
    ∙ ap (λ k. get_elem? (bs ++ drop (place + length bs) out) (i - k)) front
    ∙ get_elem?-front bs (drop (place + length bs) out) (i - place) (omega (arith, p, q))
