-- ===== src/Common/Find.antt =====
-- Searching a byte buffer for a four-byte tag: `buf.windows(4).position(|w| w == tag)`.
use multi.Common.{
  ℕ, zero, suc, ◌+◌, ◌≤◌, ◌≡◌, refl, Bool, true, false, List, [], ◌∷◌, ◌++◌, Option, none, some,
  arith, length, drop, if◌then◌else◌, ◌==◌, ◌&&◌,
}
use mathlib.Core.Option

-- Whether the window at the front is the tag.
unfoldable pub starts_with : ℕ → ℕ → ℕ → ℕ → List ℕ → Bool
starts_with a b c d (w ∷ x ∷ y ∷ z ∷ r) = w == a && x == b && y == c && z == d
starts_with a b c d _ = false

unfoldable pub find_tag : ℕ → ℕ → ℕ → ℕ → List ℕ → Option ℕ
find_tag a b c d [] = none
find_tag a b c d (x ∷ xs) =
    if starts_with a b c d (x ∷ xs) then some 0 else Option.map suc (find_tag a b c d xs)

module _ (a b c d : ℕ) where
  pub starts_with-append :
      (xs ys : List ℕ) → 4 ≤ length xs → starts_with a b c d (xs ++ ys) ≡ starts_with a b c d xs
  unfolding starts_with
  starts_with-append [] ys h = absurd (omega arith)
  starts_with-append (w ∷ []) ys h = absurd (omega arith)
  starts_with-append (w ∷ x ∷ []) ys h = absurd (omega arith)
  starts_with-append (w ∷ x ∷ y ∷ []) ys h = absurd (omega arith)
  starts_with-append (w ∷ x ∷ y ∷ z ∷ r) ys h = refl

  pub starts_with-length : (xs : List ℕ) → starts_with a b c d xs ≡ true → 4 ≤ length xs
  unfolding starts_with
  starts_with-length [] h = cc
  starts_with-length (w ∷ []) h = cc
  starts_with-length (w ∷ x ∷ []) h = cc
  starts_with-length (w ∷ x ∷ y ∷ []) h = cc
  starts_with-length (w ∷ x ∷ y ∷ z ∷ r) h = omega arith

  -- A tag that is found stands where the search says, and bytes behind do not hide it.
  pub find_tag_found :
      (xs : List ℕ) (p : ℕ)
      → find_tag a b c d xs ≡ some p
      → (p + 4 ≤ length xs) × (starts_with a b c d (drop p xs) ≡ true)
  unfolding find_tag
  find_tag_found [] p h = cc
  find_tag_found (x ∷ xs) zero h = ground (arith, starts_with-length (x ∷ xs))
  find_tag_found (x ∷ xs) (suc p) h = ground (arith, find_tag_found xs p)

  pub find_tag-append :
      (xs ys : List ℕ) (p : ℕ) → find_tag a b c d xs ≡ some p → find_tag a b c d (xs ++ ys) ≡ some p
  unfolding find_tag
  find_tag-append [] ys p h = cc
  find_tag-append (x ∷ xs) ys zero h =
      ground (arith, starts_with-length (x ∷ xs), starts_with-append (x ∷ xs) ys)
  find_tag-append (x ∷ xs) ys (suc p) h = ground (
    arith,
    find_tag-append xs ys p,
    find_tag_found (x ∷ xs) (suc p) h,
    starts_with-append (x ∷ xs) ys,
  )

  pub find_tag_here : (xs : List ℕ) → starts_with a b c d xs ≡ true → find_tag a b c d xs ≡ some 0
  unfolding find_tag
  find_tag_here [] h = absurd (omega (arith, starts_with-length [] h))
  find_tag_here (x ∷ xs) h = rw h

  -- A byte at which the tag does not begin is passed over.
  pub find_tag_next :
      (x : ℕ) (xs : List ℕ)
      → starts_with a b c d (x ∷ xs) ≡ false
      → find_tag a b c d (x ∷ xs) ≡ Option.map suc (find_tag a b c d xs)
  unfolding find_tag
  find_tag_next x xs h = rw h

  pub find_tag-none :
      (x : ℕ) (xs : List ℕ)
      → find_tag a b c d (x ∷ xs) ≡ none
      → (starts_with a b c d (x ∷ xs) ≡ false) × (find_tag a b c d xs ≡ none)
  unfolding find_tag
  find_tag-none x xs h = ground arith
