-- ===== src/Xfer64/CopyPlan/Places.antt =====
-- When two destinations are one place: their names are the same letter by letter, whether small or capital, as a FAT or exFAT card
-- compares them.
use multi.Common.{
  ℕ, ◌≤◌, ◌<◌, ◌≡◌, ◌≢◌, refl, sym, ◌∙◌, ◌⊎◌, inl, inr, List, [], ◌∷◌, map, Bool, true, false, leb,
  ◌&&◌, Bool-cases, if◌then◌else◌, arith,
}
use multi.Xfer64.CopyPlan.{
  Destination, encode_utf16, one_unit, fat_upcase_unit, fat_name_key, cart_parent_trimmed, pc_path,
  destination_key,
}

-- Half of a character behind the first 2 ^ 16, or not.
abbrev pub IsSurrogate : ℕ → Type 0
IsSurrogate u = (0xD800 ≤ u) × (u ≤ 0xDFFF)

-- The capital, where it is one character of 16 bits, or the letter itself, where there is no such.
abbrev pub IsCapital : ℕ → List ℕ → ℕ → Type 0
IsCapital u capitals v =
    ((capitals ≡ v ∷ []) × (v ≤ 0xFFFF)) ⊎ ((v ≡ u) × ((w : ℕ) → w ≤ 0xFFFF → capitals ≢ w ∷ []))

one_unit-IsCapital :
    (f : ℕ → List ℕ) (g : ℕ → Bool) (u : ℕ) (xs : List ℕ) → IsCapital u xs (one_unit f g u xs)
one_unit-IsCapital f g u [] = inr (refl, λ w k h. absurd cc)
one_unit-IsCapital f g u (a ∷ b ∷ xs) = inr (refl, λ w k h. absurd cc)
one_unit-IsCapital f g u (a ∷ []) = elim (Bool-cases (leb a 0xFFFF)) [
  | inl e ↦ rw e (inl (refl, ground arith))
  | inr e ↦ rw e (inr (refl, λ w k h. let same : a ≡ w = cc in absurd (ground arith)))
]

IsCapital-one_unit :
    (f : ℕ → List ℕ) (g : ℕ → Bool) (u v : ℕ) (xs : List ℕ)
    → IsCapital u xs v
    → one_unit f g u xs ≡ v
IsCapital-one_unit f g u v [] (inl (e, k)) = absurd cc
IsCapital-one_unit f g u v [] (inr (e, no_other)) = sym e
IsCapital-one_unit f g u v (a ∷ b ∷ xs) (inl (e, k)) = absurd cc
IsCapital-one_unit f g u v (a ∷ b ∷ xs) (inr (e, no_other)) = sym e
IsCapital-one_unit f g u v (a ∷ []) (inl (e, k)) =
    let same : a ≡ v = cc in let small : leb a 0xFFFF ≡ true = ground arith in rw small same
IsCapital-one_unit f g u v (a ∷ []) (inr (e, no_other)) = elim (Bool-cases (leb a 0xFFFF)) [
  | inl q ↦ absurd (no_other a (ground arith) refl)
  | inr q ↦ rw q (sym e)
]

module _ (to_uppercase : ℕ → List ℕ) (is_whitespace : ℕ → Bool) where
  -- What a unit of 16 bits is compared as.
  abbrev pub ComparesAs : ℕ → ℕ → Type 0
  ComparesAs u v =
      (IsSurrogate u × (v ≡ u)) ⊎ (((u < 0xD800) ⊎ (0xDFFF < u)) × IsCapital u (to_uppercase u) v)

  abbrev pub SameLetters : List ℕ → List ℕ → Type 0
  SameLetters [] [] = Unit
  SameLetters [] (b ∷ bs) = ⊥
  SameLetters (a ∷ xs) [] = ⊥
  SameLetters (a ∷ xs) (b ∷ bs) = ((v : ℕ) × ComparesAs a v × ComparesAs b v) × SameLetters xs bs

  -- The path without what is around it.
  abbrev pub path_of : Destination → List ℕ
  path_of d =
      if d.on_cart
      then cart_parent_trimmed to_uppercase is_whitespace d.dest
      else pc_path to_uppercase is_whitespace d.dest

  abbrev pub SamePlace : Destination → Destination → Type 0
  SamePlace d e = SameLetters (encode_utf16 (path_of d)) (encode_utf16 (path_of e))

  abbrev up : ℕ → ℕ
  up = fat_upcase_unit to_uppercase is_whitespace

  up-ComparesAs : (u : ℕ) → ComparesAs u (up u)
  unfolding fat_upcase_unit
  up-ComparesAs u = elim (Bool-cases (leb 0xD800 u && leb u 0xDFFF)) [
    | inl e ↦ rw e (inl ((ground arith, ground arith), refl))
    | inr e ↦
        rw e
          (inr (outside_them u e, one_unit-IsCapital to_uppercase is_whitespace u (to_uppercase u)))
  ]
    where
      outside_them : (u : ℕ) → (leb 0xD800 u && leb u 0xDFFF) ≡ false → (u < 0xD800) ⊎ (0xDFFF < u)
      outside_them u e = elim (Bool-cases (leb 0xD800 u)) [
        | inl q ↦ inr (ground arith)
        | inr q ↦ inl (ground arith)
      ]

  ComparesAs-up : (u v : ℕ) → ComparesAs u v → up u ≡ v
  unfolding fat_upcase_unit
  ComparesAs-up u v (inl ((p, q), e)) =
      let half : (leb 0xD800 u && leb u 0xDFFF) ≡ true = ground arith in rw half (sym e)
  ComparesAs-up u v (inr (inl p, capital)) =
      let whole : (leb 0xD800 u && leb u 0xDFFF) ≡ false = ground arith in
      rw whole (IsCapital-one_unit to_uppercase is_whitespace u v (to_uppercase u) capital)
  ComparesAs-up u v (inr (inr p, capital)) =
      let whole : (leb 0xD800 u && leb u 0xDFFF) ≡ false = ground arith in
      rw whole (IsCapital-one_unit to_uppercase is_whitespace u v (to_uppercase u) capital)

  same_key-SameLetters : (xs ys : List ℕ) → map up xs ≡ map up ys → SameLetters xs ys
  same_key-SameLetters [] [] h = tt
  same_key-SameLetters [] (y ∷ ys) h = cc
  same_key-SameLetters (x ∷ xs) [] h = cc
  same_key-SameLetters (x ∷ xs) (y ∷ ys) h =
      let first : up x ≡ up y = cc in
      let others : map up xs ≡ map up ys = cc in
      ((up y, subst_in first (up-ComparesAs x), up-ComparesAs y), same_key-SameLetters xs ys others)
    where
      subst_in : {a b : ℕ} → a ≡ b → ComparesAs x a → ComparesAs x b
      subst_in e c = rw e at c

  SameLetters-same_key : (xs ys : List ℕ) → SameLetters xs ys → map up xs ≡ map up ys
  SameLetters-same_key [] [] h = refl
  SameLetters-same_key [] (y ∷ ys) h = absurd h
  SameLetters-same_key (x ∷ xs) [] h = absurd h
  SameLetters-same_key (x ∷ xs) (y ∷ ys) ((v, p, q), h) =
      let first : up x ≡ up y = ComparesAs-up x v p ∙ sym (ComparesAs-up y v q) in
      let others = SameLetters-same_key xs ys h in rw (first, others) refl

  key_lem :
      (d : Destination)
      → destination_key to_uppercase is_whitespace d ≡ map up (encode_utf16 (path_of d))
  unfolding destination_key fat_name_key
  key_lem d = refl

  pub same_key-SamePlace :
      (d e : Destination)
      → destination_key to_uppercase is_whitespace d ≡ destination_key to_uppercase is_whitespace e
      → SamePlace d e
  same_key-SamePlace d e h =
      same_key-SameLetters (encode_utf16 (path_of d)) (encode_utf16 (path_of e))
        (sym (key_lem d) ∙ h ∙ key_lem e)

  pub SamePlace-same_key :
      (d e : Destination)
      → SamePlace d e
      → destination_key to_uppercase is_whitespace d ≡ destination_key to_uppercase is_whitespace e
  SamePlace-same_key d e h =
      key_lem d
      ∙ SameLetters-same_key (encode_utf16 (path_of d)) (encode_utf16 (path_of e)) h
      ∙ sym (key_lem e)
