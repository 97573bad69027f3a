-- ===== src/Xfer64/CopyPlan/Paths.antt =====
-- What is taken off the ends of a destination's path before it is compared.
use multi.Common.{
  ℕ, ◌≡◌, refl, sym, ap, List, [], ◌∷◌, ◌++◌, Bool, true, false, if◌then◌else◌, Bool-cases, inl,
  inr, All, ◌==◌,
}
use multi.Xfer64.CopyPlan.{
  Destination, trim_start_matches, keep_front, trim_end_matches, replace, trim, cart_parent_trimmed,
  pc_path,
}
use multi.Xfer64.CopyPlan.Places.{path_of}

module _ (p : ℕ → Bool) where
  abbrev pub IsNotFirst : List ℕ → Type 0
  IsNotFirst [] = Unit
  IsNotFirst (c ∷ cs) = p c ≡ false

  abbrev pub IsNotLast : List ℕ → Type 0
  IsNotLast [] = Unit
  IsNotLast (c ∷ []) = p c ≡ false
  IsNotLast (c ∷ d ∷ cs) = IsNotLast (d ∷ cs)

  -- The second list is the first without what matches at its end, all of it and nothing else.
  abbrev pub IsWithoutEnd : List ℕ → List ℕ → Type 0
  IsWithoutEnd xs ys =
      (back : List ℕ) × (xs ≡ ys ++ back) × All (λ c. p c ≡ true) back × IsNotLast ys

  -- And without what matches at its front.
  abbrev pub IsWithoutEnds : List ℕ → List ℕ → Type 0
  IsWithoutEnds xs ys =
      (front : List ℕ) × (rest : List ℕ) × (xs ≡ front ++ rest)
      × All (λ c. p c ≡ true) front
      × IsWithoutEnd rest ys
      × IsNotFirst ys

  start_lem :
      (xs : List ℕ)
      → (front : List ℕ) × (xs ≡ front ++ trim_start_matches p xs)
        × All (λ c. p c ≡ true) front
        × IsNotFirst (trim_start_matches p xs)
  start_lem [] = ([], refl, tt, tt)
  start_lem (c ∷ cs) = elim (Bool-cases (p c)) [
    | inl e ↦
        let (front, whole, all, first) = start_lem cs in
        rw e (c ∷ front, ap (λ ys. c ∷ ys) whole, (e, all), first)
    | inr e ↦ rw e ([], refl, tt, e)
  ]

  kept_front :
      (c : ℕ) (cs ys : List ℕ) → IsWithoutEnd cs ys → IsWithoutEnd (c ∷ cs) (keep_front p c ys)
  kept_front c cs [] (back, whole, all, last) = elim (Bool-cases (p c)) [
    | inl e ↦ rw e (c ∷ back, ap (λ ys. c ∷ ys) whole, (e, all), tt)
    | inr e ↦ rw e (back, ap (λ ys. c ∷ ys) whole, all, e)
  ]
  kept_front c cs (d ∷ ds) (back, whole, all, last) = (back, ap (λ ys. c ∷ ys) whole, all, last)

  pub trim_end_matches-IsWithoutEnd : (xs : List ℕ) → IsWithoutEnd xs (trim_end_matches p xs)
  trim_end_matches-IsWithoutEnd [] = ([], refl, tt, tt)
  trim_end_matches-IsWithoutEnd (c ∷ cs) =
      kept_front c cs (trim_end_matches p cs) (trim_end_matches-IsWithoutEnd cs)

  still_first : (xs ys : List ℕ) → IsNotFirst xs → IsWithoutEnd xs ys → IsNotFirst ys
  still_first xs [] h w = tt
  still_first [] (d ∷ ds) h (back, whole, all, last) = absurd cc
  still_first (x ∷ xs) (d ∷ ds) h (back, whole, all, last) =
      let same : x ≡ d = cc in rw (sym same) h

  pub trims-IsWithoutEnds :
      (xs : List ℕ) → IsWithoutEnds xs (trim_end_matches p (trim_start_matches p xs))
  trims-IsWithoutEnds xs =
      let (front, whole, all, first) = start_lem xs in
      let rest = trim_start_matches p xs in
      let end = trim_end_matches-IsWithoutEnd rest in
      (front, rest, whole, all, end, still_first rest (trim_end_matches p rest) first end)

module _ (to_uppercase : ℕ → List ℕ) (is_whitespace : ℕ → Bool) where
  -- On the card, separators are slashes, and none is left at either end.
  abbrev pub IsPlaceIn : Bool → List ℕ → List ℕ → Type 0
  IsPlaceIn true inner path = IsWithoutEnds (λ c. c == b'/') (replace 0x5C b'/' inner) path
  IsPlaceIn false inner path = IsWithoutEnd (λ c. c == 0x5C) (replace b'/' 0x5C inner) path

  -- The path of a destination: without white space at its ends, and then as its file system has it.
  abbrev pub IsPathOf : Destination → List ℕ → Type 0
  IsPathOf d path =
      (inner : List ℕ) × IsWithoutEnds is_whitespace d.dest inner × IsPlaceIn d.on_cart inner path

  place_lem :
      (b : Bool) (s : List ℕ)
      → IsPlaceIn b (trim to_uppercase is_whitespace s) (
          if b
          then cart_parent_trimmed to_uppercase is_whitespace s
          else pc_path to_uppercase is_whitespace s)
  unfolding cart_parent_trimmed pc_path
  place_lem true s =
      trims-IsWithoutEnds (λ c. c == b'/') (replace 0x5C b'/' (trim to_uppercase is_whitespace s))
  place_lem false s =
      trim_end_matches-IsWithoutEnd (λ c. c == 0x5C)
        (replace b'/' 0x5C (trim to_uppercase is_whitespace s))

  pub path_of-IsPathOf : (d : Destination) → IsPathOf d (path_of to_uppercase is_whitespace d)
  path_of-IsPathOf d = (
    trim to_uppercase is_whitespace d.dest,
    trims-IsWithoutEnds is_whitespace d.dest,
    place_lem d.on_cart d.dest,
  )

  pub paths-IsPathOf :
      (ds : List Destination) → All (λ d. IsPathOf d (path_of to_uppercase is_whitespace d)) ds
  paths-IsPathOf [] = tt
  paths-IsPathOf (d ∷ ds) = (path_of-IsPathOf d, paths-IsPathOf ds)
