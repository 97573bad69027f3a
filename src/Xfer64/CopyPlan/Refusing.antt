-- ===== src/Xfer64/CopyPlan/Refusing.antt =====
-- Which copies `refuse_shared_destinations` refuses.
use multi.Common.{
  ℕ, ◌≡◌, refl, sym, ap, subst, List, [], ◌∷◌, ◌++◌, Bool, true, false, All, All-map, Result, ok,
  err, ◌⊎◌, inl, inr, Option-cases,
}
use multi.Xfer64.CopyPlan.{
  Destination, Refused, shared, Entries, destination_at, earlier_of, files_with, dirs_with,
  refused_or, refuse_loop, refuse_shared_destinations,
}
use multi.Xfer64.CopyPlan.Index.{
  IsAmong, IsApart, AreApart, IsShared, IsIndex, key_of, nothing_found, something_found,
  files_with-IsIndex, dirs_with-IsIndex,
}
use multi.Xfer64.CopyPlan.Places.{path_of, SamePlace, same_key-SamePlace, SamePlace-same_key}
use multi.Xfer64.CopyPlan.Paths.{IsPathOf, paths-IsPathOf}

module _ (to_uppercase : ℕ → List ℕ) (is_whitespace : ℕ → Bool) where
  -- Each of the items apart from each of those before.
  abbrev AllApart : List Destination → List Destination → Type 0
  AllApart seen ds = All (λ d. All (λ e. IsApart to_uppercase is_whitespace e d) seen) ds

  -- An item that shares its place with one before it.
  abbrev pub IsRefusal : List Destination → List Destination → Refused → Type 0
  IsRefusal seen ds (shared e d) =
      (before : List Destination) × (after : List Destination) × (ds ≡ before ++ (d ∷ after))
      × (IsAmong e seen ⊎ IsAmong e before)
      × IsShared to_uppercase is_whitespace e d

  abbrev Outcome : List Destination → List Destination → Result Refused (Unit {0}) → Type 0
  Outcome seen ds (ok t) = AllApart seen ds × AreApart to_uppercase is_whitespace ds
  Outcome seen ds (err r) = IsRefusal seen ds r

  Outcome-next :
      (seen ds : List Destination) (d : Destination) (r : Result Refused (Unit {0}))
      → All (λ e. IsApart to_uppercase is_whitespace e d) seen
      → Outcome (d ∷ seen) ds r
      → Outcome seen (d ∷ ds) r
  Outcome-next seen ds d (ok t) h (later, apart) =
      ((h, without_first ds later), (first ds later, apart))
    where
      first :
          (es : List Destination)
          → AllApart (d ∷ seen) es
          → All (IsApart to_uppercase is_whitespace d) es
      first [] a = tt
      first (e ∷ es) ((p, q), a) = (p, first es a)

      without_first : (es : List Destination) → AllApart (d ∷ seen) es → AllApart seen es
      without_first [] a = tt
      without_first (e ∷ es) ((p, q), a) = (q, without_first es a)
  Outcome-next seen ds d (err (shared e x)) h (before, after, whole, found_at, place) =
      (d ∷ before, after, ap (λ es. d ∷ es) whole, moved found_at, place)
    where
      moved : IsAmong e (d ∷ seen) ⊎ IsAmong e before → IsAmong e seen ⊎ IsAmong e (d ∷ before)
      moved (inl (inl same)) = inr (inl same)
      moved (inl (inr among)) = inl among
      moved (inr among) = inr (inr among)

  loop-Outcome :
      (ds seen : List Destination) (files dirs : Entries)
      → IsIndex to_uppercase is_whitespace false seen files
      → IsIndex to_uppercase is_whitespace true seen dirs
      → Outcome seen ds (refuse_loop to_uppercase is_whitespace ds files dirs)
  unfolding refuse_loop
  loop-Outcome [] seen files dirs f g = (tt, tt)
  loop-Outcome (d ∷ ds) seen files dirs f g =
      let files' = files_with d.is_dir (key_of to_uppercase is_whitespace d) d files in
      let dirs' = dirs_with d.is_dir (key_of to_uppercase is_whitespace d) d dirs in
      let rest = refuse_loop to_uppercase is_whitespace ds files' dirs' in
      elim (Option-cases (earlier_of d.is_dir (key_of to_uppercase is_whitespace d) files dirs)) [
        | inr (e, h) ↦
            let (among, place) =
              something_found to_uppercase is_whitespace seen d e files dirs f g h in
            subst (λ o. Outcome seen (d ∷ ds) (refused_or o d rest)) (sym h)
              ([], ds, refl, inl among, place)
        | inl h ↦
            let later =
              loop-Outcome ds (d ∷ seen) files' dirs'
                (files_with-IsIndex to_uppercase is_whitespace d.is_dir seen files d refl f)
                (dirs_with-IsIndex to_uppercase is_whitespace d.is_dir seen dirs d refl g) in
            subst (λ o. Outcome seen (d ∷ ds) (refused_or o d rest)) (sym h)
              (Outcome-next seen ds d rest
                (nothing_found to_uppercase is_whitespace seen d files dirs f g h) later)
      ]

  -- Two items that can both be copied: to different places, or two folders.
  abbrev pub IsCompatible : Destination → Destination → Type 0
  IsCompatible d e =
      (SamePlace to_uppercase is_whitespace d e → ⊥) ⊎ ((d.is_dir ≡ true) × (e.is_dir ≡ true))

  abbrev pub AreCompatible : List Destination → Type 0
  AreCompatible [] = Unit
  AreCompatible (d ∷ ds) = All (IsCompatible d) ds × AreCompatible ds

  compatible : (d e : Destination) → IsApart to_uppercase is_whitespace d e → IsCompatible d e
  compatible d e (inl other) =
      inl (λ place. other (SamePlace-same_key to_uppercase is_whitespace d e place))
  compatible d e (inr dirs) = inr dirs

  all_compatible :
      (ds : List Destination) → AreApart to_uppercase is_whitespace ds → AreCompatible ds
  all_compatible [] h = tt
  all_compatible (d ∷ ds) (h, hs) = (
    All-map (IsApart to_uppercase is_whitespace d) (IsCompatible d) (compatible d) ds h,
    all_compatible ds hs,
  )

  -- Two items in this order for one place, not both folders.
  abbrev pub IsClash : List Destination → Refused → Type 0
  IsClash ds (shared e d) =
      (before : List Destination) × (after : List Destination) × (ds ≡ before ++ (d ∷ after))
      × IsAmong e before
      × SamePlace to_uppercase is_whitespace e d
      × ((e.is_dir ≡ false) ⊎ (d.is_dir ≡ false))

  clash : (ds : List Destination) (r : Refused) → IsRefusal [] ds r → IsClash ds r
  clash ds (shared e d) (before, after, whole, inl none_before, same) = absurd none_before
  clash ds (shared e d) (before, after, whole, inr among, (place, file)) =
      (before, after, whole, among, same_key-SamePlace to_uppercase is_whitespace e d place, file)

  -- What `refuse_shared_destinations` promises of the items and its answer.
  abbrev pub IsAnswer : List Destination → Result Refused (Unit {0}) → Type 0
  IsAnswer ds (ok t) = AreCompatible ds
  IsAnswer ds (err r) = IsClash ds r

  -- `refuse_shared_destinations` accepts the items only when every two of them go to different places or are two
  -- folders. When it refuses them, the two items that it names are among them, in this order, go to one place, and are not
  -- both folders. The path of an item is its text without the white space at its ends, with the separators of the file system there,
  -- and without those at its ends, on a PC at its end only. Two paths are one place where they have as many units of 16 bits and each two of
  -- these compare as one: a half of a longer character as itself, any other as its capital where that is one unit, or else as itself.
  pub refuse_shared_destinations-IsAnswer :
      (ds : List Destination)
      → IsAnswer ds (refuse_shared_destinations to_uppercase is_whitespace ds)
        × All (λ d. IsPathOf to_uppercase is_whitespace d (path_of to_uppercase is_whitespace d)) ds
  unfolding refuse_shared_destinations destination_at
  refuse_shared_destinations-IsAnswer ds = (
    answer (refuse_loop to_uppercase is_whitespace ds [] [])
        (loop-Outcome ds [] [] [] (λ key. tt) (λ key. tt)),
    paths-IsPathOf to_uppercase is_whitespace ds,
  )
    where
      answer : (r : Result Refused (Unit {0})) → Outcome [] ds r → IsAnswer ds r
      answer (ok t) (before, apart) = all_compatible ds apart
      answer (err r) refusal = clash ds r refusal
