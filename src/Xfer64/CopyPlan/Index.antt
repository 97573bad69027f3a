-- ===== src/Xfer64/CopyPlan/Index.antt =====
-- What the maps of `refuse_shared_destinations` find of the items that came before.
use multi.Common.{
  ℕ, ◌≡◌, ◌≢◌, refl, sym, subst, ◌∙◌, List, [], ◌∷◌, Option, none, some, Bool, true, false, not,
  All, ◌⊎◌, inl, inr, Bool-cases, Option-cases,
}
use multi.Common.Keys.{same_key, same_key_eq, same_key-ne}
use multi.Xfer64.CopyPlan.{
  Destination, Entries, destination_at, unless_there, or_else, destination_key, earlier_of,
  files_with, dirs_with,
}

abbrev pub IsAmong : Destination → List Destination → Type 0
IsAmong d [] = ⊥
IsAmong d (e ∷ es) = (e ≡ d) ⊎ IsAmong d es

module _ (to_uppercase : ℕ → List ℕ) (is_whitespace : ℕ → Bool) where
  abbrev pub key_of : Destination → List ℕ
  key_of = destination_key to_uppercase is_whitespace

  -- Two items that can both be copied: to different places, or two folders.
  abbrev pub IsApart : Destination → Destination → Type 0
  IsApart d e =
      (destination_key to_uppercase is_whitespace d ≢ destination_key to_uppercase is_whitespace e)
      ⊎ ((d.is_dir ≡ true) × (e.is_dir ≡ true))

  -- Every item with every later one.
  abbrev pub AreApart : List Destination → Type 0
  AreApart [] = Unit
  AreApart (d ∷ ds) = All (IsApart d) ds × AreApart ds

  -- Two items for one place, not both folders.
  abbrev pub IsShared : Destination → Destination → Type 0
  IsShared d e =
      (destination_key to_uppercase is_whitespace d ≡ destination_key to_uppercase is_whitespace e)
      × ((d.is_dir ≡ false) ⊎ (e.is_dir ≡ false))

  -- What a map of the files, or of the folders, among the items `seen` says of a key.
  abbrev pub Finds : Bool → List Destination → List ℕ → Option Destination → Type 0
  Finds dir seen key none = All (λ e. (e.is_dir ≡ not dir) ⊎ (key_of e ≢ key)) seen
  Finds dir seen key (some e) = IsAmong e seen × (e.is_dir ≡ dir) × (key_of e ≡ key)

  abbrev pub IsIndex : Bool → List Destination → Entries → Type 0
  IsIndex dir seen m = (key : List ℕ) → Finds dir seen key (destination_at key m)

  -- An item of the other kind changes nothing.
  Finds-other :
      (dir : Bool) (seen : List Destination) (key : List ℕ) (o : Option Destination)
      (d : Destination)
      → d.is_dir ≡ not dir
      → Finds dir seen key o
      → Finds dir (d ∷ seen) key o
  Finds-other dir seen key none d h f = (inl h, f)
  Finds-other dir seen key (some e) d h (among, kind, same) = (inr among, kind, same)

  Finds-elsewhere :
      (dir : Bool) (seen : List Destination) (key : List ℕ) (o : Option Destination)
      (d : Destination)
      → key_of d ≢ key
      → Finds dir seen key o
      → Finds dir (d ∷ seen) key o
  Finds-elsewhere dir seen key none d h f = (inr h, f)
  Finds-elsewhere dir seen key (some e) d h (among, kind, same) = (inr among, kind, same)

  IsIndex-insert :
      (dir : Bool) (seen : List Destination) (m : Entries) (d : Destination)
      → d.is_dir ≡ dir
      → IsIndex dir seen m
      → IsIndex dir (d ∷ seen) ((key_of d, d) ∷ m)
  unfolding destination_at
  IsIndex-insert dir seen m d h f key = elim (Bool-cases (same_key (key_of d) key)) [
    | inl e ↦ rw e (inl refl, h, same_key_eq (key_of d) key e)
    | inr e ↦ rw e (
        Finds-elsewhere dir seen key (destination_at key m) d (same_key-ne (key_of d) key e)
          (f key))
  ]

  -- A folder that is there already is kept.
  IsIndex-keep :
      (seen : List Destination) (m : Entries) (d x : Destination)
      → destination_at (key_of d) m ≡ some x
      → IsIndex true seen m
      → IsIndex true (d ∷ seen) m
  IsIndex-keep seen m d x h f key = elim (Bool-cases (same_key (key_of d) key)) [
    | inl e ↦
        let there : destination_at key m ≡ some x = rw (same_key_eq (key_of d) key e) at h in
        let (among, kind, same) = rw there at (f key) in rw there (inr among, kind, same)
    | inr e ↦
        Finds-elsewhere true seen key (destination_at key m) d (same_key-ne (key_of d) key e)
          (f key)
  ]

  IsIndex-or_insert :
      (seen : List Destination) (m : Entries) (d : Destination)
      → d.is_dir ≡ true
      → IsIndex true seen m
      → IsIndex true (d ∷ seen) (unless_there (destination_at (key_of d) m) (key_of d) d m)
  IsIndex-or_insert seen m d h f = elim (Option-cases (destination_at (key_of d) m)) [
    | inl e ↦ rw e (IsIndex-insert true seen m d h f)
    | inr (x, e) ↦ rw e (IsIndex-keep seen m d x e f)
  ]

  folder-IsApart :
      (seen : List Destination) (d : Destination)
      → d.is_dir ≡ true
      → Finds false seen (key_of d) none
      → All (λ e. IsApart e d) seen
  folder-IsApart [] d h f = tt
  folder-IsApart (e ∷ es) d h (inl folder, f) = (inr (folder, h), folder-IsApart es d h f)
  folder-IsApart (e ∷ es) d h (inr differ, f) = (inl differ, folder-IsApart es d h f)

  file-IsApart :
      (seen : List Destination) (d : Destination)
      → Finds false seen (key_of d) none
      → Finds true seen (key_of d) none
      → All (λ e. IsApart e d) seen
  file-IsApart [] d f g = tt
  file-IsApart (e ∷ es) d (inr differ, f) (k, g) = (inl differ, file-IsApart es d f g)
  file-IsApart (e ∷ es) d (inl folder, f) (inr differ, g) = (inl differ, file-IsApart es d f g)
  file-IsApart (e ∷ es) d (inl folder, f) (inl file, g) =
      let both : true ≡ false = sym folder ∙ file in cc

  -- A file for whose place nothing is found, and a folder for whose place no file is.
  pub nothing_found :
      (seen : List Destination) (d : Destination) (files dirs : Entries)
      → IsIndex false seen files
      → IsIndex true seen dirs
      → earlier_of d.is_dir (key_of d) files dirs ≡ none
      → All (λ e. IsApart e d) seen
  nothing_found seen d files dirs f g h = elim (Bool-cases d.is_dir) [
    | inl k ↦
        let no_file = subst (λ b. earlier_of b (key_of d) files dirs ≡ none) k h in
        folder-IsApart seen d k (subst (Finds false seen (key_of d)) no_file (f (key_of d)))
    | inr k ↦
        let neither = subst (λ b. earlier_of b (key_of d) files dirs ≡ none) k h in
        let (no_file, no_dir) =
          both_none (destination_at (key_of d) files) (destination_at (key_of d) dirs) neither in
        file-IsApart seen d (subst (Finds false seen (key_of d)) no_file (f (key_of d)))
          (subst (Finds true seen (key_of d)) no_dir (g (key_of d)))
  ]
    where
      both_none : (a b : Option Destination) → or_else a b ≡ none → (a ≡ none) × (b ≡ none)
      both_none none b e = (refl, e)
      both_none (some x) b e = cc

  -- What is found shares the place.
  pub something_found :
      (seen : List Destination) (d e : Destination) (files dirs : Entries)
      → IsIndex false seen files
      → IsIndex true seen dirs
      → earlier_of d.is_dir (key_of d) files dirs ≡ some e
      → IsAmong e seen × IsShared e d
  something_found seen d e files dirs f g h = elim (Bool-cases d.is_dir) [
    | inl k ↦
        let a_file = subst (λ b. earlier_of b (key_of d) files dirs ≡ some e) k h in
        of_file (subst (Finds false seen (key_of d)) a_file (f (key_of d)))
    | inr k ↦
        let either = subst (λ b. earlier_of b (key_of d) files dirs ≡ some e) k h in
        elim (one_some (destination_at (key_of d) files) (destination_at (key_of d) dirs) either) [
          | inl a_file ↦ of_file (subst (Finds false seen (key_of d)) a_file (f (key_of d)))
          | inr a_dir ↦
              let (among, kind, same) = subst (Finds true seen (key_of d)) a_dir (g (key_of d)) in
              (among, (same, inr k))
        ]
  ]
    where
      of_file : Finds false seen (key_of d) (some e) → IsAmong e seen × IsShared e d
      of_file (among, kind, same) = (among, (same, inl kind))

      one_some : (a b : Option Destination) → or_else a b ≡ some e → (a ≡ some e) ⊎ (b ≡ some e)
      one_some none b k = inr k
      one_some (some x) b k = inl k

  pub files_with-IsIndex :
      (b : Bool) (seen : List Destination) (m : Entries) (d : Destination)
      → d.is_dir ≡ b
      → IsIndex false seen m
      → IsIndex false (d ∷ seen) (files_with b (key_of d) d m)
  files_with-IsIndex true seen m d h f =
      λ key. Finds-other false seen key (destination_at key m) d h (f key)
  files_with-IsIndex false seen m d h f = IsIndex-insert false seen m d h f

  pub dirs_with-IsIndex :
      (b : Bool) (seen : List Destination) (m : Entries) (d : Destination)
      → d.is_dir ≡ b
      → IsIndex true seen m
      → IsIndex true (d ∷ seen) (dirs_with b (key_of d) d m)
  dirs_with-IsIndex true seen m d h f = IsIndex-or_insert seen m d h f
  dirs_with-IsIndex false seen m d h f =
      λ key. Finds-other true seen key (destination_at key m) d h (f key)
