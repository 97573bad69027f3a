-- ===== src/Sd/ReadCache/Removing.antt =====
-- What stays when entries are removed.
use multi.Common.{
  ℕ, ◌≡◌, refl, Bool, true, false, List, [], ◌∷◌, Option, none, some, All, All-map, All-both, arith,
  ◌==◌, ◌||◌, Option-cases, inl, inr,
}
use multi.Sd.ReadCache.{
  Entry, SdReadCache, find_entry, delete, remove, remove_found, remove_all, overlaps, doomed,
  invalidate, end_of,
}

module _ {κ} (P : Entry → Type κ) where
  delete-All : (s : ℕ) (es : List Entry) → All P es → All P (delete s es)
  unfolding delete
  delete-All s [] h = tt
  delete-All s (e ∷ es) h = ground (arith, delete-All s es h.1)

  found-All :
      (c : SdReadCache) (s : ℕ) (r : Option (List ℕ))
      → All P c.entries
      → All P (remove_found c s r).entries
  unfolding remove_found
  found-All c s none h = h
  found-All c s (some b) h = delete-All s c.entries h

  pub remove-All : (c : SdReadCache) (s : ℕ) → All P c.entries → All P (remove c s).entries
  unfolding remove
  remove-All c s h = found-All c s (find_entry s c.entries) h

  pub remove_all-All :
      (ss : List ℕ) (c : SdReadCache) → All P c.entries → All P (remove_all c ss).entries
  unfolding remove_all
  remove_all-All [] c h = h
  remove_all-All (s ∷ ss) c h = remove_all-All ss (remove c s) (remove-All c s h)

abbrev pub Differs : ℕ → Entry → Type 0
Differs s e = (e.start == s) ≡ false

delete-Differs : (s : ℕ) (es : List Entry) → All (Differs s) (delete s es)
unfolding delete
delete-Differs s [] = tt
delete-Differs s (e ∷ es) = ground (arith, delete-Differs s es)

missing-Differs : (s : ℕ) (es : List Entry) → find_entry s es ≡ none → All (Differs s) es
unfolding find_entry
missing-Differs s [] h = tt
missing-Differs s (e ∷ es) h = ground (arith, missing-Differs s es)

remove-Differs : (c : SdReadCache) (s : ℕ) → All (Differs s) (remove c s).entries
unfolding remove remove_found
remove-Differs c s = elim (Option-cases (find_entry s c.entries)) [
  | inr (b, e) ↦ rw e (delete-Differs s c.entries)
  | inl e ↦ rw e (missing-Differs s c.entries e)
]

has : ℕ → List ℕ → Bool
has s [] = false
has s (t ∷ ts) = s == t || has s ts

abbrev Missed : List ℕ → Entry → Type 0
Missed ss e = has e.start ss ≡ false

remove_all-Missed : (ss : List ℕ) (c : SdReadCache) → All (Missed ss) (remove_all c ss).entries
unfolding remove_all has
remove_all-Missed [] c = All-trivial c.entries
  where
    All-trivial : (es : List Entry) → All (Missed []) es
    All-trivial [] = tt
    All-trivial (e ∷ es) = (refl, All-trivial es)
remove_all-Missed (s ∷ ss) c =
    All-map (λ e. Differs s e × Missed ss e) (Missed (s ∷ ss)) (λ e (p, q). ground arith)
      (remove_all (remove c s) ss).entries
      (All-both (Differs s) (Missed ss) (remove_all (remove c s) ss).entries
        (remove_all-All (Differs s) ss (remove c s) (remove-Differs c s))
        (remove_all-Missed ss (remove c s)))

abbrev Doomed : ℕ → ℕ → List ℕ → Entry → Type 0
Doomed lba end ss e = overlaps lba end e ≡ true → has e.start ss ≡ true

doomed-Doomed : (lba end : ℕ) (es : List Entry) → All (Doomed lba end (doomed lba end es)) es
unfolding doomed has
doomed-Doomed lba end [] = tt
doomed-Doomed lba end (e ∷ es) = (
  (λ h. ground arith),
  All-map (Doomed lba end (doomed lba end es)) (Doomed lba end (doomed lba end (e ∷ es)))
      (λ f d h. ground (arith, d h)) es (doomed-Doomed lba end es),
)

-- No entry that is left shares a sector with what was invalidated.
pub invalidate-clear :
    (c : SdReadCache) (lba len : ℕ)
    → All (λ e. overlaps lba (end_of lba len) e ≡ false) (invalidate c lba len).entries
unfolding invalidate
invalidate-clear c lba len =
    let end = end_of lba len in
    let ss = doomed lba end c.entries in
    let left = (remove_all c ss).entries in
    All-map (λ e. Doomed lba end ss e × Missed ss e) (λ e. overlaps lba end e ≡ false)
      (λ e (p, q). ground (arith, p)) left
      (All-both (Doomed lba end ss) (Missed ss) left
        (remove_all-All (Doomed lba end ss) ss c (doomed-Doomed lba end c.entries))
        (remove_all-Missed ss c))

pub invalidate-All {κ} :
    (P : Entry → Type κ) (c : SdReadCache) (lba len : ℕ)
    → All P c.entries
    → All P (invalidate c lba len).entries
unfolding invalidate
invalidate-All P c lba len h = remove_all-All P (doomed lba (end_of lba len) c.entries) c h
