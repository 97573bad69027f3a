-- ===== src/Sd/ReadCache/Inserting.antt =====
-- Inserting returns: each round of the eviction removes an entry.
use multi.Common.{
  ℕ, zero, suc, ◌+◌, ◌≤◌, ◌<◌, ◌≡◌, refl, Bool, true, false, List, [], ◌∷◌, Option, none, some,
  length, All, All-map, All-append, arith, ltb, ◌==◌, ◌||◌, Option-cases, inl, inr, if◌then◌else◌,
}
use multi.Sd.ReadCache.{
  Entry, SdReadCache, find_entry, delete, retain_other, remove, remove_found, remove_all, doomed,
  invalidate, end_of, evict, put, pushed, insert, budget_bytes,
}
use multi.Sd.ReadCache.Removing.{remove-All, invalidate-All}

abbrev has_key : ℕ → List Entry → Bool
has_key s [] = false
has_key s (e ∷ es) = e.start == s || has_key s es

-- Every LBA of `order` has an entry.
abbrev pub Tracked : SdReadCache → Type 0
Tracked c = All (λ s. has_key s c.entries ≡ true) c.order

delete-has_key :
    (s t : ℕ) (es : List Entry)
    → (t == s) ≡ false
    → has_key t es ≡ true
    → has_key t (delete s es) ≡ true
unfolding delete
delete-has_key s t [] d h = cc
delete-has_key s t (e ∷ es) d h = ground (arith, delete-has_key s t es d)

retained :
    (s : ℕ) (es : List Entry) (ss : List ℕ)
    → All (λ t. has_key t es ≡ true) ss
    → All (λ t. has_key t (delete s es) ≡ true) (retain_other s ss)
unfolding retain_other
retained s es [] h = tt
retained s es (t ∷ ss) h = ground (arith, retained s es ss h.1, delete-has_key s t es)

remove-Tracked : (c : SdReadCache) (s : ℕ) → Tracked c → Tracked (remove c s)
unfolding remove remove_found
remove-Tracked c s h = elim (Option-cases (find_entry s c.entries)) [
  | inl e ↦ rw e h
  | inr (b, e) ↦ rw e (retained s c.entries c.order h)
]

remove_all-Tracked : (ss : List ℕ) (c : SdReadCache) → Tracked c → Tracked (remove_all c ss)
unfolding remove_all
remove_all-Tracked [] c h = h
remove_all-Tracked (s ∷ ss) c h = remove_all-Tracked ss (remove c s) (remove-Tracked c s h)

pub invalidate-Tracked :
    (c : SdReadCache) (lba len : ℕ) → Tracked c → Tracked (invalidate c lba len)
unfolding invalidate
invalidate-Tracked c lba len h = remove_all-Tracked (doomed lba (end_of lba len) c.entries) c h

retain_shorter : (s : ℕ) (ss : List ℕ) → length (retain_other s ss) ≤ length ss
unfolding retain_other
retain_shorter s [] = omega arith
retain_shorter s (t ∷ ss) = ground (arith, retain_shorter s ss)

find_held : (s : ℕ) (es : List Entry) → has_key s es ≡ true → ¬ (find_entry s es ≡ none)
unfolding find_entry
find_held s [] h e = cc
find_held s (f ∷ es) h e = ground (arith, find_held s es)

remove_shorter :
    (c : SdReadCache) (s : ℕ) (ss : List ℕ)
    → c.order ≡ s ∷ ss
    → has_key s c.entries ≡ true
    → length (remove c s).order ≤ length ss
unfolding remove remove_found retain_other
remove_shorter c s ss o h = elim (Option-cases (find_entry s c.entries)) [
  | inl e ↦ absurd (find_held s c.entries h e)
  | inr (b, e) ↦ rw (e, o) (ground (arith, retain_shorter s ss))
]

module _ {κ} (P : Entry → Type κ) where
  abbrev pub Kept : Option SdReadCache → Type κ
  Kept r = (d : SdReadCache) × (r ≡ some d) × All P d.entries × Tracked d

  either-Kept : (b : Bool) (x y : Option SdReadCache) → Kept x → Kept y → Kept (if b then x else y)
  either-Kept true x y k l = k
  either-Kept false x y k l = l

  evict-Kept :
      (fuel len : ℕ) (c : SdReadCache) (order : List ℕ)
      → c.order ≡ order
      → length order < fuel
      → All P c.entries
      → Tracked c
      → Kept (evict fuel c order len)
  unfolding evict
  evict-Kept zero len c order o f p t = absurd (omega arith)
  evict-Kept (suc fuel) len c [] o f p t = (c, refl, p, t)
  evict-Kept (suc fuel) len c (oldest ∷ order) o f p t =
      let held : All (λ s. has_key s c.entries ≡ true) (oldest ∷ order) = rw o at t in
      let next = remove c oldest in
      let fewer = remove_shorter c oldest order o held.0 in
      either-Kept (ltb budget_bytes (c.bytes + len)) (evict fuel next next.order len) (some c)
        (evict-Kept fuel len next next.order refl (omega arith) (remove-All P c oldest p)
          (remove-Tracked c oldest t))
        (c, refl, p, t)

  put-All : (e : Entry) (es : List Entry) → P e → All P es → All P (put e es)
  unfolding put
  put-All e [] h p = (h, tt)
  put-All e (f ∷ es) h p = ground (arith, put-All e es h p.1)

put-has_key : (e : Entry) (es : List Entry) → has_key e.start (put e es) ≡ true
unfolding put
put-has_key e [] = ground arith
put-has_key e (f ∷ es) = ground (arith, put-has_key e es)

put-has_key_of :
    (s : ℕ) (e : Entry) (es : List Entry) → has_key s es ≡ true → has_key s (put e es) ≡ true
unfolding put
put-has_key_of s e [] h = cc
put-has_key_of s e (f ∷ es) h = ground (arith, put-has_key_of s e es)

pushed-Tracked :
    (lba : ℕ) (bytes : List ℕ) (c : SdReadCache) → Tracked c → Tracked (pushed lba bytes c)
pushed-Tracked lba bytes c t =
    let e : Entry = record { start = lba; bytes = bytes } in
    All-append (λ s. has_key s (put e c.entries) ≡ true) c.order (lba ∷ [])
      (All-map (λ s. has_key s c.entries ≡ true) (λ s. has_key s (put e c.entries) ≡ true)
        (λ s h. put-has_key_of s e c.entries h) c.order t)
      (put-has_key e c.entries, tt)

module _ {κ} (P : Entry → Type κ) where
  -- Inserting an entry that has a property keeps that all have it.
  pub insert-Kept :
      (c : SdReadCache) (lba : ℕ) (bytes : List ℕ)
      → P (record { start = lba; bytes = bytes })
      → All P c.entries
      → Tracked c
      → Kept P (insert c lba bytes)
  unfolding insert
  insert-Kept c lba bytes h p t =
      let d = invalidate c lba (length bytes) in
      let (e, q, pe, te) =
        evict-Kept P (suc (length d.order)) (length bytes) d d.order refl (omega arith)
          (invalidate-All P c lba (length bytes) p) (invalidate-Tracked c lba (length bytes) t) in
      rw q (
        either-Kept P (ltb budget_bytes (length bytes)) (some c) (some (pushed lba bytes e))
          (c, refl, p, t)
          (
            pushed lba bytes e,
            refl,
            put-All P (record { start = lba; bytes = bytes }) e.entries h pe,
            pushed-Tracked lba bytes e te,
          ))
