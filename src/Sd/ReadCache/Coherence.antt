-- ===== src/Sd/ReadCache/Coherence.antt =====
-- The cache agrees with the card.

use multi.Common.{
  ℕ, zero, suc, ◌+◌, ◌-◌, ◌*◌, ◌≤◌, ◌<◌, ◌≡◌, refl, ap, sym, ◌∙◌, if◌then◌else◌, ◌⊎◌, Bool, true,
  false, List, [], ◌∷◌, Option, none, some, length, take, drop, slice, All, All-map, All-both,
  arith, ◌==◌, Option-cases, Result, ok, err, inl, inr,
}
use native.Mathlib.Decide.{dec_lt}
use multi.Sd.ReadCache.{
  Entry, SdReadCache, last_upto, get_range, covering, invalidate, end_of, overlaps, fetch_through,
  Filled, read_through, write_through, sector_bytes,
}
use multi.Sd.ReadCache.Removing.{invalidate-All, invalidate-clear}
use multi.Sd.ReadCache.Inserting.{Tracked, invalidate-Tracked, insert-Kept}

-- A card is the byte at each address; `n` bytes of it from an address.
abbrev pub bytes_at : (ℕ → ℕ) → ℕ → ℕ → List ℕ
bytes_at card at zero = []
bytes_at card at (suc n) = card at ∷ bytes_at card (suc at) n

length-bytes_at : (card : ℕ → ℕ) (at n : ℕ) → length (bytes_at card at n) ≡ n
length-bytes_at card at zero = refl
length-bytes_at card at (suc n) = ap suc (length-bytes_at card (suc at) n)

take-bytes_at :
    (card : ℕ → ℕ) (at n k : ℕ) → k ≤ n → take k (bytes_at card at n) ≡ bytes_at card at k
take-bytes_at card at n zero h = refl
take-bytes_at card at zero (suc k) h = absurd (omega arith)
take-bytes_at card at (suc n) (suc k) h =
    ap (λ bs. card at ∷ bs) (take-bytes_at card (suc at) n k (omega arith))

same_range : (card : ℕ → ℕ) (a b n k : ℕ) → a ≡ b → n ≡ k → bytes_at card a n ≡ bytes_at card b k
same_range card a b n k p q = rw (p, q) refl

drop-bytes_at :
    (card : ℕ → ℕ) (at n k : ℕ)
    → k ≤ n
    → drop k (bytes_at card at n) ≡ bytes_at card (at + k) (n - k)
drop-bytes_at card at n zero h = same_range card at (at + 0) n (n - 0) (omega arith) (omega arith)
drop-bytes_at card at zero (suc k) h = absurd (omega arith)
drop-bytes_at card at (suc n) (suc k) h =
    drop-bytes_at card (suc at) n k (omega arith)
    ∙ same_range card (suc at + k) (at + suc k) (n - k) (suc n - suc k) (omega arith) (omega arith)

bytes_at_agree :
    (card card' : ℕ → ℕ) (at n : ℕ)
    → ((i : ℕ) → at ≤ i → i < at + n → card' i ≡ card i)
    → bytes_at card' at n ≡ bytes_at card at n
bytes_at_agree card card' at zero h = refl
bytes_at_agree card card' at (suc n) h = rw (h at (omega arith) (omega arith)) (
    ap (λ bs. card at ∷ bs)
      (bytes_at_agree card card' (suc at) n (λ i p q. h i (omega arith) (omega arith))))

-- An entry holds what the card holds there.
abbrev pub Agrees : (ℕ → ℕ) → Entry → Type 0
Agrees card e = e.bytes ≡ bytes_at card (e.start * sector_bytes) (length e.bytes)

pub record IsCoherent (card : ℕ → ℕ) (c : SdReadCache) : Type 0 where
  pub agrees : All (Agrees card) c.entries
  pub tracked : Tracked c

slice-bytes_at :
    (card : ℕ → ℕ) (at n from len : ℕ)
    → from + len ≤ n
    → slice (bytes_at card at n) from (from + len) ≡ bytes_at card (at + from) len
slice-bytes_at card at n from len h =
    ap (take (from + len - from)) (drop-bytes_at card at n from (omega arith))
    ∙ (take-bytes_at card (at + from) (n - from) (from + len - from) (omega arith)
        ∙ same_range card (at + from) (at + from) (from + len - from) len refl (omega arith))

last_upto-All {κ} :
    (P : Entry → Type κ) (lba : ℕ) (es : List Entry) (e : Entry)
    → All P es
    → last_upto lba es ≡ some e
    → P e × (e.start ≤ lba)
unfolding last_upto
last_upto-All P lba [] e h q = cc
last_upto-All P lba (f ∷ es) e h q = elim (Option-cases (last_upto lba es)) [
  | inr (g, r) ↦ last_upto-All P lba es e h.1 (r ∙ (rw r at q))
  | inl r ↦ ground (arith, h.0)
]

get_range-some :
    (xs : List ℕ) (from len : ℕ) (bs : List ℕ)
    → get_range xs from len ≡ some bs
    → (from + len ≤ length xs) × (bs ≡ slice xs from (from + len))
unfolding get_range
get_range-some xs from len bs h = ground arith

covered :
    (card : ℕ → ℕ) (e : Entry) (lba len : ℕ) (bs : List ℕ)
    → Agrees card e
    → e.start ≤ lba
    → get_range e.bytes ((lba - e.start) * sector_bytes) len ≡ some bs
    → bs ≡ bytes_at card (lba * sector_bytes) len
covered card e lba len bs g s h =
    let from = (lba - e.start) * sector_bytes in
    let (fits, whole) = get_range-some e.bytes from len bs h in
    whole
    ∙ (ap (λ xs. slice xs from (from + len)) g
        ∙ (slice-bytes_at card (e.start * sector_bytes) (length e.bytes) from len fits
            ∙ same_range card (e.start * sector_bytes + from) (lba * sector_bytes) len len
                (omega arith) refl))

covering-card :
    (card : ℕ → ℕ) (c : SdReadCache) (lba len : ℕ) (bs : List ℕ)
    → All (Agrees card) c.entries
    → covering c lba len ≡ some bs
    → bs ≡ bytes_at card (lba * sector_bytes) len
unfolding covering
covering-card card c lba len bs h q = elim (Option-cases (last_upto lba c.entries)) [
  | inl r ↦ let missed : none ≡ some bs = rw (covering, r) at q in cc
  | inr (e, r) ↦
      let (g, s) = last_upto-All (Agrees card) lba c.entries e h r in
      covered card e lba len bs g s (rw (covering, r) at q)
]

-- A fetch that succeeds fills in the bytes of the card.
abbrev pub IsFetch : {E : Type 0} → (ℕ → ℕ) → (ℕ → ℕ → Result E (List ℕ)) → Type 0
IsFetch card fetch =
    (lba len : ℕ) (bs : List ℕ)
    → fetch lba len ≡ ok bs
    → bs ≡ bytes_at card (lba * sector_bytes) len

-- The bytes of the card, or the error that the fetch gave.
abbrev pub IsOutcome :
    {E : Type 0} → (ℕ → ℕ) → ℕ → ℕ → Result E (List ℕ) → Result E (List ℕ) → Type 0
IsOutcome card lba len fetched outcome =
    (outcome ≡ ok (bytes_at card (lba * sector_bytes) len))
    ⊎ ((e : _) × (fetched ≡ err e) × (outcome ≡ err e))

-- The read returned, with an outcome as above, and the cache agrees with the card.
abbrev pub Served : {E : Type 0} → (ℕ → ℕ) → ℕ → ℕ → Result E (List ℕ) → Option (Filled E) → Type 0
Served card lba len fetched r =
    (f : _) × (r ≡ some f) × IsOutcome card lba len fetched f.outcome × IsCoherent card f.cache

module _ {E : Type 0} (card : ℕ → ℕ) where
  fetch_through-Served :
      (c : SdReadCache) (lba len : ℕ) (fetched : Result E (List ℕ))
      → IsCoherent card c
      → ((bs : List ℕ) → fetched ≡ ok bs → bs ≡ bytes_at card (lba * sector_bytes) len)
      → Served card lba len fetched (fetch_through c lba fetched)
  unfolding fetch_through
  fetch_through-Served c lba len (err e) g h =
      (record { outcome = err e; cache = c }, refl, inr (e, refl, refl), g)
  fetch_through-Served c lba len (ok bs) g h =
      let whole = h bs refl in
      let full : length bs ≡ len =
        ap length whole ∙ length-bytes_at card (lba * sector_bytes) len in
      let (d, q, a, t) =
        insert-Kept (Agrees card) c lba bs
          (whole
            ∙ same_range card (lba * sector_bytes) (lba * sector_bytes) len (length bs) refl
                (omega arith))
          g.agrees g.tracked in
      (
        record { outcome = ok bs; cache = d },
        rw q refl,
        inl (ap ok whole),
        record { agrees = a; tracked = t },
      )

  fetch_empty :
      (c : SdReadCache) (lba len : ℕ) (fetched r : Result E (List ℕ))
      → fetched ≡ r
      → IsCoherent card c
      → ((bs : List ℕ) → fetched ≡ ok bs → bs ≡ bytes_at card (lba * sector_bytes) len)
      → Served card lba len fetched (some (record { outcome = fetched; cache = c }))
  fetch_empty c lba len fetched (err e) q g h = (_, refl, inr (e, q, q), g)
  fetch_empty c lba len fetched (ok bs) q g h = (_, refl, inl (q ∙ ap ok (h bs q)), g)

  either-Served :
      (b : Bool) (lba len : ℕ) (fetched : Result E (List ℕ)) (x y : Option (Filled E))
      → Served card lba len fetched x
      → Served card lba len fetched y
      → Served card lba len fetched (if b then x else y)
  either-Served true lba len fetched x y p q = p
  either-Served false lba len fetched x y p q = q

  -- From a cache that agrees with the card, with a fetch that fills in the bytes of the card where it
  -- succeeds, every read returns: with the bytes of the card, or with the error of the fetch. The cache
  -- agrees with the card then.
  pub read_through-Served :
      (c : SdReadCache) (lba len : ℕ) (fetch : ℕ → ℕ → Result E (List ℕ))
      → IsCoherent card c
      → IsFetch card fetch
      → Served card lba len (fetch lba len) (read_through c lba len fetch)
  unfolding read_through
  read_through-Served c lba len fetch g h =
      let empty = fetch_empty c lba len (fetch lba len) (fetch lba len) refl g (h lba len) in
      let first = some (record { outcome = fetch lba len; cache = c }) in
      elim (Option-cases (covering c lba len)) [
        | inl q ↦ rw q (
            either-Served (len == 0) lba len (fetch lba len) first
              (fetch_through c lba (fetch lba len)) empty
              (fetch_through-Served c lba len (fetch lba len) g (h lba len)))
        | inr (bs, q) ↦ rw q (
            either-Served (len == 0) lba len (fetch lba len) first
              (some (record { outcome = ok bs; cache = c })) empty
              (_, refl, inl (ap ok (covering-card card c lba len bs g.agrees q)), g))
      ]

apart :
    (lba end : ℕ) (e : Entry)
    → overlaps lba end e ≡ false
    → (end ≤ e.start) ⊎ (end_of e.start (length e.bytes) ≤ lba)
apart lba end e h = elim (dec_lt e.start end) [
  | yes before ↦ inr (ground arith)
  | no after ↦ inl (omega arith)
]

outside :
    (a n lba end i : ℕ)
    → (end ≤ a) ⊎ (end_of a n ≤ lba)
    → a * sector_bytes ≤ i
    → i < a * sector_bytes + n
    → (i < lba * sector_bytes) ⊎ (end * sector_bytes ≤ i)
outside a n lba end i (inl h) p r = inr (omega arith)
outside a n lba end i (inr h) p r = inl (omega arith)

-- Whatever becomes of the sectors that a write is for, whether or not it succeeds, as long as the rest
-- of the card is as it was, a cache that agreed with the card before agrees with it after.
pub write_through-IsCoherent :
    {A : Type 0} (card card' : ℕ → ℕ) (c : SdReadCache) (lba : ℕ) (buf : List ℕ)
    (store : ℕ → List ℕ → A)
    → IsCoherent card c
    → ((i : ℕ)
        → (i < lba * sector_bytes) ⊎ (end_of lba (length buf) * sector_bytes ≤ i)
        → card' i ≡ card i)
    → IsCoherent card' (write_through c lba buf store).1
unfolding write_through
write_through-IsCoherent card card' c lba buf store g h = record {
  agrees =
      All-map (λ e. Agrees card e × (overlaps lba end e ≡ false)) (Agrees card')
        (λ e (p, q). p ∙ bytes_untouched e q) left
        (All-both (Agrees card) (λ e. overlaps lba end e ≡ false) left
          (invalidate-All (Agrees card) c lba (length buf) g.agrees)
          (invalidate-clear c lba (length buf)));
  tracked = invalidate-Tracked c lba (length buf) g.tracked;
}
  where
    end : ℕ
    end = end_of lba (length buf)

    left : List Entry
    left = (invalidate c lba (length buf)).entries

    bytes_untouched :
        (e : Entry)
        → overlaps lba end e ≡ false
        → bytes_at card (e.start * sector_bytes) (length e.bytes)
          ≡ bytes_at card' (e.start * sector_bytes) (length e.bytes)
    bytes_untouched e q = sym (
        bytes_at_agree card card' (e.start * sector_bytes) (length e.bytes)
          (λ i p r. h i (outside e.start (length e.bytes) lba end i (apart lba end e q) p r)))
