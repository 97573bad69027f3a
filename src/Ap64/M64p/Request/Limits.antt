-- ===== src/Ap64/M64p/Request/Limits.antt =====
-- When `check_limits` refuses, and how long a request is.
use multi.Common.{
  ℕ, suc, ◌+◌, ◌*◌, ◌>>◌, ◌≤◌, ◌<◌, ◌⊎◌, inl, inr, ◌≡◌, refl, ap, ◌∙◌, List, [], ◌∷◌, length,
  Result, ok, err, arith, All, length-append,
}
use native.Mathlib.Decide.{dec_lt}
use multi.Ap64.M64p.{
  Error, too_many_regions, region_too_large, total_too_large, max_regions, max_region_bytes,
  max_total_bytes,
}
use multi.Ap64.M64p.Request.{add_lens, check_limits, writes_bytes, write_lens, encode_pokev}

abbrev pub sum : List ℕ → ℕ
sum [] = 0
sum (n ∷ ns) = n + sum ns

abbrev pub IsRegionLen : ℕ → Type 0
IsRegionLen len = len ≤ max_region_bytes

-- The first length that is over the limit of a region is `len`.
pub data FirstOver (len : ℕ) : List ℕ → Type 0 where
  here : {lens : List ℕ} → max_region_bytes < len → FirstOver len (len ∷ lens)
  there : {n : ℕ} {lens : List ℕ} → IsRegionLen n → FirstOver len lens → FirstOver len (n ∷ lens)

abbrev pub Added : ℕ → List ℕ → Result Error ℕ → Type 0
Added total lens r =
    ((len : ℕ) × FirstOver len lens × (r ≡ err (region_too_large len)))
    ⊎ (All IsRegionLen lens × (r ≡ ok (total + sum lens)))

over_here :
    (total len : ℕ) (lens : List ℕ)
    → max_region_bytes < len
    → add_lens total (len ∷ lens) ≡ err (region_too_large len)
unfolding add_lens
over_here total len lens h = ground arith

over_there :
    (total len : ℕ) (lens : List ℕ)
    → ¬ (max_region_bytes < len)
    → add_lens total (len ∷ lens) ≡ add_lens (total + len) lens
unfolding add_lens
over_there total len lens h = ground arith

add_lens-Added : (total : ℕ) (lens : List ℕ) → Added total lens (add_lens total lens)
unfolding add_lens
add_lens-Added total [] = inr (tt, ap ok (omega arith))
add_lens-Added total (len ∷ lens) = elim (dec_lt max_region_bytes len) [
  | yes over ↦ inl (len, here over, over_here total len lens over)
  | no fits ↦ elim (add_lens-Added (total + len) lens) [
    | inl (n, f, e) ↦ inl (n, there (omega arith) f, over_there total len lens fits ∙ e)
    | inr (a, e) ↦
        inr ((omega arith, a), over_there total len lens fits ∙ (e ∙ ap ok (omega arith)))
  ]
]

-- The ends of the check, each with the condition under which it is reached.
abbrev pub Limited : List ℕ → Result Error (Unit {0}) → Type 0
Limited lens r =
    ((max_regions < length lens) × (r ≡ err (too_many_regions (length lens))))
    ⊎ ((length lens ≤ max_regions)
        × ((len : ℕ) × FirstOver len lens × (r ≡ err (region_too_large len))))
    ⊎ ((length lens ≤ max_regions)
        × All IsRegionLen lens
        × (max_total_bytes < sum lens)
        × (r ≡ err (total_too_large (sum lens))))
    ⊎ ((length lens ≤ max_regions)
        × All IsRegionLen lens
        × (sum lens ≤ max_total_bytes)
        × (r ≡ ok tt))

-- The check of a request's limits ends in one of four ways: refused for more than 32 regions; with no
-- more, refused for a region longer than 4096 bytes, the first such one; with none, refused for more
-- than 7936 bytes in all; else accepted.
pub check_limits-Limited : (lens : List ℕ) → Limited lens (check_limits lens)
unfolding check_limits
check_limits-Limited lens = elim (dec_lt max_regions (length lens)) [
  | yes many ↦ inl (many, ground arith)
  | no few ↦ elim (add_lens-Added 0 lens) [
    | inl (len, f, e) ↦ inr (inl (omega arith, (len, f, ground (arith, e))))
    | inr (a, e) ↦ elim (dec_lt max_total_bytes (sum lens)) [
      | yes over ↦ inr (inr (inl (omega arith, a, over, ground (arith, e))))
      | no fits ↦ inr (inr (inr (omega arith, a, omega arith, ground (arith, e))))
    ]
  ]
]

pub check_limits-ok :
    (lens : List ℕ)
    → check_limits lens ≡ ok tt
    → (length lens ≤ max_regions) × All IsRegionLen lens × (sum lens ≤ max_total_bytes)
check_limits-ok lens h = elim (check_limits-Limited lens) [
  | inl (a, e) ↦ cc
  | inr (inl (a, (len, f, e))) ↦ cc
  | inr (inr (inl (a, b, c, e))) ↦ cc
  | inr (inr (inr (a, b, c, e))) ↦ (a, b, c)
]

length-writes_bytes :
    (ws : List (ℕ × List ℕ)) → length (writes_bytes ws) ≡ 6 * length ws + sum (write_lens ws)
length-writes_bytes [] = refl
length-writes_bytes ((addr, bytes) ∷ ws) =
    omega (arith, length-append bytes (writes_bytes ws), length-writes_bytes ws)

pub length-write_lens : (ws : List (ℕ × List ℕ)) → length (write_lens ws) ≡ length ws
length-write_lens [] = refl
length-write_lens (w ∷ ws) = ap suc (length-write_lens ws)

pub check-ok {ℓ} :
    {A : Type ℓ} (r : Result Error (Unit {0})) (k : Result Error A) (a : A)
    → (r >> k) ≡ ok a
    → (r ≡ ok tt) × (k ≡ ok a)
check-ok (ok t) k a h = (refl, h)
check-ok (err e) k a h = cc

-- The request of any writes that the encoder accepts is eight bytes, six for each write and the bytes
-- to write, and it fits in the 8192 bytes that one transfer to the cart carries.
pub length-encode_pokev :
    (rid : ℕ) (ws : List (ℕ × List ℕ)) (bs : List ℕ)
    → encode_pokev rid ws ≡ ok bs
    → (length bs ≡ 8 + 6 * length ws + sum (write_lens ws)) × (length bs ≤ 8192)
unfolding encode_pokev
length-encode_pokev rid ws bs h =
    let (checked, e) = check-ok (check_limits (write_lens ws)) _ bs h in
    let (few, each, all) = check_limits-ok (write_lens ws) checked in
    ground (arith, length-writes_bytes ws, length-write_lens ws)
