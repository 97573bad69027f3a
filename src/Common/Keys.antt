-- ===== src/Common/Keys.antt =====
-- Keys that are compared for equality: strings as lists of numbers.
use multi.Common.{
  ℕ, ◌≡◌, ◌≢◌, refl, sym, List, [], ◌∷◌, Bool, true, false, ◌==◌, ◌&&◌, arith, Bool-cases, inl, inr,
}

unfoldable pub same_key : List ℕ → List ℕ → Bool
same_key [] [] = true
same_key [] (b ∷ bs) = false
same_key (a ∷ xs) [] = false
same_key (a ∷ xs) (b ∷ bs) = let rest = same_key xs bs in a == b && rest

pub same_key_refl : (w : List ℕ) → same_key w w ≡ true
unfolding same_key
same_key_refl [] = refl
same_key_refl (a ∷ w) = let same : (a == a) ≡ true = ground arith in rw (same, same_key_refl w) refl

pub same_key_eq : (v w : List ℕ) → same_key v w ≡ true → v ≡ w
unfolding same_key
same_key_eq [] [] h = refl
same_key_eq [] (b ∷ w) h = cc
same_key_eq (a ∷ v) [] h = cc
same_key_eq (a ∷ v) (b ∷ w) h = elim (Bool-cases (a == b)) [
  | inl e ↦ let heads : a ≡ b = ground arith in rw (heads, same_key_eq v w (rw e at h)) refl
  | inr e ↦ let failed : false ≡ true = rw e at h in cc
]

pub same_key-sym : (v w : List ℕ) → same_key v w ≡ false → same_key w v ≡ false
same_key-sym v w h = elim (Bool-cases (same_key w v)) [
  | inl e ↦
      let same : same_key v v ≡ false = rw (same_key_eq w v e) at h in
      let both : same_key v v ≡ true = same_key_refl v in cc
  | inr e ↦ e
]

pub same_key-ne : (v w : List ℕ) → same_key v w ≡ false → v ≢ w
same_key-ne v w h p =
    let same : same_key v v ≡ false = rw (sym p) at h in
    let both : same_key v v ≡ true = same_key_refl v in cc
