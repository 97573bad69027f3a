-- ===== src/Ap64/Backend/Memory.antt =====
-- The memory that crates/ap64-cart/src/backend.rs reads and writes, as a function: what writes do to it one after
-- the other, and what a region of it is.
use multi.Common.{
  ℕ, zero, suc, ◌+◌, ◌≡◌, refl, ap, ◌∙◌, List, [], ◌∷◌, ◌++◌, length, ◌==◌, if◌then◌else◌, arith,
}
use multi.Ap64.M64p.{Region}
use multi.Ap64.Backend.{Write}

abbrev pub Memory : Type 0
Memory = ℕ → ℕ

abbrev pub set : Memory → ℕ → ℕ → Memory
set mem a b = λ x. if x == a then b else mem x

-- The bytes from an address on.
abbrev pub put_bytes : Memory → ℕ → List ℕ → Memory
put_bytes mem a [] = mem
put_bytes mem a (b ∷ bs) = put_bytes (set mem a b) (suc a) bs

-- Writes in their order, so that the last to a byte is what it holds.
unfoldable pub apply_writes : Memory → List Write → Memory
apply_writes mem [] = mem
apply_writes mem ((addr, bs) ∷ ws) = apply_writes (put_bytes mem addr bs) ws

abbrev pub block : Memory → ℕ → ℕ → List ℕ
block mem a zero = []
block mem a (suc n) = mem a ∷ block mem (suc a) n

abbrev pub block_of : Memory → Region → List ℕ
block_of mem r = block mem r.addr r.len

pub apply_writes-append :
    (mem : Memory) (xs ys : List Write)
    → apply_writes mem (xs ++ ys) ≡ apply_writes (apply_writes mem xs) ys
unfolding apply_writes
apply_writes-append mem [] ys = refl
apply_writes-append mem ((addr, bs) ∷ xs) ys = apply_writes-append (put_bytes mem addr bs) xs ys

pub put_bytes-append :
    (mem : Memory) (a : ℕ) (xs ys : List ℕ)
    → put_bytes mem a (xs ++ ys) ≡ put_bytes (put_bytes mem a xs) (a + length xs) ys
put_bytes-append mem a [] ys = ap (λ k. put_bytes mem k ys) here
  where
    here : a ≡ a + 0
    here = omega arith
put_bytes-append mem a (x ∷ xs) ys =
    put_bytes-append (set mem a x) (suc a) xs ys
    ∙ ap (λ k. put_bytes (put_bytes (set mem a x) (suc a) xs) k ys) here
  where
    here : suc a + length xs ≡ a + suc (length xs)
    here = omega arith

pub block-append :
    (mem : Memory) (a m n : ℕ) → block mem a (m + n) ≡ block mem a m ++ block mem (a + m) n
block-append mem a zero n = rw (here, there) refl
  where
    here : a + 0 ≡ a
    here = omega arith

    there : 0 + n ≡ n
    there = omega arith
block-append mem a (suc m) n =
    rw (whole, next) (ap (λ ys. mem a ∷ ys) (block-append mem (suc a) m n))
  where
    whole : suc m + n ≡ suc (m + n)
    whole = omega arith

    next : a + suc m ≡ suc a + m
    next = omega arith
