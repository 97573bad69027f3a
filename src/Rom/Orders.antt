-- ===== src/Rom/Orders.antt =====
-- The three byte orders.
use multi.Common.{
  ℕ, ◌<◌, ◌≡◌, refl, ap, List, [], ◌∷◌, Option, none, some, length, true, Bool-cases, inl, inr,
  arith,
}
use multi.Common.Find.{starts_with}
use multi.Rom.{ByteOrder, z64, v64, n64, byte_order, swap_pairs, reverse_words, to_big_endian}

-- How a ROM is stored in an order: the bytes of each pair, or of each word, stand backwards, and the bytes of an
-- end that is shorter stand as they are.
pub data IsStored : ByteOrder → List ℕ → List ℕ → Type 0 where
  as_is : (rom : List ℕ) → IsStored z64 rom rom
  pair :
      {rom file : List ℕ} (a b : ℕ)
      → IsStored v64 rom file
      → IsStored v64 (a ∷ b ∷ rom) (b ∷ a ∷ file)
  half_pair : (rom : List ℕ) → length rom < 2 → IsStored v64 rom rom
  word :
      {rom file : List ℕ} (a b c d : ℕ)
      → IsStored n64 rom file
      → IsStored n64 (a ∷ b ∷ c ∷ d ∷ rom) (d ∷ c ∷ b ∷ a ∷ file)
  half_word : (rom : List ℕ) → length rom < 4 → IsStored n64 rom rom

swap_pairs-half : (rom : List ℕ) → length rom < 2 → swap_pairs rom ≡ rom
swap_pairs-half [] h = refl
swap_pairs-half (a ∷ []) h = refl
swap_pairs-half (a ∷ b ∷ bs) h = absurd (omega arith)

reverse_words-half : (rom : List ℕ) → length rom < 4 → reverse_words rom ≡ rom
reverse_words-half [] h = refl
reverse_words-half (a ∷ []) h = refl
reverse_words-half (a ∷ b ∷ []) h = refl
reverse_words-half (a ∷ b ∷ c ∷ []) h = refl
reverse_words-half (a ∷ b ∷ c ∷ d ∷ bs) h = absurd (omega arith)

converted : (o : ByteOrder) (rom file : List ℕ) → IsStored o rom file → to_big_endian file o ≡ rom
unfolding to_big_endian
converted z64 _ _ (as_is rom) = refl
converted v64 _ _ (pair a b s) = ap (λ cs. a ∷ b ∷ cs) (converted v64 _ _ s)
converted v64 _ _ (half_pair rom h) = swap_pairs-half rom h
converted n64 _ _ (word a b c d s) = ap (λ cs. a ∷ b ∷ c ∷ d ∷ cs) (converted n64 _ _ s)
converted n64 _ _ (half_word rom h) = reverse_words-half rom h

swap_pairs-IsStored : (rom : List ℕ) → IsStored v64 rom (swap_pairs rom)
swap_pairs-IsStored [] = half_pair [] (omega arith)
swap_pairs-IsStored (a ∷ []) = half_pair (a ∷ []) (omega arith)
swap_pairs-IsStored (a ∷ b ∷ bs) = pair a b (swap_pairs-IsStored bs)

reverse_words-IsStored : (rom : List ℕ) → IsStored n64 rom (reverse_words rom)
reverse_words-IsStored [] = half_word [] (omega arith)
reverse_words-IsStored (a ∷ []) = half_word (a ∷ []) (omega arith)
reverse_words-IsStored (a ∷ b ∷ []) = half_word (a ∷ b ∷ []) (omega arith)
reverse_words-IsStored (a ∷ b ∷ c ∷ []) = half_word (a ∷ b ∷ c ∷ []) (omega arith)
reverse_words-IsStored (a ∷ b ∷ c ∷ d ∷ bs) = word a b c d (reverse_words-IsStored bs)

to_big_endian-IsStored : (rom : List ℕ) (o : ByteOrder) → IsStored o rom (to_big_endian rom o)
unfolding to_big_endian
to_big_endian-IsStored rom z64 = as_is rom
to_big_endian-IsStored rom v64 = swap_pairs-IsStored rom
to_big_endian-IsStored rom n64 = reverse_words-IsStored rom

z64_starts : (rom : List ℕ) → byte_order rom ≡ some z64 → starts_with 0x80 0x37 0x12 0x40 rom ≡ true
unfolding byte_order
z64_starts rom h = elim (Bool-cases (starts_with 0x80 0x37 0x12 0x40 rom)) [
  | inl e ↦ e
  | inr e ↦ elim (Bool-cases (starts_with 0x37 0x80 0x40 0x12 rom)) [
    | inl f ↦ let other : ◌≡◌ {A = Option ByteOrder} (some v64) (some z64) = rw (e, f) at h in cc
    | inr f ↦ elim (Bool-cases (starts_with 0x40 0x12 0x37 0x80 rom)) [
      | inl g ↦
          let other : ◌≡◌ {A = Option ByteOrder} (some n64) (some z64) = rw (e, f, g) at h in cc
      | inr g ↦ let other : ◌≡◌ {A = Option ByteOrder} none (some z64) = rw (e, f, g) at h in cc
    ]
  ]
]

z64_word :
    (a b c d : ℕ) (bs : List ℕ)
    → starts_with 0x80 0x37 0x12 0x40 (a ∷ b ∷ c ∷ d ∷ bs) ≡ true
    → (a ≡ 0x80) × (b ≡ 0x37) × (c ≡ 0x12) × (d ≡ 0x40)
unfolding starts_with
z64_word a b c d bs h = ground arith

-- A ROM in the console's own order begins with the first word of one.
z64_front :
    (rom : List ℕ)
    → starts_with 0x80 0x37 0x12 0x40 rom ≡ true
    → (bs : List ℕ) × (rom ≡ 0x80 ∷ 0x37 ∷ 0x12 ∷ 0x40 ∷ bs)
unfolding starts_with
z64_front [] h = cc
z64_front (a ∷ []) h = cc
z64_front (a ∷ b ∷ []) h = cc
z64_front (a ∷ b ∷ c ∷ []) h = cc
z64_front (a ∷ b ∷ c ∷ d ∷ bs) h =
    let (p, q, r, s) = z64_word a b c d bs h in (bs, rw (p, q, r, s) refl)

word_of :
    (a b c d : ℕ) (rest bs : List ℕ)
    → a ∷ b ∷ c ∷ d ∷ rest ≡ 0x80 ∷ 0x37 ∷ 0x12 ∷ 0x40 ∷ bs
    → (a ≡ 0x80) × (b ≡ 0x37) × (c ≡ 0x12) × (d ≡ 0x40)
word_of a b c d rest bs e = (cc, cc, cc, cc)

recognized :
    (o : ByteOrder) (rom file bs : List ℕ)
    → IsStored o rom file
    → rom ≡ 0x80 ∷ 0x37 ∷ 0x12 ∷ 0x40 ∷ bs
    → byte_order file ≡ some o
unfolding byte_order starts_with
recognized z64 _ _ bs (as_is rom) e = rw e refl
recognized v64 _ _ bs (half_pair rom h) e = absurd (omega (arith, h, ap length e))
recognized v64 _ _ bs (pair a b (half_pair r h)) e = absurd (omega (arith, h, ap length e))
recognized v64 _ _ bs (pair a b (pair c d s)) e =
    let (p, q, r, t) = word_of a b c d _ bs e in rw (p, q, r, t) refl
recognized n64 _ _ bs (half_word rom h) e = absurd (omega (arith, h, ap length e))
recognized n64 _ _ bs (word a b c d s) e =
    let (p, q, r, t) = word_of a b c d _ bs e in rw (p, q, r, t) refl

-- A file that is a ROM in the console's own order, stored in any of the three orders, is recognized to be in that
-- order, and converted from it is the ROM: every pair or word of it turned round, and the bytes of an end shorter than that
-- left. And every ROM has such a file in each order.
pub orders_normalize :
    (rom : List ℕ) (o : ByteOrder)
    → byte_order rom ≡ some z64
    → ((file : List ℕ)
        → IsStored o rom file
        → (byte_order file ≡ some o) × (to_big_endian file o ≡ rom))
      × ((file : List ℕ) × IsStored o rom file)
orders_normalize rom o h =
    let (bs, e) = z64_front rom (z64_starts rom h) in
    (
      λ file s. (recognized o rom file bs s e, converted o rom file s),
      (to_big_endian rom o, to_big_endian-IsStored rom o),
    )
