-- ===== src/Ed64/Wire/Layout.antt =====
-- A message from the cart, and that `next_message` reads it.
use multi.Common.{
  ℕ, ◌+◌, ◌-◌, ◌*◌, ◌/◌, ◌%◌, ◌^◌, ◌≤◌, ◌<◌, ◌≡◌, refl, sym, ap, ◌∙◌, true, List, ◌∷◌, ◌++◌, Option,
  none, some, length, take, drop, slice, Result, ok, err, arith, length-append, take-length_append,
  drop-length_append, length-drop, Bool-cases, inl, inr, min, ◌⊎◌, lt→ltb, le→ltb,
}
use mathlib.Core.List.{append_assoc}
use native.Mathlib.Decide.{dec_lt}
use multi.Common.Bytes.{u32_at, IsByte, from_be32, to_be32, from_be32-to}
use multi.Common.Find.{starts_with, find_tag-append, find_tag_here}
use multi.Ed64.Wire.{
  WireMessage, WireError, Next, dma_magic, cmp_magic, align_up, wire_align, max_message_bytes,
  at_dma, find_dma, drop_to, resync, whole_message, message_at, next_message,
}

-- The trailer follows the bare payload, and a byte of any value the trailer of an odd message.
abbrev pub message_bytes : WireMessage → List ℕ → List ℕ
message_bytes m pad =
    dma_magic
    ++ (to_be32 (m.datatype * 2 ^ 24 + length m.payload) ++ (m.payload ++ (cmp_magic ++ pad)))

pub record IsMessage (m : WireMessage) (pad : List ℕ) : Type 0 where
  pub datatype_u8 : IsByte m.datatype
  pub size_fits : length m.payload ≤ max_message_bytes
  pub padded : length pad ≡ align_up (12 + length m.payload) wire_align - (12 + length m.payload)

abbrev pub found : WireMessage → List ℕ → Next
found m rest = record { result = ok (some m); buf = rest }

-- Eight bytes of a header, a payload, the trailer, the alignment, and what follows.
module _ (a b c d e f g h : ℕ) (xs pad rest : List ℕ) where
  abbrev laid : List ℕ
  laid = a ∷ b ∷ c ∷ d ∷ e ∷ f ∷ g ∷ h ∷ (xs ++ (cmp_magic ++ (pad ++ rest)))

  laid_trailer :
      starts_with 0x43 0x4D 0x50 0x48 (slice laid (8 + length xs) (8 + length xs + 4)) ≡ true
  laid_trailer =
      ap (λ ys. starts_with 0x43 0x4D 0x50 0x48 (take (8 + length xs + 4 - (8 + length xs)) ys))
        (drop-length_append (8 + length xs) (a ∷ b ∷ c ∷ d ∷ e ∷ f ∷ g ∷ h ∷ xs)
          (cmp_magic ++ (pad ++ rest)) (omega arith))
      ∙ rw four (unfold starts_with in refl)
    where
      four : 8 + length xs + 4 - (8 + length xs) ≡ 4
      four = omega arith

  laid_payload : slice laid 8 (8 + length xs) ≡ xs
  laid_payload =
      take-length_append (8 + length xs - 8) xs (cmp_magic ++ (pad ++ rest)) (omega arith)

  laid_rest : (total : ℕ) → total ≡ 12 + length xs + length pad → drop total laid ≡ rest
  laid_rest total q =
      ap (λ ys. drop total (a ∷ b ∷ c ∷ d ∷ e ∷ f ∷ g ∷ h ∷ ys))
        (sym (append_assoc xs (cmp_magic ++ pad) rest))
      ∙ drop-length_append total (a ∷ b ∷ c ∷ d ∷ e ∷ f ∷ g ∷ h ∷ (xs ++ (cmp_magic ++ pad))) rest
          (omega (arith, length-append xs (cmp_magic ++ pad)))

  laid-length : length laid ≡ 12 + length xs + length pad + length rest
  laid-length = omega (arith, length-append xs (cmp_magic ++ (pad ++ rest)), length-append pad rest)

  whole-laid :
      (datatype : ℕ)
      → length pad ≡ align_up (12 + length xs) wire_align - (12 + length xs)
      → whole_message laid datatype (length xs)
        ≡ found (record { datatype = datatype; payload = xs }) rest
  unfolding whole_message
  whole-laid datatype q =
      let total : align_up (8 + length xs + 4) wire_align ≡ 12 + length xs + length pad =
        omega arith in
      ground (arith, laid_trailer, laid_payload, laid_rest _ total, laid-length)

  message_at-laid :
      message_at laid
      ≡ whole_message laid (from_be32 e f g h / 2 ^ 24 % 2 ^ 8) (from_be32 e f g h % 2 ^ 24)
  unfolding message_at
  message_at-laid = ground (arith, laid-length)

message_at-message_bytes :
    (m : WireMessage) (pad rest : List ℕ)
    → IsMessage m pad
    → message_at (message_bytes m pad ++ rest) ≡ found m rest
message_at-message_bytes m pad rest v =
    ap (λ ys. message_at (dma_magic ++ (to_be32 head ++ ys)))
      (append_assoc m.payload (cmp_magic ++ pad) rest)
    ∙ message_at-laid _ _ _ _ _ _ _ _ m.payload pad rest
    ∙ rw (from_be32-to head (omega (arith, v.size_fits, v.datatype_u8)), high, low)
        (whole-laid _ _ _ _ _ _ _ _ m.payload pad rest m.datatype v.padded)
  where
    head : ℕ
    head = m.datatype * 2 ^ 24 + length m.payload

    high : head / 2 ^ 24 % 2 ^ 8 ≡ m.datatype
    high = omega (arith, v.size_fits, v.datatype_u8)

    low : head % 2 ^ 24 ≡ length m.payload
    low = omega (arith, v.size_fits, v.datatype_u8)

-- Bytes before a message in which no header begins, also not with the first bytes of the message.
abbrev pub IsNoise : List ℕ → Type 0
IsNoise noise = find_dma (noise ++ dma_magic) ≡ some (length noise)

resync_found :
    (buf : List ℕ) (place : ℕ) → find_dma buf ≡ some place → (resync buf).1 ≡ drop place buf
unfolding resync drop_to
resync_found buf place q = elim (Bool-cases (at_dma buf)) [
  | inl e ↦ ground (arith, find_tag_here 0x44 0x4D 0x41 0x40 buf e)
  | inr e ↦ rw (e, q) refl
]

resync_noise :
    (noise : List ℕ) (m : WireMessage) (pad rest : List ℕ)
    → IsNoise noise
    → (resync (noise ++ (message_bytes m pad ++ rest))).1 ≡ message_bytes m pad ++ rest
resync_noise noise m pad rest q =
    resync_found (noise ++ (message_bytes m pad ++ rest)) (length noise) (rw regrouped found_there)
    ∙ drop-length_append (length noise) noise (message_bytes m pad ++ rest) refl
  where
    tail : List ℕ
    tail = drop 4 (message_bytes m pad) ++ rest

    found_there : find_dma ((noise ++ dma_magic) ++ tail) ≡ some (length noise)
    found_there = find_tag-append _ _ _ _ (noise ++ dma_magic) tail (length noise) q

    regrouped : noise ++ (message_bytes m pad ++ rest) ≡ (noise ++ dma_magic) ++ tail
    regrouped = sym (append_assoc noise dma_magic tail)

-- A message of the cart is read whole, behind noise too, with what follows it left in the buffer:
-- the alignment byte goes with it, whatever its value.
pub next_message-message_bytes :
    (noise : List ℕ) (m : WireMessage) (pad rest : List ℕ)
    → IsMessage m pad
    → IsNoise noise
    → next_message (noise ++ (message_bytes m pad ++ rest)) ≡ found m rest
unfolding next_message
next_message-message_bytes noise m pad rest v q =
    ap message_at (resync_noise noise m pad rest q) ∙ message_at-message_bytes m pad rest v

-- What a call answers: more bytes are needed, a message, or an error.
pub next_cases :
    (r : Result WireError (Option WireMessage))
    → (r ≡ ok none) ⊎ ((m : WireMessage) × (r ≡ ok (some m))) ⊎ ((e : WireError) × (r ≡ err e))
next_cases (ok none) = inl refl
next_cases (ok (some m)) = inr (inl (m, refl))
next_cases (err e) = inr (inr (e, refl))

-- A call that finds a message, or a bad trailer, takes bytes out of the buffer.
abbrev pub Shorter : List ℕ → Next → Type 0
Shorter buf n = elim n.result [
  | ok none ↦ Unit {0}
  | ok (some m) ↦ length n.buf < length buf
  | err e ↦ length n.buf < length buf
]

whole_message-Shorter :
    (buf : List ℕ) (datatype size : ℕ)
    → 8 ≤ length buf
    → Shorter buf (whole_message buf datatype size)
unfolding whole_message
whole_message-Shorter buf datatype size h =
    ground (arith, length-drop 4 buf, length-drop (align_up (8 + size + 4) wire_align) buf)

drop_to_shorter : (buf : List ℕ) (o : Option ℕ) → length (drop_to buf o).1 ≤ length buf
unfolding drop_to
drop_to_shorter buf none = omega (arith, length-drop (length buf - min 3 (length buf)) buf)
drop_to_shorter buf (some place) = omega (arith, length-drop place buf)

resync_shorter : (buf : List ℕ) → length (resync buf).1 ≤ length buf
unfolding resync
resync_shorter buf = elim (Bool-cases (at_dma buf)) [
  | inl e ↦ rw e (omega arith)
  | inr e ↦ rw e (drop_to_shorter buf (find_dma buf))
]

message_at-Shorter : (buf : List ℕ) → Shorter buf (message_at buf)
unfolding message_at
message_at-Shorter buf = elim (dec_lt (length buf) 8) [
  | yes short ↦ rw (lt→ltb (length buf) 8 short) tt
  | no long ↦ rw (le→ltb (length buf) 8 (omega arith)) (
      whole_message-Shorter buf (u32_at buf 4 / 2 ^ 24 % 2 ^ 8) (u32_at buf 4 % 2 ^ 24)
        (omega arith))
]

Shorter-le : (a b : List ℕ) (n : Next) → length a ≤ length b → Shorter a n → Shorter b n
Shorter-le a b n h s = elim (next_cases n.result) [
  | inl e ↦ rw e tt
  | inr (inl (m, e)) ↦ let t : length n.buf < length a = rw e at s in rw e (omega arith)
  | inr (inr (x, e)) ↦ let t : length n.buf < length a = rw e at s in rw e (omega arith)
]

pub next_message-Shorter : (buf : List ℕ) → Shorter buf (next_message buf)
unfolding next_message
next_message-Shorter buf =
    Shorter-le (resync buf).1 buf (message_at (resync buf).1) (resync_shorter buf)
      (message_at-Shorter (resync buf).1)
