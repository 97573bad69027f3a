-- ===== src/Ed64/Wire/Host.antt =====
-- What the cart reads out of the messages that the PC writes (docs/spec/l3-over-everdrive-x7.md §4.2).
use multi.Common.{
  ℕ, ◌+◌, ◌-◌, ◌*◌, ◌/◌, ◌%◌, ◌^◌, ◌≤◌, ◌≡◌, refl, sym, ap, ◌∙◌, List, ◌∷◌, ◌++◌, Option, none,
  some, length, drop, slice, replicate, ok, arith, length-append, take-length_append,
  drop-length_append, length-replicate, if◌then◌else◌, ◌&&◌,
}
use mathlib.Core.List.{append_assoc}
use multi.Common.Bytes.{u32_at, IsByte, from_be32, to_be32, from_be32-to}
use multi.Common.Find.{starts_with}
use multi.Ed64.Wire.{
  WireMessage, dma_magic, cmp_magic, align_up, wire_align, max_message_bytes, encode_message,
}

-- The cart takes the header, the payload with its alignment, and the trailer behind that.
abbrev pub read_host : List ℕ → Option (WireMessage × List ℕ)
read_host buf =
    let size = u32_at buf 4 % 2 ^ 24 in
    let padded = align_up size wire_align in
    if starts_with 0x44 0x4D 0x41 0x40 buf
      && starts_with 0x43 0x4D 0x50 0x48 (drop (8 + padded) buf)
    then some (
      record { datatype = u32_at buf 4 / 2 ^ 24; payload = slice buf 8 (8 + size) },
      drop (8 + padded + 4) buf,
    )
    else none

module _ (e f g h : ℕ) (xs zs rest : List ℕ) (size : from_be32 e f g h % 2 ^ 24 ≡ length xs)
    (filled : length xs + length zs ≡ align_up (length xs) wire_align) where
  abbrev laid : List ℕ
  laid = dma_magic ++ (e ∷ f ∷ g ∷ h ∷ (xs ++ (zs ++ (cmp_magic ++ rest))))

  abbrev front : List ℕ
  front = dma_magic ++ (e ∷ f ∷ g ∷ h ∷ (xs ++ zs))

  behind : (n : ℕ) → n ≡ 8 + length xs + length zs → drop n laid ≡ cmp_magic ++ rest
  behind n q =
      ap (λ ys. drop n (dma_magic ++ (e ∷ f ∷ g ∷ h ∷ ys)))
        (sym (append_assoc xs zs (cmp_magic ++ rest)))
      ∙ drop-length_append n front (cmp_magic ++ rest) (omega (arith, length-append xs zs))

  behind_trailer : (n : ℕ) → n ≡ 8 + length xs + length zs + 4 → drop n laid ≡ rest
  behind_trailer n q =
      ap (λ ys. drop n (dma_magic ++ (e ∷ f ∷ g ∷ h ∷ ys))) (sym regrouped)
      ∙ drop-length_append n (dma_magic ++ (e ∷ f ∷ g ∷ h ∷ (xs ++ (zs ++ cmp_magic)))) rest
          (omega (arith, length-append xs (zs ++ cmp_magic), length-append zs cmp_magic))
    where
      regrouped : (xs ++ (zs ++ cmp_magic)) ++ rest ≡ xs ++ (zs ++ (cmp_magic ++ rest))
      regrouped =
          append_assoc xs (zs ++ cmp_magic) rest
          ∙ ap (λ ys. xs ++ ys) (append_assoc zs cmp_magic rest)

  read-laid :
      read_host laid ≡ some (record { datatype = from_be32 e f g h / 2 ^ 24; payload = xs }, rest)
  unfolding starts_with
  read-laid =
      rw
        (
          size,
          behind (8 + align_up (length xs) wire_align) (omega arith),
          behind_trailer (8 + align_up (length xs) wire_align + 4) (omega arith),
          take-length_append (8 + length xs - 8) xs (zs ++ (cmp_magic ++ rest)) (omega arith),
        )
        refl

-- A message that the PC writes, behind which anything follows, the cart reads whole; a message is
-- refused only where its length does not fit 24 bits.
pub read_host-encode_message :
    (datatype : ℕ) (payload rest : List ℕ)
    → IsByte datatype
    → length payload ≤ max_message_bytes
    → (bs : List ℕ) × (encode_message datatype payload ≡ ok bs)
      × (read_host (bs ++ rest) ≡ some (record { datatype = datatype; payload = payload }, rest))
      × (length bs ≡ 12 + align_up (length payload) wire_align)
unfolding encode_message starts_with
read_host-encode_message datatype payload rest t h = (
  dma_magic ++ (to_be32 head ++ (payload ++ (zeros ++ cmp_magic))),
  ground arith,
  ap (λ ys. read_host (dma_magic ++ (to_be32 head ++ ys))) regrouped
      ∙ (read-laid _ _ _ _ payload zeros rest (ap (λ v. v % 2 ^ 24) whole ∙ low) filled
          ∙ ap (λ v. some (record { datatype = v / 2 ^ 24; payload = payload }, rest)) whole
          ∙ ap (λ v. some (record { datatype = v; payload = payload }, rest)) high),
  omega (arith, filled, length-append payload (zeros ++ cmp_magic), length-append zeros cmp_magic),
)
  where
    head : ℕ
    head = datatype * 2 ^ 24 + length payload % 2 ^ 24

    zeros : List ℕ
    zeros = replicate (align_up (length payload) wire_align - length payload) 0

    filled : length payload + length zeros ≡ align_up (length payload) wire_align
    filled =
        omega (
          arith,
          length-replicate {A = ℕ} (align_up (length payload) wire_align - length payload) 0,
        )

    whole :
        from_be32 (head / 16777216 % 256) (head / 65536 % 256) (head / 256 % 256) (head % 256)
        ≡ head
    whole = from_be32-to head (omega arith)

    low : head % 2 ^ 24 ≡ length payload
    low = omega arith

    high : head / 2 ^ 24 ≡ datatype
    high = omega arith

    regrouped :
        (payload ++ (zeros ++ cmp_magic)) ++ rest ≡ payload ++ (zeros ++ (cmp_magic ++ rest))
    regrouped =
        append_assoc payload (zeros ++ cmp_magic) rest
        ∙ ap (λ ys. payload ++ ys) (append_assoc zeros cmp_magic rest)
