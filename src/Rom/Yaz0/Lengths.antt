-- ===== src/Rom/Yaz0/Lengths.antt =====
-- How long a decompressed file is.
use multi.Common.{
  ℕ, zero, suc, ◌+◌, ◌-◌, ◌/◌, ◌%◌, ◌^◌, ◌≤◌, ◌<◌, ◌≡◌, List, [], ◌∷◌, ◌++◌, none, some, length,
  get_elem?, get_or, drop, All, ok, err, WhenOk, WhenOk-bind, WhenOk-fail_if, WhenOk-weaken, ◌>>◌,
  ◌*◌, ok_or, fail_if, Bool, true, false, not, ltb, leb, ◌==◌, Bool-cases, Option-cases, inl, inr,
  arith, length-append,
}
use multi.Common.Bytes.{IsByte}
use multi.Common.Find.{starts_with}
use multi.Rom.{read_u32}
use multi.Rom.Yaz0.{
  Yaz0Error, copy, byte, length_at, back_reference, literal, token, bits, group, groups, yaz0, Step,
}

pub length-copy : (n dist : ℕ) (out : List ℕ) → length (copy n dist out) ≡ length out + n
length-copy zero dist out = omega arith
length-copy (suc n) dist out =
    let b = get_or out (length out - dist) 0 in
    omega (arith, length-copy n dist (out ++ (b ∷ [])), length-append out (b ∷ []))

-- How long the file is that a header of `size` bytes gives, where no more than `max` are allowed.
abbrev pub Sized : ℕ → ℕ → List ℕ → Type 0
Sized size max out = (size ≤ max) × (size ≤ length out) × (length out ≤ size + 272)

module _ (src : List ℕ) (place : ℕ) (bytes : All IsByte src) where
  found-IsByte :
      (xs : List ℕ) (i : ℕ)
      → All IsByte xs
      → WhenOk IsByte (ok_or (get_elem? xs i) (Yaz0Error.truncated place))
  found-IsByte [] i h = tt
  found-IsByte (x ∷ xs) zero h = h.0
  found-IsByte (x ∷ xs) (suc i) h = found-IsByte xs i h.1

  -- How many bytes a reference copies.
  abbrev Copies : ℕ × ℕ → Type 0
  Copies n = (1 ≤ n.0) × (n.0 ≤ 273)

  length_at-WhenOk : (n s : ℕ) → n < 16 → WhenOk Copies (length_at src place n s)
  unfolding length_at
  length_at-WhenOk zero s h =
      WhenOk-bind IsByte Copies (byte src place s) (λ b. ok (b + 0x12, s + 1))
        (found-IsByte src s bytes) (λ b p. (omega arith, omega (arith, p)))
  length_at-WhenOk (suc n) s h = (omega arith, omega arith)

  -- A step writes from one byte to as many as a reference can stand for.
  abbrev Grows : List ℕ → ℕ × List ℕ → Type 0
  Grows out r = (length out + 1 ≤ length r.1) × (length r.1 ≤ length out + 273)

  back_reference-WhenOk :
      (s : ℕ) (out : List ℕ) → WhenOk (Grows out) (back_reference src place s out)
  unfolding back_reference
  back_reference-WhenOk s out =
      WhenOk-bind IsByte (Grows out) (byte src place s) _ (found-IsByte src s bytes) λ b1 p.
        WhenOk-bind IsByte (Grows out) (byte src place (s + 1)) _ (found-IsByte src (s + 1) bytes)
          λ b2 q.
            WhenOk-bind Copies (Grows out) (length_at src place (b1 / 2 ^ 4) (s + 2)) _
              (length_at-WhenOk (b1 / 2 ^ 4) (s + 2) (omega (arith, p)))
              λ n h. written (b1 % 2 ^ 4 * 2 ^ 8 + b2 + 1) n h
    where
      written :
          (dist : ℕ) (n : ℕ × ℕ)
          → Copies n
          → WhenOk (Grows out) (
              fail_if (ltb (length out) dist) (Yaz0Error.truncated place)
              >> ok (n.1, copy n.0 dist out))
      written dist n (p, q) = WhenOk-fail_if (Grows out) (ltb (length out) dist) _ _ λ e.
          (omega (arith, length-copy n.0 dist out, p), omega (arith, length-copy n.0 dist out, q))

  token-WhenOk : (b : Bool) (s : ℕ) (out : List ℕ) → WhenOk (Grows out) (token src place b s out)
  unfolding token literal
  token-WhenOk true s out =
      WhenOk-bind IsByte (Grows out) (byte src place s) (λ b. ok (s + 1, out ++ (b ∷ [])))
        (found-IsByte src s bytes)
        (λ b p.
          (omega (arith, length-append out (b ∷ [])), omega (arith, length-append out (b ∷ []))))
  token-WhenOk false s out = back_reference-WhenOk s out

  -- What the bits of a code do to a file: those of one code at least write to a file that is not whole.
  abbrev Fills : ℕ → ℕ → List ℕ → ℕ × List ℕ → Type 0
  Fills left size out r =
      (length out ≤ length r.1)
      × (length r.1 ≤ size + 272)
      × (1 ≤ left → length out < size → length out < length r.1)

  bits-WhenOk :
      (left code size s : ℕ) (out : List ℕ)
      → length out ≤ size + 272
      → WhenOk (Fills left size out) (bits src place left code size s out)
  unfolding bits
  bits-WhenOk zero code size s out h = (omega arith, h, λ p q. absurd (omega (arith, p)))
  bits-WhenOk (suc left) code size s out h = elim (Bool-cases (leb size (length out))) [
    | inl e ↦ rw e (omega arith, h, λ p q. ground arith)
    | inr e ↦
        let room : length out < size = ground arith in
        let flag = code / 2 ^ left % 2 == 1 in
        rw e (
          WhenOk-bind (Grows out) (Fills (suc left) size out) (token src place flag s out) _
            (token-WhenOk flag s out)
            λ r p.
              let rest = bits-WhenOk left code size r.0 r.1 (omega (arith, p.1, room)) in
              weaken (bits src place left code size r.0 r.1) r.1 p rest)
  ]
    where
      weaken :
          (m : Step src place) (between : List ℕ)
          → Grows out (0, between)
          → WhenOk (Fills left size between) m
          → WhenOk (Fills (suc left) size out) m
      weaken (ok r) between p q = (omega (arith, p.0, q.0), q.1, λ h k. omega (arith, p.0, q.0))
      weaken (err e) between p q = tt

  abbrev Whole : ℕ → List ℕ → Type 0
  Whole size out = (size ≤ length out) × (length out ≤ size + 272)

  group-WhenOk :
      (size s : ℕ) (out : List ℕ)
      → length out ≤ size + 272
      → WhenOk (Fills 8 size out) (group src place size s out)
  unfolding group
  group-WhenOk size s out h =
      WhenOk-bind IsByte (Fills 8 size out) (byte src place s)
        (λ code. bits src place 8 code size (s + 1) out) (found-IsByte src s bytes)
        (λ code p. bits-WhenOk 8 code size (s + 1) out h)

  groups-WhenOk :
      (fuel size s : ℕ) (out : List ℕ)
      → size ≤ length out + fuel
      → length out ≤ size + 272
      → WhenOk (Whole size) (groups src place fuel size s out)
  unfolding groups
  groups-WhenOk zero size s out h k = (omega (arith, h), k)
  groups-WhenOk (suc fuel) size s out h k = elim (Bool-cases (leb size (length out))) [
    | inl e ↦ rw e (ground arith, k)
    | inr e ↦
        let room : length out < size = ground arith in
        rw e (
          WhenOk-bind (Fills 8 size out) (Whole size) (group src place size s out)
            (λ next. groups src place fuel size next.0 next.1) (group-WhenOk size s out k)
            λ next q.
              let more = q.2 (omega arith) room in
              groups-WhenOk fuel size next.0 next.1 (omega (arith, more, h)) q.1)
  ]

  -- Where the header says `size`, every file that `yaz0` gives for bytes is Sized: `size` is not over
  -- what is allowed, and the file has `size` bytes at least and 272 more at most.
  pub yaz0-WhenOk :
      (size max : ℕ)
      → read_u32 src (place + 4) ≡ some size
      → WhenOk (Sized size max) (yaz0 src place max)
  unfolding yaz0
  yaz0-WhenOk size max h = rw h (
      WhenOk-fail_if (Sized size max) (not (starts_with 0x59 0x61 0x7A 0x30 (drop place src))) _ _
        λ e. WhenOk-fail_if (Sized size max) (ltb max size) _ _ λ k.
          WhenOk-weaken (Whole size) (Sized size max) (λ out q. (ground arith, q.0, q.1))
            (groups src place size size (place + 16) [])
            (groups-WhenOk size size (place + 16) [] (omega arith) (omega arith)))

  abbrev Within : ℕ → List ℕ → Type 0
  Within max out = length out ≤ max + 272

  unsized : (max : ℕ) → read_u32 src (place + 4) ≡ none → WhenOk (Within max) (yaz0 src place max)
  unfolding yaz0
  unsized max h = rw h (
      WhenOk-fail_if (Within max) (not (starts_with 0x59 0x61 0x7A 0x30 (drop place src))) _ _
        λ e. tt)

  -- A file is not longer than is allowed by more than 272 bytes.
  pub length-yaz0 : (max : ℕ) → WhenOk (Within max) (yaz0 src place max)
  length-yaz0 max = elim (Option-cases (read_u32 src (place + 4))) [
    | inl e ↦ unsized max e
    | inr (size, e) ↦
        WhenOk-weaken (Sized size max) (Within max) (λ out q. omega (arith, q.0, q.2))
          (yaz0 src place max) (yaz0-WhenOk size max e)
  ]
