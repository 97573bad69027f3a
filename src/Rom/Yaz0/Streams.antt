-- ===== src/Rom/Yaz0/Streams.antt =====
-- `yaz0` on a file of the format.
use multi.Common.{
  ℕ, zero, suc, ◌+◌, ◌-◌, ◌*◌, ◌/◌, ◌%◌, ◌^◌, ◌≤◌, ◌<◌, ◌≡◌, refl, sym, ap, subst, ◌∙◌, ◌⊎◌, List,
  [], ◌∷◌, ◌++◌, some, length, get_elem?, get_or, drop, replicate, ok, true, false, ltb, leb, ◌==◌,
  Bool-cases, inl, inr, arith, length-append, length-drop, take, take-append-drop,
}
use multi.Common.Bytes.{IsU32, to_be32}
use multi.Common.Find.{starts_with}
use multi.Rom.{read_u32}
use multi.Rom.Yaz0.{
  Yaz0Error, copy, byte, length_at, back_reference, token, bits, group, groups, yaz0, Step,
}
use multi.Rom.Yaz0
use multi.Rom.Yaz0.Format.{
  Token, literal, copies, is_literal, token_bytes, cycle, last_of, expand, Fits, expand_all, AllFit,
  flag, code_of, bytes_of, stream, expand_groups, GroupsFit, IsFull, compressed,
}
use multi.Rom.Words.{found, next_of, behind, read_u32_found}
use mathlib.Core.List.{append_assoc, append-nil}
use native.Mathlib.Nat.{
  add-zero, mul-add-div_right, div-eq_of_lt, one-le-pow, two-pow-succ, pow-succ', add-mul,
  mul_assoc,
}

length-cycle : (n : ℕ) (window : List ℕ) → 1 ≤ length window → length (cycle n window) ≡ n
length-cycle zero window h = refl
length-cycle (suc n) [] h = absurd (omega arith)
length-cycle (suc n) (w ∷ ws) h =
    omega (arith, length-cycle n (ws ++ (w ∷ [])) (omega (arith, length-append ws (w ∷ []))))

at_window : (front : List ℕ) (w : ℕ) (ws : List ℕ) → get_or (front ++ (w ∷ ws)) (length front) 0 ≡ w
at_window [] w ws = refl
at_window (x ∷ front) w ws = at_window front w ws

-- Bytes that are copied one by one repeat the window they are copied from.
copy-cycle :
    (n dist : ℕ) (front window : List ℕ)
    → length window ≡ dist
    → 1 ≤ dist
    → copy n dist (front ++ window) ≡ (front ++ window) ++ cycle n window
copy-cycle zero dist front window h k = sym (append-nil (front ++ window))
copy-cycle (suc n) dist front [] h k = absurd (omega arith)
copy-cycle (suc n) dist front (w ∷ ws) h k =
    let place : length (front ++ (w ∷ ws)) - dist ≡ length front =
      omega (arith, length-append front (w ∷ ws), h) in
    let next : copy n dist ((front ++ (w ∷ [])) ++ (ws ++ (w ∷ [])))
        ≡ ((front ++ (w ∷ [])) ++ (ws ++ (w ∷ []))) ++ cycle n (ws ++ (w ∷ [])) =
      copy-cycle n dist (front ++ (w ∷ [])) (ws ++ (w ∷ []))
        (omega (arith, length-append ws (w ∷ []), h)) k in
    let shift : (front ++ (w ∷ [])) ++ (ws ++ (w ∷ [])) ≡ (front ++ (w ∷ ws)) ++ (w ∷ []) =
      simp append_assoc in
    let end : ((front ++ (w ∷ [])) ++ (ws ++ (w ∷ []))) ++ cycle n (ws ++ (w ∷ []))
        ≡ (front ++ (w ∷ ws)) ++ (w ∷ cycle n (ws ++ (w ∷ []))) =
      simp append_assoc in
    rw (place, at_window front w ws) (ap (λ ys. copy n dist ys) (sym shift) ∙ next ∙ end)

-- A reference that reaches no further back than the file does as the format says.
copy-expand :
    (dist n : ℕ) (out : List ℕ)
    → 1 ≤ dist
    → dist ≤ length out
    → copy n dist out ≡ out ++ cycle n (last_of dist out)
copy-expand dist n out h k =
    let whole : take (length out - dist) out ++ last_of dist out ≡ out =
      take-append-drop (length out - dist) out in
    let size : length (last_of dist out) ≡ dist =
      omega (arith, length-drop (length out - dist) out, k) in
    let copied = copy-cycle n dist (take (length out - dist) out) (last_of dist out) size h in
    subst (λ ys. copy n dist ys ≡ ys ++ cycle n (last_of dist out)) whole copied

length-expand : (out : List ℕ) (t : Token) → Fits out t → length out + 1 ≤ length (expand out t)
unfolding expand Fits
length-expand out (literal b) h = omega (arith, length-append out (b ∷ []))
length-expand out (copies dist n) h =
    let window : length (last_of dist out) ≡ dist =
      omega (arith, length-drop (length out - dist) out, h.2) in
    omega (
      arith,
      length-append out (cycle n (last_of dist out)),
      h.3,
      length-cycle n (last_of dist out) (omega (arith, h.0, window)),
    )

length-expand_all :
    (ts : List Token) (out : List ℕ)
    → AllFit out ts
    → length out + length ts ≤ length (expand_all out ts)
unfolding expand_all AllFit
length-expand_all [] out h = omega arith
length-expand_all (t ∷ ts) out h =
    omega (arith, length-expand out t h.0, length-expand_all ts (expand out t) h.1)

length-expand_groups :
    (gs : List (List Token)) (out : List ℕ)
    → GroupsFit out gs
    → length out ≤ length (expand_groups out gs)
unfolding expand_groups GroupsFit
length-expand_groups [] out h = omega arith
length-expand_groups (g ∷ gs) out h =
    omega (arith, length-expand_all g out h.0, length-expand_groups gs (expand_all out g) h.4)

-- The bit that `flag` puts above the lower ones, below others.
flag_bit :
    (left high : ℕ) (t : Token) (low : ℕ)
    → low < 2 ^ left
    → (((high * 2 + flag t) * 2 ^ left + low) / 2 ^ left % 2 == 1) ≡ is_literal t
flag_bit left high t low h =
    let positive : 0 < 2 ^ left = one-le-pow left 2 (omega arith) in
    let shifted : ((high * 2 + flag t) * 2 ^ left + low) / 2 ^ left ≡ high * 2 + flag t =
      mul-add-div_right positive (high * 2 + flag t) low
      ∙ ap (λ k. high * 2 + flag t + k) (div-eq_of_lt h)
      ∙ add-zero (high * 2 + flag t) in
    rw shifted (bit t)
  where
    bit : (t : Token) → ((high * 2 + flag t) % 2 == 1) ≡ is_literal t
    bit (literal b) = ground arith
    bit (copies dist n) = ground arith

code_of-IsBelow : (left : ℕ) (ts : List Token) → code_of left ts < 2 ^ left
unfolding code_of
code_of-IsBelow zero ts = omega arith
code_of-IsBelow (suc left) [] = one-le-pow (suc left) 2 (omega arith)
code_of-IsBelow (suc left) (literal b ∷ ts) =
    omega (arith, code_of-IsBelow left ts, two-pow-succ left)
code_of-IsBelow (suc left) (copies dist n ∷ ts) =
    omega (arith, code_of-IsBelow left ts, two-pow-succ left)

-- The flags that have been read are above those to come.
code_shift :
    (left high f low : ℕ)
    → high * 2 ^ suc left + (f * 2 ^ left + low) ≡ (high * 2 + f) * 2 ^ left + low
code_shift left high f low =
    rw (pow-succ' 2 left, sym (mul_assoc high 2 (2 ^ left)), add-mul (high * 2) f (2 ^ left))
      (omega arith)

module _ (src : List ℕ) (place : ℕ) where
  length_at_lem : (m s : ℕ) → 1 ≤ m → length_at src place m s ≡ ok (m + 2, s)
  unfolding length_at
  length_at_lem zero s h = absurd (omega arith)
  length_at_lem (suc m) s h = refl

  back_reference_lem :
      (s b1 b2 n dist s' : ℕ) (out rest : List ℕ)
      → drop s src ≡ b1 ∷ b2 ∷ rest
      → length_at src place (b1 / 2 ^ 4) (s + 2) ≡ ok (n, s')
      → b1 % 2 ^ 4 * 2 ^ 8 + b2 + 1 ≡ dist
      → dist ≤ length out
      → back_reference src place s out ≡ ok (s', copy n dist out)
  unfolding back_reference
  back_reference_lem s b1 b2 n dist s' out rest h k e room =
      let first = found s src (b2 ∷ rest) b1 h in
      let second = found (s + 1) src rest b2 (next_of s src (b2 ∷ rest) b1 h) in
      let near : ltb (length out) dist ≡ false = ground arith in rw (first, second, k, e, near) refl

  copied :
      (dist n s' s : ℕ) (out : List ℕ)
      → Fits out (copies dist n)
      → back_reference src place s out ≡ ok (s', copy n dist out)
      → back_reference src place s out ≡ ok (s', expand out (copies dist n))
  unfolding expand Fits
  copied dist n s' s out h e = e ∙ ap (λ ys. ok (s', ys)) (copy-expand dist n out h.0 h.2)

  short_lem :
      (dist n s : ℕ) (out rest : List ℕ)
      → Fits out (copies dist n)
      → n < 18
      → drop s src ≡ ((n - 2) * 2 ^ 4 + (dist - 1) / 256) ∷ ((dist - 1) % 256) ∷ rest
      → back_reference src place s out ≡ ok (s + 2, copy n dist out)
  unfolding Fits
  short_lem dist n s out rest h short k =
      let b1 = (n - 2) * 2 ^ 4 + (dist - 1) / 256 in
      let high : b1 / 2 ^ 4 ≡ n - 2 = omega (arith, h.1, h.3) in
      let whole : n - 2 + 2 ≡ n = omega (arith, h.3) in
      let size : length_at src place (b1 / 2 ^ 4) (s + 2) ≡ ok (n, s + 2) =
        rw high
          (length_at_lem (n - 2) (s + 2) (omega (arith, h.3)) ∙ ap (λ m. ok (m, s + 2)) whole) in
      back_reference_lem s b1 ((dist - 1) % 256) n dist (s + 2) out rest k size
        (omega (arith, h.0, h.1)) h.2

  long_lem :
      (dist n s : ℕ) (out rest : List ℕ)
      → Fits out (copies dist n)
      → 18 ≤ n
      → drop s src ≡ ((dist - 1) / 256) ∷ ((dist - 1) % 256) ∷ (n - 18) ∷ rest
      → back_reference src place s out ≡ ok (s + 3, copy n dist out)
  unfolding Fits length_at
  long_lem dist n s out rest h long k =
      let b1 = (dist - 1) / 256 in
      let b2 = (dist - 1) % 256 in
      let high : b1 / 2 ^ 4 ≡ 0 = omega (arith, h.1) in
      let after : s + 2 + 1 ≡ s + 3 = omega arith in
      let whole : n - 18 + 0x12 ≡ n = omega arith in
      let third : get_elem? src (s + 2) ≡ some (n - 18) =
        found (s + 2) src rest (n - 18) (behind s src (b1 ∷ b2 ∷ []) ((n - 18) ∷ rest) k) in
      let size : length_at src place (b1 / 2 ^ 4) (s + 2) ≡ ok (n, s + 3) =
        rw (high, third, after) (ap (λ m. ok (m, s + 3)) whole) in
      back_reference_lem s b1 b2 n dist (s + 3) out ((n - 18) ∷ rest) k size
        (omega (arith, h.0, h.1)) h.2

  literal_lem :
      (b s : ℕ) (out rest : List ℕ)
      → drop s src ≡ b ∷ rest
      → Yaz0.literal src place s out ≡ ok (s + 1, expand out (literal b))
  unfolding expand Yaz0.literal
  literal_lem b s out rest k = rw (found s src rest b k) refl

  -- What a token is read as, its bytes written out.
  abbrev Reads : Token → List ℕ → Type 0
  Reads t bs =
      (s : ℕ) (out rest : List ℕ)
      → Fits out t
      → drop s src ≡ bs ++ rest
      → token src place (is_literal t) s out ≡ ok (s + length bs, expand out t)

  token_lem : (t : Token) → Reads t (token_bytes t)
  unfolding token token_bytes
  token_lem (literal b) = λ s out rest h k. literal_lem b s out rest k
  token_lem (copies dist n) = elim (Bool-cases (ltb n 18)) [
    | inl e ↦ rw e λ s out rest h k.
        copied dist n (s + 2) s out h (short_lem dist n s out rest h (ground arith) k)
    | inr e ↦ rw e λ s out rest h k.
        copied dist n (s + 3) s out h (long_lem dist n s out rest h (ground arith) k)
  ]

  -- All tokens of a code are read, where it has no room for more or the file is whole with them.
  bits_lem :
      (ts : List Token) (left high code s size : ℕ) (out rest : List ℕ)
      → code ≡ high * 2 ^ left + code_of left ts
      → AllFit out ts
      → length ts ≤ left
      → length (expand_all out ts) ≤ size
      → (length ts ≡ left) ⊎ (length (expand_all out ts) ≡ size)
      → drop s src ≡ bytes_of ts ++ rest
      → bits src place left code size s out ≡ ok (s + length (bytes_of ts), expand_all out ts)
  unfolding bits expand_all AllFit code_of
  bits_lem [] zero high code s size out rest c h room bound end k =
      ap (λ i. ok (i, out)) (sym (add-zero s))
  bits_lem [] (suc left) high code s size out rest c h room bound end k =
      let full : leb size (length out) ≡ true = elim end [
        | inl e ↦ absurd (omega (arith, e))
        | inr e ↦ ground arith
      ] in
      rw full (ap (λ i. ok (i, out)) (sym (add-zero s)))
  bits_lem (t ∷ ts) zero high code s size out rest c h room bound end k =
      absurd (omega (arith, room))
  bits_lem (t ∷ ts) (suc left) high code s size out rest c h room bound end k =
      let more : leb size (length out) ≡ false = ground (arith, length-expand_all (t ∷ ts) out h) in
      let next = high * 2 + flag t in
      let shifted : code ≡ next * 2 ^ left + code_of left ts =
        c ∙ code_shift left high (flag t) (code_of left ts) in
      let bit : (code / 2 ^ left % 2 == 1) ≡ is_literal t =
        ap (λ c. c / 2 ^ left % 2 == 1) shifted
        ∙ flag_bit left high t (code_of left ts) (code_of-IsBelow left ts) in
      let here : drop s src ≡ token_bytes t ++ (bytes_of ts ++ rest) =
        k ∙ append_assoc (token_bytes t) (bytes_of ts) rest in
      let s' = s + length (token_bytes t) in
      let then_on : bits src place left code size s' (expand out t)
          ≡ ok (s' + length (bytes_of ts), expand_all (expand out t) ts) =
        bits_lem ts left next code s' size (expand out t) rest shifted h.1 (omega (arith, room))
          bound (fewer end) (behind s src (token_bytes t) (bytes_of ts ++ rest) here) in
      let place' : s' + length (bytes_of ts) ≡ s + length (token_bytes t ++ bytes_of ts) =
        omega (arith, length-append (token_bytes t) (bytes_of ts)) in
      rw (more, bit, token_lem t s out (bytes_of ts ++ rest) h.0 here)
        (then_on ∙ ap (λ i. ok (i, expand_all (expand out t) ts)) place')
    where
      fewer :
          (length (t ∷ ts) ≡ suc left) ⊎ (length (expand_all (expand out t) ts) ≡ size)
          → (length ts ≡ left) ⊎ (length (expand_all (expand out t) ts) ≡ size)
      fewer (inl e) = inl (omega (arith, e))
      fewer (inr e) = inr e

  group_lem :
      (g : List Token) (s size : ℕ) (out rest : List ℕ)
      → AllFit out g
      → length g ≤ 8
      → length (expand_all out g) ≤ size
      → (length g ≡ 8) ⊎ (length (expand_all out g) ≡ size)
      → drop s src ≡ code_of 8 g ∷ (bytes_of g ++ rest)
      → group src place size s out ≡ ok (s + 1 + length (bytes_of g), expand_all out g)
  unfolding group
  group_lem g s size out rest h room bound end k =
      rw (found s src (bytes_of g ++ rest) (code_of 8 g) k) (
        bits_lem g 8 0 (code_of 8 g) (s + 1) size out rest (omega arith) h room bound end
          (next_of s src (bytes_of g ++ rest) (code_of 8 g) k))

  groups_lem :
      (gs : List (List Token)) (fuel s size : ℕ) (out rest : List ℕ)
      → GroupsFit out gs
      → length (expand_groups out gs) ≡ size
      → size ≤ length out + fuel
      → drop s src ≡ stream gs ++ rest
      → groups src place fuel size s out ≡ ok (expand_groups out gs)
  unfolding groups expand_groups GroupsFit stream
  groups_lem [] zero s size out rest h e f k = refl
  groups_lem [] (suc fuel) s size out rest h e f k =
      let full : leb size (length out) ≡ true = ground (arith, e) in rw full refl
  groups_lem (g ∷ gs) zero s size out rest h e f k = absurd (
      omega (
        arith,
        length-expand_all g out h.0,
        length-expand_groups gs (expand_all out g) h.4,
        h.1,
        e,
        f,
      ))
  groups_lem (g ∷ gs) (suc fuel) s size out rest h e f k =
      let grown = length-expand_all g out h.0 in
      let bound = length-expand_groups gs (expand_all out g) h.4 in
      let more : leb size (length out) ≡ false = ground (arith, grown, bound, h.1, e) in
      let here : drop s src ≡ code_of 8 g ∷ (bytes_of g ++ (stream gs ++ rest)) =
        k ∙ ap (λ ys. code_of 8 g ∷ ys) (append_assoc (bytes_of g) (stream gs) rest) in
      let s' = s + 1 + length (bytes_of g) in
      let after : drop s' src ≡ stream gs ++ rest =
        behind (s + 1) src (bytes_of g) (stream gs ++ rest)
          (next_of s src (bytes_of g ++ (stream gs ++ rest)) (code_of 8 g) here) in
      rw
        (
          more,
          group_lem g s size out (stream gs ++ rest) h.0 h.2 (omega (arith, bound, e))
              (ends gs h.3 e) here,
        )
        (groups_lem gs fuel s' size (expand_all out g) rest h.4 e (omega (arith, grown, h.1, f))
          after)
    where
      ends :
          (gs : List (List Token))
          → IsFull g gs
          → length (expand_groups (expand_all out g) gs) ≡ size
          → (length g ≡ 8) ⊎ (length (expand_all out g) ≡ size)
      ends [] h e = inr e
      ends (g' ∷ gs) h e = inl h

  -- A file of the format, which stands at a place of a ROM and has something or nothing behind it, is
  -- decompressed to what its tokens stand for, where that is not longer than is allowed, and its length is a u32.
  pub yaz0-compressed :
      (gs : List (List Token)) (max : ℕ) (rest : List ℕ)
      → GroupsFit [] gs
      → length (expand_groups [] gs) ≤ max
      → IsU32 (length (expand_groups [] gs))
      → drop place src ≡ compressed gs ++ rest
      → yaz0 src place max ≡ ok (expand_groups [] gs)
  unfolding yaz0 compressed starts_with
  yaz0-compressed gs max rest h bound small k =
      let size = length (expand_groups [] gs) in
      let head = 0x59 ∷ 0x61 ∷ 0x7A ∷ 0x30 ∷ (to_be32 size ++ replicate 8 0) in
      let split : drop place src ≡ head ++ (stream gs ++ rest) = k in
      let word : drop (place + 4) src ≡ to_be32 size ++ (replicate 8 0 ++ (stream gs ++ rest)) =
        behind place src (0x59 ∷ 0x61 ∷ 0x7A ∷ 0x30 ∷ [])
          (to_be32 size ++ (replicate 8 0 ++ (stream gs ++ rest))) k in
      let claimed : read_u32 src (place + 4) ≡ some size =
        read_u32_found (place + 4) size src (replicate 8 0 ++ (stream gs ++ rest)) small word in
      let fits : ltb max size ≡ false = ground (arith, bound) in
      let place' : drop (place + 16) src ≡ stream gs ++ rest =
        behind place src head (stream gs ++ rest) split in
      rw (k, claimed, fits)
        (groups_lem gs size (place + 16) size [] rest h refl (omega arith) place')
