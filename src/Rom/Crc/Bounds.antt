-- ===== src/Rom/Crc/Bounds.antt =====
-- The check words are of 32 bits.
use Prim.Native.Nat.{bit_xor, digits, differ, bit_xor-bitwise}
use multi.Common.{
  ℕ, zero, suc, ◌+◌, ◌*◌, ◌/◌, ◌%◌, ◌^◌, ◌≤◌, ◌<◌, ◌-◌, ◌≡◌, sym, ap, subst, length, List, Option,
  none, some, Bool, true, false, ltb, if◌then◌else◌, arith, All, All-get_or,
}
use multi.Common.Bytes.{IsByte, IsU32, u32_at, byte_at, from_be32-IsU32}
use multi.Rom.Crc.{
  crc_start, crc_end, crc_words, first_sums, seed, compute, Cic, cic6101, cic6102, cic6103, cic6105,
  Sums, own_word, or_t5, add_data, add_word, add_words, finish, wrapping_add, rotate_left,
}

-- 2 to a power, in a form that recursion on the power computes.
abbrev two_to : ℕ → ℕ
two_to zero = 1
two_to (suc w) = 2 * two_to w

differ_le : (x y : ℕ) → x ≤ 1 → y ≤ 1 → differ x y ≤ 1
differ_le zero y p q = q
differ_le (suc zero) zero p q = p
differ_le (suc zero) (suc zero) p q = omega arith
differ_le (suc zero) (suc (suc y)) p q = absurd (omega arith)
differ_le (suc (suc x)) y p q = absurd (omega arith)

digits_lt : (n a b w : ℕ) → a < two_to w → b < two_to w → digits (λ d. d) differ n a b < two_to w
digits_lt zero a b w p q = q
digits_lt (suc n) zero b w p q = q
digits_lt (suc n) (suc a) b zero p q = absurd (omega arith)
digits_lt (suc n) (suc a) b (suc w) p q =
    let rest = digits_lt n (suc a / 2) (b / 2) w (omega arith) (omega arith) in
    let last = differ_le (suc a % 2) (b % 2) (omega arith) (omega arith) in
    omega (arith, rest, last)

pub bit_xor-IsU32 : (a b : ℕ) → IsU32 a → IsU32 b → IsU32 (bit_xor a b)
bit_xor-IsU32 a b p q = subst IsU32 (sym (bit_xor-bitwise a b)) (digits_lt a a b 32 p q)

record IsSums (s : Sums) : Type 0 where
  first : IsU32 s.t1
  second : IsU32 s.t2
  third : IsU32 s.t3
  fourth : IsU32 s.t4
  fifth : IsU32 s.t5
  sixth : IsU32 s.t6

wrapping_add-IsU32 : (a b : ℕ) → IsU32 (wrapping_add a b)
wrapping_add-IsU32 a b = omega arith

abbrev IsWord : Option ℕ → Type 0
IsWord none = Unit
IsWord (some v) = IsU32 v

or_t5-IsU32 : (own : Option ℕ) (t5 : ℕ) → IsWord own → IsU32 t5 → IsU32 (or_t5 own t5)
or_t5-IsU32 none t5 h p = p
or_t5-IsU32 (some v) t5 h p = h

if-IsU32 : (b : Bool) (x y : ℕ) → IsU32 x → IsU32 y → IsU32 (if b then x else y)
if-IsU32 true x y p q = p
if-IsU32 false x y p q = q

rotate_left-IsU32 : (d n : ℕ) → IsU32 (rotate_left d n)
rotate_left-IsU32 d n = remainder (d * 2 ^ n + d / 2 ^ (32 - n))
  where
    remainder : (m : ℕ) → m % 2 ^ 32 < 2 ^ 32
    remainder m = omega arith

add_data-IsSums :
    (d : ℕ) (own : Option ℕ) (s : Sums)
    → IsU32 d
    → IsWord own
    → IsSums s
    → IsSums (add_data d own s)
unfolding add_data
add_data-IsSums d own s p q h =
    let rot = rotate_left-IsU32 d (d % 2 ^ 5) in
    let sum = wrapping_add-IsU32 s.t6 d in
    record {
      first = wrapping_add-IsU32 s.t1 _;
      second =
          bit_xor-IsU32 s.t2 _ h.second
            (if-IsU32 (ltb d s.t2) _ _ rot (bit_xor-IsU32 (wrapping_add s.t6 d) d sum p));
      third = bit_xor-IsU32 s.t3 d h.third p;
      fourth = if-IsU32 (ltb (wrapping_add s.t6 d) s.t6) _ _ (wrapping_add-IsU32 s.t4 1) h.fourth;
      fifth = wrapping_add-IsU32 s.t5 _;
      sixth = sum;
    }

u32_at-IsU32 : (rom : List ℕ) (i : ℕ) → All IsByte rom → IsU32 (u32_at rom i)
u32_at-IsU32 rom i h =
    let byte : (j : ℕ) → IsByte (byte_at rom j) = λ j. All-get_or IsByte rom j 0 (omega arith) h in
    from_be32-IsU32 _ _ _ _ (byte i) (byte (i + 1)) (byte (i + 2)) (byte (i + 3))

own_word-IsWord : (rom : List ℕ) (cic : Cic) (i : ℕ) → All IsByte rom → IsWord (own_word rom cic i)
own_word-IsWord rom cic6101 i h = tt
own_word-IsWord rom cic6102 i h = tt
own_word-IsWord rom cic6103 i h = tt
own_word-IsWord rom cic6105 i h = u32_at-IsU32 rom (0x40 + 0x0710 + i % 2 ^ 8) h

add_words-IsSums :
    (n : ℕ) (rom : List ℕ) (cic : Cic) (i : ℕ) (s : Sums)
    → All IsByte rom
    → IsSums s
    → IsSums (add_words n rom cic i s)
unfolding add_words add_word
add_words-IsSums zero rom cic i s b h = h
add_words-IsSums (suc n) rom cic i s b h =
    add_words-IsSums n rom cic (i + 4) (add_word rom cic i s) b (
      add_data-IsSums (u32_at rom i) (own_word rom cic i) s (u32_at-IsU32 rom i b)
        (own_word-IsWord rom cic i b) h)

-- Both words.
abbrev pub AreU32 : ℕ × ℕ → Type 0
AreU32 (a, b) = IsU32 a × IsU32 b

three_xor : (a b c : ℕ) → IsU32 a → IsU32 b → IsU32 c → IsU32 (bit_xor (bit_xor a b) c)
three_xor a b c p q r = bit_xor-IsU32 (bit_xor a b) c (bit_xor-IsU32 a b p q) r

finish-AreU32 : (cic : Cic) (s : Sums) → IsSums s → AreU32 (finish cic s)
finish-AreU32 cic6103 s h = (wrapping_add-IsU32 _ s.t3, wrapping_add-IsU32 _ s.t1)
finish-AreU32 cic6101 s h =
    (three_xor _ _ _ h.sixth h.fourth h.third, three_xor _ _ _ h.fifth h.second h.first)
finish-AreU32 cic6102 s h =
    (three_xor _ _ _ h.sixth h.fourth h.third, three_xor _ _ _ h.fifth h.second h.first)
finish-AreU32 cic6105 s h =
    (three_xor _ _ _ h.sixth h.fourth h.third, three_xor _ _ _ h.fifth h.second h.first)

first_sums-IsSums : (cic : Cic) → IsSums (first_sums (seed cic))
first_sums-IsSums cic = same (seed cic) (small cic)
  where
    small : (c : Cic) → IsU32 (seed c)
    small cic6101 = omega arith
    small cic6102 = omega arith
    small cic6103 = omega arith
    small cic6105 = omega arith

    same : (n : ℕ) → IsU32 n → IsSums (first_sums n)
    same n h = record { first = h; second = h; third = h; fourth = h; fifth = h; sixth = h }

pub compute-AreU32 :
    (rom : List ℕ) (cic : Cic)
    → All IsByte rom
    → crc_end ≤ length rom
    → (sums : ℕ × ℕ) × (compute rom cic ≡ some sums) × AreU32 sums
unfolding compute
compute-AreU32 rom cic b h =
    let long : ltb (length rom) crc_end ≡ false = ground arith in
    let all =
      add_words-IsSums crc_words rom cic crc_start (first_sums (seed cic)) b
        (first_sums-IsSums cic) in
    (
      finish cic (add_words crc_words rom cic crc_start (first_sums (seed cic))),
      ap
          (λ t.
            if t
            then none
            else some (finish cic (add_words crc_words rom cic crc_start (first_sums (seed cic)))))
          long,
      finish-AreU32 cic _ all,
    )
