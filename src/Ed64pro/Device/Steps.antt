-- ===== src/Ed64pro/Device/Steps.antt =====
-- The steps of an operation of crates/ed64pro-link/src/device.rs that ends well, each with the rest of the operation.
use multi.Common.{
  ℕ, zero, suc, ◌≡◌, ◌≢◌, refl, sym, ap, subst, ◌∙◌, List, [], ◌∷◌, ◌++◌, Option, none, some,
  length, Result, ok, err, Bool, true, false, ◌==◌, ◌||◌, arith, Bool-cases, Option-cases, inl, inr,
}
use multi.Ed64pro.Wire.{status_key, status_key_legacy, protocol_id_mega, protocol_id_n8}
use multi.Ed64pro.Link.{
  Link, M, Error, other_console, unexpected_status_key, and_then, ◌>>=◌, ◌>>◌, fail_if, fail,
  ignore, io, write_failed, read_exact, read_received, split_at, read_result,
}
use multi.Ed64pro.Device.Failing.{Sends, IsSentOf, written_on}
use multi.Ed64pro.Device.{check_head, check_generation}

-- A protocol of no other generation.
abbrev pub IsCurrent : ℕ → Type 0
IsCurrent protocol = (protocol ≢ protocol_id_mega) × (protocol ≢ protocol_id_n8)

-- A step that ended well, and the next.
pub ok-next :
    {A B : Type 0} (x : Result Error A × Link) (f : A → M B) (b : B) (l : Link)
    → and_then x f ≡ (ok b, l)
    → (a : A) × (m : Link) × (x ≡ (ok a, m)) × (f a m ≡ (ok b, l))
ok-next (ok a, m) f b l h = (a, m, refl, h)
ok-next (err e, m) f b l h = cc

pub split_at-some :
    (n : ℕ) (xs got left : List ℕ)
    → split_at n xs ≡ some (got, left)
    → (length got ≡ n) × (xs ≡ got ++ left)
unfolding split_at
split_at-some zero xs got left h =
    let none_got : [] ≡ got = cc in
    let all_left : xs ≡ left = cc in rw (sym none_got) (refl, all_left)
split_at-some (suc n) [] got left h = cc
split_at-some (suc n) (x ∷ xs) got left h = elim (Option-cases (split_at n xs)) [
  | inl e ↦
      let failed : ◌≡◌ {A = Option (List ℕ × List ℕ)} none (some (got, left)) = rw e at h in cc
  | inr ((front, back), e) ↦
      let found : ◌≡◌ {A = Option (List ℕ × List ℕ)} (some (x ∷ front, back)) (some (got, left)) =
        rw e at h in
      let (size, whole) = split_at-some n xs front back e in
      let first : x ∷ front ≡ got = cc in
      let last : back ≡ left = cc in rw (sym first, sym last) (ap suc size, ap (λ ys. x ∷ ys) whole)
]

-- A connection with nothing received and unread, whose port takes so many more writes.
abbrev pub onto : Option ℕ → List ℕ → List (List ℕ) → ℕ → Link
onto k replies w t = record {
  received = [];
  to_come = replies;
  written = w;
  takes = k;
  timeout = t;
}

-- A read that ends well, with nothing received before.
pub read-ok :
    (n : ℕ) (k : Option ℕ) (replies : List ℕ) (w : List (List ℕ)) (t : ℕ) (a : List ℕ) (m : Link)
    → read_exact n
        (record { received = []; to_come = replies; written = w; takes = k; timeout = t })
      ≡ (ok a, m)
    → (rest : List ℕ) × (length a ≡ n)
      × (replies ≡ a ++ rest)
      × (m ≡ record { received = []; to_come = rest; written = w; takes = k; timeout = t })
unfolding read_exact read_received
read-ok n k replies w t a m h = elim (Option-cases (split_at n replies)) [
  | inl e ↦
      let failed : read_result
            (record { received = []; to_come = replies; written = w; takes = k; timeout = t }) none
          ≡ (ok a, m) =
        rw e at h in
      cc
  | inr ((front, back), e) ↦
      let found : (
        ok front,
        record { received = []; to_come = back; written = w; takes = k; timeout = t },
      )
          ≡ (ok a, m) =
        rw e at h in
      let (size, whole) = split_at-some n replies front back e in
      let same : front ≡ a = cc in
      let after : record { received = []; to_come = back; written = w; takes = k; timeout = t }
          ≡ m =
        cc in
      (back, rw same at size, rw same at whole, sym after)
]

pub check_head-ok :
    (x y : ℕ) (l m : Link) (u : Unit {0})
    → check_head (x ∷ y ∷ []) l ≡ (ok u, m)
    → (x ≡ status_key) × (l ≡ m)
unfolding check_head
check_head-ok x y l m u h = elim (Bool-cases (x == status_key)) [
  | inl e ↦
      let passed : (ok tt, l) ≡ (ok u, m) = rw e at h in
      let key : x ≡ status_key = ground arith in (key, cc)
  | inr e ↦ elim (Bool-cases (x == status_key_legacy || y == status_key_legacy)) [
    | inl p ↦ let stopped : (err (other_console y), l) ≡ (ok u, m) = rw (e, p) at h in cc
    | inr p ↦ let stopped : (err (unexpected_status_key x), l) ≡ (ok u, m) = rw (e, p) at h in cc
  ]
]

pub check_generation-ok :
    (x y : ℕ) (l m : Link) (u : Unit {0})
    → check_generation (x ∷ y ∷ []) l ≡ (ok u, m)
    → IsCurrent y × (l ≡ m)
unfolding check_generation ◌>>=◌
check_generation-ok x y l m u h = elim (Bool-cases (y == protocol_id_mega || y == protocol_id_n8)) [
  | inl e ↦
      let stopped : (ignore (read_exact 2) >>= λ _. fail {A = Unit} (other_console y)) l
          ≡ (ok u, m) =
        rw e at h in
      let (_, k, _, q) =
        ok-next (ignore (read_exact 2) l) (λ _. fail (other_console y)) u m stopped in
      cc
  | inr e ↦
      let passed : (ok tt, l) ≡ (ok u, m) = rw e at h in
      let current : IsCurrent y = ground arith in (current, cc)
]

pub fail_if-ok :
    (b : Bool) (e : Error) (l m : Link) (u : Unit {0})
    → fail_if b e l ≡ (ok u, m)
    → (b ≡ false) × (l ≡ m)
fail_if-ok true e l m u h = cc
fail_if-ok false e l m u h = (refl, cc)

-- The two bytes of a read.
pub two : (xs : List ℕ) → length xs ≡ 2 → (x : ℕ) × (y : ℕ) × (xs ≡ x ∷ y ∷ [])
two [] h = absurd (omega arith)
two (x ∷ []) h = absurd (omega arith)
two (x ∷ y ∷ []) h = (x, y, refl)
two (x ∷ y ∷ z ∷ xs) h = absurd (omega arith)

pub four :
    (xs : List ℕ)
    → length xs ≡ 4
    → (x : ℕ) × (y : ℕ) × (z : ℕ) × (v : ℕ) × (xs ≡ x ∷ y ∷ z ∷ v ∷ [])
four [] h = absurd (omega arith)
four (x ∷ []) h = absurd (omega arith)
four (x ∷ y ∷ xs) h = let (z, v, e) = two xs (omega arith) in (x, y, z, v, ap (λ ys. x ∷ y ∷ ys) e)

-- Each step of an operation that ends well, and the rest of it.
module _ {B : Type 0} (b : B) (l : Link) where
  pub two-next :
      (f : List ℕ → M B) (k : Option ℕ) (replies : List ℕ) (w : List (List ℕ)) (t : ℕ)
      → (read_exact 2 >>= f) (onto k replies w t) ≡ (ok b, l)
      → (x : ℕ) × (y : ℕ) × (rest : List ℕ) × (replies ≡ x ∷ y ∷ rest)
        × (f (x ∷ y ∷ []) (onto k rest w t) ≡ (ok b, l))
  unfolding ◌>>=◌
  two-next f k replies w t h =
      let (bytes, m, e, g) = ok-next (read_exact 2 (onto k replies w t)) f b l h in
      let (rest, size, whole, after) = read-ok 2 k replies w t bytes m e in
      let (x, y, s) = two bytes size in
      let given : f bytes (onto k rest w t) ≡ (ok b, l) =
        subst (λ m. f bytes m ≡ (ok b, l)) after g in
      (
        x,
        y,
        rest,
        subst (λ bs. replies ≡ bs ++ rest) s whole,
        subst (λ bs. f bs (onto k rest w t) ≡ (ok b, l)) s given,
      )

  pub four-next :
      (f : List ℕ → M B) (k : Option ℕ) (replies : List ℕ) (w : List (List ℕ)) (t : ℕ)
      → (read_exact 4 >>= f) (onto k replies w t) ≡ (ok b, l)
      → (x : ℕ) × (y : ℕ) × (z : ℕ) × (v : ℕ) × (rest : List ℕ) × (replies ≡ x ∷ y ∷ z ∷ v ∷ rest)
        × (f (x ∷ y ∷ z ∷ v ∷ []) (onto k rest w t) ≡ (ok b, l))
  unfolding ◌>>=◌
  four-next f k replies w t h =
      let (bytes, m, e, g) = ok-next (read_exact 4 (onto k replies w t)) f b l h in
      let (rest, size, whole, after) = read-ok 4 k replies w t bytes m e in
      let (x, y, z, v, s) = four bytes size in
      let given : f bytes (onto k rest w t) ≡ (ok b, l) =
        subst (λ m. f bytes m ≡ (ok b, l)) after g in
      (
        x,
        y,
        z,
        v,
        rest,
        subst (λ bs. replies ≡ bs ++ rest) s whole,
        subst (λ bs. f bs (onto k rest w t) ≡ (ok b, l)) s given,
      )

  pub Sends-next :
      (op : M (Unit {0})) (bytes : List ℕ) (f : M B) (m : Link)
      → Sends op bytes
      → (op >> f) m ≡ (ok b, l)
      → (bl : List (List ℕ)) × (k : Option ℕ) × (f (written_on m bl k) ≡ (ok b, l))
  unfolding ◌>>=◌
  Sends-next op bytes f m sends h =
      let (u, n, e, g) = ok-next (op m) (λ _. f) b l h in sent u n e g (sends m)
    where
      sent :
          (u : Unit {0}) (n : Link)
          → op m ≡ (ok u, n)
          → f n ≡ (ok b, l)
          → IsSentOf m (op m) bytes
          → (bl : List (List ℕ)) × (k : Option ℕ) × (f (written_on m bl k) ≡ (ok b, l))
      sent u n e g (bl, k, inl (e', whole)) =
          let same : n ≡ written_on m bl k = cc in (bl, k, subst (λ j. f j ≡ (ok b, l)) same g)
      sent u n e g (bl, k, inr (e', part)) =
          let wrong : (err (io write_failed), written_on m bl k) ≡ (ok u, n) = sym e' ∙ e in cc

  pub check_head-next :
      (k : M B) (x y : ℕ) (m : Link)
      → (check_head (x ∷ y ∷ []) >> k) m ≡ (ok b, l)
      → (x ≡ status_key) × (k m ≡ (ok b, l))
  unfolding ◌>>=◌
  check_head-next k x y m h =
      let (u, n, e, g) = ok-next (check_head (x ∷ y ∷ []) m) (λ _. k) b l h in
      let (key, same) = check_head-ok x y m n u e in
      (key, subst (λ j. k j ≡ (ok b, l)) (sym same) g)

  pub check_generation-next :
      (k : M B) (x y : ℕ) (m : Link)
      → (check_generation (x ∷ y ∷ []) >> k) m ≡ (ok b, l)
      → IsCurrent y × (k m ≡ (ok b, l))
  unfolding ◌>>=◌
  check_generation-next k x y m h =
      let (u, n, e, g) = ok-next (check_generation (x ∷ y ∷ []) m) (λ _. k) b l h in
      let (current, same) = check_generation-ok x y m n u e in
      (current, subst (λ j. k j ≡ (ok b, l)) (sym same) g)

  pub fail_if-next :
      (k : M B) (c : Bool) (e : Error) (m : Link)
      → (fail_if c e >> k) m ≡ (ok b, l)
      → (c ≡ false) × (k m ≡ (ok b, l))
  unfolding ◌>>=◌
  fail_if-next k true e m h = cc
  fail_if-next k false e m h = (refl, h)
