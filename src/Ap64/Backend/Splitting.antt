-- ===== src/Ap64/Backend/Splitting.antt =====
-- `split` and `stitch` of crates/ap64-cart/src/backend.rs: what regions are cut into, and how the blocks read for them are joined.
use multi.Common.{
  ℕ, zero, suc, ◌+◌, ◌-◌, ◌%◌, ◌^◌, ◌≤◌, ◌<◌, min, ◌≡◌, refl, sym, ap, ◌∙◌, ◌⊎◌, inl, inr, List, [],
  ◌∷◌, ◌++◌, map, some, length, All, All-append, subst, Result, Result-cases, ok, err, Bool-cases,
  ltb, ltb→lt, ltb→le, arith,
}
use multi.Ap64.M64p.{Region, max_region_bytes}
use multi.Ap64.Backend.{BackendError, outside, address, split_region, split, join_blocks, stitch}
use multi.Ap64.Backend.Memory.{Memory, block, block_of, block-append}
use multi.Ap64.Backend.Requests.{flatten, IsIn, IsAllowed}

abbrev pub IsShort : Region → Type 0
IsShort r = r.len ≤ max_region_bytes

abbrev pub blocks : Memory → List Region → List (List ℕ)
blocks mem rs = map (block_of mem) rs

-- What a region is cut into is the region, and short.
pub split_region_lem :
    (mem : Memory) (fuel addr len done size : ℕ)
    → len ≤ done + fuel
    → done ≤ len
    → addr + len ≤ size
    → size < 2 ^ 32
    → (flatten (blocks mem (split_region fuel addr len done))
        ≡ block mem (addr + done) (len - done))
      × All IsShort (split_region fuel addr len done)
unfolding split_region
split_region_lem mem zero addr len done size h k inside small =
    let gone : len - done ≡ 0 = omega arith in (ap (block mem (addr + done)) (sym gone), tt)
split_region_lem mem (suc fuel) addr len done size h k inside small =
    elim (Bool-cases (ltb done len)) [
      | inl e ↦
          let part : done < len = ltb→lt done len e in
          let n = min (len - done) max_region_bytes in
          let (cut, short) =
            split_region_lem mem fuel addr len (done + n) size (omega (arith, part, h))
              (omega (arith, part)) inside small in
          let size_of : n % 2 ^ 16 ≡ n = omega arith in
          let here : address addr done ≡ addr + done = omega (arith, part, inside, small) in
          let next : addr + (done + n) ≡ addr + done + n = omega arith in
          let whole : n + (len - (done + n)) ≡ len - done = omega (arith, part) in
          let joined : block mem (addr + done) n ++ block mem (addr + (done + n)) (len - (done + n))
              ≡ block mem (addr + done) (len - done) =
            ap (λ k. block mem (addr + done) n ++ block mem k (len - (done + n))) next
            ∙ sym (block-append mem (addr + done) n (len - (done + n)))
            ∙ ap (block mem (addr + done)) whole in
          rw (e, size_of, here)
            (ap (λ ys. block mem (addr + done) n ++ ys) cut ∙ joined, (omega arith, short))
      | inr e ↦
          let whole : len ≤ done = ltb→le done len e in
          let gone : len - done ≡ 0 = omega (arith, whole) in
          rw e (ap (block mem (addr + done)) (sym gone), tt)
    ]

abbrev pub IsAllowedRead : ℕ → List Region → Type 0
IsAllowedRead size batch = IsAllowed Region.addr Region.len size batch

abbrev pub Inside : ℕ → Region → Type 0
Inside size r = IsIn Region.addr Region.len size r

pub split_region-IsIn :
    (fuel addr len done size : ℕ)
    → addr + len ≤ size
    → size < 2 ^ 32
    → All (Inside size) (split_region fuel addr len done)
unfolding split_region
split_region-IsIn zero addr len done size inside small = tt
split_region-IsIn (suc fuel) addr len done size inside small = elim (Bool-cases (ltb done len)) [
  | inl e ↦
      let part : done < len = ltb→lt done len e in
      let n = min (len - done) max_region_bytes in
      let size_of : n % 2 ^ 16 ≡ n = omega arith in
      let here : address addr done ≡ addr + done = omega (arith, part, inside, small) in
      rw (e, size_of, here)
        (
          (omega (arith, part, inside), omega arith),
          split_region-IsIn fuel addr len (done + n) size inside small,
        )
  | inr e ↦ rw e tt
]

pub split-IsIn :
    (E : Type 0) (size : ℕ) (regions : List (ℕ × ℕ)) (parts : List Region × List ℕ)
    → size < 2 ^ 32
    → ◌≡◌ {A = Result (BackendError E) (List Region × List ℕ)} (split size regions) (ok parts)
    → All (Inside size) parts.0
unfolding split
split-IsIn E size [] parts small h =
    let same : ([], []) ≡ parts = cc in subst (λ p. All (Inside size) p.0) same tt
split-IsIn E size ((addr, len) ∷ regions) parts small h =
    elim (Bool-cases (ltb size (addr + len))) [
      | inl e ↦
          let stopped : ◌≡◌ {A = Result (BackendError E) (List Region × List ℕ)}
              (err (outside addr (addr + len) size)) (ok parts) =
            rw e at h in
          cc
      | inr e ↦ elim (Result-cases (split {E = E} size regions)) [
        | inr (x, q) ↦
            let stopped : ◌≡◌ {A = Result (BackendError E) (List Region × List ℕ)} (err x)
                (ok parts) =
              rw (e, q) at h in
            cc
        | inl (rest, q) ↦
            let cs = split_region len addr len 0 in
            let found : ◌≡◌ {A = Result (BackendError E) (List Region × List ℕ)}
                (ok (cs ++ rest.0, length cs ∷ rest.1)) (ok parts) =
              rw (e, q) at h in
            let same : (cs ++ rest.0, length cs ∷ rest.1) ≡ parts = cc in
            subst (λ p. All (Inside size) p.0) same
              (All-append (Inside size) cs rest.0
                (split_region-IsIn len addr len 0 size (ltb→le size (addr + len) e) small)
                (split-IsIn E size regions rest small q))
      ]
    ]

-- The blocks of one region taken from those of all.
pub join_blocks_lem :
    (bs rest : List (List ℕ)) → join_blocks (length bs) (bs ++ rest) ≡ some (flatten bs, rest)
unfolding join_blocks
join_blocks_lem [] rest = refl
join_blocks_lem (b ∷ bs) rest = rw (join_blocks_lem bs rest) refl

pub map-append :
    (mem : Memory) (xs ys : List Region) → blocks mem (xs ++ ys) ≡ blocks mem xs ++ blocks mem ys
map-append mem [] ys = refl
map-append mem (x ∷ xs) ys = ap (λ zs. block_of mem x ∷ zs) (map-append mem xs ys)

pub length-blocks : (mem : Memory) (rs : List Region) → length (blocks mem rs) ≡ length rs
length-blocks mem [] = refl
length-blocks mem (r ∷ rs) = ap suc (length-blocks mem rs)

pub add_zero : (n : ℕ) → n + 0 ≡ n
add_zero n = omega arith

pub minus_zero : (n : ℕ) → n - 0 ≡ n
minus_zero n = omega arith

-- What was asked for.
abbrev pub asked : Memory → List (ℕ × ℕ) → List (List ℕ)
asked mem regions = map (λ r. block mem r.0 r.1) regions

abbrev pub AreReadable : ℕ → List (ℕ × ℕ) → Type 0
AreReadable size regions = All (λ r. r.0 + r.1 ≤ size) regions

module _ (E : Type 0) where
  abbrev pub Parts : Type 0
  Parts = List Region × List ℕ

  -- That parts are short, and their blocks are stitched to those asked for.
  abbrev pub IsSplit : Memory → List (ℕ × ℕ) → Parts → Type 0
  IsSplit mem regions parts =
      All IsShort parts.0
      × (◌≡◌ {A = Result (BackendError E) (List (List ℕ))} (stitch (blocks mem parts.0) parts.1)
          (ok (asked mem regions)))

  pub stitch-cons :
      (mem : Memory) (cs : List Region) (addr len : ℕ) (regions : List (ℕ × ℕ)) (parts : Parts)
      → flatten (blocks mem cs) ≡ block mem addr len
      → IsSplit mem regions parts
      → ◌≡◌ {A = Result (BackendError E) (List (List ℕ))}
          (stitch (blocks mem (cs ++ parts.0)) (length cs ∷ parts.1))
          (ok (asked mem ((addr, len) ∷ regions)))
  unfolding stitch
  stitch-cons mem cs addr len regions parts cut (short, joined) =
      let first : join_blocks (length cs) (blocks mem (cs ++ parts.0))
          ≡ some (flatten (blocks mem cs), blocks mem parts.0) =
        ap (λ n. join_blocks n (blocks mem (cs ++ parts.0))) (sym (length-blocks mem cs))
        ∙ ap (join_blocks (length (blocks mem cs))) (map-append mem cs parts.0)
        ∙ join_blocks_lem (blocks mem cs) (blocks mem parts.0) in
      rw (first, joined, cut) refl

  pub stitch-nil : ◌≡◌ {A = Result (BackendError E) (List (List ℕ))} (stitch [] []) (ok [])
  unfolding stitch
  stitch-nil = refl

  pub split_lem :
      (mem : Memory) (size : ℕ) (regions : List (ℕ × ℕ))
      → size < 2 ^ 32
      → ((parts : Parts) × AreReadable size regions
          × (◌≡◌ {A = Result (BackendError E) Parts} (split size regions) (ok parts))
          × IsSplit mem regions parts)
        ⊎ ((addr : ℕ) × (end : ℕ) × (◌≡◌ {A = Result (BackendError E) Parts}
              (split size regions)
              (err (outside addr end size)))
            × (size < end))
  unfolding split
  split_lem mem size [] small = inl (([], []), tt, refl, (tt, stitch-nil))
  split_lem mem size ((addr, len) ∷ regions) small = elim (Bool-cases (ltb size (addr + len))) [
    | inl e ↦ inr (addr, addr + len, (rw e refl), ltb→lt size (addr + len) e)
    | inr e ↦ elim (split_lem mem size regions small) [
      | inr (a, end, refused, h) ↦ inr (a, end, (rw (e, refused) refl), h)
      | inl (parts, readable, done, parted) ↦
          let inside : addr + len ≤ size = ltb→le size (addr + len) e in
          let (cut, short) =
            split_region_lem mem len addr len 0 size (omega arith) (omega arith) inside small in
          let start : block mem (addr + 0) (len - 0) ≡ block mem addr len =
            rw (add_zero addr, minus_zero len) refl in
          let cs = split_region len addr len 0 in
          inl (
            (cs ++ parts.0, length cs ∷ parts.1),
            (inside, readable),
            (rw (e, done) refl),
            (
              All-append IsShort cs parts.0 short parted.0,
              stitch-cons mem cs addr len regions parts (cut ∙ start) parted,
            ),
          )
    ]
  ]
