-- ===== src/Ap64/Backend/Coalescing.antt =====
-- `coalesce` of crates/ap64-cart/src/backend.rs: the runs have the effect of the writes, and stand apart.
use multi.Common.{
  ℕ, suc, ◌+◌, ◌^◌, ◌≤◌, ◌<◌, ◌≡◌, refl, sym, ap, subst, ◌∙◌, inl, inr, List, [], ◌∷◌, ◌++◌, length,
  length-append, All, true, false, Bool-cases, ltb, ◌==◌, if◌then◌else◌, arith,
}
use multi.Ap64.Backend.{
  Write, address, insert, insert_bytes, insert_writes, runs_from, runs, coalesce,
}
use multi.Ap64.Backend.Memory.{Memory, set, put_bytes, put_bytes-append, apply_writes}
use mathlib.Core.Path.{fun_ext}

-- Writes whose bytes have addresses below `size`, as `write_many` checks.
abbrev pub AreInside : ℕ → List Write → Type 0
AreInside size ws = All (λ w. w.0 + length w.1 ≤ size) ws

-- The memory that an ordered map of bytes is laid over.
unfoldable over : Memory → List (ℕ × ℕ) → Memory
over mem [] x = mem x
over mem ((k, v) ∷ m) x = if x == k then v else over mem m x

-- The keys ascend from `low` and are below `high`.
unfoldable Ascends : ℕ → ℕ → List (ℕ × ℕ) → Type 0
Ascends low high [] = Unit
Ascends low high ((k, v) ∷ m) = (low ≤ k) × (k < high) × Ascends (suc k) high m

over-insert :
    (mem : Memory) (a b : ℕ) (m : List (ℕ × ℕ)) (x : ℕ)
    → over mem (insert a b m) x ≡ set (over mem m) a b x
unfolding over insert
over-insert mem a b [] x = refl
over-insert mem a b ((k, v) ∷ m) x = elim (Bool-cases (ltb a k)) [
  | inl e ↦ rw e refl
  | inr e ↦ elim (Bool-cases (a == k)) [
    | inl e' ↦ rw (e, e') (ground arith)
    | inr e' ↦ rw (e, e', over-insert mem a b m x) (ground arith)
  ]
]

insert-Ascends :
    (a b low high : ℕ) (m : List (ℕ × ℕ))
    → low ≤ a
    → a < high
    → Ascends low high m
    → Ascends low high (insert a b m)
unfolding Ascends insert
insert-Ascends a b low high [] p q h = (p, q, tt)
insert-Ascends a b low high ((k, v) ∷ m) p q (h, h', rest) = elim (Bool-cases (ltb a k)) [
  | inl e ↦ rw e (p, q, (ground arith, h', rest))
  | inr e ↦ elim (Bool-cases (a == k)) [
    | inl e' ↦ rw (e, e') (h, h', rest)
    | inr e' ↦ rw (e, e') (h, h', insert-Ascends a b (suc k) high m (ground arith) q rest)
  ]
]

-- An address that does not wrap around.
address_lem : (addr i size : ℕ) → addr + i < size → size < 2 ^ 32 → address addr i ≡ addr + i
address_lem addr i size h k = omega arith

insert_bytes_lem :
    (mem : Memory) (size addr i : ℕ) (bs : List ℕ) (m : List (ℕ × ℕ))
    → size < 2 ^ 32
    → addr + i + length bs ≤ size
    → Ascends 0 size m
    → (over mem (insert_bytes addr i bs m) ≡ put_bytes (over mem m) (addr + i) bs)
      × Ascends 0 size (insert_bytes addr i bs m)
unfolding insert_bytes
insert_bytes_lem mem size addr i [] m small h asc = (refl, asc)
insert_bytes_lem mem size addr i (b ∷ bs) m small h asc =
    let here : address addr i ≡ addr + i = address_lem addr i size (omega (arith, h)) small in
    let added = insert-Ascends (addr + i) b 0 size m (omega arith) (omega (arith, h)) asc in
    let (same, ordered) =
      insert_bytes_lem mem size addr (suc i) bs (insert (addr + i) b m) small (omega (arith, h))
        added in
    let after : addr + suc i ≡ suc (addr + i) = omega arith in
    let laid : over mem (insert (addr + i) b m) ≡ set (over mem m) (addr + i) b =
      fun_ext (λ x. over-insert mem (addr + i) b m x) in
    (
      rw here (
          same
          ∙ ap (λ k. put_bytes (over mem (insert (addr + i) b m)) k bs) after
          ∙ ap (λ f. put_bytes f (suc (addr + i)) bs) laid),
      rw here ordered,
    )

insert_writes_lem :
    (mem : Memory) (size : ℕ) (ws : List Write) (m : List (ℕ × ℕ))
    → size < 2 ^ 32
    → AreInside size ws
    → Ascends 0 size m
    → (over mem (insert_writes ws m) ≡ apply_writes (over mem m) ws)
      × Ascends 0 size (insert_writes ws m)
unfolding insert_writes apply_writes
insert_writes_lem mem size [] m small h asc = (refl, asc)
insert_writes_lem mem size ((addr, bs) ∷ ws) m small (h, hs) asc =
    let first = insert_bytes_lem mem size addr 0 bs m small (omega (arith, h)) asc in
    let rest = insert_writes_lem mem size ws (insert_bytes addr 0 bs m) small hs first.1 in
    let start : addr + 0 ≡ addr = omega arith in
    (
      rest.0 ∙ ap (λ f. apply_writes f ws) (first.0 ∙ ap (λ k. put_bytes (over mem m) k bs) start),
      rest.1,
    )

-- The entries written one by one.
unfoldable one_by_one : Memory → List (ℕ × ℕ) → Memory
one_by_one mem [] = mem
one_by_one mem ((k, v) ∷ m) = one_by_one (set mem k v) m

over-below :
    (mem : Memory) (low high : ℕ) (m : List (ℕ × ℕ)) (x : ℕ)
    → x < low
    → Ascends low high m
    → over mem m x ≡ mem x
unfolding over Ascends
over-below mem low high [] x h asc = refl
over-below mem low high ((k, v) ∷ m) x h (p, q, asc) =
    let apart : (x == k) ≡ false = ground arith in
    rw apart (over-below mem (suc k) high m x (omega (arith, h, p)) asc)

over-set :
    (mem : Memory) (k v : ℕ) (m : List (ℕ × ℕ)) (x : ℕ)
    → (x == k) ≡ false
    → over (set mem k v) m x ≡ over mem m x
unfolding over
over-set mem k v [] x h = rw h refl
over-set mem k v ((k', v') ∷ m) x h = ap (λ y. if x == k' then v' else y) (over-set mem k v m x h)

one_by_one-over :
    (mem : Memory) (low high : ℕ) (m : List (ℕ × ℕ))
    → Ascends low high m
    → (x : ℕ) → one_by_one mem m x ≡ over mem m x
unfolding one_by_one over Ascends
one_by_one-over mem low high [] asc x = refl
one_by_one-over mem low high ((k, v) ∷ m) (p, q, asc) x =
    let rest = one_by_one-over (set mem k v) (suc k) high m asc x in
    elim (Bool-cases (x == k)) [
      | inl e ↦
          let below = over-below (set mem k v) (suc k) high m x (ground arith) asc in
          rw e (rest ∙ below ∙ (rw e refl))
      | inr e ↦ rw e (rest ∙ over-set mem k v m x e)
    ]

-- Runs that ascend from `low`, none of them empty and no two of them touching, below `high`.
unfoldable pub AreApart : ℕ → ℕ → List Write → Type 0
AreApart low high [] = Unit
AreApart low high ((start, run) ∷ rs) =
    (low ≤ start)
    × (1 ≤ length run)
    × (start + length run ≤ high)
    × AreApart (suc (start + length run)) high rs

runs_from-join :
    (start : ℕ) (run : List ℕ) (a b : ℕ) (m : List (ℕ × ℕ))
    → (address start (length run) == a) ≡ true
    → runs_from start run ((a, b) ∷ m) ≡ runs_from start (run ++ (b ∷ [])) m
unfolding runs_from
runs_from-join start run a b m e =
    ap
      (λ t. elim t as (λ x. List Write) [
        | true ↦ runs_from start (run ++ (b ∷ [])) m
        | false ↦ (start, run) ∷ runs_from a (b ∷ []) m
      ])
      e

runs_from-another :
    (start : ℕ) (run : List ℕ) (a b : ℕ) (m : List (ℕ × ℕ))
    → (address start (length run) == a) ≡ false
    → runs_from start run ((a, b) ∷ m) ≡ (start, run) ∷ runs_from a (b ∷ []) m
unfolding runs_from
runs_from-another start run a b m e =
    ap
      (λ t. elim t as (λ x. List Write) [
        | true ↦ runs_from start (run ++ (b ∷ [])) m
        | false ↦ (start, run) ∷ runs_from a (b ∷ []) m
      ])
      e

runs_from-end :
    (mem : Memory) (start : ℕ) (run : List ℕ)
    → apply_writes mem (runs_from start run []) ≡ put_bytes mem start run
unfolding runs_from apply_writes
runs_from-end mem start run = refl

apply_writes-cons :
    (mem : Memory) (start : ℕ) (run : List ℕ) (ws : List Write)
    → apply_writes mem ((start, run) ∷ ws) ≡ apply_writes (put_bytes mem start run) ws
unfolding apply_writes
apply_writes-cons mem start run ws = refl

only : (start : ℕ) (run : List ℕ) → runs_from start run [] ≡ (start, run) ∷ []
unfolding runs_from
only start run = refl

-- What is known while the last run grows.
abbrev Growing : ℕ → ℕ → List ℕ → List (ℕ × ℕ) → Type 0
Growing start high run m =
    (high < 2 ^ 32)
    × (1 ≤ length run)
    × (start + length run ≤ high)
    × Ascends (start + length run) high m

grown :
    (start high : ℕ) (run : List ℕ) (a b : ℕ) (m : List (ℕ × ℕ))
    → Growing start high run ((a, b) ∷ m)
    → (address start (length run) == a) ≡ true
    → (a ≡ start + length run) × Growing start high (run ++ (b ∷ [])) m
unfolding Ascends
grown start high run a b m (small, some_bytes, h, (p, q, asc)) e =
    let end : address start (length run) ≡ start + length run = omega (arith, h, small) in
    let next : a ≡ start + length run = ground arith in
    let size : start + length (run ++ (b ∷ [])) ≡ suc a =
      omega (arith, next, length-append run (b ∷ [])) in
    (
      next,
      (
        small,
        omega (arith, length-append run (b ∷ [])),
        omega (arith, size, q),
        subst (λ k. Ascends k high m) (sym size) asc,
      ),
    )

another :
    (start high : ℕ) (run : List ℕ) (a b : ℕ) (m : List (ℕ × ℕ))
    → Growing start high run ((a, b) ∷ m)
    → (address start (length run) == a) ≡ false
    → (start + length run < a) × Growing a high (b ∷ []) m
unfolding Ascends
another start high run a b m (small, some_bytes, h, (p, q, asc)) e =
    let end : address start (length run) ≡ start + length run = omega (arith, h, small) in
    let size : a + 1 ≡ suc a = omega arith in
    (
      ground arith,
      (small, omega arith, omega (arith, q), subst (λ k. Ascends k high m) (sym size) asc),
    )

runs_from_lem :
    (mem : Memory) (start high : ℕ) (run : List ℕ) (m : List (ℕ × ℕ))
    → Growing start high run m
    → apply_writes mem (runs_from start run m) ≡ one_by_one (put_bytes mem start run) m
unfolding one_by_one
runs_from_lem mem start high run [] h = runs_from-end mem start run
runs_from_lem mem start high run ((a, b) ∷ m) h =
    elim (Bool-cases (address start (length run) == a)) [
      | inl e ↦
          let (next, h') = grown start high run a b m h e in
          ap (apply_writes mem) (runs_from-join start run a b m e)
          ∙ runs_from_lem mem start high (run ++ (b ∷ [])) m h'
          ∙ ap (λ f. one_by_one f m)
              (put_bytes-append mem start run (b ∷ [])
                ∙ ap (λ k. set (put_bytes mem start run) k b) (sym next))
      | inr e ↦
          ap (apply_writes mem) (runs_from-another start run a b m e)
          ∙ apply_writes-cons mem start run (runs_from a (b ∷ []) m)
          ∙ runs_from_lem (put_bytes mem start run) a high (b ∷ []) m
              (another start high run a b m h e).1
    ]

runs_from-AreApart :
    (low start high : ℕ) (run : List ℕ) (m : List (ℕ × ℕ))
    → low ≤ start
    → Growing start high run m
    → AreApart low high (runs_from start run m)
unfolding AreApart
runs_from-AreApart low start high run [] l (small, some_bytes, h, asc) = by_end
  where
    by_end : AreApart low high (runs_from start run [])
    by_end = subst (AreApart low high) (sym (only start run)) (l, some_bytes, h, tt)
runs_from-AreApart low start high run ((a, b) ∷ m) l h =
    elim (Bool-cases (address start (length run) == a)) [
      | inl e ↦ subst (AreApart low high) (sym (runs_from-join start run a b m e)) (
          runs_from-AreApart low start high (run ++ (b ∷ [])) m l
            (grown start high run a b m h e).1)
      | inr e ↦
          let (apart, h') = another start high run a b m h e in
          subst (AreApart low high) (sym (runs_from-another start run a b m e))
            (l, h.1, h.2, runs_from-AreApart (suc (start + length run)) a high (b ∷ []) m apart h')
    ]

nothing : (mem : Memory) (x : ℕ) → apply_writes mem [] x ≡ over mem [] x
unfolding apply_writes over
nothing mem x = refl

-- The runs of an ordered map.
runs_lem :
    (mem : Memory) (high : ℕ) (m : List (ℕ × ℕ))
    → high < 2 ^ 32
    → Ascends 0 high m
    → ((x : ℕ) → apply_writes mem (runs m) x ≡ over mem m x) × AreApart 0 high (runs m)
unfolding runs Ascends AreApart one_by_one
runs_lem mem high [] small asc = (λ x. nothing mem x, tt)
runs_lem mem high ((a, b) ∷ m) small (p, q, asc) =
    let size : suc a ≡ a + 1 = omega arith in
    let growing : Growing a high (b ∷ []) m =
      (small, omega arith, omega (arith, q), subst (λ k. Ascends k high m) size asc) in
    (
      λ x.
          ap (λ f. f x) (runs_from_lem mem a high (b ∷ []) m growing)
          ∙ one_by_one-over mem 0 high ((a, b) ∷ m) (p, q, asc) x,
      runs_from-AreApart 0 a high (b ∷ []) m (omega arith) growing,
    )

-- Writes of addresses below `size`, a u32, and the runs that `coalesce` makes of them have one effect on every memory; the
-- runs ascend, none is empty, no two of them touch, and they end at `size` at the latest.
pub coalesce-AreApart :
    (mem : Memory) (size : ℕ) (ws : List Write)
    → size < 2 ^ 32
    → AreInside size ws
    → (apply_writes mem (coalesce ws) ≡ apply_writes mem ws) × AreApart 0 size (coalesce ws)
unfolding coalesce Ascends over
coalesce-AreApart mem size ws small h =
    let (same, asc) = insert_writes_lem mem size ws [] small h tt in
    let (effect, apart) = runs_lem mem size (insert_writes ws []) small asc in
    (fun_ext (λ x. effect x ∙ ap (λ f. f x) same), apart)
