-- ===== src/Xfer64/CloseGuard/Ordering.antt =====
-- The order of the reports does not matter to the guard.
use multi.Common.{
  ℕ, ◌≤◌, ◌≡◌, ◌≢◌, refl, sym, ap, subst, ◌∙◌, List, [], ◌∷◌, Option, none, some, Bool, true, false,
  ◌⊎◌, arith, All, inl, inr,
}
use multi.Xfer64.CloseGuard.{Label, Status, get, alter, or_default, Inner, default_inner, busy}
use multi.Xfer64.CloseGuard.Windows.{Distinct, alter-Distinct, any_busy-get, get-any_busy}
use multi.Xfer64.CloseGuard.Reports.{
  Report, report, reports, held_of, IsNoNewer, IsAmong, IsLatest, forget_held-windows,
  set_busy-cases, reports-IsLatestSince,
}

-- Two histories with the same reports, in any order and any number of times.
abbrev pub IsSameReports : List Report → List Report → Type 0
IsSameReports rs ss = All (λ r. IsAmong r ss) rs × All (λ r. IsAmong r rs) ss

All-IsAmong : (P : Report → Type 0) (rs : List Report) (r : Report) → All P rs → IsAmong r rs → P r
All-IsAmong P [] r ps m = absurd m
All-IsAmong P (x ∷ xs) r (p, ps) (inl e) = subst P e p
All-IsAmong P (x ∷ xs) r (p, ps) (inr m) = All-IsAmong P xs r ps m

-- Two reports of a window with one number say the same.
abbrev pub IsAgreed : Report → Report → Type 0
IsAgreed r s = (r.window ≢ s.window) ⊎ ((r.seq ≢ s.seq) ⊎ (r.under_way ≡ s.under_way))

-- A number is used for one report of a window.
abbrev pub IsNumbered : List Report → Type 0
IsNumbered rs = All (λ r. All (IsAgreed r) rs) rs

latest_order :
    (w : Label) (rs ss : List Report) (v u : Status)
    → IsLatest w rs v
    → IsLatest w ss u
    → All (λ r. IsAmong r ss) rs
    → v.0 ≤ u.0
latest_order w rs ss v u (below, last, inl same) l m = rw same (omega arith)
latest_order w rs ss v u (below, last, inr found) (none_newer, _, _) m =
    let newest : Report = record { window = w; seq = v.0; under_way = v.1 } in
    let there = All-IsAmong (λ r. IsAmong r ss) rs newest m found in
    elim (All-IsAmong (IsNoNewer w u.0) ss newest none_newer there) [
      | inl other ↦ absurd (other refl)
      | inr h ↦ h
    ]

Status_ext : (v u : Status) → v.0 ≡ u.0 → v.1 ≡ u.1 → v ≡ u
Status_ext (n, b) (m, c) p q = rw (p, q) refl

latest_unique :
    (w : Label) (rs ss : List Report) (v u : Status)
    → All (λ r. 1 ≤ r.seq) rs
    → All (λ r. 1 ≤ r.seq) ss
    → IsNumbered rs
    → IsSameReports rs ss
    → IsLatest w rs v
    → IsLatest w ss u
    → v.0 ≡ u.0
    → v ≡ u
latest_unique w rs ss v u p q n (there, back) (_, _, inl a) (_, _, inl b) h = a ∙ sym b
latest_unique w rs ss v u p q n (there, back) (_, _, inl a) (_, _, inr found) h =
    let one : 1 ≤ u.0 = All-IsAmong (λ r. 1 ≤ r.seq) ss _ q found in
    let zero_seq : v.0 ≡ 0 = ap (λ s. s.0) a in absurd (omega (arith, one, zero_seq, h))
latest_unique w rs ss v u p q n (there, back) (_, _, inr found) (_, _, inl b) h =
    let one : 1 ≤ v.0 = All-IsAmong (λ r. 1 ≤ r.seq) rs _ p found in
    let zero_seq : u.0 ≡ 0 = ap (λ s. s.0) b in absurd (omega (arith, one, zero_seq, h))
latest_unique w rs ss v u p q n (there, back) (_, _, inr found) (_, _, inr other) h =
    let mine : Report = record { window = w; seq = v.0; under_way = v.1 } in
    let yours : Report = record { window = w; seq = u.0; under_way = u.1 } in
    let also = All-IsAmong (λ r. IsAmong r rs) ss yours back other in
    elim (All-IsAmong (IsAgreed mine) rs yours
      (All-IsAmong (λ r. All (IsAgreed r) rs) rs mine n found) also) [
        | inl differ ↦ absurd (differ refl)
        | inr (inl differ) ↦ absurd (differ h)
        | inr (inr agree) ↦ Status_ext v u h agree
      ]

order_eq : {n m : ℕ} → n ≤ m → m ≤ n → n ≡ m
order_eq p q = omega arith

-- The order in which reports arrive does not matter to what the guard holds of a window.
pub reports_order :
    (w : Label) (rs ss : List Report)
    → All (λ r. 1 ≤ r.seq) rs
    → All (λ r. 1 ≤ r.seq) ss
    → IsNumbered rs
    → IsSameReports rs ss
    → held_of w (reports default_inner rs) ≡ held_of w (reports default_inner ss)
unfolding get
reports_order w rs ss p q n (there, back) =
    let l = reports-IsLatestSince w rs default_inner in
    let m = reports-IsLatestSince w ss default_inner in
    let same = order_eq (latest_order w rs ss _ _ l m there) (latest_order w ss rs _ _ m l back) in
    latest_unique w rs ss _ _ p q n (there, back) l m same

report-Distinct : (g : Inner) (r : Report) → Distinct g.windows → Distinct (report g r).windows
report-Distinct g r d =
    let known = alter-Distinct or_default r.window g.windows d in
    elim (set_busy-cases r.window r.seq r.under_way g) [
      | inl (old, e) ↦ rw (report, e) known
      | inr (new, e) ↦
          let taken =
            alter (λ _. (r.seq, r.under_way)) r.window (alter or_default r.window g.windows) in
          rw (report, e, forget_held-windows (record g { windows = taken }))
            (alter-Distinct (λ _. (r.seq, r.under_way)) r.window
              (alter or_default r.window g.windows) known)
    ]

pub reports-Distinct :
    (rs : List Report) (g : Inner) → Distinct g.windows → Distinct (reports g rs).windows
reports-Distinct [] g d = d
reports-Distinct (r ∷ rs) g d = reports-Distinct rs (report g r) (report-Distinct g r d)

or_default-busy : (o : Option Status) (seq : ℕ) → or_default o ≡ (seq, true) → o ≡ some (seq, true)
or_default-busy none seq h = let idle : false ≡ true = ap (λ s. s.1) h in cc
or_default-busy (some s) seq h = ap some h

-- A window that is busy in one is busy in the other.
busy_in_other :
    (g k : Inner)
    → Distinct g.windows
    → ((w : Label) → held_of w g ≡ held_of w k)
    → busy g ≡ true
    → busy k ≡ true
busy_in_other g k d same h =
    let (w, seq, e) = any_busy-get g.windows d h in
    let there : held_of w k ≡ (seq, true) = sym (same w) ∙ ap or_default e in
    get-any_busy k.windows w seq (or_default-busy (get w k.windows) seq there)

both_or_neither : {a b : Bool} → (a ≡ true → b ≡ true) → (b ≡ true → a ≡ true) → a ≡ b
both_or_neither {a = true} f g = sym (f refl)
both_or_neither {a = false} {b = true} f g = g refl
both_or_neither {a = false} {b = false} f g = refl

-- Two histories with the same reports, in any order and with any repeated, leave the guard busy alike. The sequence
-- numbers are 1 at least, and two reports of a window with one number say the same.
pub busy-reports_order :
    (rs ss : List Report)
    → All (λ r. 1 ≤ r.seq) rs
    → All (λ r. 1 ≤ r.seq) ss
    → IsNumbered rs
    → IsSameReports rs ss
    → busy (reports default_inner rs) ≡ busy (reports default_inner ss)
busy-reports_order rs ss p q n m =
    let same : (w : Label)
        → held_of w (reports default_inner rs) ≡ held_of w (reports default_inner ss) =
      λ w. reports_order w rs ss p q n m in
    let g = reports default_inner rs in
    let k = reports default_inner ss in
    both_or_neither (busy_in_other g k (reports-Distinct rs default_inner tt) same)
      (busy_in_other k g (reports-Distinct ss default_inner tt) (λ w. sym (same w)))
