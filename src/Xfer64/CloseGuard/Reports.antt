-- ===== src/Xfer64/CloseGuard/Reports.antt =====
-- Reports that arrive in any order: the guard holds the latest of each window.
use multi.Common.Keys.{same_key, same_key-ne, same_key_eq}
use multi.Common.{
  ℕ, ◌≤◌, ◌≡◌, ◌≢◌, refl, sym, ap, subst, List, [], ◌∷◌, Option, some, Bool, false, leb, ◌⊎◌, arith,
  All, Bool-cases, inl, inr,
}
use multi.Xfer64.CloseGuard.{
  Label, Status, Windows, get, alter, or_default, Inner, busy, forget_held, recorded, set_busy,
}
use multi.Xfer64.CloseGuard.Windows.{get-alter, get_other-alter}

-- A window's report: its label, the sequence number, and whether it is busy.
pub record Report : Type 0 where
  pub window : Label
  pub seq : ℕ
  pub under_way : Bool

abbrev pub report : Inner → Report → Inner
report g r = (set_busy r.window r.seq r.under_way g).1

-- The reports in the order in which they arrive.
abbrev pub reports : Inner → List Report → Inner
reports g [] = g
reports g (r ∷ rs) = reports (report g r) rs

-- What the guard holds of a window.
abbrev pub held_of : Label → Inner → Status
held_of w g = or_default (get w g.windows)

-- A report of the window is no newer than the number.
abbrev pub IsNoNewer : Label → ℕ → Report → Type 0
IsNoNewer w n r = (r.window ≢ w) ⊎ (r.seq ≤ n)

-- One of the reports.
abbrev pub IsAmong : Report → List Report → Type 0
IsAmong r [] = ⊥
IsAmong r (x ∷ xs) = (x ≡ r) ⊎ IsAmong r xs

-- The newest report of the window, or what it said before them when none is newer.
abbrev pub IsLatestSince : Status → Label → List Report → Status → Type 0
IsLatestSince s w rs v =
    All (IsNoNewer w v.0) rs
    × (s.0 ≤ v.0)
    × ((v ≡ s) ⊎ IsAmong (record { window = w; seq = v.0; under_way = v.1 }) rs)

-- The newest report of the window; a window that has not reported is idle.
abbrev pub IsLatest : Label → List Report → Status → Type 0
IsLatest = IsLatestSince (0, false)

pub forget_held-windows : (g : Inner) → (forget_held g).windows ≡ g.windows
forget_held-windows g = elim (Bool-cases (busy g)) [ inl e ↦ rw e refl | inr e ↦ rw e refl ]

-- The report is taken or is not.
pub set_busy-cases :
    (w : Label) (seq : ℕ) (b : Bool) (g : Inner)
    → ((seq ≤ (held_of w g).0)
        × (set_busy w seq b g ≡ (false, record g { windows = alter or_default w g.windows })))
      ⊎ (((held_of w g).0 ≤ seq)
          × (set_busy w seq b g
              ≡ recorded (
                  forget_held (record g {
                    windows = alter (λ _. (seq, b)) w (alter or_default w g.windows);
                  }))))
unfolding set_busy
set_busy-cases w seq b g =
    let there = get-alter or_default w g.windows in
    elim (Bool-cases (leb seq (held_of w g).0)) [
      | inl e ↦ inl (ground arith, rw (there, e) refl)
      | inr e ↦ inr (ground arith, rw (there, e) refl)
    ]

or_default-or_default : (o : Option Status) → or_default (some (or_default o)) ≡ or_default o
or_default-or_default o = refl

held_of-alter_default :
    (u w : Label) (ws : Windows)
    → or_default (get u (alter or_default w ws)) ≡ or_default (get u ws)
held_of-alter_default u w ws = elim (Bool-cases (same_key w u)) [
  | inl e ↦
      rw (sym (same_key_eq w u e), get-alter or_default w ws) (or_default-or_default (get w ws))
  | inr e ↦ ap or_default (get_other-alter or_default w u ws e)
]

report-held_of :
    (w : Label) (g : Inner) (r : Report)
    → ((held_of w (report g r) ≡ held_of w g) × IsNoNewer w (held_of w g).0 r)
      ⊎ ((r.window ≡ w)
          × (held_of w (report g r) ≡ (r.seq, r.under_way))
          × ((held_of w g).0 ≤ r.seq))
report-held_of w g r = elim (set_busy-cases r.window r.seq r.under_way g) [
  | inl (old, e) ↦
      let same = held_of-alter_default w r.window g.windows in
      elim (Bool-cases (same_key r.window w)) [
        | inl p ↦ inl (rw (report, e) same, inr (rw (same_key_eq r.window w p) at old))
        | inr p ↦ inl (rw (report, e) same, inl (same_key-ne r.window w p))
      ]
  | inr (new, e) ↦
      let known = alter or_default r.window g.windows in
      let taken = alter (λ _. (r.seq, r.under_way)) r.window known in
      let whole = forget_held-windows (record g { windows = taken }) in
      elim (Bool-cases (same_key r.window w)) [
        | inl p ↦
            let mine = same_key_eq r.window w p in
            inr (
              mine,
              rw (report, e, whole, sym mine, get-alter (λ _. (r.seq, r.under_way)) r.window known)
                  refl,
              rw mine at new,
            )
        | inr p ↦ inl (
          rw (report, e, whole, get_other-alter (λ _. (r.seq, r.under_way)) r.window w known p)
              (held_of-alter_default w r.window g.windows),
          inl (same_key-ne r.window w p),
        )
      ]
]

this_report :
    {r : Report} {w : Label} {v : Status}
    → r.window ≡ w
    → v ≡ (r.seq, r.under_way)
    → r ≡ record { window = w; seq = v.0; under_way = v.1 }
this_report {r = r} mine same = rw (sym mine, same) refl

module _ (w : Label) (r : Report) (rs : List Report) (v : Status) where
  up_to : (s : Status) → IsNoNewer w s.0 r → s.0 ≤ v.0 → IsNoNewer w v.0 r
  up_to s (inl other) h = inl other
  up_to s (inr old) h = inr (omega arith)

  later-not_taken :
      (s : Status) → IsNoNewer w s.0 r → IsLatestSince s w rs v → IsLatestSince s w (r ∷ rs) v
  later-not_taken s n (below, last, inl same) = ((up_to s n last, below), last, inl same)
  later-not_taken s n (below, last, inr found) = ((up_to s n last, below), last, inr (inr found))

  later-taken :
      (s : Status)
      → r.window ≡ w
      → s.0 ≤ r.seq
      → IsLatestSince (r.seq, r.under_way) w rs v
      → IsLatestSince s w (r ∷ rs) v
  later-taken s mine newer (below, last, inl same) =
      ((inr last, below), omega arith, inr (inl (this_report mine same)))
  later-taken s mine newer (below, last, inr found) =
      ((inr last, below), omega arith, inr (inr found))

-- After any reports, in the order in which they arrive, the guard holds for each window the newest one: no report of
-- that window has a higher sequence number, the number has not gone down, and the status is that of a report
-- with the number, or what the guard held before them.
pub reports-IsLatestSince :
    (w : Label) (rs : List Report) (g : Inner)
    → IsLatestSince (held_of w g) w rs (held_of w (reports g rs))
reports-IsLatestSince w [] g = (tt, omega arith, inl refl)
reports-IsLatestSince w (r ∷ rs) g =
    let after = held_of w (reports (report g r) rs) in
    let latest = reports-IsLatestSince w rs (report g r) in
    elim (report-held_of w g r) [
      | inl (same, old) ↦
          later-not_taken w r rs after (held_of w g) old
            (subst (λ s. IsLatestSince s w rs after) same latest)
      | inr (mine, taken, newer) ↦
          later-taken w r rs after (held_of w g) mine newer
            (subst (λ s. IsLatestSince s w rs after) taken latest)
    ]
