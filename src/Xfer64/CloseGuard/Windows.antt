-- ===== src/Xfer64/CloseGuard/Windows.antt =====
-- The map of the windows: `entry` and `values`.
use multi.Common.Keys.{same_key, same_key-sym, same_key_eq, same_key_refl}
use multi.Common.{
  ℕ, ◌≡◌, refl, sym, ◌∙◌, [], ◌∷◌, Option, none, some, true, false, Bool-cases, inl, inr,
}
use multi.Xfer64.CloseGuard.{Label, Status, Windows, get, alter, any_busy}

-- No label twice.
abbrev pub Distinct : Windows → Type 0
Distinct [] = Unit
Distinct ((v, s) ∷ ws) = (get v ws ≡ none) × Distinct ws

module _ (f : Option Status → Status) (w : Label) where
  pub get-alter : (ws : Windows) → get w (alter f w ws) ≡ some (f (get w ws))
  unfolding get alter
  get-alter [] = rw (same_key_refl w) refl
  get-alter ((v, s) ∷ ws) = elim (Bool-cases (same_key v w)) [
    | inl e ↦ rw (e, e) refl
    | inr e ↦ rw (e, e) (get-alter ws)
  ]

  pub get_other-alter :
      (u : Label) (ws : Windows) → same_key w u ≡ false → get u (alter f w ws) ≡ get u ws
  unfolding get alter
  get_other-alter u [] h = rw h refl
  get_other-alter u ((v, s) ∷ ws) h = elim (Bool-cases (same_key v w)) [
    | inl e ↦
        let differ : same_key v u ≡ false = rw (sym (same_key_eq v w e)) at h in rw (e, differ) refl
    | inr e ↦ rw (e, get_other-alter u ws h) refl
  ]

  pub alter-Distinct : (ws : Windows) → Distinct ws → Distinct (alter f w ws)
  unfolding alter get
  alter-Distinct [] d = (refl, tt)
  alter-Distinct ((v, s) ∷ ws) (n, d) = elim (Bool-cases (same_key v w)) [
    | inl e ↦ rw e (n, d)
    | inr e ↦ rw e (get_other-alter v ws (same_key-sym v w e) ∙ n, alter-Distinct ws d)
  ]

other_label :
    (v w : Label) (ws : Windows) (seq : ℕ)
    → get v ws ≡ none
    → get w ws ≡ some (seq, true)
    → same_key v w ≡ false
other_label v w ws seq n g = elim (Bool-cases (same_key v w)) [
  | inl e ↦
      let nothing : get w ws ≡ none = rw (same_key_eq v w e) at n in
      let both : ◌≡◌ {A = Option Status} none (some (seq, true)) = sym nothing ∙ g in cc
  | inr e ↦ e
]

-- Some value of the map is busy when the map has a busy one under some label.
pub any_busy-get :
    (ws : Windows)
    → Distinct ws
    → any_busy ws ≡ true
    → (w : Label) × (seq : ℕ) × (get w ws ≡ some (seq, true))
unfolding get
any_busy-get [] d h = cc
any_busy-get ((v, (q, true)) ∷ ws) d h = (v, q, rw (same_key_refl v) refl)
any_busy-get ((v, (q, false)) ∷ ws) (n, d) h =
    let (w, seq, g) = any_busy-get ws d h in
    let differ : same_key v w ≡ false = other_label v w ws seq n g in (w, seq, rw differ g)

pub get-any_busy :
    (ws : Windows) (w : Label) (seq : ℕ) → get w ws ≡ some (seq, true) → any_busy ws ≡ true
unfolding get
get-any_busy [] w seq h = cc
get-any_busy ((v, (q, true)) ∷ ws) w seq h = refl
get-any_busy ((v, (q, false)) ∷ ws) w seq h = elim (Bool-cases (same_key v w)) [
  | inl e ↦
      let found : ◌≡◌ {A = Option Status} (some (q, false)) (some (seq, true)) = rw e at h in cc
  | inr e ↦ get-any_busy ws w seq (rw e at h)
]
