-- ===== src/Xfer64/CloseGuard/Exiting.antt =====
-- When Xfer64 exits.
use multi.Common.Keys.{same_key}
use multi.Common.{
  ℕ, suc, ◌+◌, ◌≤◌, ◌≡◌, refl, sym, ap, subst, ◌∙◌, List, [], ◌∷◌, Option, some, Bool, true, false,
  not, leb, ◌&&◌, ◌||◌, ◌⊎◌, arith, Bool-cases, inl, inr,
}
use multi.Xfer64.CloseGuard.{
  Label, Windows, alter, or_default, any_busy, Inner, default_inner, busy, forget_held, recorded,
  set_busy, hold_close, close_when_idle, Event, explorer_set_busy, on_close_requested,
  explorer_close_when_idle, step, run, unless_exited, force_after,
}
use multi.Xfer64.CloseGuard.Reports.{set_busy-cases}

-- The guard while Xfer64 runs: fewer closes are held than force an exit, none when no window is busy, and
-- a close that waits for the windows waits for one that is busy.
abbrev pub IsWaiting : Inner → Type 0
IsWaiting g =
    (g.held + 1 ≤ force_after)
    × ((busy g ≡ true) ⊎ (g.held ≡ 0))
    × ((busy g ≡ true) ⊎ (g.close_when_idle ≡ false))

any_busy-alter_default : (w : Label) (ws : Windows) → any_busy (alter or_default w ws) ≡ any_busy ws
unfolding alter
any_busy-alter_default w [] = refl
any_busy-alter_default w ((v, (q, b)) ∷ ws) = elim (Bool-cases (same_key v w)) [
  | inl e ↦ rw e refl
  | inr e ↦ rw e (ap (λ x. b || x) (any_busy-alter_default w ws))
]

and_true : (b : Bool) → (b && true) ≡ false → b ≡ false
and_true true h = h
and_true false h = refl

not-true : (b : Bool) → not b ≡ false → b ≡ true
not-true true h = refl
not-true false h = sym h

recorded-IsWaiting :
    (g : Inner)
    → g.held + 1 ≤ force_after
    → (recorded (forget_held g)).0 ≡ false
    → IsWaiting (forget_held g)
recorded-IsWaiting g h stays = elim (Bool-cases (busy g)) [
  | inl e ↦ rw e (h, inl e, inl e)
  | inr e ↦
      let waits : (g.close_when_idle && true) ≡ false = rw (e, e) at stays in
      rw (e, e) (omega arith, inr refl, inr (and_true g.close_when_idle waits))
]

set_busy-IsWaiting :
    (w : Label) (seq : ℕ) (b : Bool) (g : Inner)
    → IsWaiting g
    → (set_busy w seq b g).0 ≡ false
    → IsWaiting (set_busy w seq b g).1
set_busy-IsWaiting w seq b g (few, none_held, waits) stays = elim (set_busy-cases w seq b g) [
  | inl (old, e) ↦ rw (e, any_busy-alter_default w g.windows) (few, none_held, waits)
  | inr (new, e) ↦
      let taken : Inner = record g {
        windows = alter (λ _. (seq, b)) w (alter or_default w g.windows);
      } in
      rw e (recorded-IsWaiting taken few (rw e at stays))
]

pub step-IsWaiting :
    (g : Inner) (e : Event) → IsWaiting g → (step g e).0 ≡ false → IsWaiting (step g e).1
unfolding step hold_close close_when_idle
step-IsWaiting g (explorer_set_busy w seq b) h stays = set_busy-IsWaiting w seq b g h stays
step-IsWaiting g on_close_requested (few, none_held, waits) stays = elim (Bool-cases (busy g)) [
  | inl e ↦
      let fewer : leb force_after (g.held + 1) ≡ false = rw e at stays in
      rw e (ground arith, inl e, inl e)
  | inr e ↦ let gone : true ≡ false = rw e at stays in cc
]
step-IsWaiting g explorer_close_when_idle (few, none_held, waits) stays =
    let is_busy = not-true (busy g) stays in (few, none_held, inl is_busy)

default-IsWaiting : IsWaiting default_inner
default-IsWaiting = (omega arith, inr refl, inr refl)

unless_exited-some :
    (r : Bool × Inner) (f : Inner → Option Inner) (k : Inner)
    → unless_exited r f ≡ some k
    → (r.0 ≡ false) × (f r.1 ≡ some k)
unless_exited-some (true, g) f k h = cc
unless_exited-some (false, g) f k h = (refl, h)

some_inj : {a b : Inner} → some a ≡ some b → a ≡ b
some_inj h = cc

-- A run in which Xfer64 has not exited.
run-IsWaiting : (es : List Event) (g k : Inner) → IsWaiting g → run es g ≡ some k → IsWaiting k
unfolding run
run-IsWaiting [] g k w h = subst IsWaiting (some_inj h) w
run-IsWaiting (e ∷ es) g k w h =
    let (stays, rest) = unless_exited-some (step g e) (run es) k h in
    run-IsWaiting es (step g e).1 k (step-IsWaiting g e w stays) rest

-- While Xfer64 has not exited, after any events: fewer closes are held than force an exit, none is held when no
-- window is busy, and a close waits for the windows to end only while one is busy.
pub runs-IsWaiting : (es : List Event) (k : Inner) → run es default_inner ≡ some k → IsWaiting k
runs-IsWaiting es k h = run-IsWaiting es default_inner k default-IsWaiting h

recorded-exits : (g : Inner) → (recorded g).0 ≡ true → busy g ≡ false
recorded-exits g h = elim (Bool-cases (busy g)) [
  | inl e ↦
      let stays : (g.close_when_idle && false) ≡ true = rw e at h in
      absurd (never g.close_when_idle stays)
  | inr e ↦ e
]
  where
    never : (b : Bool) → (b && false) ≡ true → ⊥
    never true h = cc
    never false h = cc

step-exits :
    (g : Inner) (e : Event)
    → (step g e).0 ≡ true
    → (busy (step g e).1 ≡ false) ⊎ ((e ≡ on_close_requested) × (force_after ≤ g.held + 1))
unfolding step hold_close close_when_idle
step-exits g (explorer_set_busy w seq b) h = elim (set_busy-cases w seq b g) [
  | inl (old, e) ↦ let stays : false ≡ true = rw e at h in cc
  | inr (new, e) ↦
      let taken : Inner = record g {
        windows = alter (λ _. (seq, b)) w (alter or_default w g.windows);
      } in
      inl (rw e (recorded-exits (forget_held taken) (rw e at h)))
]
step-exits g on_close_requested h = elim (Bool-cases (busy g)) [
  | inl e ↦ let many : leb force_after (g.held + 1) ≡ true = rw e at h in inr (refl, ground arith)
  | inr e ↦ inl (rw e e)
]
step-exits g explorer_close_when_idle h = inl (not_false (busy g) h)
  where
    not_false : (b : Bool) → not b ≡ true → b ≡ false
    not_false true h = sym h
    not_false false h = refl

-- After any events in which Xfer64 has not exited, the event on which it exits leaves no window busy, or is a close
-- request of the user that finds two closes held.
pub run-exits :
    (es : List Event) (g : Inner) (e : Event)
    → run es default_inner ≡ some g
    → (step g e).0 ≡ true
    → (busy (step g e).1 ≡ false) ⊎ ((e ≡ on_close_requested) × (g.held ≡ 2))
run-exits es g e r h =
    let (few, _, _) = runs-IsWaiting es g r in
    elim (step-exits g e h) [
      | inl idle ↦ inl idle
      | inr (same, many) ↦ inr (same, omega (arith, few, many))
    ]

abbrev pub closes : List Event → ℕ
closes [] = 0
closes (on_close_requested ∷ es) = suc (closes es)
closes (explorer_set_busy w seq b ∷ es) = closes es
closes (explorer_close_when_idle ∷ es) = closes es

-- A window is busy before, between and after the events.
unfoldable pub busy_throughout : List Event → Inner → Bool
busy_throughout [] g = busy g
busy_throughout (e ∷ es) g = busy g && busy_throughout es (step g e).1

recorded-held :
    (g : Inner)
    → busy (recorded (forget_held g)).1 ≡ true
    → (recorded (forget_held g)).1.held ≡ g.held
recorded-held g h = elim (Bool-cases (busy g)) [
  | inl e ↦ rw e refl
  | inr e ↦ let idle : busy g ≡ true = rw e at h in let both : false ≡ true = sym e ∙ idle in cc
]

step-held :
    (g : Inner) (e : Event)
    → busy g ≡ true
    → busy (step g e).1 ≡ true
    → (step g e).1.held ≡ g.held + closes (e ∷ [])
unfolding step hold_close close_when_idle
step-held g (explorer_set_busy w seq b) p q = elim (set_busy-cases w seq b g) [
  | inl (old, e) ↦ rw e (omega arith)
  | inr (new, e) ↦
      let taken : Inner = record g {
        windows = alter (λ _. (seq, b)) w (alter or_default w g.windows);
      } in
      rw e (recorded-held taken (rw e at q) ∙ omega arith)
]
step-held g on_close_requested p q = rw p refl
step-held g explorer_close_when_idle p q = omega arith

closes-cons : (e : Event) (es : List Event) → closes (e ∷ es) ≡ closes (e ∷ []) + closes es
closes-cons (explorer_set_busy w seq b) es = omega arith
closes-cons on_close_requested es = omega arith
closes-cons explorer_close_when_idle es = omega arith

both_true : (a b : Bool) → (a && b) ≡ true → (a ≡ true) × (b ≡ true)
both_true true true h = (refl, refl)
both_true true false h = cc
both_true false b h = cc

busy_first : (es : List Event) (g : Inner) → busy_throughout es g ≡ true → busy g ≡ true
unfolding busy_throughout
busy_first [] g h = h
busy_first (e ∷ es) g h = (both_true (busy g) (busy_throughout es (step g e).1) h).0

run-held :
    (es : List Event) (g k : Inner)
    → run es g ≡ some k
    → busy_throughout es g ≡ true
    → k.held ≡ g.held + closes es
unfolding run busy_throughout
run-held [] g k r b = let same : g ≡ k = some_inj r in rw (sym same) (omega arith)
run-held (e ∷ es) g k r b =
    let (stays, rest) = unless_exited-some (step g e) (run es) k r in
    let (now, then_on) = both_true (busy g) (busy_throughout es (step g e).1) b in
    let later = run-held es (step g e).1 k rest then_on in
    omega (arith, later, step-held g e now (busy_first es (step g e).1 then_on), closes-cons e es)

-- After any events, further ones on which Xfer64 does not exit and throughout which some window is busy hold
-- two close requests of the user at most: the third exits.
pub run-closes :
    (before es : List Event) (g k : Inner)
    → run before default_inner ≡ some g
    → run es g ≡ some k
    → busy_throughout es g ≡ true
    → closes es ≤ 2
run-closes before es g k first r b =
    let (few, _, _) = run-IsWaiting es g k (runs-IsWaiting before g first) r in
    omega (arith, few, run-held es g k r b)
