-- ===== src/Xfer64/CloseGuard.antt =====
-- crates/xfer64/src-tauri/src/close_guard.rs: which windows have work under way, and when a close goes through.
-- A window's label is its bytes. The state is managed and its lock is not poisoned.
pub mod Windows
pub mod Reports
pub mod Ordering
pub mod Exiting
use multi.Common.Keys.{same_key}
use multi.Common.{
  ℕ, ◌+◌, List, [], ◌∷◌, Option, none, some, Bool, true, false, not, leb, ◌==◌, ◌&&◌, ◌||◌,
  if◌then◌else◌,
}

abbrev pub Label : Type 0
Label = List ℕ

-- What a window reported last: the sequence number, and whether it is busy.
abbrev pub Status : Type 0
Status = ℕ × Bool

-- A `HashMap` from labels.
abbrev pub Windows : Type 0
Windows = List (Label × Status)

unfoldable pub get : Label → Windows → Option Status
unfolding same_key
get w [] = none
get w ((v, s) ∷ ws) = let rest = get w ws in if same_key v w then some s else rest

-- What `entry` gives hold of, changed in place, or inserted.
unfoldable pub alter : (Option Status → Status) → Label → Windows → Windows
unfolding same_key
alter f w [] = (w, f none) ∷ []
alter f w ((v, s) ∷ ws) =
    let rest = alter f w ws in if same_key v w then (v, f (some s)) ∷ ws else (v, s) ∷ rest

abbrev pub or_default : Option Status → Status
or_default none = (0, false)
or_default (some s) = s

abbrev pub any_busy : Windows → Bool
any_busy [] = false
any_busy ((v, (seq, busy)) ∷ ws) = busy || any_busy ws

pub record Inner : Type 0 where
  pub windows : Windows
  pub close_when_idle : Bool
  pub held : ℕ

abbrev pub force_after : ℕ
force_after = 3

abbrev pub default_inner : Inner
default_inner = record { windows = []; close_when_idle = false; held = 0 }

abbrev pub busy : Inner → Bool
busy g = any_busy g.windows

abbrev pub recorded : Inner → Bool × Inner
recorded g = (g.close_when_idle && not (busy g), g)

abbrev pub forget_held : Inner → Inner
forget_held g = if busy g then g else record g { held = 0 }

-- `set_busy`, and whether Xfer64 exits.
unfoldable pub set_busy : Label → ℕ → Bool → Inner → Bool × Inner
unfolding get alter
set_busy w seq b g =
    let ws = alter or_default w g.windows in
    let last = (or_default (get w ws)).0 in
    if leb seq last
    then (false, record g { windows = ws })
    else recorded (forget_held (record g { windows = alter (λ _. (seq, b)) w ws }))

unfoldable pub hold_close : Inner → Bool × Inner
hold_close g = (leb force_after (g.held + 1), record g { held = g.held + 1 })

unfoldable pub close_when_idle : Inner → Bool × Inner
close_when_idle g = (not (busy g), record g { close_when_idle = true })

-- What the windows and the user do.
pub data Event : Type 0 where
  explorer_set_busy : Label → ℕ → Bool → Event
  on_close_requested : Event
  explorer_close_when_idle : Event

-- One event, and whether Xfer64 exits.
unfoldable pub step : Inner → Event → Bool × Inner
unfolding set_busy hold_close close_when_idle
step g (explorer_set_busy w seq b) = set_busy w seq b g
step g on_close_requested = if busy g then hold_close g else (true, g)
step g explorer_close_when_idle = close_when_idle g

abbrev pub unless_exited : Bool × Inner → (Inner → Option Inner) → Option Inner
unless_exited (true, g) k = none
unless_exited (false, g) k = k g

-- The events in order; `none` once Xfer64 has exited.
unfoldable pub run : List Event → Inner → Option Inner
unfolding step
run [] g = some g
run (e ∷ es) g = unless_exited (step g e) (run es)
