-- ===== src/Ap64/Backend/Stalls.antt =====
-- `StallLog` of crates/ap64-cart/src/backend.rs: what the session log says about stalls. Times are in milliseconds, and `more` is a u32.
use multi.Common.{
  ℕ, suc, ◌+◌, ◌-◌, ◌%◌, ◌^◌, ◌≤◌, ◌<◌, ◌≡◌, inl, inr, List, [], ◌∷◌, Option, none, some, Bool,
  Bool-cases, not, ltb, ltb→le, ◌&&◌, if◌then◌else◌, arith,
}

abbrev pub stall_run : ℕ
stall_run = 30000

pub record StallRun : Type 0 where
  pub since : ℕ
  pub more : ℕ
  pub longest : ℕ

abbrev pub StallLog : Type 0
StallLog = Option StallRun

-- A line with how long the agent was silent and on which attempt it answered; or with how many stalls more there were, in what
-- time, how long the longest was, and how many there have been.
pub data Line : Type 0 where
  silent_for : ℕ → ℕ → Line
  more_stalls : ℕ → ℕ → ℕ → ℕ → Line

abbrev pub longer : ℕ → ℕ → ℕ
longer a b = if ltb a b then b else a

unfoldable pub stalled : StallLog → ℕ → ℕ → ℕ → StallLog × Option Line
stalled none at silent attempt =
    (some (record { since = at; more = 0; longest = 0 }), some (silent_for silent attempt))
stalled (some run) at silent attempt = (
  some (record run { more = (run.more + 1) % 2 ^ 32; longest = longer run.longest silent }),
  none,
)

abbrev pub rest_line : StallRun → ℕ → ℕ → Option Line
rest_line run spent total =
    if ltb 0 run.more then some (more_stalls run.more spent run.longest total) else none

unfoldable pub flush : StallLog → ℕ → Bool → ℕ → StallLog × Option Line
flush none at now total = (none, none)
flush (some run) at now total =
    if not now && ltb (at - run.since) stall_run
    then (some run, none)
    else (none, rest_line run (at - run.since) total)

-- What happens to a log: a stall, or a flush, forced or not, with the session's count.
pub data Event : Type 0 where
  stall : ℕ → ℕ → ℕ → Event
  flushed : ℕ → Bool → ℕ → Event

abbrev pub step : StallLog → Event → StallLog × Option Line
step log (stall at silent attempt) = stalled log at silent attempt
step log (flushed at now total) = flush log at now total

abbrev pub said : Option Line → List Line → List Line
said none lines = lines
said (some l) lines = l ∷ lines

-- The log after some events, and the lines they gave.
unfoldable pub run : StallLog → List Event → StallLog × List Line
run log [] = (log, [])
run log (e ∷ es) = let rest = run (step log e).0 es in (rest.0, said (step log e).1 rest.1)

-- How many stalls events have, and lines tell of.
abbrev pub stalls_of : List Event → ℕ
stalls_of [] = 0
stalls_of (stall at silent attempt ∷ es) = suc (stalls_of es)
stalls_of (flushed at now total ∷ es) = stalls_of es

abbrev pub told : List Line → ℕ
told [] = 0
told (silent_for silent attempt ∷ ls) = suc (told ls)
told (more_stalls n spent longest total ∷ ls) = n + told ls

abbrev pub untold : StallLog → ℕ
untold none = 0
untold (some r) = r.more

step-told :
    (log : StallLog) (e : Event)
    → untold log + stalls_of (e ∷ []) < 2 ^ 32
    → told (said (step log e).1 []) + untold (step log e).0 ≡ untold log + stalls_of (e ∷ [])
unfolding stalled flush
step-told none (stall at silent attempt) h = omega arith
step-told (some r) (stall at silent attempt) h = omega (arith, h)
step-told none (flushed at now total) h = omega arith
step-told (some r) (flushed at now total) h =
    elim (Bool-cases (not now && ltb (at - r.since) stall_run)) [
      | inl e ↦ rw e (omega arith)
      | inr e ↦ rw e (elim (Bool-cases (ltb 0 r.more)) [
        | inl p ↦ rw p (omega arith)
        | inr p ↦ rw p (let no : r.more ≤ 0 = ltb→le 0 r.more p in omega (arith, no))
      ])
    ]

told-said : (l : Option Line) (ls : List Line) → told (said l ls) ≡ told (said l []) + told ls
told-said none ls = omega arith
told-said (some (silent_for silent attempt)) ls = omega arith
told-said (some (more_stalls n spent longest total)) ls = omega arith

stalls_of-cons :
    (e : Event) (es : List Event) → stalls_of (e ∷ es) ≡ stalls_of (e ∷ []) + stalls_of es
stalls_of-cons (stall at silent attempt) es = omega arith
stalls_of-cons (flushed at now total) es = omega arith

-- From any log, after stalls and flushes at any times, fewer than a u32 holds with those not told of yet: every stall is
-- told of once, by a line of its own or in the number of one, or is among those not told of yet.
pub told-run :
    (log : StallLog) (es : List Event)
    → untold log + stalls_of es < 2 ^ 32
    → told (run log es).1 + untold (run log es).0 ≡ untold log + stalls_of es
unfolding run
told-run log [] h = omega arith
told-run log (e ∷ es) h =
    let split = stalls_of-cons e es in
    let first = step-told log e (omega (arith, h, split)) in
    let next = (step log e).0 in
    let line = (step log e).1 in
    let few : untold next + stalls_of es < 2 ^ 32 = omega (arith, h, split, first) in
    let rest = told-run next es few in
    omega (arith, split, first, rest, told-said line (run next es).1)
