-- ===== src/Sc64/Wire/Pops.antt =====
-- `next_event` as a relation between the buffer, its answer and the buffer left.
use multi.Common.{
  ℕ, zero, suc, ◌≤◌, ◌<◌, ◌≡◌, refl, sym, subst, ◌∙◌, List, ◌++◌, Option, none, some, length, arith,
}
use multi.Sc64.Wire.{WireEvent, Round, wait, skip, event, round, Popped, next_loop, next_event}
use multi.Sc64.Wire.Rounds.{Shrinks, round-Shrinks, Extends, round-Extends}

pub data Pops : List ℕ → Option WireEvent → List ℕ → Type 0 where
  waits : {buf rest : List ℕ} → round buf ≡ wait rest → Pops buf none rest
  skips :
      {buf next rest : List ℕ} {r : Option WireEvent}
      → round buf ≡ skip next
      → Pops next r rest
      → Pops buf r rest
  finds : {buf rest : List ℕ} {e : WireEvent} → round buf ≡ event e rest → Pops buf (some e) rest

abbrev pub popped : Option WireEvent → List ℕ → Popped WireEvent
popped r rest = record { result = r; buf = rest }

shrinks_skip : (buf next : List ℕ) → round buf ≡ skip next → length next < length buf
shrinks_skip buf next e = subst (Shrinks buf) e (round-Shrinks buf)

Pops-next_loop :
    {buf rest : List ℕ} {r : Option WireEvent}
    → Pops buf r rest
    → (fuel : ℕ) → length buf < fuel
    → next_loop fuel buf ≡ some (popped r rest)
unfolding next_loop
Pops-next_loop p zero h = elim h [ ]
Pops-next_loop (waits e) (suc fuel) h = rw (e, next_loop)
Pops-next_loop {buf} (skips {next = n} e p) (suc fuel) h =
    rw (e, next_loop) (Pops-next_loop p fuel (omega (arith, shrinks_skip buf n e)))
Pops-next_loop (finds e) (suc fuel) h = rw (e, next_loop)

pub Pops-next_event :
    {buf rest : List ℕ} {r : Option WireEvent}
    → Pops buf r rest
    → next_event buf ≡ some (popped r rest)
unfolding next_event
Pops-next_event {buf} p = Pops-next_loop p (suc (length buf)) (omega arith)

abbrev Shorter : List ℕ → List ℕ → Option WireEvent → Type 0
Shorter buf rest none = length rest ≤ length buf
Shorter buf rest (some e) = length rest < length buf

Shorter-mono :
    (buf next rest : List ℕ) (r : Option WireEvent)
    → length next < length buf
    → Shorter next rest r
    → Shorter buf rest r
Shorter-mono buf next rest none h s = omega arith
Shorter-mono buf next rest (some e) h s = omega arith

pub Pops-Shorter : {buf rest : List ℕ} {r : Option WireEvent} → Pops buf r rest → Shorter buf rest r
Pops-Shorter {buf} {rest} (waits e) =
    let same : rest ≡ buf = subst (Shrinks buf) e (round-Shrinks buf) in rw same (omega arith)
Pops-Shorter {buf} {rest} (skips {next = n} {r = r} e p) =
    Shorter-mono buf n rest r (shrinks_skip buf n e) (Pops-Shorter p)
Pops-Shorter {buf} (finds e) = subst (Shrinks buf) e (round-Shrinks buf)

abbrev pub Pop : List ℕ → Type 0
Pop buf = (r : Option WireEvent) × (rest : List ℕ) × Pops buf r rest

Pop-fuel : (fuel : ℕ) (buf : List ℕ) → length buf < fuel → Pop buf
Pop-fuel zero buf h = absurd (omega arith)
Pop-fuel (suc fuel) buf h = go (round buf) refl (Pop-fuel fuel)
  where
    go : (r : Round) → round buf ≡ r → ((next : List ℕ) → length next < fuel → Pop next) → Pop buf
    go (wait rest) e rec = (none, rest, waits e)
    go (skip next) e rec =
        let (r, rest, p) = rec next (omega (arith, shrinks_skip buf next e)) in (r, rest, skips e p)
    go (event v rest) e rec = (some v, rest, finds e)

pub pop : (buf : List ℕ) → Pop buf
pop buf = Pop-fuel (suc (length buf)) buf (omega arith)

pub next_event-Pops :
    (buf rest : List ℕ) (r : Option WireEvent)
    → next_event buf ≡ some (popped r rest)
    → Pops buf r rest
next_event-Pops buf rest r e =
    let (s, out, p) = pop buf in
    let q = Pops-next_event p in
    let answer : r ≡ s = cc (e, q) in let left : rest ≡ out = cc (e, q) in rw (answer, left) p

-- More bytes behind the buffer: an event is found all the same; where the call had to wait, it is as
-- if the bytes had been there at first.
abbrev pub Continues : List ℕ → List ℕ → List ℕ → Option WireEvent → Type 0
Continues buf rest more (some e) = next_event (buf ++ more) ≡ some (popped (some e) (rest ++ more))
Continues buf rest more none = next_event (buf ++ more) ≡ next_event (rest ++ more)

abbrev Joins : List ℕ → List ℕ → List ℕ → Option WireEvent → Type 0
Joins buf rest more (some e) = Pops (buf ++ more) (some e) (rest ++ more)
Joins buf rest more none =
    (s : Option WireEvent) (out : List ℕ) → Pops (rest ++ more) s out → Pops (buf ++ more) s out

Joins-skips :
    (buf next rest more : List ℕ) (r : Option WireEvent)
    → round buf ≡ skip next
    → Joins next rest more r
    → Joins buf rest more r
Joins-skips buf next rest more (some e) q j =
    skips (subst (Extends buf more) q (round-Extends buf more)) j
Joins-skips buf next rest more none q j =
    λ s out p. skips (subst (Extends buf more) q (round-Extends buf more)) (j s out p)

Pops-Joins :
    {buf rest : List ℕ} {r : Option WireEvent} (more : List ℕ)
    → Pops buf r rest
    → Joins buf rest more r
Pops-Joins {buf} {rest} more (waits e) =
    let same : rest ≡ buf = subst (Extends buf more) e (round-Extends buf more) in
    λ s out p. rw same at p
Pops-Joins {buf} {rest} more (skips {next = n} {r = r} e p) =
    Joins-skips buf n rest more r e (Pops-Joins more p)
Pops-Joins {buf} more (finds e) = finds (subst (Extends buf more) e (round-Extends buf more))

joined :
    (buf rest more : List ℕ) (r : Option WireEvent)
    → Joins buf rest more r
    → Continues buf rest more r
joined buf rest more (some e) j = Pops-next_event j
joined buf rest more none j =
    let (s, out, p) = pop (rest ++ more) in Pops-next_event (j s out p) ∙ sym (Pops-next_event p)

-- What `next_event` answers does not depend on how the input was cut: an event that it found it finds
-- with more bytes behind the buffer too, and leaves those; where it answered that it needs more, the
-- bytes it kept, with more behind, give the answer that the whole input gives.
pub next_event-append :
    (buf rest more : List ℕ) (r : Option WireEvent)
    → next_event buf ≡ some (popped r rest)
    → Continues buf rest more r
next_event-append buf rest more r e =
    joined buf rest more r (Pops-Joins more (next_event-Pops buf rest r e))
