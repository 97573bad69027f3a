-- ===== src/Sc64/Pipe/Reading.antt =====
-- `read_l3_bytes` on any pipe and any port.
use multi.Common.{
  ℕ, zero, suc, ◌≤◌, ◌<◌, ◌≡◌, List, [], Option, none, some, Result, ok, err, length, arith, inl,
  inr, Result-cases,
}
use multi.Sc64.Wire.{WireEvent, next_event}
use multi.Sc64.Wire.Pops.{Pops, popped, pop, Pops-next_event, Pops-Shorter}
use multi.Sc64.Pipe.{
  IoError, take_event, Processed, process_loop, process_wire_events, Pipe, PortRead, Read, hand_out,
}

abbrev Ends : Option Processed → Type 0
Ends o = (q : Processed) × (o ≡ some q)

waiting-Ends :
    (fuel : ℕ) (wire rx rest : List ℕ)
    → next_event wire ≡ some (popped none rest)
    → Ends (process_loop (suc fuel) wire rx)
unfolding process_loop
waiting-Ends fuel wire rx rest e =
    (record { wire = rest; l3_rx = rx; outcome = ok tt }, rw (e, process_loop))

event-Ends :
    (fuel : ℕ) (wire rx rest : List ℕ) (v : WireEvent)
    → next_event wire ≡ some (popped (some v) rest)
    → ((rx' : List ℕ) → Ends (process_loop fuel rest rx'))
    → Ends (process_loop (suc fuel) wire rx)
unfolding process_loop
event-Ends fuel wire rx rest v e more = elim (Result-cases (take_event rx v)) [
  | inl (rx', t) ↦ ((more rx').0, rw (e, process_loop, t) (more rx').1)
  | inr (x, t) ↦ (record { wire = rest; l3_rx = rx; outcome = err x }, rw (e, process_loop, t))
]

process_loop_total :
    (fuel : ℕ) (wire rx : List ℕ) → length wire < fuel → Ends (process_loop fuel wire rx)
process_loop_total zero wire rx h = absurd (omega arith)
process_loop_total (suc fuel) wire rx h = go (pop wire) (process_loop_total fuel)
  where
    go :
        (r : Option WireEvent) × (rest : List ℕ) × Pops wire r rest
        → ((next rx' : List ℕ) → length next < fuel → Ends (process_loop fuel next rx'))
        → Ends (process_loop (suc fuel) wire rx)
    go (none, rest, p) more = waiting-Ends fuel wire rx rest (Pops-next_event p)
    go (some e, rest, p) more =
        event-Ends fuel wire rx rest e (Pops-next_event p)
          (λ rx'. more rest rx' (omega (arith, Pops-Shorter p)))

pub process_wire_events_total : (wire rx : List ℕ) → Ends (process_wire_events wire rx)
unfolding process_wire_events
process_wire_events_total wire rx = process_loop_total (suc (length wire)) wire rx (omega arith)

-- An answer that loses nothing: no more bytes than there is room for; an error only when no byte that
-- came before it is left in the queue.
abbrev pub IsFair : ℕ → Result IoError (List ℕ) → Pipe → Type 0
IsFair room (ok bytes) p = length bytes ≤ room
IsFair room (err e) p = p.l3_rx ≡ []

abbrev pub FairRead : ℕ → Option Read → Type 0
FairRead room o = (r : Read) × (o ≡ some r) × IsFair room r.answer r.pipe

abbrev Handed : ℕ → List ℕ → Option Read → Type 0
Handed room rx none = rx ≡ []
Handed room rx (some r) = IsFair room r.answer r.pipe

-- What `hand_out` offers at the head of a round.
abbrev offer : Pipe → ℕ → List PortRead → Option Read
offer p room port = hand_out p room port p.l3_rx p.pending_err
