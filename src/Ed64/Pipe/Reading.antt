-- ===== src/Ed64/Pipe/Reading.antt =====
-- `read_l3_bytes` on any pipe and any port, and a message that the cart stops sending.
use multi.Common.{
  ℕ, zero, suc, ◌+◌, ◌≤◌, ◌<◌, ◌≡◌, refl, sym, ap, subst, ◌∙◌, List, [], ◌∷◌, ◌++◌, Option, none,
  some, Result, ok, err, length, arith, length-take, min, inl, inr, Option-cases, ◌==◌, false,
  le→ltb,
}
use multi.Ed64.Wire.{WireError, port_failed, next_message, discard_partial}
use multi.Ed64.Wire.Layout.{next_cases, next_message-Shorter}
use multi.Ed64.Pipe.Delivery.{process_wire_messages-on_wire}
use multi.Ed64.Pipe.{
  Processed, process_loop, process_wire_messages, take_message, Pipe, PortRead, got, timed_out,
  failed, Read, parse_held, parse_unread, receive, count_waited, count_quiet, hand_out, offer, ends,
  Ready, answered, reads, stuck, or_reads, ready, read_loop, read_l3_bytes, pending_of,
}

abbrev Ends : Option Processed → Type 0
Ends o = (q : Processed) × (o ≡ some q)

process_loop_total :
    (fuel : ℕ) (wire rx : List ℕ) → length wire < fuel → Ends (process_loop fuel wire rx)
unfolding process_loop
process_loop_total zero wire rx h = absurd (omega arith)
process_loop_total (suc fuel) wire rx h = elim (next_cases (next_message wire).result) [
  | inl e ↦ (
    record { wire = (next_message wire).buf; l3_rx = rx; outcome = ok tt },
    rw (process_loop, e) refl,
  )
  | inr (inl (m, e)) ↦
      let s : length (next_message wire).buf < length wire = rw e at (next_message-Shorter wire) in
      rw (process_loop, e)
        (process_loop_total fuel (next_message wire).buf (take_message rx m) (omega arith))
  | inr (inr (x, e)) ↦ (
    record { wire = (next_message wire).buf; l3_rx = rx; outcome = err x },
    rw (process_loop, e) refl,
  )
]

process_wire_messages_total : (wire rx : List ℕ) → Ends (process_wire_messages wire rx)
unfolding process_wire_messages
process_wire_messages_total wire rx = process_loop_total (suc (length wire)) wire rx (omega arith)

abbrev Parses : Option Pipe → Type 0
Parses o = (q : Pipe) × (o ≡ some q)

parse_held_total : (p : Pipe) → Parses (parse_held p)
unfolding parse_held
parse_held_total p =
    let (q, e) = process_wire_messages_total p.wire p.l3_rx in
    (
      record p { wire = q.wire; l3_rx = q.l3_rx; pending_err = pending_of q.outcome p.pending_err },
      rw (parse_held, e) refl,
    )

parse_unread_total : (p : Pipe) (wire : List ℕ) → Parses (parse_unread p wire)
unfolding parse_unread
parse_unread_total p [] = (p, refl)
parse_unread_total p (b ∷ bs) = parse_held_total p

receive_total : (p : Pipe) (bytes : List ℕ) → Parses (receive p bytes)
unfolding receive
receive_total p bytes = parse_held_total (record p { wire = p.wire ++ bytes; quiet = 0 })

-- An answer that loses nothing: no more bytes than there is room for; an error only when no byte that
-- came before it is left in the queue.
abbrev pub IsFair : ℕ → Result WireError (List ℕ) → Pipe → Type 0
IsFair room (ok bytes) p = length bytes ≤ room
IsFair room (err e) p = p.l3_rx ≡ []

abbrev pub FairCall : ℕ → Option Read → Type 0
FairCall room o = (r : Read) × (o ≡ some r) × IsFair room r.answer r.pipe

abbrev Handed : ℕ → List ℕ → Option Read → Type 0
Handed room rx none = rx ≡ []
Handed room rx (some r) = IsFair room r.answer r.pipe

module _ (room : ℕ) where
  hand_out-Handed :
      (p : Pipe) (port : List (ℕ × PortRead)) (rx : List ℕ) (held : Option WireError)
      → p.l3_rx ≡ rx
      → Handed room rx (hand_out p room port rx held)
  unfolding hand_out
  hand_out-Handed p port (b ∷ bs) held e =
      omega (arith, length-take (min (length (b ∷ bs)) room) (b ∷ bs))
  hand_out-Handed p port [] (some x) e = e
  hand_out-Handed p port [] none e = refl

  offer-Handed : (p : Pipe) (port : List (ℕ × PortRead)) → Handed room p.l3_rx (offer p room port)
  offer-Handed p port = hand_out-Handed p port p.l3_rx p.pending_err refl

  abbrev IsReady : Ready → Type 0
  IsReady (answered r) = IsFair room r.answer r.pipe
  IsReady (reads q) = q.l3_rx ≡ []
  IsReady stuck = ⊥

  offered-IsReady : (p : Pipe) (o : Option Read) → Handed room p.l3_rx o → IsReady (or_reads o p)
  offered-IsReady p (some r) h = h
  offered-IsReady p none h = h

  ready-IsReady : (p : Pipe) (port : List (ℕ × PortRead)) → IsReady (ready p room port)
  unfolding ready
  ready-IsReady p port = elim (Option-cases (offer p room port)) [
    | inr (r, e) ↦ rw (ready, e) (subst (Handed room p.l3_rx) e (offer-Handed p port))
    | inl e ↦
        let (q, u) = parse_unread_total p p.wire in
        rw (ready, e, u) (offered-IsReady q (offer q room port) (offer-Handed q port))
  ]

waited_keeps :
    (p : Pipe) (waited : ℕ) (wire : List ℕ) → (count_waited p waited wire).l3_rx ≡ p.l3_rx
unfolding count_waited
waited_keeps p waited [] = refl
waited_keeps p waited (b ∷ bs) = ground arith

quiet_keeps : (p : Pipe) (waited : ℕ) → (count_quiet p waited).l3_rx ≡ p.l3_rx
unfolding count_quiet
quiet_keeps p waited = waited_keeps p waited p.wire

module _ (room : ℕ) where
  failed_read :
      (q : Pipe) (waited : ℕ) (port : List (ℕ × PortRead))
      → q.l3_rx ≡ []
      → FairCall room (ends (err port_failed) (count_quiet q waited) port)
  failed_read q waited port e = (_, refl, quiet_keeps q waited ∙ e)

  idle_read :
      (q : Pipe) (waited : ℕ) (port : List (ℕ × PortRead))
      → FairCall room (ends (ok []) (count_quiet q waited) port)
  idle_read q waited port = (_, refl, omega arith)

  read_loop-FairCall :
      (port : List (ℕ × PortRead)) (p : Pipe) → FairCall room (read_loop p room port)
  unfolding read_loop
  read_loop-FairCall [] p = at_ready (ready p room []) refl (ready-IsReady room p [])
    where
      at_ready :
          (x : Ready) → ready p room [] ≡ x → IsReady room x → FairCall room (read_loop p room [])
      at_ready (answered r) e h = (r, rw (read_loop, e) refl, h)
      at_ready (reads q) e h = rw (read_loop, e) (idle_read q 0 [])
      at_ready stuck e h = absurd h
  read_loop-FairCall ((waited, read) ∷ port) p =
      at_ready (ready p room ((waited, read) ∷ port)) refl
        (ready-IsReady room p ((waited, read) ∷ port)) read refl (read_loop-FairCall port)
    where
      at_ready :
          (x : Ready)
          → ready p room ((waited, read) ∷ port) ≡ x
          → IsReady room x
          → (y : PortRead) → read ≡ y
          → ((q : Pipe) → FairCall room (read_loop q room port))
          → FairCall room (read_loop p room ((waited, read) ∷ port))
      at_ready (answered r) e h y z more = (r, rw (read_loop, e) refl, h)
      at_ready stuck e h y z more = absurd h
      at_ready (reads q) e h timed_out z more = rw (read_loop, e, z) (idle_read q waited port)
      at_ready (reads q) e h failed z more = rw (read_loop, e, z) (failed_read q waited port h)
      at_ready (reads q) e h (got []) z more = rw (read_loop, e, z) (idle_read q waited port)
      at_ready (reads q) e h (got (b ∷ bs)) z more =
          let (next, u) = receive_total (count_quiet q waited) (b ∷ bs) in
          rw (read_loop, e, z, u) (more next)

-- A call with room for at least one byte returns, whatever the port answers and however long that
-- takes: with no more bytes than there is room for, or with an error, its own or the held one, and then
-- no L3 byte is in the queue.
pub read_l3_bytes-FairCall :
    (p : Pipe) (room : ℕ) (port : List (ℕ × PortRead))
    → 1 ≤ room
    → FairCall room (read_l3_bytes p room port)
unfolding read_l3_bytes
read_l3_bytes-FairCall p room port h =
    let taken : (room == 0) ≡ false = ground arith in rw taken (read_loop-FairCall room port p)

-- A pipe with nothing to hand out.
abbrev pub waiting : List ℕ → ℕ → ℕ → Pipe
waiting wire quiet stall = record {
  wire = wire;
  l3_rx = [];
  pending_err = none;
  quiet = quiet;
  stall = stall;
}

module _ (b : ℕ) (bs : List ℕ) (quiet stall : ℕ)
    (part : next_message (b ∷ bs) ≡ record { result = ok none; buf = b ∷ bs }) where
  held-waiting : parse_held (waiting (b ∷ bs) quiet stall) ≡ some (waiting (b ∷ bs) quiet stall)
  unfolding parse_held
  held-waiting =
      rw
        (
          parse_held,
          process_wire_messages-on_wire [] (b ∷ bs) [] (ok tt) tt (ap (λ n. n.result) part),
        )
        (ap (λ n. some (waiting n.buf quiet stall)) part)

  ready-waiting :
      (room : ℕ) (port : List (ℕ × PortRead))
      → ready (waiting (b ∷ bs) quiet stall) room port ≡ reads (waiting (b ∷ bs) quiet stall)
  unfolding ready hand_out parse_unread
  ready-waiting room port = rw (ready, held-waiting) refl

-- What a round does with the bytes of its read.
abbrev after_got : ℕ → List (ℕ × PortRead) → List ℕ → Pipe → Option Read
after_got room port [] p = ends (ok []) p port
after_got room port (b ∷ bs) p = elim (receive p (b ∷ bs)) [
  | none ↦ none
  | some next ↦ read_loop next room port
]

read_loop-got :
    (p q : Pipe) (bytes : List ℕ) (waited room : ℕ) (port : List (ℕ × PortRead))
    → ready p room ((waited, got bytes) ∷ port) ≡ reads q
    → read_loop p room ((waited, got bytes) ∷ port)
      ≡ after_got room port bytes (count_quiet q waited)
unfolding read_loop
read_loop-got p q [] waited room port e = rw (read_loop, e) refl
read_loop-got p q (b ∷ bs) waited room port e = rw (read_loop, e) refl

ready_empty :
    (stall room : ℕ) (port : List (ℕ × PortRead))
    → ready (waiting [] 0 stall) room port ≡ reads (waiting [] 0 stall)
unfolding ready hand_out parse_unread
ready_empty stall room port = refl

quiet_stalled :
    (b : ℕ) (bs : List ℕ) (quiet waited stall : ℕ)
    → stall ≤ quiet + waited
    → count_quiet (waiting (b ∷ bs) quiet stall) waited ≡ waiting [] 0 stall
unfolding count_quiet count_waited discard_partial
quiet_stalled b bs quiet waited stall h = rw (le→ltb (quiet + waited) stall h) refl

quiet_empty : (stall waited : ℕ) → count_quiet (waiting [] 0 stall) waited ≡ waiting [] 0 stall
unfolding count_quiet count_waited
quiet_empty stall waited = refl

-- Part of a message that has waited as long as a message may stall is dropped, and the read that brings
-- more goes on as if it had never come.
pub read_l3_bytes-stalled :
    (b : ℕ) (bs bytes : List ℕ) (quiet waited stall room other : ℕ) (port : List (ℕ × PortRead))
    → next_message (b ∷ bs) ≡ record { result = ok none; buf = b ∷ bs }
    → stall ≤ quiet + waited
    → 1 ≤ room
    → read_l3_bytes (waiting (b ∷ bs) quiet stall) room ((waited, got bytes) ∷ port)
      ≡ read_l3_bytes (waiting [] 0 stall) room ((other, got bytes) ∷ port)
unfolding read_l3_bytes
read_l3_bytes-stalled b bs bytes quiet waited stall room other port e h r =
    let taken : (room == 0) ≡ false = ground arith in
    rw taken (
      read_loop-got (waiting (b ∷ bs) quiet stall) (waiting (b ∷ bs) quiet stall) bytes waited room
        port (ready-waiting b bs quiet stall e room ((waited, got bytes) ∷ port))
      ∙ ap (after_got room port bytes)
          (quiet_stalled b bs quiet waited stall h ∙ sym (quiet_empty stall other))
      ∙ sym (
          read_loop-got (waiting [] 0 stall) (waiting [] 0 stall) bytes other room port
            (ready_empty stall room ((other, got bytes) ∷ port))))
