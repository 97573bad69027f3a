-- ===== src/Ed64/Pipe/Delivery.antt =====
-- What `process_wire_messages` queues from a stream of the cart's messages.
use multi.Common.{
  ℕ, zero, suc, ◌<◌, ◌≡◌, refl, ap, ◌∙◌, List, [], ◌∷◌, ◌++◌, Option, none, some, Result, ok, err,
  length, arith, All, length-append, ◌==◌, if◌then◌else◌,
}
use mathlib.Core.List.{append_assoc, append-nil}
use multi.Ed64.Wire.{WireMessage, Next, WireError, next_message}
use multi.Ed64.Wire.Layout.{IsMessage, IsNoise, message_bytes, found, next_message-message_bytes}
use multi.Ed64.Pipe.{take_message, multi64_l3_type, Processed, process_loop, process_wire_messages}

-- A message on the wire, with noise before it and its alignment byte.
pub record Arrival : Type 0 where
  pub noise : List ℕ
  pub message : WireMessage
  pub pad : List ℕ

pub record IsArrival (a : Arrival) : Type 0 where
  pub whole : IsMessage a.message a.pad
  pub passed : IsNoise a.noise

abbrev pub on_wire : List Arrival → List ℕ → List ℕ
on_wire [] tail = tail
on_wire (a ∷ ps) tail = a.noise ++ (message_bytes a.message a.pad ++ on_wire ps tail)

-- The L3 bytes that a message carries.
abbrev pub l3_of : WireMessage → List ℕ
l3_of m = if m.datatype == multi64_l3_type then m.payload else []

abbrev pub l3_of_all : List Arrival → List ℕ
l3_of_all [] = []
l3_of_all (a ∷ ps) = l3_of a.message ++ l3_of_all ps

take-l3_of : (rx : List ℕ) (m : WireMessage) → take_message rx m ≡ rx ++ l3_of m
unfolding take_message
take-l3_of rx m = ground (arith, append-nil rx)

shorter :
    (a : Arrival) (tail : List ℕ)
    → length tail < length (a.noise ++ (message_bytes a.message a.pad ++ tail))
shorter a tail = omega (
  arith,
  length-append a.noise (message_bytes a.message a.pad ++ tail),
  length-append (message_bytes a.message a.pad) tail,
)

message_step :
    (fuel : ℕ) (wire rx rest : List ℕ) (m : WireMessage)
    → next_message wire ≡ found m rest
    → process_loop (suc fuel) wire rx ≡ process_loop fuel rest (rx ++ l3_of m)
unfolding process_loop
message_step fuel wire rx rest m e =
    ap
      (λ next. elim next.result [
        | err x ↦ some (record { wire = next.buf; l3_rx = rx; outcome = err x })
        | ok none ↦ some (record { wire = next.buf; l3_rx = rx; outcome = ok tt })
        | ok (some n) ↦ process_loop fuel next.buf (take_message rx n)
      ])
      e
    ∙ ap (process_loop fuel rest) (take-l3_of rx m)

-- How the loop goes on behind the messages.
loop-on_wire :
    (ps : List Arrival) (rest rx : List ℕ) (fuel : ℕ) (P : Option Processed)
    → All IsArrival ps
    → length (on_wire ps rest) < fuel
    → ((f : ℕ) → length rest < f → process_loop f rest (rx ++ l3_of_all ps) ≡ P)
    → process_loop fuel (on_wire ps rest) rx ≡ P
unfolding process_loop
loop-on_wire [] rest rx fuel P v h k = rw append-nil at (k fuel h)
loop-on_wire (a ∷ ps) rest rx zero P v h k = absurd (omega arith)
loop-on_wire (a ∷ ps) rest rx (suc fuel) P v h k =
    message_step fuel (on_wire (a ∷ ps) rest) rx (on_wire ps rest) a.message
      (next_message-message_bytes a.noise a.message a.pad (on_wire ps rest) v.0.whole v.0.passed)
    ∙ loop-on_wire ps rest (rx ++ l3_of a.message) fuel P v.1
        (omega (arith, shorter a (on_wire ps rest)))
        (λ f p. rw (append_assoc rx (l3_of a.message) (l3_of_all ps)) (k f p))

-- The messages end here: more bytes are needed, or a trailer is missing.
abbrev pub Stops : Next → Result WireError (Unit {0}) → Type 0
Stops n (ok t) = n.result ≡ ok none
Stops n (err x) = n.result ≡ err x

stopped :
    (tail rx : List ℕ) (f : ℕ) (outcome : Result WireError (Unit {0}))
    → Stops (next_message tail) outcome
    → length tail < f
    → process_loop f tail rx
      ≡ some (record { wire = (next_message tail).buf; l3_rx = rx; outcome = outcome })
unfolding process_loop
stopped tail rx zero outcome q h = absurd (omega arith)
stopped tail rx (suc f) (ok t) q h = rw (process_loop, q) refl
stopped tail rx (suc f) (err x) q h = rw (process_loop, q) refl

-- From any messages of the cart, with noise between them, the L3 bytes of the messages of the L3 type
-- join the queue in order, and nothing else does. Behind them the call stops where more bytes are
-- needed, or with the error of a message without its trailer; the bytes before it are in the queue.
pub process_wire_messages-on_wire :
    (ps : List Arrival) (tail rx : List ℕ) (outcome : Result WireError (Unit {0}))
    → All IsArrival ps
    → Stops (next_message tail) outcome
    → process_wire_messages (on_wire ps tail) rx
      ≡ some
          (record { wire = (next_message tail).buf; l3_rx = rx ++ l3_of_all ps; outcome = outcome })
unfolding process_wire_messages
process_wire_messages-on_wire ps tail rx outcome v q =
    loop-on_wire ps tail rx (suc (length (on_wire ps tail))) _ v (omega arith)
      (λ f p. stopped tail (rx ++ l3_of_all ps) f outcome q p)
