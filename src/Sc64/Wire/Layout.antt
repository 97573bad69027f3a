-- ===== src/Sc64/Wire/Layout.antt =====
-- The layout of a packet from the cart, and that `next_event` reads it back.
use multi.Common.{
  ℕ, ◌+◌, ◌-◌, ◌/◌, ◌%◌, ◌≤◌, ◌≡◌, ap, ◌∙◌, true, false, List, [], ◌∷◌, ◌++◌, none, some, length,
  take, drop, arith, length-append, take-length_append, drop-length_append,
}
use mathlib.Core.List.{append_assoc}
use multi.Common.Bytes.{to_be32, from_be32-to}
use multi.Sc64.Wire.{
  WireEvent, cmp, pkt, max_cmp_data_len, max_pkt_data_len, skip, event, data_cap, header_data_len,
  event_of, after_header, round, next_event,
}
use multi.Sc64.Wire.Rounds.{round_long, header_data_len-append}
use multi.Sc64.Wire.Pops.{Pops, skips, finds, popped, Pops-next_event}

abbrev tag_of : WireEvent → List ℕ
tag_of (pkt p) = b'P' ∷ b'K' ∷ b'T' ∷ p.id ∷ []
tag_of (cmp c) = elim c.accepted [
  | true ↦ b'C' ∷ b'M' ∷ b'P' ∷ c.cmd_id ∷ []
  | false ↦ b'E' ∷ b'R' ∷ b'R' ∷ c.cmd_id ∷ []
]

abbrev pub contents_of : WireEvent → List ℕ
contents_of (pkt p) = p.contents
contents_of (cmp c) = c.contents

-- A tag and an id, the length in four bytes, the contents.
abbrev pub event_bytes : WireEvent → List ℕ
event_bytes e = tag_of e ++ (to_be32 (length (contents_of e)) ++ contents_of e)

abbrev pub cap_of : WireEvent → ℕ
cap_of (pkt p) = max_pkt_data_len
cap_of (cmp c) = max_cmp_data_len

-- An event that a packet can carry.
abbrev pub IsEvent : WireEvent → Type 0
IsEvent e = length (contents_of e) ≤ cap_of e

header-event_bytes :
    (e : WireEvent) (rest : List ℕ)
    → IsEvent e
    → header_data_len (event_bytes e ++ rest) ≡ some (length (contents_of e))
unfolding header_data_len data_cap
header-event_bytes (pkt p) rest h = ground (arith, from_be32-to (length p.contents))
header-event_bytes (cmp c) rest h = ground (arith, from_be32-to (length c.contents))

abbrev Splits : List ℕ → List ℕ → Type 0
Splits xs rest =
    (take (8 + length xs - 8) (xs ++ rest) ≡ xs) × (length (xs ++ rest) ≡ length xs + length rest)

contents-Splits : (xs rest : List ℕ) → Splits xs rest
contents-Splits xs rest =
    (take-length_append (8 + length xs - 8) xs rest (omega arith), length-append xs rest)

split_event :
    (a b c d k l m n : ℕ) (xs rest : List ℕ)
    → drop (8 + length xs) (a ∷ b ∷ c ∷ d ∷ k ∷ l ∷ m ∷ n ∷ (xs ++ rest)) ≡ rest
split_event a b c d k l m n xs rest =
    drop-length_append (8 + length xs) (a ∷ b ∷ c ∷ d ∷ k ∷ l ∷ m ∷ n ∷ xs) rest (omega arith)

after-event_bytes :
    (e : WireEvent) (rest : List ℕ)
    → after_header (event_bytes e ++ rest) (some (length (contents_of e))) ≡ event e rest
unfolding after_header event_of
after-event_bytes (pkt p) rest = ground (
  arith,
  contents-Splits p.contents rest,
  split_event b'P' b'K' b'T' p.id (length p.contents / 16777216 % 256)
      (length p.contents / 65536 % 256) (length p.contents / 256 % 256) (length p.contents % 256)
      p.contents rest,
)
after-event_bytes (cmp c) rest = ground (
  arith,
  contents-Splits c.contents rest,
  split_event b'C' b'M' b'P' c.cmd_id (length c.contents / 16777216 % 256)
      (length c.contents / 65536 % 256) (length c.contents / 256 % 256) (length c.contents % 256)
      c.contents rest,
  split_event b'E' b'R' b'R' c.cmd_id (length c.contents / 16777216 % 256)
      (length c.contents / 65536 % 256) (length c.contents / 256 % 256) (length c.contents % 256)
      c.contents rest,
)

pub header_whole : (e : WireEvent) → 8 ≤ length (event_bytes e)
header_whole (pkt p) = omega arith
header_whole (cmp c) = ground arith

header_present : (e : WireEvent) (rest : List ℕ) → 8 ≤ length (event_bytes e ++ rest)
header_present e rest = omega (arith, header_whole e, length-append (event_bytes e) rest)

pub round-event_bytes :
    (e : WireEvent) (rest : List ℕ) → IsEvent e → round (event_bytes e ++ rest) ≡ event e rest
round-event_bytes e rest h =
    round_long (event_bytes e ++ rest) (header_present e rest)
    ∙ ap (after_header (event_bytes e ++ rest)) (header-event_bytes e rest h)
    ∙ after-event_bytes e rest

-- Noise before a packet: at none of its bytes does a header begin that could be waited on.
abbrev pub IsNoise : List ℕ → List ℕ → Type 0
IsNoise [] next = Unit
IsNoise (x ∷ noise) next = (header_data_len (x ∷ (noise ++ next)) ≡ none) × IsNoise noise next

round_noise :
    (x : ℕ) (xs rest : List ℕ)
    → 8 ≤ length (x ∷ xs)
    → header_data_len (x ∷ xs) ≡ none
    → round (x ∷ (xs ++ rest)) ≡ skip (xs ++ rest)
unfolding after_header
round_noise x xs rest long e =
    round_long (x ∷ (xs ++ rest)) (omega (arith, length-append xs rest))
    ∙ ap (after_header (x ∷ (xs ++ rest))) (header_data_len-append (x ∷ xs) rest long ∙ e)

noise-Pops :
    (noise : List ℕ) (e : WireEvent) (rest : List ℕ)
    → IsEvent e
    → IsNoise noise (event_bytes e)
    → Pops (noise ++ (event_bytes e ++ rest)) (some e) rest
noise-Pops [] e rest h n = finds (round-event_bytes e rest h)
noise-Pops (x ∷ noise) e rest h n =
    skips
      (rw (append_assoc noise (event_bytes e) rest) at (
        round_noise x (noise ++ event_bytes e) rest
          (omega (arith, header_whole e, length-append noise (event_bytes e))) n.0))
      (noise-Pops noise e rest h n.1)

-- A packet behind noise is read whole, with what follows it left in the buffer: a tag whose length
-- no packet of that kind can have is such noise, and is not waited on.
pub next_event-event_bytes :
    (noise : List ℕ) (e : WireEvent) (rest : List ℕ)
    → IsEvent e
    → IsNoise noise (event_bytes e)
    → next_event (noise ++ (event_bytes e ++ rest)) ≡ some (popped (some e) rest)
next_event-event_bytes noise e rest h n = Pops-next_event (noise-Pops noise e rest h n)
