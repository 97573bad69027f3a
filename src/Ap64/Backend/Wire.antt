-- ===== src/Ap64/Backend/Wire.antt =====
-- The requests of `write_many` of crates/ap64-cart/src/backend.rs on the wire, by the encoder of crates/ap64-cart/src/m64p.rs.
use multi.Common.{
  ℕ, suc, ◌+◌, ◌^◌, ◌≤◌, ◌<◌, ◌≡◌, refl, sym, ap, subst, inl, inr, List, [], ◌∷◌, length, All,
  All-append, All-map, All-both, ok, Bool-cases, arith,
}
use multi.Common.Bytes.{IsU16, IsU32}
use multi.Common.Chunks.{chunk_loop}
use multi.Ap64.M64p.{max_regions, max_region_bytes, max_total_bytes}
use multi.Ap64.M64p.Msg
use multi.Ap64.M64p.Request.{check_limits, write_lens, encode_pokev, counted, writes_bytes}
use multi.Ap64.M64p.Request.Limits.{
  sum, IsRegionLen, FirstOver, here, there, check_limits-Limited, length-write_lens,
  length-encode_pokev,
}
use multi.Ap64.M64p.Request.Reading.{read_request, read_write, read-encode_pokev}
use multi.Ap64.Backend.{
  Write, coalesce, place_chunks, chunks_of, fits_one_request, chunks_to_send, sum_of, write_len,
  fill, write_batches,
}
use multi.Ap64.Backend.Memory.{Memory}
use multi.Ap64.Backend.Coalescing.{AreInside}
use multi.Ap64.Backend.Requests.{flatten-fill, IsRequest, fill-IsRequest, All-flatten}
use multi.Ap64.Backend.Writing.{chunks_to_send_lem}

-- A chunk with a u32 for an address that is no longer than a region can be.
abbrev IsSendable : Write → Type 0
IsSendable w = IsU32 w.0 × (write_len w ≤ max_region_bytes)

place_chunks-IsU32 :
    (addr i : ℕ) (cs : List (List ℕ)) → All (λ w. IsU32 w.0) (place_chunks addr i cs)
unfolding place_chunks
place_chunks-IsU32 addr i [] = tt
place_chunks-IsU32 addr i (c ∷ cs) = (omega arith, place_chunks-IsU32 addr (suc i) cs)

chunks_of-IsU32 : (ws : List Write) → All (λ w. IsU32 w.0) (chunks_of ws)
unfolding chunks_of
chunks_of-IsU32 [] = tt
chunks_of-IsU32 ((addr, bs) ∷ ws) =
    let cs = chunk_loop (length bs) max_region_bytes bs in
    All-append (λ w. IsU32 w.0) (place_chunks addr 0 cs) (chunks_of ws)
      (place_chunks-IsU32 addr 0 cs) (chunks_of-IsU32 ws)

chunks_to_send-IsU32 : (ws : List Write) → All (λ w. IsU32 w.0) (chunks_to_send ws)
unfolding chunks_to_send
chunks_to_send-IsU32 ws = elim (Bool-cases (fits_one_request (chunks_of (coalesce ws)))) [
  | inl e ↦ rw e (chunks_of-IsU32 (coalesce ws))
  | inr e ↦ rw e (chunks_of-IsU32 ws)
]

sum-write_lens : (ws : List Write) → sum (write_lens ws) ≡ sum_of write_len ws
sum-write_lens [] = refl
sum-write_lens ((addr, bs) ∷ ws) = ap (λ n. length bs + n) (sum-write_lens ws)

write_lens-IsRegionLen : (ws : List Write) → All IsSendable ws → All IsRegionLen (write_lens ws)
write_lens-IsRegionLen [] h = tt
write_lens-IsRegionLen ((addr, bs) ∷ ws) h = (h.0.1, write_lens-IsRegionLen ws h.1)

none_over : (len : ℕ) (lens : List ℕ) → FirstOver len lens → All IsRegionLen lens → ⊥
none_over len [] f each = elim f [ ]
none_over len (n ∷ lens) (here h) each = omega (arith, h, each.0)
none_over len (n ∷ lens) (there p f) each = none_over len lens f each.1

-- Limits that are kept are no reason to refuse.
kept :
    (lens : List ℕ)
    → length lens ≤ max_regions
    → All IsRegionLen lens
    → sum lens ≤ max_total_bytes
    → check_limits lens ≡ ok tt
kept lens few each all = elim (check_limits-Limited lens) [
  | inl (a, e) ↦ absurd (omega (arith, a, few))
  | inr (inl (a, (len, f, e))) ↦ absurd (none_over len lens f each)
  | inr (inr (inl (a, b, c, e))) ↦ absurd (omega (arith, c, all))
  | inr (inr (inr (a, b, c, e))) ↦ e
]

encoded :
    (rid : ℕ) (batch : List Write)
    → IsRequest write_len batch
    → All IsSendable batch
    → (bs : List ℕ) × (encode_pokev rid batch ≡ ok bs)
unfolding encode_pokev
encoded rid batch (p, q, r) h =
    let few : length (write_lens batch) ≤ max_regions = omega (arith, q, length-write_lens batch) in
    let all : sum (write_lens batch) ≤ max_total_bytes = omega (arith, r, sum-write_lens batch) in
    let checked = kept (write_lens batch) few (write_lens-IsRegionLen batch h) all in
    (counted Msg.pokev rid (length batch) (writes_bytes batch), (rw checked refl))

-- A request that the encoder accepts: it fits one transfer to the cart, and a reader of the protocol finds in it the writes.
abbrev pub IsOnWire : ℕ → List Write → Type 0
IsOnWire rid batch =
    (bs : List ℕ) × (encode_pokev rid batch ≡ ok bs)
    × (length bs ≤ 8192)
    × (read_request read_write bs ≡ (Msg.pokev, rid, batch))

on_wire :
    (rid : ℕ) (batch : List Write)
    → IsU16 rid
    → IsRequest write_len batch × All IsSendable batch
    → IsOnWire rid batch
on_wire rid batch u (h, k) =
    let (bs, e) = encoded rid batch h k in
    let addresses = All-map IsSendable (λ w. IsU32 w.0) (λ w p. p.0) batch k in
    (bs, e, (length-encode_pokev rid batch bs e).1, read-encode_pokev rid u batch bs addresses e)

-- Where all writes are inside `size`, a u32, none of the requests that `write_many` fills with them is refused by the encoder, under any
-- u16 id; each fits the 8192 bytes of one transfer to the cart, and a reader of the protocol finds the writes of the request in it.
pub write_batches-IsOnWire :
    (rid size : ℕ) (ws : List Write)
    → IsU16 rid
    → size < 2 ^ 32
    → AreInside size ws
    → All (IsOnWire rid) (write_batches (chunks_to_send ws))
unfolding write_batches
write_batches-IsOnWire rid size ws u small inside =
    let zeros : Memory = λ x. 0 in
    let cs = chunks_to_send ws in
    let short = (chunks_to_send_lem zeros size ws small inside).1 in
    let requests = fill-IsRequest write_len cs [] (omega arith) (omega arith) short in
    let bs = fill write_len [] 0 cs in
    let sendable : All IsSendable cs =
      All-both (λ w. IsU32 w.0) (λ w. write_len w ≤ max_region_bytes) cs (chunks_to_send-IsU32 ws)
        short in
    let each : All (All IsSendable) bs =
      All-flatten IsSendable bs
        (subst (All IsSendable) (sym (flatten-fill write_len cs [] 0)) sendable) in
    All-map (λ b. IsRequest write_len b × All IsSendable b) (IsOnWire rid)
      (λ b h. on_wire rid b u h) bs
      (All-both (IsRequest write_len) (All IsSendable) bs requests each)
