-- ===== src/Ed64/Pipe/Writing.antt =====
-- What the cart reads out of a stream that the PC writes.
use multi.Common.{
  ℕ, zero, suc, ◌+◌, ◌≤◌, ◌≡◌, refl, sym, ap, ◌∙◌, List, [], ◌∷◌, ◌++◌, some, Result, ok, err,
  subst, length, take, All, All-map, ◌⊎◌, inl, inr, arith,
}
use mathlib.Core.List.{append_assoc}
use multi.Common.Chunks.{concat, IsChunk, chunks_lem}
use multi.Ed64.Wire.{WireMessage, WireError, max_message_bytes, encode_message, port_failed}
use multi.Ed64.Wire.Host.{read_host, read_host-encode_message}
use multi.Ed64.Pipe.{
  multi64_l3_type, PortWrite, taken, failed_after, Port, Sent, write_all, write_messages, clamped,
  write_l3_stream_with_max,
}

-- The messages that the cart reads one behind the other until nothing is left.
pub data Reads : List ℕ → List WireMessage → Type 0 where
  done : Reads [] []
  next :
      {rest : List ℕ} {ms : List WireMessage} (buf : List ℕ) (m : WireMessage)
      → read_host buf ≡ some (m, rest)
      → Reads rest ms
      → Reads buf (m ∷ ms)

abbrev pub l3_messages : List (List ℕ) → List WireMessage
l3_messages [] = []
l3_messages (c ∷ cs) = record { datatype = multi64_l3_type; payload = c } ∷ l3_messages cs

-- That the port takes `n` writes from the `i`-th.
abbrev pub Takes : Port → ℕ → ℕ → Type 0
Takes port i zero = Unit
Takes port i (suc n) = (port.writes i ≡ taken) × Takes port (suc i) n

-- Every chunk was sent as a message, and the call ends as the flush does.
abbrev pub IsWhole : Port → ℕ → List (List ℕ) → Sent → Type 0
IsWhole port i cs out =
    Takes port i (length cs) × Reads out.bytes (l3_messages cs) × (out.outcome ≡ port.flush)

-- The port failed in one message: those before it were sent, and what the port took of it, and nothing behind it.
abbrev pub IsCutOff : Port → ℕ → List (List ℕ) → Sent → Type 0
IsCutOff port i cs out =
    (before : List (List ℕ)) × (c : List ℕ) × (after : List (List ℕ)) × (n : ℕ) × (whole m : List ℕ)
    × (cs ≡ before ++ (c ∷ after))
    × Takes port i (length before)
    × (port.writes (i + length before) ≡ failed_after n)
    × Reads whole (l3_messages before)
    × (encode_message multi64_l3_type c ≡ ok m)
    × (out.bytes ≡ whole ++ take n m)
    × (out.outcome ≡ err port_failed)

abbrev pub SentOutcome : Port → ℕ → List (List ℕ) → Sent → Type 0
SentOutcome port i cs out = IsWhole port i cs out ⊎ IsCutOff port i cs out

PortWrite-cases : (w : PortWrite) → (w ≡ taken) ⊎ ((n : ℕ) × (w ≡ failed_after n))
PortWrite-cases taken = inl refl
PortWrite-cases (failed_after n) = inr (n, refl)

-- One message that the port takes, before the others.
one_more :
    (port : Port) (i : ℕ) (c : List ℕ) (cs : List (List ℕ)) (m : List ℕ) (rest : Sent)
    → port.writes i ≡ taken
    → encode_message multi64_l3_type c ≡ ok m
    → length c ≤ max_message_bytes
    → read_host (m ++ rest.bytes)
      ≡ some (record { datatype = multi64_l3_type; payload = c }, rest.bytes)
    → SentOutcome port (suc i) cs rest
    → SentOutcome port i (c ∷ cs) (write_all taken m rest)
one_more port i c cs m rest e f h q (inl (all, reads, end)) =
    inl ((e, all), next (m ++ rest.bytes) _ q reads, end)
one_more port i c cs m rest e f h q
      (inr (before, x, after, n, whole, k, cut, some_taken, bad, reads, g, bytes, end)) =
    let (m', f', q', _) = read_host-encode_message multi64_l3_type c whole (omega arith) h in
    let same : m' ≡ m = ok_inj m' m (sym f' ∙ f) in
    let at : i + suc (length before) ≡ suc i + length before = omega arith in
    inr (
      c ∷ before,
      x,
      after,
      n,
      m' ++ whole,
      k,
      ap (λ ys. c ∷ ys) cut,
      (e, some_taken),
      ap port.writes at ∙ bad,
      next (m' ++ whole) _ q' reads,
      g,
      ap (λ ys. ys ++ rest.bytes) (sym same)
          ∙ ap (λ ys. m' ++ ys) bytes
          ∙ sym (append_assoc m' whole (take n k)),
      end,
    )
  where
    ok_inj : (xs ys : List ℕ) → ◌≡◌ {A = Result WireError (List ℕ)} (ok xs) (ok ys) → xs ≡ ys
    ok_inj xs ys h = cc

write_messages_lem :
    (port : Port) (i : ℕ) (cs : List (List ℕ))
    → All (λ c. length c ≤ max_message_bytes) cs
    → SentOutcome port i cs (write_messages port i cs)
unfolding write_messages
write_messages_lem port i [] h = inl (tt, done, refl)
write_messages_lem port i (c ∷ cs) (h, hs) =
    let rest = write_messages port (suc i) cs in
    let (m, f, q, _) = read_host-encode_message multi64_l3_type c rest.bytes (omega arith) h in
    elim (PortWrite-cases (port.writes i)) [
      | inr (n, e) ↦
          let start : i + 0 ≡ i = omega arith in
          let cut : write_messages port i (c ∷ cs) ≡ write_all (failed_after n) m rest =
            rw (e, f) refl in
          subst (SentOutcome port i (c ∷ cs)) (sym cut)
            (inr ([], c, cs, n, [], m, refl, tt, (ap port.writes start ∙ e), done, f, refl, refl))
      | inl e ↦
          let sent : write_messages port i (c ∷ cs) ≡ write_all taken m rest = rw (e, f) refl in
          subst (SentOutcome port i (c ∷ cs)) (sym sent)
            (one_more port i c cs m rest e f h q (write_messages_lem port (suc i) cs hs))
    ]

-- Whatever bytes are written with whatever chunk size, the call comes to an end. They are cut into chunks, none empty and none longer
-- than the size or than a message can be, and either the port takes every write, and what was sent are messages of the L3 type that the cart
-- reads one behind the other with nothing left over, their payloads the chunks in order, and the call ends as the flush does; or the port
-- fails in the message of one chunk, and then the call fails with the port's error, and the messages of all chunks before that one were sent
-- whole, the bytes that the port took of that message behind them, and nothing else.
pub write_l3_stream-Reads :
    (port : Port) (buf : List ℕ) (max_chunk : ℕ)
    → (cs : List (List ℕ)) × (out : Sent) × (write_l3_stream_with_max port buf max_chunk ≡ some out)
      × (concat cs ≡ buf)
      × All (IsChunk (clamped max_chunk)) cs
      × SentOutcome port 0 cs out
unfolding write_l3_stream_with_max
write_l3_stream-Reads port buf max_chunk =
    let (cs, q, whole, parts) = chunks_lem (clamped max_chunk) buf (ground arith) in
    let fit =
      All-map (IsChunk (clamped max_chunk)) (λ c. length c ≤ max_message_bytes)
        (λ c h. ground (arith, h)) cs parts in
    (cs, write_messages port 0 cs, (rw q refl), whole, parts, write_messages_lem port 0 cs fit)
