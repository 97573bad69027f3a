-- ===== src/Ed64pro/Pipe/Writing.antt =====
-- What `write_l3_stream_with_max` of crates/ed64pro-l2/src/lib.rs sends, and when.
use multi.Common.{
  ℕ, suc, ◌+◌, ◌≤◌, ◌≡◌, refl, sym, ap, subst, ◌∙◌, ◌⊎◌, inl, inr, List, [], ◌∷◌, ◌++◌, Option,
  none, some, length, All, All-map, ok, err, arith,
}
use mathlib.Core.List.{append_assoc, append-nil}
use multi.Common.Chunks.{chunks_lem, concat, IsChunk}
use multi.Ed64pro.Wire.{link, memory, fifo_addr}
use multi.Ed64pro.Link.{Link, io, write_failed}
use multi.Ed64pro.Device.{fifo_write}
use multi.Ed64pro.Device.Sending.{concat-append}
use multi.Ed64pro.Device.Transfers.{epo_bytes}
use multi.Ed64pro.Device.Failing.{written_on, fifo_write-Sends}
use multi.Ed64pro.Pipe.{
  rom_fifo_capacity, Pipe, Slot, Delays, wake_at, Call, after_write, write_chunks, clamp,
  write_l3_stream_with_max,
}

-- The commands that put chunks into the FIFO, each with the chunk behind it.
abbrev pub fifo_bytes : List (List ℕ) → List ℕ
fifo_bytes [] = []
fifo_bytes (c ∷ cs) = epo_bytes link memory 0 fifo_addr (length c) ++ (c ++ fifo_bytes cs)

-- That no chunk begins before the time allowed, and each one as long after the last was written as the gap is.
abbrev NotBefore : Option ℕ → ℕ → Type 0
NotBefore none begin = Unit
NotBefore (some at) begin = at ≤ begin

unfoldable pub AreSpaced : ℕ → Option ℕ → List Slot → Type 0
AreSpaced gap at [] = Unit
AreSpaced gap at ((begin, done) ∷ slots) =
    NotBefore at begin × (begin ≤ done) × AreSpaced gap (some (done + gap)) slots

wake_at-NotBefore : (at : Option ℕ) (now : ℕ) → NotBefore at (wake_at at now)
wake_at-NotBefore none now = tt
wake_at-NotBefore (some at) now = ground arith

clamp-fits : (n : ℕ) → (1 ≤ clamp n) × (clamp n ≤ rom_fifo_capacity)
clamp-fits n = ground arith

-- Before what time nothing is written after some slots.
abbrev pub next_after : ℕ → Option ℕ → List Slot → Option ℕ
next_after gap at [] = at
next_after gap at ((begin, done) ∷ slots) = next_after gap (some (done + gap)) slots

-- What a call leaves, also one that failed: its slots are spaced, from what was before them, and the pipe remembers the last.
unfoldable pub IsPaced : Pipe → Call → Type 0
IsPaced p call =
    AreSpaced p.chunk_gap p.next_write_at call.slots
    × (call.pipe.chunk_gap ≡ p.chunk_gap)
    × (call.pipe.next_write_at ≡ next_after p.chunk_gap p.next_write_at call.slots)

-- The command for every chunk and the chunk were written, in order.
abbrev pub IsWhole : Link → List (List ℕ) → Call → Type 0
IsWhole l cs call =
    (bl : List (List ℕ)) × (k : Option ℕ) × (call.outcome ≡ ok tt)
    × (call.dev ≡ written_on l bl k)
    × (concat bl ≡ fifo_bytes cs)
    × (length call.slots ≡ length cs)

-- The port failed in one chunk: what was written is all of the chunks before it, and a part of what that one needs.
abbrev pub IsCutOff : Link → List (List ℕ) → Call → Type 0
IsCutOff l cs call =
    (before : List (List ℕ)) × (c : List ℕ) × (after : List (List ℕ)) × (bl : List (List ℕ))
    × (k : Option ℕ) × (part left : List ℕ) × (cs ≡ before ++ (c ∷ after))
    × (call.outcome ≡ err (io write_failed))
    × (call.dev ≡ written_on l bl k)
    × (concat bl ≡ fifo_bytes before ++ part)
    × (part ++ left ≡ epo_bytes link memory 0 fifo_addr (length c) ++ c)
    × (length call.slots ≡ length before)

abbrev pub CallOutcome : Link → List (List ℕ) → Call → Type 0
CallOutcome l cs call = IsWhole l cs call ⊎ IsCutOff l cs call

-- A chunk that is written, before the others.
one_more :
    (l : Link) (bl : List (List ℕ)) (k : Option ℕ) (c : List ℕ) (cs : List (List ℕ)) (p : Pipe)
    (slot : Slot) (rest : Call)
    → concat bl ≡ epo_bytes link memory 0 fifo_addr (length c) ++ c
    → CallOutcome (written_on l bl k) cs rest
    → CallOutcome l (c ∷ cs) (after_write (ok tt, written_on l bl k) p slot rest)
one_more l bl k c cs p slot rest e (inl (cl, n, done, dev, sent, size)) = inl (
  bl ++ cl,
  n,
  done,
  dev ∙ ap (λ w. record l { written = w; takes = n }) (append_assoc l.written bl cl),
  concat-append bl cl
      ∙ rw (e, sent)
          (append_assoc (epo_bytes link memory 0 fifo_addr (length c)) c (fifo_bytes cs)),
  ap suc size,
)
one_more l bl k c cs p slot rest e
      (inr (before, x, after, cl, n, part, left, cut, failed, dev, sent, needs, size)) =
    inr (
      c ∷ before,
      x,
      after,
      bl ++ cl,
      n,
      part,
      left,
      ap (λ ys. c ∷ ys) cut,
      failed,
      dev ∙ ap (λ w. record l { written = w; takes = n }) (append_assoc l.written bl cl),
      concat-append bl cl
          ∙ ap (λ ys. ys ++ concat cl) e
          ∙ ap (λ ys. (epo_bytes link memory 0 fifo_addr (length c) ++ c) ++ ys) sent
          ∙ sym (
              append_assoc (epo_bytes link memory 0 fifo_addr (length c) ++ c) (fifo_bytes before)
                part)
          ∙ ap (λ ys. ys ++ part)
              (append_assoc (epo_bytes link memory 0 fifo_addr (length c)) c (fifo_bytes before)),
      needs,
      ap suc size,
    )

write_chunks_lem :
    (delays : Delays) (i : ℕ) (p : Pipe) (now : ℕ) (cs : List (List ℕ)) (l : Link)
    → All (IsChunk rom_fifo_capacity) cs
    → CallOutcome l cs (write_chunks delays i p now cs l)
      × IsPaced p (write_chunks delays i p now cs l)
unfolding write_chunks AreSpaced IsPaced
write_chunks_lem delays i p now [] l h =
    (inl ([], l.takes, refl, (rw (append-nil l.written) refl), refl, refl), (tt, refl, refl))
write_chunks_lem delays i p now (c ∷ cs) l (h, hs) =
    let begin = wake_at p.next_write_at (now + (delays i).0) in
    let done = begin + (delays i).1 in
    let p' : Pipe = record p { next_write_at = some (done + p.chunk_gap) } in
    let x = fifo_write c l in
    let rest = write_chunks delays (suc i) p' done cs in
    let (bl, k, sent) = fifo_write-Sends c (h.0, omega (arith, h.1)) l in
    elim sent [
      | inl (e, whole) ↦
          let l' = written_on l bl k in
          let (outcome, (spaced, gap, last)) = write_chunks_lem delays (suc i) p' done cs l' hs in
          subst
            (λ y.
              CallOutcome l (c ∷ cs) (after_write y p (begin, done) (rest y.1))
              × IsPaced p (after_write y p (begin, done) (rest y.1)))
            (sym e)
            (
              one_more l bl k c cs p (begin, done) (rest l') whole outcome,
              (
                (wake_at-NotBefore p.next_write_at (now + (delays i).0), omega arith, spaced),
                gap,
                last,
              ),
            )
      | inr (e, (left, part)) ↦
          subst
            (λ y.
              CallOutcome l (c ∷ cs) (after_write y p (begin, done) (rest y.1))
              × IsPaced p (after_write y p (begin, done) (rest y.1)))
            (sym e)
            (
              inr ([], c, cs, bl, k, concat bl, left, refl, refl, refl, refl, part, refl),
              (tt, refl, refl),
            )
    ]

-- `write_l3_stream_with_max` cuts the bytes into chunks that are not empty, and none longer than asked, where 0 counts as 1, or than the ROM's FIFO.
-- On any port, either it succeeds, and has written for each chunk in order the command that puts it in the FIFO and the chunk, and
-- nothing else; or a write or a flush fails in one chunk, and then it fails with that error, and has written this for each chunk
-- before it, and behind it a part, from the front, of the command and bytes of that chunk, and nothing else. What the cart is still to send stays. It begins no
-- chunk before the gap since the last one written is over, the last of an earlier call included, and leaves the pipe, also when it
-- fails, with the time when the next may begin.
pub write_l3_stream_with_max-IsPaced :
    (delays : Delays) (p : Pipe) (now : ℕ) (buf : List ℕ) (max_chunk : ℕ) (l : Link)
    → (cs : List (List ℕ)) × (concat cs ≡ buf)
      × All (IsChunk (clamp max_chunk)) cs
      × CallOutcome l cs (write_l3_stream_with_max delays p now buf max_chunk l)
      × IsPaced p (write_l3_stream_with_max delays p now buf max_chunk l)
unfolding write_l3_stream_with_max
write_l3_stream_with_max-IsPaced delays p now buf max_chunk l =
    let (some_bytes, short) = clamp-fits max_chunk in
    let (cs, cut, whole, parts) = chunks_lem (clamp max_chunk) buf some_bytes in
    let fit =
      All-map (IsChunk (clamp max_chunk)) (IsChunk rom_fifo_capacity)
        (λ c h. (h.0, omega (arith, h.1, short))) cs parts in
    let (outcome, spaced) = write_chunks_lem delays 0 p now cs l fit in
    (cs, whole, parts, (rw cut outcome), (rw cut spaced))
