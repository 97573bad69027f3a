-- ===== src/Ed64pro/Device/Failing.antt =====
-- Operations that only write (`send`, `mem_write` and `fifo_write` of crates/ed64pro-link/src/device.rs) on any port, also one that
-- fails.
use multi.Common.{
  ℕ, zero, suc, ◌≤◌, ◌^◌, ◌≡◌, refl, sym, ap, ◌∙◌, ◌⊎◌, inl, inr, List, [], ◌∷◌, ◌++◌, Option, none,
  some, length, take, drop, Result, ok, err, true, false, ltb, ◌==◌, arith, length-drop,
  take-append-drop, subst,
}
use mathlib.Core.List.{append_assoc, append-nil}
use multi.Common.Chunks.{concat}
use multi.Ed64pro.Wire.{link, memory, fifo_addr}
use multi.Ed64pro.Link.{
  Link, M, Error, io, write_failed, and_then, port_call, write_all, flush, ◌>>=◌, ◌>>◌,
}
use multi.Ed64pro.Device.{block_len, send_loop, send, transfer_len, epo, mem_write, fifo_write}
use multi.Ed64pro.Device.Sending.{concat-append, block_len-fits}
use multi.Ed64pro.Device.Transfers.{epo_bytes, IsTransfer}

-- The connection with blocks written, and so many more writes that the port takes.
abbrev pub written_on : Link → List (List ℕ) → Option ℕ → Link
written_on l bl k = record l { written = l.written ++ bl; takes = k }

-- All bytes were written, or the port failed and those written are the first of them; the connection is otherwise as it was.
abbrev pub IsSentOf : Link → Result Error (Unit {0}) × Link → List ℕ → Type 0
IsSentOf l x bytes =
    (bl : List (List ℕ)) × (k : Option ℕ) × (((x ≡ (ok tt, written_on l bl k))
        × (concat bl ≡ bytes))
      ⊎ ((x ≡ (err (io write_failed), written_on l bl k))
          × ((left : List ℕ) × (concat bl ++ left ≡ bytes))))

abbrev pub Sends : M (Unit {0}) → List ℕ → Type 0
Sends m bytes = (l : Link) → IsSentOf l (m l) bytes

port_call-cases :
    (k : Option ℕ) (before l : Link)
    → l.takes ≡ k
    → ((k' : Option ℕ) × (port_call k before l ≡ (ok tt, record l { takes = k' })))
      ⊎ (port_call k before l ≡ (err (io write_failed), before))
port_call-cases none before l h = inl (none, ap (λ k. (ok tt, record l { takes = k })) h)
port_call-cases (some zero) before l h = inr refl
port_call-cases (some (suc n)) before l h = inl (some n, refl)

pub write_all-Sends : (block : List ℕ) → Sends (write_all block) block
write_all-Sends block l =
    elim (port_call-cases l.takes l (record l { written = l.written ++ (block ∷ []) }) refl) [
      | inl (k, e) ↦ (block ∷ [], k, inl (e, append-nil block))
      | inr e ↦ ([], l.takes, inr (rw (append-nil l.written) e, (block, refl)))
    ]

pub flush-Sends : Sends flush []
flush-Sends l = elim (port_call-cases l.takes l l refl) [
  | inl (k, e) ↦ ([], k, inl (rw (append-nil l.written) e, refl))
  | inr e ↦ ([], l.takes, inr (rw (append-nil l.written) e, ([], refl)))
]

nothing-Sends : Sends (λ l. (ok tt, l)) []
nothing-Sends l = ([], l.takes, inl (rw (append-nil l.written) refl, refl))

then_sent :
    (m k : M (Unit {0})) (s u : List ℕ) (l : Link)
    → Sends k u
    → IsSentOf l (m l) s
    → IsSentOf l ((m >> k) l) (s ++ u)
unfolding ◌>>=◌
then_sent m k s u l next (bl, n, inr (e, (left, p))) = (
  bl,
  n,
  inr (
    ap (λ x. and_then x (λ _. k)) e,
    (left ++ u, sym (append_assoc (concat bl) left u) ∙ ap (λ ys. ys ++ u) p),
  ),
)
then_sent m k s u l next (bl, n, inl (e, p)) = behind (next (written_on l bl n))
  where
    behind :
        IsSentOf (written_on l bl n) (k (written_on l bl n)) u → IsSentOf l ((m >> k) l) (s ++ u)
    behind (cl, n', inl (g, q)) = (
      bl ++ cl,
      n',
      inl (
        ap (λ x. and_then x (λ _. k)) e ∙ rw (append_assoc l.written bl cl) at g,
        concat-append bl cl ∙ rw (p, q) refl,
      ),
    )
    behind (cl, n', inr (g, (left, q))) = (
      bl ++ cl,
      n',
      inr (
        ap (λ x. and_then x (λ _. k)) e ∙ rw (append_assoc l.written bl cl) at g,
        (
          left,
          ap (λ ys. ys ++ left) (concat-append bl cl)
              ∙ append_assoc (concat bl) (concat cl) left
              ∙ rw (p, q) refl,
        ),
      ),
    )

then-Sends : (m k : M (Unit {0})) (s u : List ℕ) → Sends m s → Sends k u → Sends (m >> k) (s ++ u)
then-Sends m k s u first next l = then_sent m k s u l next (first l)

send_loop-Sends :
    (fuel : ℕ) (bytes : List ℕ) → length bytes ≤ fuel → Sends (send_loop fuel bytes) bytes
unfolding send_loop
send_loop-Sends zero [] h = nothing-Sends
send_loop-Sends zero (b ∷ bs) h = absurd (omega arith)
send_loop-Sends (suc fuel) [] h = nothing-Sends
send_loop-Sends (suc fuel) (b ∷ bs) h =
    let n = block_len (length (b ∷ bs)) in
    let fits = block_len-fits (length (b ∷ bs)) (omega arith) in
    let rest =
      send_loop-Sends fuel (drop n (b ∷ bs)) (omega (arith, length-drop n (b ∷ bs), fits.0)) in
    let whole = take-append-drop n (b ∷ bs) in
    λ l. subst (IsSentOf l (send_loop (suc fuel) (b ∷ bs) l)) whole (
      then-Sends (write_all (take n (b ∷ bs))) (send_loop fuel (drop n (b ∷ bs))) (take n (b ∷ bs))
        (drop n (b ∷ bs)) (write_all-Sends (take n (b ∷ bs))) rest l)

pub send-Sends : (bytes : List ℕ) → Sends (send bytes) bytes
unfolding send
send-Sends bytes l = subst (IsSentOf l (send bytes l)) (append-nil bytes) (
    then-Sends (send_loop (length bytes) bytes) flush bytes []
      (send_loop-Sends (length bytes) bytes (omega arith)) flush-Sends l)

pub fifo_write-Sends :
    (c : List ℕ)
    → IsTransfer (length c)
    → Sends (fifo_write c) (epo_bytes link memory 0 fifo_addr (length c) ++ c)
unfolding fifo_write mem_write transfer_len epo ◌>>=◌
fifo_write-Sends c h l =
    let some_bytes : (length c == 0) ≡ false = ground arith in
    let short : ltb (length c) (2 ^ 32) ≡ true = ground arith in
    rw (some_bytes, short)
      (then-Sends (send (epo_bytes link memory 0 fifo_addr (length c))) (send c)
        (epo_bytes link memory 0 fifo_addr (length c)) c
        (send-Sends (epo_bytes link memory 0 fifo_addr (length c))) (send-Sends c) l)
