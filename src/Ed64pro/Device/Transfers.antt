-- ===== src/Ed64pro/Device/Transfers.antt =====
-- Transfers of bytes: `file_write` with an answer before each block, `file_read`, `mem_read` and `mem_write`.
use multi.Common.{
  ℕ, ◌≤◌, ◌<◌, ◌^◌, ◌≡◌, List, [], ◌∷◌, ◌++◌, some, length, arith, Result, ok, err, replicate, ltb,
  ◌==◌, false, true,
}
use multi.Common.Chunks.{concat, chunks}
use multi.Ed64pro.Wire.{
  cmd_frame, scmd_frame, cmd_status, cmd_epo, epo_scmd_xfer, epo_xfer, ack_block, Endpoint, link,
  link_ack, file, memory,
}
use multi.Ed64pro.Link.{M, Error, bad_ack, read_exact, pure, ◌>>=◌, ◌>>◌}
use multi.Ed64pro.Device.{
  transfer_len, epo, send, check_status, send_blocks, send_acked, file_write, file_read, mem_read,
  mem_write,
}
use multi.Ed64pro.Device.Sending.{
  Does, pure-Does, fail-Does, then-Does, stop-Does, send-Does, read-Does, status_reply,
  check_status-Does,
}

-- The command of a transfer.
abbrev pub epo_bytes : Endpoint → Endpoint → ℕ → ℕ → ℕ → List ℕ
epo_bytes src dst src_addr dst_addr len =
    scmd_frame cmd_epo epo_scmd_xfer ++ epo_xfer src dst src_addr dst_addr len

epo-Does :
    (src dst : Endpoint) (src_addr dst_addr len : ℕ) (replies : List ℕ)
    → Does
        (epo src dst src_addr dst_addr len)
        replies
        (ok tt)
        (epo_bytes src dst src_addr dst_addr len)
        replies
unfolding epo
epo-Does src dst src_addr dst_addr len replies =
    send-Does (epo_bytes src dst src_addr dst_addr len) replies

-- A length that a transfer can have.
abbrev pub IsTransfer : ℕ → Type 0
IsTransfer n = (1 ≤ n) × (n < 2 ^ 32)

nonempty : (n : ℕ) → 1 ≤ n → (n == 0) ≡ false
nonempty n h = ground arith

-- A transfer sends its command, and goes on.
module _ (src dst : Endpoint) (src_addr dst_addr n : ℕ) (fits : IsTransfer n) where
  transfer-Does :
      {A : Type 0} (k : M A) (replies : List ℕ) (r : Result Error A) (s rest : List ℕ)
      → Does k replies r s rest
      → Does
          (transfer_len n >>= λ len. epo src dst src_addr dst_addr len >> k)
          replies
          r
          (epo_bytes src dst src_addr dst_addr n ++ s)
          rest
  unfolding transfer_len
  transfer-Does k replies r s rest h =
      let short : ltb n (2 ^ 32) ≡ true = ground arith in
      rw short (
        then-Does (pure n) _ _ n r [] _ _ rest (pure-Does n replies) (
          then-Does (epo src dst src_addr dst_addr n) _ _ tt r _ s _ rest
            (epo-Does src dst src_addr dst_addr n replies) h))

-- An answer of 0 for each block lets all blocks out.
send_blocks-Does :
    (blocks : List (List ℕ)) (rest : List ℕ)
    → Does (send_blocks blocks) (replicate (length blocks) 0 ++ rest) (ok tt) (concat blocks) rest
unfolding send_blocks ◌>>=◌
send_blocks-Does [] rest = pure-Does tt rest
send_blocks-Does (b ∷ bs) rest =
    then-Does (read_exact 1) _ _ (0 ∷ []) _ [] _ _ rest (read-Does (0 ∷ []) _)
      (then-Does (send b) _ _ tt _ b _ _ rest (send-Does b _) (send_blocks-Does bs rest))

-- An answer that is not 0 stops at its block: those before it have been sent, and no more.
send_blocks-refused :
    (before after : List (List ℕ)) (ack : ℕ) (rest : List ℕ)
    → 1 ≤ length after
    → 1 ≤ ack
    → Does
        (send_blocks (before ++ after))
        (replicate (length before) 0 ++ (ack ∷ rest))
        (err (bad_ack ack))
        (concat before)
        rest
unfolding send_blocks ◌>>=◌
send_blocks-refused [] [] ack rest p q = absurd (omega (arith, p))
send_blocks-refused [] (a ∷ bs) ack rest p q =
    let other : (ack == 0) ≡ false = ground arith in
    then-Does (read_exact 1) _ _ (ack ∷ []) _ [] _ _ rest (read-Does (ack ∷ []) rest)
      (rw other (fail-Does Unit (bad_ack ack) rest))
send_blocks-refused (b ∷ bs) after ack rest p q =
    then-Does (read_exact 1) _ _ (0 ∷ []) _ [] _ _ rest (read-Does (0 ∷ []) _) (
      then-Does (send b) _ _ tt _ b _ _ rest (send-Does b _)
        (send_blocks-refused bs after ack rest p q))

-- `file_write` of bytes that a transfer can have: with a 0 for each block of `ACK_BLOCK` and status 0 behind them
-- it sends the command of the transfer, the blocks and the status command, and succeeds.
pub file_write-Does :
    (bytes : List ℕ) (blocks : List (List ℕ)) (device : ℕ) (rest : List ℕ)
    → IsTransfer (length bytes)
    → chunks ack_block bytes ≡ some blocks
    → Does
        (file_write bytes)
        (replicate (length blocks) 0 ++ (status_reply device 0 ++ rest))
        (ok tt)
        (epo_bytes link_ack file 0 0 (length bytes) ++ (concat blocks ++ cmd_frame cmd_status))
        rest
unfolding file_write send_acked
file_write-Does bytes blocks device rest h e =
    rw (nonempty (length bytes) h.0, e)
      (transfer-Does link_ack file 0 0 (length bytes) h _ _ _ _ rest (
        then-Does (send_blocks blocks) _ _ tt _ (concat blocks) _ _ rest (send_blocks-Does blocks _)
          (check_status-Does device rest)))

-- `file_write` of bytes that a transfer can have, over a port that takes every write: when the cart answers 0 before each of some blocks, and a byte
-- that is not 0 before the next, `file_write` fails with that byte, has sent the command of the transfer and
-- exactly the blocks before it, and has read nothing behind the byte.
pub file_write-refused :
    (bytes : List ℕ) (before after : List (List ℕ)) (ack : ℕ) (rest : List ℕ)
    → IsTransfer (length bytes)
    → chunks ack_block bytes ≡ some (before ++ after)
    → 1 ≤ length after
    → 1 ≤ ack
    → Does
        (file_write bytes)
        (replicate (length before) 0 ++ (ack ∷ rest))
        (err (bad_ack ack))
        (epo_bytes link_ack file 0 0 (length bytes) ++ concat before)
        rest
unfolding file_write send_acked
file_write-refused bytes before after ack rest h e a n =
    rw (nonempty (length bytes) h.0, e)
      (transfer-Does link_ack file 0 0 (length bytes) h _ _ _ _ rest (
        stop-Does (send_blocks (before ++ after)) _ _ _ _ rest
          (send_blocks-refused before after ack rest a n)))

reading-Does :
    (bytes : List ℕ) (device : ℕ) (rest : List ℕ)
    → Does
        (read_exact (length bytes) >>= λ b. check_status >> pure b)
        (bytes ++ (status_reply device 0 ++ rest))
        (ok bytes)
        (cmd_frame cmd_status)
        rest
reading-Does bytes device rest =
    then-Does (read_exact (length bytes)) _ _ bytes _ [] _ _ rest (read-Does bytes _) (
      then-Does check_status _ _ tt _ (cmd_frame cmd_status) [] rest rest
        (check_status-Does device rest) (pure-Does bytes rest))

-- A read from memory.
pub mem_read-Does :
    (addr : ℕ) (bytes : List ℕ) (device : ℕ) (rest : List ℕ)
    → IsTransfer (length bytes)
    → Does
        (mem_read addr (length bytes))
        (bytes ++ (status_reply device 0 ++ rest))
        (ok bytes)
        (epo_bytes memory link addr 0 (length bytes) ++ cmd_frame cmd_status)
        rest
unfolding mem_read
mem_read-Does addr bytes device rest h = rw (nonempty (length bytes) h.0) (
    transfer-Does memory link addr 0 (length bytes) h _ _ _ _ rest (reading-Does bytes device rest))

-- A read from the open file.
pub file_read-Does :
    (bytes : List ℕ) (device : ℕ) (rest : List ℕ)
    → IsTransfer (length bytes)
    → Does
        (file_read (length bytes))
        (bytes ++ (status_reply device 0 ++ rest))
        (ok bytes)
        (epo_bytes file link 0 0 (length bytes) ++ cmd_frame cmd_status)
        rest
unfolding file_read
file_read-Does bytes device rest h =
    rw (nonempty (length bytes) h.0)
      (transfer-Does file link 0 0 (length bytes) h _ _ _ _ rest (reading-Does bytes device rest))

-- A write to memory: no answer is waited for.
pub mem_write-Does :
    (addr : ℕ) (bytes replies : List ℕ)
    → IsTransfer (length bytes)
    → Does
        (mem_write addr bytes)
        replies
        (ok tt)
        (epo_bytes link memory 0 addr (length bytes) ++ bytes)
        replies
unfolding mem_write
mem_write-Does addr bytes replies h =
    rw (nonempty (length bytes) h.0)
      (transfer-Does link memory 0 addr (length bytes) h _ _ _ _ replies (send-Does bytes replies))
