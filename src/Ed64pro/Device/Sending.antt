-- ===== src/Ed64pro/Device/Sending.antt =====
-- What operations send and take, and the blocks that `send` writes.
use multi.Common.{
  ℕ, zero, suc, ◌≤◌, ◌≡◌, ◌≢◌, refl, sym, ap, ◌∙◌, List, [], ◌∷◌, ◌++◌, none, some, length, take,
  drop, All, arith, Result, ok, err, length-drop, length-take, take-append-drop, leb, true,
}
use mathlib.Core.List.{append_assoc, append-nil}
use multi.Common.Bytes.{to_be16}
use multi.Common.Chunks.{concat}
use multi.Ed64pro.Wire.{
  max_write_block, cmd_frame, cmd_status, status_key, protocol_id_n64, string_field,
}
use multi.Ed64pro.Link.{
  Link, M, Error, pure, fail, flush, and_then, ◌>>=◌, split_at, read_received, read_exact,
}
use multi.Ed64pro.Device.{
  path_field, block_len, send_loop, send, identity, report_status, check_status,
}

-- A connection with nothing received and unread, whose port takes every write.
abbrev pub on : List ℕ → List (List ℕ) → ℕ → Link
on replies w t = record { received = []; to_come = replies; written = w; takes = none; timeout = t }

-- On any such connection on which `replies` are to come the operation gives `r`, leaves `rest` to come,
-- and writes blocks that are the bytes `sent`.
unfoldable pub Does : {A : Type 0} → M A → List ℕ → Result Error A → List ℕ → List ℕ → Type 0
Does m replies r sent rest =
    (w : List (List ℕ)) (t : ℕ)
    → (bl : List (List ℕ)) × (m (on replies w t) ≡ (r, on rest (w ++ bl) t)) × (concat bl ≡ sent)

pub concat-append : (xs ys : List (List ℕ)) → concat (xs ++ ys) ≡ concat xs ++ concat ys
concat-append [] ys = refl
concat-append (x ∷ xs) ys =
    ap (λ zs. x ++ zs) (concat-append xs ys) ∙ sym (append_assoc x (concat xs) (concat ys))

module _ {A : Type 0} where
  pub pure-Does : (a : A) (replies : List ℕ) → Does (pure a) replies (ok a) [] replies
  unfolding Does
  pure-Does a replies w t = ([], rw (append-nil w) refl, refl)

pub fail-Does :
    (A : Type 0) (e : Error) (replies : List ℕ) → Does (fail {A = A} e) replies (err e) [] replies
unfolding Does
fail-Does A e replies w t = ([], rw (append-nil w) refl, refl)

module _ {A B : Type 0} (m : M A) (f : A → M B) (replies : List ℕ) where
  pub then-Does :
      (a : A) (r : Result Error B) (s u mid rest : List ℕ)
      → Does m replies (ok a) s mid
      → Does (f a) mid r u rest
      → Does (m >>= f) replies r (s ++ u) rest
  unfolding Does ◌>>=◌
  then-Does a r s u mid rest first next w t =
      let (bl, e, p) = first w t in
      let (cl, g, q) = next (w ++ bl) t in
      (
        bl ++ cl,
        ap (λ x. and_then x f) e ∙ rw (append_assoc w bl cl) at g,
        concat-append bl cl ∙ rw (p, q) refl,
      )

  pub stop-Does :
      (e : Error) (s rest : List ℕ)
      → Does m replies (err e) s rest
      → Does (m >>= f) replies (err e) s rest
  unfolding Does ◌>>=◌
  stop-Does e s rest first w t = let (bl, g, p) = first w t in (bl, ap (λ x. and_then x f) g, p)

pub map-Does :
    {A B : Type 0} (m : M A) (g : A → B) (replies : List ℕ) (a : A) (s rest : List ℕ)
    → Does m replies (ok a) s rest
    → Does (m >>= λ x. pure (g x)) replies (ok (g a)) s rest
unfolding Does ◌>>=◌
map-Does m g replies a s rest first w t =
    let (bl, e, p) = first w t in (bl, ap (λ x. and_then x (λ y. pure (g y))) e, p)

pub split_at-append : (xs rest : List ℕ) → split_at (length xs) (xs ++ rest) ≡ some (xs, rest)
unfolding split_at
split_at-append [] rest = refl
split_at-append (x ∷ xs) rest = rw (split_at-append xs rest) refl

pub read-Does : (xs rest : List ℕ) → Does (read_exact (length xs)) (xs ++ rest) (ok xs) [] rest
unfolding read_exact read_received Does
read-Does xs rest w t = ([], rw (split_at-append xs rest, append-nil w) refl, refl)

-- A block that the link takes: not empty, not too long, and never of 512 bytes.
abbrev pub IsBlock : List ℕ → Type 0
IsBlock b = (1 ≤ length b) × (length b ≤ max_write_block) × (length b ≢ 512)

pub block_len-fits :
    (n : ℕ)
    → 1 ≤ n
    → (1 ≤ block_len n) × (block_len n ≤ n) × (block_len n ≤ max_write_block) × (block_len n ≢ 512)
block_len-fits n h = ground arith

send_loop_lem :
    (fuel : ℕ) (bytes replies : List ℕ) (w : List (List ℕ)) (t : ℕ)
    → length bytes ≤ fuel
    → (bl : List (List ℕ)) × (send_loop fuel bytes (on replies w t)
        ≡ (ok tt, on replies (w ++ bl) t))
      × (concat bl ≡ bytes)
      × All IsBlock bl
unfolding send_loop ◌>>=◌
send_loop_lem zero [] replies w t h = ([], rw (append-nil w) refl, refl, tt)
send_loop_lem zero (b ∷ bs) replies w t h = absurd (omega arith)
send_loop_lem (suc fuel) [] replies w t h = ([], rw (append-nil w) refl, refl, tt)
send_loop_lem (suc fuel) (b ∷ bs) replies w t h =
    let n = block_len (length (b ∷ bs)) in
    let (some_taken, within, short, odd) = block_len-fits (length (b ∷ bs)) (omega arith) in
    let block = take n (b ∷ bs) in
    let full : length block ≡ n = omega (arith, length-take n (b ∷ bs), within) in
    let (bl, e, whole, parts) =
      send_loop_lem fuel (drop n (b ∷ bs)) replies (w ++ (block ∷ [])) t
        (omega (arith, length-drop n (b ∷ bs), some_taken)) in
    (
      block ∷ bl,
      rw (append_assoc w (block ∷ []) bl) at e,
      ap (λ ys. block ++ ys) whole ∙ take-append-drop n (b ∷ bs),
      ((rw full some_taken, rw full short, rw full odd), parts),
    )

-- `send` succeeds where the port takes every write, and what it writes are blocks that are together the given bytes in order. Each has a
-- byte at least and `MAX_WRITE_BLOCK` at most, and none has 512. Nothing else of the connection changes.
pub send_lem :
    (bytes replies : List ℕ) (w : List (List ℕ)) (t : ℕ)
    → (bl : List (List ℕ)) × (send bytes (on replies w t) ≡ (ok tt, on replies (w ++ bl) t))
      × (concat bl ≡ bytes)
      × All IsBlock bl
unfolding send ◌>>=◌
send_lem bytes replies w t =
    let (bl, e, whole, parts) = send_loop_lem (length bytes) bytes replies w t (omega arith) in
    (bl, ap (λ x. and_then x (λ _. flush)) e, whole, parts)

pub send-Does : (bytes replies : List ℕ) → Does (send bytes) replies (ok tt) bytes replies
unfolding Does
send-Does bytes replies w t =
    let (bl, e, whole, parts) = send_lem bytes replies w t in (bl, e, whole)

-- What an EverDrive-64 PRO answers to `CMD_STATUS`.
abbrev pub status_reply : ℕ → ℕ → List ℕ
status_reply device status = status_key ∷ protocol_id_n64 ∷ device ∷ status ∷ []

pub identity-Does :
    (device status : ℕ) (rest : List ℕ)
    → Does identity
        (status_reply device status ++ rest)
        (ok (record { protocol_id = protocol_id_n64; device_id = device; status = status }))
        (cmd_frame cmd_status)
        rest
unfolding identity read_exact read_received split_at send send_loop Does ◌>>=◌
identity-Does device status rest w t = (cmd_frame cmd_status ∷ [], refl, refl)

pub check_status-Does :
    (device : ℕ) (rest : List ℕ)
    → Does check_status (status_reply device 0 ++ rest) (ok tt) (cmd_frame cmd_status) rest
unfolding check_status report_status identity read_exact read_received split_at send send_loop Does
    ◌>>=◌
check_status-Does device rest w t = (cmd_frame cmd_status ∷ [], refl, refl)

pub path_field-Does :
    (path replies : List ℕ)
    → length path ≤ 65535
    → Does (path_field path) replies (ok (to_be16 (length path) ++ path)) [] replies
unfolding path_field string_field
path_field-Does path replies h =
    let fits : leb (length path) 65535 ≡ true = ground arith in
    rw fits (pure-Does (to_be16 (length path) ++ path) replies)
