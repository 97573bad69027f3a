-- ===== src/Ed64pro/Link.antt =====
-- What the protocol needs of a serial connection (`Transport`, crates/ed64pro-link/src/transport.rs) and
-- the errors of crates/ed64pro-link/src/device.rs. The connection is what it has received and not read,
-- what the cart will still send, the blocks written, how many more writes and flushes the port takes before one
-- fails, where one does, and the read timeout; a read of more than the cart sends times out. A block whose write
-- fails is not among those written, also if the port took a part of it. Setting the timeout and clearing the input do not fail.
use multi.Common.{
  ℕ, zero, suc, List, [], ◌∷◌, ◌++◌, Option, none, some, Result, ok, err, Bool, true, false,
}

pub data IoError : Type 0 where
  timed_out invalid_input write_failed : IoError

pub data Error : Type 0 where
  io : IoError → Error
  unexpected_status_key other_console wrong_protocol wrong_device : ℕ → Error
  operation : ℕ → Option ℕ → Error
  bad_ack path_too_long : ℕ → Error

pub record Link : Type 0 where
  pub received : List ℕ
  pub to_come : List ℕ
  pub written : List (List ℕ)
  pub takes : Option ℕ
  pub timeout : ℕ

-- An operation on the connection.
abbrev pub M : Type 0 → Type 0
M A = Link → Result Error A × Link

abbrev pub pure : {A : Type 0} → A → M A
pure a l = (ok a, l)

abbrev pub fail : {A : Type 0} → Error → M A
fail e l = (err e, l)

abbrev pub and_then : {A B : Type 0} → Result Error A × Link → (A → M B) → Result Error B × Link
and_then (ok a, l) f = f a l
and_then (err e, l) f = (err e, l)

infixl 5 ◌>>=◌ ◌>>◌
unfoldable pub ◌>>=◌ : {A B : Type 0} → M A → (A → M B) → M B
◌>>=◌ m f l = and_then (m l) f

abbrev pub ◌>>◌ : {B : Type 0} → M (Unit {0}) → M B → M B
m >> k = m >>= λ _. k

abbrev pub fail_if : Bool → Error → M (Unit {0})
fail_if true e = fail e
fail_if false e = pure tt

-- `let _ = …`
abbrev pub ignored : {A : Type 0} → Result Error A × Link → Result Error (Unit {0}) × Link
ignored (r, l) = (ok tt, l)

abbrev pub ignore : {A : Type 0} → M A → M (Unit {0})
ignore m l = ignored (m l)

abbrev pub set_timeout : ℕ → M (Unit {0})
set_timeout t l = (ok tt, record l { timeout = t })

-- A write or a flush, after which `l` is left where the port takes it.
abbrev pub port_call : Option ℕ → Link → Link → Result Error (Unit {0}) × Link
port_call none before l = (ok tt, l)
port_call (some zero) before l = (err (io write_failed), before)
port_call (some (suc n)) before l = (ok tt, record l { takes = some n })

abbrev pub write_all : List ℕ → M (Unit {0})
write_all block l = port_call l.takes l (record l { written = l.written ++ (block ∷ []) })

abbrev pub flush : M (Unit {0})
flush l = port_call l.takes l l

abbrev pub clear_input : M (Unit {0})
clear_input l = (ok tt, record l { received = [] })

-- The first `n` bytes, and those behind them.
abbrev pub push_front : ℕ → Option (List ℕ × List ℕ) → Option (List ℕ × List ℕ)
push_front b none = none
push_front b (some (bs, rest)) = some (b ∷ bs, rest)

unfoldable pub split_at : ℕ → List ℕ → Option (List ℕ × List ℕ)
split_at zero bs = some ([], bs)
split_at (suc n) [] = none
split_at (suc n) (b ∷ bs) = push_front b (split_at n bs)

-- A read that fails has taken what there was.
abbrev pub read_result : Link → Option (List ℕ × List ℕ) → Result Error (List ℕ) × Link
read_result l none = (err (io timed_out), record l { received = []; to_come = [] })
read_result l (some (bs, rest)) = (ok bs, record l { received = []; to_come = rest })

-- Bytes that were received come first; a read inside them leaves the others received.
unfoldable pub read_received : ℕ → Link → List ℕ → Result Error (List ℕ) × Link
unfolding split_at
read_received n l [] = read_result l (split_at n l.to_come)
read_received n l (b ∷ bs) = elim (split_at n (b ∷ bs)) [
  | some (got, left) ↦ (ok got, record l { received = left })
  | none ↦ read_result l (split_at n ((b ∷ bs) ++ l.to_come))
]

unfoldable pub read_exact : ℕ → M (List ℕ)
unfolding read_received
read_exact n l = read_received n l l.received
