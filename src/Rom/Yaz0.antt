-- ===== src/Rom/Yaz0.antt =====
-- `yaz0` of crates/ap64-core/src/transform.rs: one compressed file of a ROM. An error carries what its message says.
pub mod Lengths
pub mod Format
pub mod Streams
use multi.Common.{
  ℕ, zero, suc, ◌+◌, ◌-◌, ◌*◌, ◌/◌, ◌%◌, ◌^◌, ◌≤◌, List, [], ◌∷◌, ◌++◌, Option, none, some, length,
  drop, get_or, get_elem?, Result, ok, err, ◌>>=◌, ok_or, fail_if, ◌>>◌, Bool, true, false, not,
  ltb, leb, ◌==◌, if◌then◌else◌,
}
use multi.Common.Find.{starts_with}
use multi.Rom.{read_u32}

pub data Yaz0Error : Type 0 where
  truncated : ℕ → Yaz0Error
  no_header : ℕ → Yaz0Error
  too_large : ℕ → ℕ → ℕ → Yaz0Error

-- The loop that copies `n` bytes from `dist` back, of which it may have put some there itself.
abbrev pub copy : ℕ → ℕ → List ℕ → List ℕ
copy zero dist out = out
copy (suc n) dist out = copy n dist (out ++ (get_or out (length out - dist) 0 ∷ []))

-- How many bytes are copied, and the place behind the number.
abbrev pub Length : Type 0
Length = ℕ × ℕ

module _ (src : List ℕ) (place : ℕ) where
  abbrev pub byte : ℕ → Result Yaz0Error ℕ
  byte i = ok_or (get_elem? src i) (truncated place)

  unfoldable pub length_at : ℕ → ℕ → Result Yaz0Error Length
  length_at zero s = do b ← byte s; ok (b + 0x12, s + 1)
  length_at (suc n) s = ok (suc n + 2, s)

  -- The place behind what has been read, and what has been written.
  abbrev pub Step : Type 0
  Step = Result Yaz0Error (ℕ × List ℕ)

  unfoldable pub back_reference : ℕ → List ℕ → Step
  back_reference s out = do
    b1 ← byte s
    b2 ← byte (s + 1)
    let dist = b1 % 2 ^ 4 * 2 ^ 8 + b2 + 1
    n ← length_at (b1 / 2 ^ 4) (s + 2)
    fail_if (ltb (length out) dist) (truncated place)
    ok (n.1, copy n.0 dist out)

  unfoldable pub literal : ℕ → List ℕ → Step
  literal s out = do b ← byte s; ok (s + 1, out ++ (b ∷ []))

  -- What one bit of the code stands for.
  unfoldable pub token : Bool → ℕ → List ℕ → Step
  token true s out = literal s out
  token false s out = back_reference s out

  -- The loop over the bits of the code, `left` of them from the highest left.
  unfoldable pub bits : ℕ → ℕ → ℕ → ℕ → List ℕ → Step
  bits zero code size s out = ok (s, out)
  bits (suc left) code size s out =
      if leb size (length out)
      then ok (s, out)
      else (do next ← token (code / 2 ^ left % 2 == 1) s out; bits left code size next.0 next.1)

  -- One round of the outer loop.
  unfoldable pub group : ℕ → ℕ → List ℕ → Step
  group size s out = do code ← byte s; bits 8 code size (s + 1) out

  -- The outer loop. Each round writes a byte at least, so that as much fuel as there are bytes to come is enough.
  unfoldable pub groups : ℕ → ℕ → ℕ → List ℕ → Result Yaz0Error (List ℕ)
  groups zero size s out = ok out
  groups (suc fuel) size s out =
      if leb size (length out)
      then ok out
      else (do next ← group size s out; groups fuel size next.0 next.1)

  unfoldable pub yaz0 : ℕ → Result Yaz0Error (List ℕ)
  yaz0 max = do
    fail_if (not (starts_with 0x59 0x61 0x7A 0x30 (drop place src))) (no_header place)
    size ← ok_or (read_u32 src (place + 4)) (truncated place)
    fail_if (ltb max size) (too_large place size max)
    groups size size (place + 16) []
