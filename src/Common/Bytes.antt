-- ===== src/Common/Bytes.antt =====
-- Big-endian integers in bytes: `to_be_bytes` and `from_be_bytes` of u16 and u32.
use multi.Common.{ℕ, ◌+◌, ◌*◌, ◌/◌, ◌%◌, ◌^◌, ◌<◌, ◌≡◌, List, [], ◌∷◌, arith, All, get_or}
use multi.Common.{All-get_or}

abbrev pub IsByte : ℕ → Type 0
IsByte b = b < 256

abbrev pub IsU16 : ℕ → Type 0
IsU16 v = v < 2 ^ 16

abbrev pub IsU32 : ℕ → Type 0
IsU32 v = v < 2 ^ 32

-- `xs[i]`, where the code has checked that `i` is in range.
abbrev pub byte_at : List ℕ → ℕ → ℕ
byte_at xs i = get_or xs i 0

abbrev pub to_be16 : ℕ → List ℕ
to_be16 v = (v / 256 % 256) ∷ (v % 256) ∷ []

abbrev pub to_be32 : ℕ → List ℕ
to_be32 v = (v / 16777216 % 256) ∷ (v / 65536 % 256) ∷ (v / 256 % 256) ∷ (v % 256) ∷ []

abbrev pub from_be16 : ℕ → ℕ → ℕ
from_be16 a b = a * 256 + b

abbrev pub from_be32 : ℕ → ℕ → ℕ → ℕ → ℕ
from_be32 a b c d = ((a * 256 + b) * 256 + c) * 256 + d

-- The integers at an offset.
abbrev pub u16_at : List ℕ → ℕ → ℕ
u16_at xs i = from_be16 (byte_at xs i) (byte_at xs (i + 1))

abbrev pub u32_at : List ℕ → ℕ → ℕ
u32_at xs i =
    from_be32 (byte_at xs i) (byte_at xs (i + 1)) (byte_at xs (i + 2)) (byte_at xs (i + 3))

pub from_be16-to : (v : ℕ) → IsU16 v → from_be16 (v / 256 % 256) (v % 256) ≡ v
from_be16-to v h = omega arith

pub from_be32-to :
    (v : ℕ)
    → IsU32 v
    → from_be32 (v / 16777216 % 256) (v / 65536 % 256) (v / 256 % 256) (v % 256) ≡ v
from_be32-to v h = omega arith

pub from_be16-IsU16 : (a b : ℕ) → IsByte a → IsByte b → IsU16 (from_be16 a b)
from_be16-IsU16 a b p q = omega arith

pub from_be32-IsU32 :
    (a b c d : ℕ) → IsByte a → IsByte b → IsByte c → IsByte d → IsU32 (from_be32 a b c d)
from_be32-IsU32 a b c d p q r s = omega arith

pub to_be16-from : (a b : ℕ) → IsByte a → IsByte b → to_be16 (from_be16 a b) ≡ a ∷ b ∷ []
to_be16-from a b p q = ground arith

pub to_be32-from :
    (a b c d : ℕ)
    → IsByte a
    → IsByte b
    → IsByte c
    → IsByte d
    → to_be32 (from_be32 a b c d) ≡ a ∷ b ∷ c ∷ d ∷ []
to_be32-from a b c d p q r s = ground arith

pub byte_at-IsByte : (xs : List ℕ) (i : ℕ) → All IsByte xs → IsByte (byte_at xs i)
byte_at-IsByte xs i h = All-get_or IsByte xs i 0 (omega arith) h
