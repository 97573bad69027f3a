-- ===== src/Rom/Yaz0/Format.antt =====
-- The Yaz0 format, told by what a file is written as: the description that `yaz0` of
-- crates/ap64-core/src/transform.rs reads.
use multi.Common.{
  ℕ, zero, suc, ◌+◌, ◌-◌, ◌*◌, ◌/◌, ◌%◌, ◌^◌, ◌≤◌, ◌≡◌, List, [], ◌∷◌, ◌++◌, length, drop,
  replicate, Bool, true, false, ltb, if◌then◌else◌,
}
use multi.Common.Bytes.{to_be32}

-- A byte, or `n` bytes that stand `dist` back.
pub data Token : Type 0 where
  literal : ℕ → Token
  copies : ℕ → ℕ → Token

abbrev pub is_literal : Token → Bool
is_literal (literal b) = true
is_literal (copies dist n) = false

-- A reference to at most 17 bytes is two bytes long, a longer one three.
unfoldable pub token_bytes : Token → List ℕ
token_bytes (literal b) = b ∷ []
token_bytes (copies dist n) =
    if ltb n 18
    then ((n - 2) * 2 ^ 4 + (dist - 1) / 256) ∷ ((dist - 1) % 256) ∷ []
    else ((dist - 1) / 256) ∷ ((dist - 1) % 256) ∷ (n - 18) ∷ []

-- The bytes of a window over and over.
abbrev pub cycle : ℕ → List ℕ → List ℕ
cycle zero window = []
cycle (suc n) [] = []
cycle (suc n) (w ∷ ws) = w ∷ cycle n (ws ++ (w ∷ []))

abbrev pub last_of : ℕ → List ℕ → List ℕ
last_of n out = drop (length out - n) out

unfoldable pub expand : List ℕ → Token → List ℕ
expand out (literal b) = out ++ (b ∷ [])
expand out (copies dist n) = out ++ cycle n (last_of dist out)

-- Whether a token can be written behind a file.
unfoldable pub Fits : List ℕ → Token → Type 0
Fits out (literal b) = Unit
Fits out (copies dist n) = (1 ≤ dist) × (dist ≤ 4096) × (dist ≤ length out) × (3 ≤ n) × (n ≤ 273)

-- The tokens of one code, the code, and the bytes of them.
unfoldable pub expand_all : List ℕ → List Token → List ℕ
expand_all out [] = out
expand_all out (t ∷ ts) = expand_all (expand out t) ts

unfoldable pub AllFit : List ℕ → List Token → Type 0
AllFit out [] = Unit
AllFit out (t ∷ ts) = Fits out t × AllFit (expand out t) ts

abbrev pub flag : Token → ℕ
flag t = if is_literal t then 1 else 0

-- The bits of a code from the highest of `left`.
unfoldable pub code_of : ℕ → List Token → ℕ
code_of zero ts = 0
code_of (suc left) [] = 0
code_of (suc left) (t ∷ ts) = flag t * 2 ^ left + code_of left ts

abbrev pub bytes_of : List Token → List ℕ
bytes_of [] = []
bytes_of (t ∷ ts) = token_bytes t ++ bytes_of ts

-- Codes with the tokens of each.
unfoldable pub stream : List (List Token) → List ℕ
stream [] = []
stream (g ∷ gs) = code_of 8 g ∷ (bytes_of g ++ stream gs)

unfoldable pub expand_groups : List ℕ → List (List Token) → List ℕ
expand_groups out [] = out
expand_groups out (g ∷ gs) = expand_groups (expand_all out g) gs

-- The tokens of a code fill it if another code follows.
abbrev pub IsFull : List Token → List (List Token) → Type 0
IsFull g [] = Unit
IsFull g (h ∷ hs) = length g ≡ 8

-- Each code has one token at least and eight at most, the last may have fewer than eight, and each token can
-- stand where it does.
unfoldable pub GroupsFit : List ℕ → List (List Token) → Type 0
GroupsFit out [] = Unit
GroupsFit out (g ∷ gs) =
    AllFit out g × (1 ≤ length g) × (length g ≤ 8) × IsFull g gs × GroupsFit (expand_all out g) gs

-- The tag, how long the file is, eight bytes that nothing reads, and the stream.
unfoldable pub compressed : List (List Token) → List ℕ
compressed gs =
    0x59
    ∷ 0x61
    ∷ 0x7A
    ∷ 0x30
    ∷ (to_be32 (length (expand_groups [] gs)) ++ (replicate 8 0 ++ stream gs))
