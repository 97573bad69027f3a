-- ===== src/L3/Consts.antt =====
-- The constants of crates/l3/src/lib.rs.
use multi.Common.{ℕ, List, [], ◌∷◌}

-- `M64B`
abbrev pub magic : List ℕ
magic = 0x4D ∷ 0x36 ∷ 0x34 ∷ 0x42 ∷ []

abbrev pub header_len : ℕ
header_len = 16

abbrev pub proto_major : ℕ
proto_major = 1

abbrev pub proto_minor : ℕ
proto_minor = 0

abbrev pub max_payload_ceiling : ℕ
max_payload_ceiling = 1_048_576
