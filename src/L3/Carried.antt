-- ===== src/L3/Carried.antt =====
-- A frame that goes over the wire.
use multi.Common.{ℕ, ◌≡◌, List, ◌++◌, length, ok}
use multi.L3.Frame.{Frame, IsTyped, IsWire}
use multi.L3.Encode.{wire_bytes, encode}
use multi.L3.Encode.Limits.{encode-wire_bytes}
use multi.L3.Decode.{decode}
use multi.L3.Decode.RoundTrip.{decode-encode}

-- The frame encodes, and whoever reads its bytes, with others behind, gets it back.
abbrev pub Carried : Frame → List ℕ → Type 0
Carried f rest = (bs : List ℕ) × (encode f ≡ ok bs) × (decode (bs ++ rest) ≡ ok (f, length bs))

pub carried : (f : Frame) (rest : List ℕ) → IsTyped f → IsWire f → Carried f rest
carried f rest t w =
    let e = encode-wire_bytes f w in (wire_bytes f, e, decode-encode f (wire_bytes f) rest t e)
