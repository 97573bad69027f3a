-- ===== src/L3/Examples.antt =====
-- Frames and streams at concrete bytes: tests of the definitions, and the theorems at these inputs.
use multi.Common.{ℕ, ◌≤◌, ◌≡◌, ◌≢◌, refl, List, [], ◌∷◌, ◌++◌, some, length, take, ok, err, arith}
use multi.L3.FrameType
use multi.L3.Channel
use multi.L3.Frame.{Frame, IsTyped, IsWire, final_flag, wire_len}
use multi.L3.Encode.{encode}
use multi.L3.Decode.{decode, parse_header, parse_fields, has_magic, too_short, payload_too_large}
use multi.L3.Decode.RoundTrip.{decode-encode, encode-decode}
use multi.L3.Decode.Permanence.{decode_hopeless}
use multi.L3.Stream.{round, from_magic, at_magic, after_header, find_magic, push_bytes}
use multi.L3.Stream.Runs.{drained}
use multi.L3.Stream.Chunks.{feed, feed_chunking}
use multi.Common.Chunks.{concat}
use multi.L3.Stream.Frames.{Segment, IsSegment, IsNoise, quiet, corrupt, feed-stream}
use multi.L3.Stream.Sound.{Occurs, push_bytes-Occurs}

-- The functions that the tests below compute with.
codec : Unit {0}
unfolding encode decode parse_header parse_fields has_magic FrameType.to_u8 FrameType.from_u8
    Channel.to_u8 Channel.from_u8 Channel.is_some_of push_bytes round from_magic at_magic
    after_header find_magic
codec = tt

-- The frame of the crate's own round trip test.
abbrev hello : Frame
hello = record {
  ty = FrameType.data_frame;
  channel = Channel.application;
  flags = final_flag;
  request_id = 0x11223344;
  payload = 1 ∷ 2 ∷ 3 ∷ 4 ∷ 5 ∷ [];
}

abbrev hello_bytes : List ℕ
hello_bytes =
    0x4D ∷ 0x36 ∷ 0x34 ∷ 0x42 ∷ 0x10 ∷ 0x00 ∷ 0x00 ∷ 0x01 ∷ 0x11 ∷ 0x22 ∷ 0x33 ∷ 0x44 ∷ 0 ∷ 0 ∷ 0
    ∷ 5 ∷ 1 ∷ 2 ∷ 3 ∷ 4 ∷ 5 ∷ []

hello-IsTyped : IsTyped hello
hello-IsTyped = omega arith

hello-IsWire : IsWire hello
hello-IsWire = record { channel_valid = tt; payload_fits = omega arith }

hello_encodes : encode hello ≡ ok hello_bytes
unfolding codec
hello_encodes = refl

hello_decodes : decode hello_bytes ≡ ok (hello, 21)
unfolding codec
hello_decodes = refl

-- A header of the right magic that claims 4294967295 bytes of payload.
abbrev huge_header : List ℕ
huge_header =
    0x4D ∷ 0x36 ∷ 0x34 ∷ 0x42 ∷ 0x10 ∷ 0x00 ∷ 0 ∷ 0 ∷ 0 ∷ 0 ∷ 0 ∷ 0 ∷ 0xFF ∷ 0xFF ∷ 0xFF ∷ 0xFF ∷ []

abbrev huge_segment : Segment
huge_segment = record { noise = huge_header; frame = hello }

pushed : push_bytes [] (1 ∷ 2 ∷ hello_bytes) ≡ some (drained (hello ∷ []) [])
unfolding codec
pushed = refl

huge_refused : parse_header huge_header ≡ err (payload_too_large 0xFFFF_FFFF)
unfolding codec
huge_refused = refl

huge-IsNoise : IsNoise huge_header
unfolding codec
huge-IsNoise =
    corrupt huge_header 0 (payload_too_large 0xFFFF_FFFF) refl (omega arith) huge_refused
      (quiet _ refl)

huge-IsSegment : IsSegment huge_segment
huge-IsSegment = record { noise_passed = huge-IsNoise; typed = hello-IsTyped; wire = hello-IsWire }

-- Cut inside the magic of the second frame.
abbrev cut_chunks : List (List ℕ)
cut_chunks = huge_header ∷ (hello_bytes ++ (0x4D ∷ 0x36 ∷ [])) ∷ []

feed-stream_example : feed cut_chunks [] ≡ some (drained (hello ∷ []) (0x4D ∷ 0x36 ∷ []))
unfolding codec
feed-stream_example =
    feed-stream (huge_segment ∷ []) (0x4D ∷ 0x36 ∷ []) cut_chunks (huge-IsSegment, tt) refl refl

feed_chunking_example : feed cut_chunks [] ≡ push_bytes [] (concat cut_chunks)
feed_chunking_example = feed_chunking cut_chunks

decode-encode_example : decode (hello_bytes ++ (9 ∷ [])) ≡ ok (hello, 21)
decode-encode_example = decode-encode hello hello_bytes (9 ∷ []) hello-IsTyped hello_encodes

encode-decode_example :
    (encode hello ≡ ok hello_bytes)
    × IsTyped hello
    × IsWire hello
    × (21 ≡ wire_len hello)
    × (21 ≤ length hello_bytes)
encode-decode_example = encode-decode hello_bytes hello 21 (omega arith) hello_decodes

push_bytes-Occurs_example : Occurs (hello ∷ []) (1 ∷ 2 ∷ hello_bytes)
push_bytes-Occurs_example =
    push_bytes-Occurs [] (1 ∷ 2 ∷ hello_bytes) (drained (hello ∷ []) []) (omega arith) pushed

huge_answer : decode huge_header ≡ err (payload_too_large 0xFFFF_FFFF)
unfolding codec
huge_answer = refl

abbrev cut_frame : List ℕ
cut_frame = take 18 hello_bytes

cut_answer : decode cut_frame ≡ err too_short
unfolding codec
cut_answer = refl

decode_hopeless_example :
    (decode (0 ∷ 1 ∷ []) ≡ err too_short) × (decode (0 ∷ (1 ∷ hello_bytes)) ≢ ok (hello, 21))
decode_hopeless_example =
    decode_hopeless 0 (1 ∷ []) hello_bytes (hello, 21) (omega arith) (omega arith)
