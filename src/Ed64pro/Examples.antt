-- ===== src/Ed64pro/Examples.antt =====
-- Runs of crates/ed64pro-link and crates/ed64pro-l2 on small exchanges: the theorems at concrete inputs.
use multi.Common.{
  ℕ, ◌≡◌, refl, List, [], ◌∷◌, ◌++◌, some, none, arith, ok, err, All, map, ltb, if◌then◌else◌,
}
use multi.Common.Chunks.{chunks, chunk_loop, concat, IsChunk}
use multi.Ed64pro.Wire.{FileInfo, cmd_frame, cmd_status, attr_dir, link_ack, file}
use multi.Ed64pro.Link.{Link, bad_ack}
use multi.Ed64pro.Device.{connect, dir_list, file_write, operation_timeout}
use multi.Ed64pro.Device.Sending.{Does, on, status_reply}
use multi.Ed64pro.Device.Records.{records_bytes, listing_sent, dir_list-Does}
use multi.Ed64pro.Device.Transfers.{epo_bytes, file_write-Does, file_write-refused}
use multi.Ed64pro.Device.Steps.{IsCurrent}
use multi.Ed64pro.Device.Connecting.{pro_reply, connect_blocks, connect-pro, connect-replies}
use multi.Ed64pro.Pipe.{Pipe, Delays, clamp, write_l3_stream_with_max}
use multi.Ed64pro.Pipe.Writing.{CallOutcome, IsPaced, write_l3_stream_with_max-IsPaced}

abbrev fresh : Link
fresh = on [] [] 200

abbrev saves : FileInfo
saves = record { size = 0; date = 1; time = 2; attributes = attr_dir; name = b's' ∷ [] }

abbrev game : FileInfo
game = record { size = 8388608; date = 1; time = 2; attributes = 32; name = b'g' ∷ 0xFF ∷ [] }

-- Bytes that are no ASCII are shown as the replacement character.
abbrev ascii_lossy : List ℕ → List ℕ
ascii_lossy bs = map (λ b. if ltb b 128 then b else 0xFFFD) bs

dir_list-Does_example :
    Does
      (dir_list ascii_lossy (b'a' ∷ []) 0)
      (status_reply 39 0 ++ (0 ∷ 2 ∷ records_bytes (saves ∷ game ∷ []) []))
      (ok (saves ∷ record game { name = b'g' ∷ 0xFFFD ∷ [] } ∷ []))
      (listing_sent (0 ∷ 1 ∷ b'a' ∷ []) 0 2)
      []
dir_list-Does_example =
    dir_list-Does ascii_lossy (b'a' ∷ []) 0 39 (saves ∷ game ∷ []) [] (omega arith) (omega arith) (
      (omega arith, omega arith, omega arith, omega arith),
      ((omega arith, omega arith, omega arith, omega arith), tt),
    )

one_chunk : chunks 1024 (1 ∷ 2 ∷ 3 ∷ []) ≡ some ((1 ∷ 2 ∷ 3 ∷ []) ∷ [])
unfolding chunks chunk_loop
one_chunk = refl

file_write-Does_example :
    Does
      (file_write (1 ∷ 2 ∷ 3 ∷ []))
      (0 ∷ status_reply 39 0)
      (ok tt)
      (epo_bytes link_ack file 0 0 3 ++ (1 ∷ 2 ∷ 3 ∷ cmd_frame cmd_status))
      []
file_write-Does_example =
    file_write-Does (1 ∷ 2 ∷ 3 ∷ []) ((1 ∷ 2 ∷ 3 ∷ []) ∷ []) 39 [] (omega arith, omega arith)
      one_chunk

file_write-refused_example :
    Does (file_write (1 ∷ 2 ∷ 3 ∷ [])) (9 ∷ []) (err (bad_ack 9)) (epo_bytes link_ack file 0 0 3) []
file_write-refused_example =
    file_write-refused (1 ∷ 2 ∷ 3 ∷ []) [] ((1 ∷ 2 ∷ 3 ∷ []) ∷ []) 9 [] (omega arith, omega arith)
      one_chunk (omega arith) (omega arith)

connects : connect (on (pro_reply 7 1 2 0) [] 200) ≡ (ok tt, on [] connect_blocks operation_timeout)
connects = connect-pro [] [] 7 1 2 0 200 (omega arith, omega arith)

connect-replies_example :
    (protocol : ℕ) × (a : ℕ) × (b : ℕ) × (status : ℕ) × (rest : List ℕ) × (IsCurrent protocol)
    × (pro_reply 7 1 2 0 ≡ pro_reply protocol a b status ++ rest)
connect-replies_example =
    connect-replies [] (pro_reply 7 1 2 0) [] none 200 (on [] connect_blocks operation_timeout)
      connects

connect-pro_example :
    connect (record {
      received = 1 ∷ [];
      to_come = pro_reply 7 1 2 0;
      written = [];
      takes = none;
      timeout = 100;
    })
    ≡ (ok tt, on [] connect_blocks operation_timeout)
connect-pro_example = connect-pro (1 ∷ []) [] 7 1 2 0 100 (omega arith, omega arith)

-- A call 10 after the last one, which may not write before 34, and asks for chunks of 2 bytes.
abbrev slow : Delays
slow i = (1, 5)

abbrev paced : Pipe
paced = record { chunk_gap = 34; next_write_at = some 34 }

-- A port that fails in the sixth of its writes and flushes.
abbrev failing : Link
failing = record { received = []; to_come = []; written = []; takes = some 5; timeout = 200 }

write_l3_stream_with_max-IsPaced_example :
    (cs : List (List ℕ)) × (concat cs ≡ 1 ∷ 2 ∷ 3 ∷ [])
    × All (IsChunk (clamp 2)) cs
    × CallOutcome failing cs (write_l3_stream_with_max slow paced 10 (1 ∷ 2 ∷ 3 ∷ []) 2 failing)
    × IsPaced paced (write_l3_stream_with_max slow paced 10 (1 ∷ 2 ∷ 3 ∷ []) 2 failing)
write_l3_stream_with_max-IsPaced_example =
    write_l3_stream_with_max-IsPaced slow paced 10 (1 ∷ 2 ∷ 3 ∷ []) 2 failing
