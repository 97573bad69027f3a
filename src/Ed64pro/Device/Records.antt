-- ===== src/Ed64pro/Device/Records.antt =====
-- File records and directory listings: `read_record`, `file_info` and `dir_list`.
use multi.Common.{ℕ, zero, suc, ◌≤◌, refl, List, [], ◌∷◌, ◌++◌, length, map, All, arith, ok}
use mathlib.Core.List.{append-nil}
use multi.Common.Bytes.{to_be16, to_be32, from_be16-to, from_be32-to, IsU16, IsU32}
use multi.Ed64pro.Wire.{cmd_frame, scmd_frame, cmd_status, cmd_fs, FileInfo}
use multi.Ed64pro.Wire.Fs
use multi.Ed64pro.Link.{split_at, read_received, read_exact, ◌>>=◌}
use multi.Ed64pro.Device.{
  max_name_len, path_field, send, check_status, read_record, list_entries, dir_list,
}
use multi.Ed64pro.Device.Sending.{
  Does, pure-Does, then-Does, map-Does, path_field-Does, send-Does, read-Does, split_at-append,
  status_reply, check_status-Does,
}

-- The fields of the record fit.
abbrev pub IsRecord : FileInfo → Type 0
IsRecord f = IsU32 f.size × IsU16 f.date × IsU16 f.time × IsU16 (length f.name)

-- A record as the cart sends it, after a status byte.
abbrev pub record_bytes : FileInfo → List ℕ
record_bytes f =
    0
    ∷ (to_be32 f.size
        ++ (to_be16 f.date
            ++ (to_be16 f.time ++ (f.attributes ∷ (to_be16 (length f.name) ++ f.name)))))

module _ (from_utf8_lossy : List ℕ → List ℕ) where
  -- A record of which the name is the string for its bytes.
  abbrev pub as_text : FileInfo → FileInfo
  as_text f = record f { name = from_utf8_lossy f.name }

  pub read_record-Does :
      (f : FileInfo) (rest : List ℕ)
      → IsRecord f
      → Does (read_record from_utf8_lossy) (record_bytes f ++ rest) (ok (as_text f)) [] rest
  unfolding read_record read_exact read_received split_at Does ◌>>=◌
  read_record-Does f rest (s, d, u, n) w t = (
    [],
    rw
        (
          from_be16-to _ n,
          from_be32-to _ s,
          from_be16-to _ d,
          from_be16-to _ u,
          split_at-append f.name rest,
          append-nil w,
        )
        refl,
    refl,
  )

-- What is sent for the entries from `index` on, and what the cart answers with.
unfoldable pub requests : ℕ → ℕ → List ℕ
requests zero index = []
requests (suc left) index =
    (scmd_frame cmd_fs Fs.dir_get ++ (to_be16 index ++ (to_be16 1 ++ to_be16 max_name_len)))
    ++ requests left (suc index)

-- The records, then `rest`.
unfoldable pub records_bytes : List FileInfo → List ℕ → List ℕ
records_bytes [] rest = rest
records_bytes (f ∷ fs) rest = record_bytes f ++ records_bytes fs rest

-- The bytes of a listing: the request for the directory, its status, its size, and a request for each entry.
abbrev pub listing_sent : List ℕ → ℕ → ℕ → List ℕ
listing_sent field options count =
    (scmd_frame cmd_fs Fs.dir_load ++ (options ∷ field))
    ++ (cmd_frame cmd_status ++ (scmd_frame cmd_fs Fs.dir_size ++ requests count 0))

module _ (from_utf8_lossy : List ℕ → List ℕ) where
  pub list_entries-Does :
      (fs : List FileInfo) (index : ℕ) (rest : List ℕ)
      → All IsRecord fs
      → Does
          (list_entries from_utf8_lossy (length fs) index)
          (records_bytes fs rest)
          (ok (map (as_text from_utf8_lossy) fs))
          (requests (length fs) index)
          rest
  unfolding list_entries requests records_bytes
  list_entries-Does [] index rest h = pure-Does [] rest
  list_entries-Does (f ∷ fs) index rest (h, hs) =
      let request =
        scmd_frame cmd_fs Fs.dir_get ++ (to_be16 index ++ (to_be16 1 ++ to_be16 max_name_len)) in
      then-Does (send request) _ _ tt _ request _ _ rest (send-Does request _) (
        then-Does (read_record from_utf8_lossy) _ _ (as_text from_utf8_lossy f) _ [] _ _ rest
          (read_record-Does from_utf8_lossy f (records_bytes fs rest) h)
          (map-Does (list_entries from_utf8_lossy (length fs) (suc index))
            (λ entries. as_text from_utf8_lossy f ∷ entries) _ (map (as_text from_utf8_lossy) fs) _
            rest (list_entries-Does fs (suc index) rest hs)))

  -- Over a port that takes every write, where the path is not too long and the cart answers the request for the
  -- directory with status 0, then with the number of entries and a record for each, whose fields fit, `dir_list` gives
  -- exactly these records in order, the name of each the string that `from_utf8_lossy` makes of its bytes. It sends the
  -- request, the status command, the request for the size and one request for each index from 0 on, and leaves unread what
  -- comes after the last record.
  pub dir_list-Does :
      (path : List ℕ) (options device : ℕ) (fs : List FileInfo) (rest : List ℕ)
      → length path ≤ 65535
      → length fs ≤ 65535
      → All IsRecord fs
      → Does
          (dir_list from_utf8_lossy path options)
          (status_reply device 0 ++ (to_be16 (length fs) ++ records_bytes fs rest))
          (ok (map (as_text from_utf8_lossy) fs))
          (listing_sent (to_be16 (length path) ++ path) options (length fs))
          rest
  unfolding dir_list
  dir_list-Does path options device fs rest p q h =
      let field = to_be16 (length path) ++ path in
      let load = scmd_frame cmd_fs Fs.dir_load ++ (options ∷ field) in
      let size = scmd_frame cmd_fs Fs.dir_size in
      then-Does (path_field path) _ _ field _ [] _ _ rest (path_field-Does path _ p) (
        then-Does (send load) _ _ tt _ load _ _ rest (send-Does load _) (
          then-Does check_status _ _ tt _ (cmd_frame cmd_status) _ _ rest
            (check_status-Does device _)
            (then-Does (send size) _ _ tt _ size _ _ rest (send-Does size _) (
              then-Does (read_exact 2) _ _ (to_be16 (length fs)) _ [] _ _ rest
                (read-Does (to_be16 (length fs)) _)
                (rw (from_be16-to (length fs) (omega arith)) (list_entries-Does fs 0 rest h))))))
