-- ===== src/Ap64/M64p/Request/Reading.antt =====
-- A reader of the requests, as the protocol (docs/spec/memory-l3-application-v0.md) lays them out, and
-- that it reads what the encoders write.
use multi.Common.{
  ℕ, zero, suc, ◌/◌, ◌%◌, ◌^◌, ◌<◌, ◌≡◌, refl, ap, List, [], ◌∷◌, length, take, drop, map, Result,
  ok, fail_if, ltb, arith, All, take-length_append, drop-length_append,
}
use multi.Common.Bytes.{
  IsU16, IsU32, byte_at, u16_at, u32_at, from_be16-to, from_be32-to, from_be16,
}
use multi.Ap64.M64p.{Region, Slot, Error, too_many_regions}
use multi.Ap64.M64p.Msg
use multi.Ap64.M64p.Request.{
  check_limits, check_slot, check_slots, counted, regions_bytes, writes_bytes, write_lens,
  slots_bytes, encode_peek, encode_pokev, encode_watch,
}
use multi.Ap64.M64p.Request.Limits.{IsRegionLen, check_limits-ok, check-ok, length-write_lens}

-- `n` items in a row, each read by `item`, which leaves the bytes behind the one it read.
abbrev pub read_items : {A : Type 0} → (List ℕ → A × List ℕ) → ℕ → List ℕ → List A
read_items item zero bs = []
read_items item (suc n) bs = let (a, rest) = item bs in a ∷ read_items item n rest

-- The code of a request, its id and its items; the code says how an item is laid out.
abbrev pub read_request : {A : Type 0} → (List ℕ → A × List ℕ) → List ℕ → ℕ × ℕ × List A
read_request item bs = (byte_at bs 4, u16_at bs 5, read_items item (byte_at bs 7) (drop 8 bs))

abbrev pub read_region : List ℕ → Region × List ℕ
read_region bs = (record { addr = u32_at bs 0; len = u16_at bs 4 }, drop 6 bs)

abbrev pub read_write : List ℕ → (ℕ × List ℕ) × List ℕ
read_write bs = ((u32_at bs 0, take (u16_at bs 4) (drop 6 bs)), drop (u16_at bs 4) (drop 6 bs))

abbrev pub read_slot : List ℕ → Slot × List ℕ
read_slot bs = (
  record {
    addr = u32_at bs 0;
    len = byte_at bs 4;
    place = byte_at bs 5;
    values = take (byte_at bs 6) (drop 7 bs);
  },
  drop (byte_at bs 6) (drop 7 bs),
)

-- The ranges that Rust's types give.
abbrev pub IsRegion : Region → Type 0
IsRegion r = IsU32 r.addr × IsU16 r.len

abbrev pub IsWrite : ℕ × List ℕ → Type 0
IsWrite w = IsU32 w.0 × (length w.1 < 2 ^ 16)

read_regions :
    (rs : List Region)
    → All IsRegion rs
    → read_items read_region (length rs) (regions_bytes rs) ≡ rs
read_regions [] h = refl
read_regions (r ∷ rs) h =
    rw (from_be32-to r.addr h.0.0, from_be16-to r.len h.0.1, read_regions rs h.1)

cut_len : (n : ℕ) → n < 2 ^ 16 → from_be16 (n % 2 ^ 16 / 256 % 256) (n % 2 ^ 16 % 256) ≡ n
cut_len n h = omega arith

read_writes :
    (ws : List (ℕ × List ℕ))
    → All IsWrite ws
    → read_items read_write (length ws) (writes_bytes ws) ≡ ws
read_writes [] h = refl
read_writes ((addr, bytes) ∷ ws) h = rw (
  from_be32-to addr h.0.0,
  cut_len (length bytes) h.0.1,
  take-length_append (length bytes) bytes (writes_bytes ws) refl,
  drop-length_append (length bytes) bytes (writes_bytes ws) refl,
  read_writes ws h.1,
)

abbrev pub IsSlot : Slot → Type 0
IsSlot s = IsU32 s.addr

-- A slot that `check_slots` lets through has no more values than fit a byte.
slot_values :
    (s : Slot) (slots : List Slot)
    → check_slots (s ∷ slots) ≡ ok tt
    → (length s.values < 256) × (check_slots slots ≡ ok tt)
unfolding check_slots check_slot
slot_values s slots h = ground arith

read_slots :
    (ss : List Slot)
    → All IsSlot ss
    → check_slots ss ≡ ok tt
    → read_items read_slot (length ss) (slots_bytes ss) ≡ ss
read_slots [] h c = refl
read_slots (s ∷ ss) h c =
    let (few, more) = slot_values s ss c in
    let byte : length s.values % 2 ^ 8 ≡ length s.values = omega arith in
    rw (
      from_be32-to s.addr h.0,
      byte,
      take-length_append (length s.values) s.values (slots_bytes ss) refl,
      drop-length_append (length s.values) s.values (slots_bytes ss) refl,
      read_slots ss h.1 more,
    )

abbrev pub accepted : List ℕ → Result Error (List ℕ)
accepted bs = ok bs

pub watch_checked :
    (rid : ℕ) (ss : List Slot) (bs : List ℕ)
    → encode_watch rid ss ≡ ok bs
    → ((length ss < 256) × (check_slots ss ≡ ok tt))
      × (accepted (counted Msg.watch rid (length ss) (slots_bytes ss)) ≡ ok bs)
unfolding encode_watch
watch_checked rid ss bs h =
    let (a, b) = check-ok (fail_if (ltb 255 (length ss)) (too_many_regions (length ss))) _ bs h in
    let (c, d) = check-ok (check_slots ss) _ bs b in ((ground arith, c), d)

length-lens : (rs : List Region) → length (map Region.len rs) ≡ length rs
length-lens [] = refl
length-lens (r ∷ rs) = ap suc (length-lens rs)

writes-IsWrite :
    (ws : List (ℕ × List ℕ))
    → All (λ w. IsU32 w.0) ws
    → All IsRegionLen (write_lens ws)
    → All IsWrite ws
writes-IsWrite [] v each = tt
writes-IsWrite ((addr, bytes) ∷ ws) v each = ((v.0, omega arith), writes-IsWrite ws v.1 each.1)

read_counted :
    {A : Type 0} (item : List ℕ → A × List ℕ) (msg rid : ℕ) (items bs : List ℕ) (xs : List A)
    → IsU16 rid
    → length xs < 256
    → read_items item (length xs) items ≡ xs
    → accepted (counted msg rid (length xs) items) ≡ ok bs
    → read_request item bs ≡ (msg, rid, xs)
read_counted item msg rid items bs xs u few each h =
    let e : bs ≡ counted msg rid (length xs) items = cc in
    let n : length xs % 2 ^ 8 ≡ length xs = omega arith in rw (e, n, from_be16-to rid u, each)

module _ (rid : ℕ) (rid_u16 : IsU16 rid) where
  -- A reader of the protocol reads out of an accepted request for memory or cartridge ROM its code,
  -- its id and the regions asked for.
  pub read-encode_peek :
      (msg : ℕ) (rs : List Region) (bs : List ℕ)
      → All IsRegion rs
      → encode_peek msg rid rs ≡ ok bs
      → read_request read_region bs ≡ (msg, rid, rs)
  unfolding encode_peek
  read-encode_peek msg rs bs v h =
      let (checked, e) = check-ok (check_limits (map Region.len rs)) _ bs h in
      let (few, each, all) = check_limits-ok (map Region.len rs) checked in
      read_counted read_region msg rid (regions_bytes rs) bs rs rid_u16
        (omega (arith, length-lens rs)) (read_regions rs v) e

  -- A reader of the protocol reads out of an accepted write request its code, its id and the writes,
  -- with the address and all bytes of each.
  pub read-encode_pokev :
      (ws : List (ℕ × List ℕ)) (bs : List ℕ)
      → All (λ w. IsU32 w.0) ws
      → encode_pokev rid ws ≡ ok bs
      → read_request read_write bs ≡ (Msg.pokev, rid, ws)
  unfolding encode_pokev
  read-encode_pokev ws bs v h =
      let (checked, e) = check-ok (check_limits (write_lens ws)) _ bs h in
      let (few, each, all) = check_limits-ok (write_lens ws) checked in
      read_counted read_write Msg.pokev rid (writes_bytes ws) bs ws rid_u16
        (omega (arith, length-write_lens ws)) (read_writes ws (writes-IsWrite ws v each)) e

  -- A reader of the protocol reads out of an accepted watch request its code, its id and the slots,
  -- with the filter of each.
  pub read-encode_watch :
      (ss : List Slot) (bs : List ℕ)
      → All IsSlot ss
      → encode_watch rid ss ≡ ok bs
      → read_request read_slot bs ≡ (Msg.watch, rid, ss)
  unfolding encode_watch
  read-encode_watch ss bs v h =
      let (checked, e) = watch_checked rid ss bs h in
      read_counted read_slot Msg.watch rid (slots_bytes ss) bs ss rid_u16 checked.0
        (read_slots ss v checked.1) e
