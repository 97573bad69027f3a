-- ===== src/Ap64/M64p/Request.antt =====
-- The encoders of crates/ap64-cart/src/m64p.rs. A write is its address and its bytes.
pub mod Limits
pub mod Reading
use multi.Common.{
  ℕ, ◌+◌, ◌%◌, ◌^◌, List, [], ◌∷◌, ◌++◌, map, length, Result, ok, err, ◌>>=◌, ◌>>◌, fail_if, ltb,
  leb, not, ◌==◌, ◌&&◌, ◌||◌, Bool, true, false,
}
use multi.Common.Bytes.{to_be16, to_be32}
use multi.Ap64.M64p.{
  magic, Region, Slot, Error, too_many_regions, region_too_large, total_too_large, max_regions,
  max_region_bytes, max_total_bytes, watch_max_len, watch_max_values,
}
use multi.Ap64.M64p.Msg

-- The `for` loop of `check_limits`, with the total so far.
unfoldable pub add_lens : ℕ → List ℕ → Result Error ℕ
add_lens total [] = ok total
add_lens total (len ∷ lens) = do
  fail_if (ltb max_region_bytes len) (region_too_large len)
  add_lens (total + len) lens

unfoldable pub check_limits : List ℕ → Result Error (Unit {0})
check_limits lens = do
  fail_if (ltb max_regions (length lens)) (too_many_regions (length lens))
  total ← add_lens 0 lens
  fail_if (ltb max_total_bytes total) (total_too_large total)

abbrev pub header : ℕ → List ℕ
header msg = magic ++ (msg ∷ [])

-- The id of a request and the number of its items, as they follow the header.
abbrev pub counted : ℕ → ℕ → ℕ → List ℕ → List ℕ
counted msg rid n items = header msg ++ (to_be16 rid ++ (n % 2 ^ 8 ∷ items))

unfoldable pub encode_hello : List ℕ
encode_hello = header Msg.hello

abbrev pub regions_bytes : List Region → List ℕ
regions_bytes [] = []
regions_bytes (r ∷ rs) = to_be32 r.addr ++ (to_be16 r.len ++ regions_bytes rs)

unfoldable pub encode_peek : ℕ → ℕ → List Region → Result Error (List ℕ)
encode_peek msg rid regions = do
  check_limits (map Region.len regions)
  ok (counted msg rid (length regions) (regions_bytes regions))

unfoldable pub encode_peekv : ℕ → List Region → Result Error (List ℕ)
unfolding encode_peek
encode_peekv rid regions = encode_peek Msg.peekv rid regions

unfoldable pub encode_peekrom : ℕ → List Region → Result Error (List ℕ)
unfolding encode_peek
encode_peekrom rid regions = encode_peek Msg.peekrom rid regions

abbrev pub writes_bytes : List (ℕ × List ℕ) → List ℕ
writes_bytes [] = []
writes_bytes ((addr, bytes) ∷ ws) =
    to_be32 addr ++ (to_be16 (length bytes % 2 ^ 16) ++ (bytes ++ writes_bytes ws))

abbrev pub write_lens : List (ℕ × List ℕ) → List ℕ
write_lens [] = []
write_lens ((addr, bytes) ∷ ws) = length bytes ∷ write_lens ws

unfoldable pub encode_pokev : ℕ → List (ℕ × List ℕ) → Result Error (List ℕ)
encode_pokev rid writes = do
  check_limits (write_lens writes)
  ok (counted Msg.pokev rid (length writes) (writes_bytes writes))

-- The body of the first loop of `encode_watch`.
unfoldable pub check_slot : Slot → Result Error (Unit {0})
check_slot s = do
  fail_if (ltb watch_max_len s.len || s.len == 0) (region_too_large s.len)
  fail_if (ltb watch_max_values (length s.values)) (region_too_large (length s.values))
  fail_if (not (length s.values == 0) && leb s.len s.place) (region_too_large s.place)

unfoldable pub check_slots : List Slot → Result Error (Unit {0})
unfolding check_slot
check_slots [] = ok tt
check_slots (s ∷ slots) = do check_slot s; check_slots slots

abbrev pub slots_bytes : List Slot → List ℕ
slots_bytes [] = []
slots_bytes (s ∷ slots) =
    to_be32 s.addr ++ (s.len ∷ s.place ∷ length s.values % 2 ^ 8 ∷ (s.values ++ slots_bytes slots))

unfoldable pub encode_watch : ℕ → List Slot → Result Error (List ℕ)
encode_watch rid slots = do
  fail_if (ltb 255 (length slots)) (too_many_regions (length slots))
  check_slots slots
  ok (counted Msg.watch rid (length slots) (slots_bytes slots))
