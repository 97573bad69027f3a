-- ===== src/Sd/ReadCache.antt =====
-- `SdReadCache` of crates/multi64-sc64-sd/src/sd_read_cache.rs. The `BTreeMap` is the list of its entries
-- by first LBA, ascending; the head of `order` is the front of the `VecDeque`. `fetch` and `store`, the
-- closures that read and write the card, are parameters.
pub mod Removing
pub mod Inserting
pub mod Coherence
mod Examples
use multi.Common.{
  ℕ, zero, suc, ◌+◌, ◌-◌, ◌*◌, ◌/◌, ◌≤◌, Bool, true, false, List, [], ◌∷◌, ◌++◌, Option, none, some,
  length, slice, ltb, leb, not, ◌==◌, ◌&&◌, Result, ok, err, if◌then◌else◌,
}

pub record Entry : Type 0 where
  pub start : ℕ
  pub bytes : List ℕ

pub record SdReadCache : Type 0 where
  pub entries : List Entry
  pub order : List ℕ
  pub bytes : ℕ

abbrev pub sector_bytes : ℕ
sector_bytes = 512

abbrev pub budget_bytes : ℕ
budget_bytes = 8_388_608

-- `SdReadCache::end`, with `div_ceil` written out.
abbrev pub end_of : ℕ → ℕ → ℕ
end_of lba len = lba + (len + 511) / sector_bytes

-- `range(..=lba).next_back()`
unfoldable pub last_upto : ℕ → List Entry → Option Entry
last_upto lba [] = none
last_upto lba (e ∷ es) = elim (last_upto lba es) [
  | some later ↦ some later
  | none ↦ if leb e.start lba then some e else none
]

-- `bytes.get(from..from + len)`
unfoldable pub get_range : List ℕ → ℕ → ℕ → Option (List ℕ)
get_range bytes from len =
    if leb (from + len) (length bytes) then some (slice bytes from (from + len)) else none

unfoldable pub covering : SdReadCache → ℕ → ℕ → Option (List ℕ)
unfolding last_upto get_range
covering c lba len = elim (last_upto lba c.entries) [
  | none ↦ none
  | some e ↦ get_range e.bytes ((lba - e.start) * sector_bytes) len
]

-- `entries.get(&start)`
unfoldable pub find_entry : ℕ → List Entry → Option (List ℕ)
find_entry start [] = none
find_entry start (e ∷ es) = if e.start == start then some e.bytes else find_entry start es

unfoldable pub delete : ℕ → List Entry → List Entry
delete start [] = []
delete start (e ∷ es) = let rest = delete start es in if e.start == start then rest else e ∷ rest

-- `retain(|&s| s != start)`
unfoldable pub retain_other : ℕ → List ℕ → List ℕ
retain_other start [] = []
retain_other start (s ∷ ss) =
    let rest = retain_other start ss in if s == start then rest else s ∷ rest

unfoldable pub remove_found : SdReadCache → ℕ → Option (List ℕ) → SdReadCache
unfolding delete retain_other
remove_found c start none = c
remove_found c start (some bytes) = record {
  entries = delete start c.entries;
  order = retain_other start c.order;
  bytes = c.bytes - length bytes;
}

unfoldable pub remove : SdReadCache → ℕ → SdReadCache
unfolding remove_found find_entry
remove c start = remove_found c start (find_entry start c.entries)

-- Whether an entry shares a sector with the sectors from `lba` to before `end`.
abbrev pub overlaps : ℕ → ℕ → Entry → Bool
overlaps lba end e = ltb e.start end && ltb lba (end_of e.start (length e.bytes))

unfoldable pub doomed : ℕ → ℕ → List Entry → List ℕ
doomed lba end [] = []
doomed lba end (e ∷ es) =
    let rest = doomed lba end es in if overlaps lba end e then e.start ∷ rest else rest

unfoldable pub remove_all : SdReadCache → List ℕ → SdReadCache
remove_all c [] = c
remove_all c (s ∷ ss) = remove_all (remove c s) ss

unfoldable pub invalidate : SdReadCache → ℕ → ℕ → SdReadCache
unfolding remove_all doomed
invalidate c lba len = remove_all c (doomed lba (end_of lba len) c.entries)

-- `entries.insert`, which replaces an entry with the same first LBA.
unfoldable pub put : Entry → List Entry → List Entry
put e [] = e ∷ []
put e (f ∷ fs) =
    let rest = put e fs in
    if ltb e.start f.start then e ∷ f ∷ fs else if e.start == f.start then e ∷ fs else f ∷ rest

-- The `while` loop of `insert`; `none` means that the fuel ran out.
unfoldable pub evict : ℕ → SdReadCache → List ℕ → ℕ → Option SdReadCache
evict zero c order len = none
evict (suc fuel) c [] len = some c
evict (suc fuel) c (oldest ∷ order) len =
    let next = remove c oldest in
    let rest = evict fuel next next.order len in
    if ltb budget_bytes (c.bytes + len) then rest else some c

abbrev pub pushed : ℕ → List ℕ → SdReadCache → SdReadCache
pushed lba bytes c = record {
  entries = put (record { start = lba; bytes = bytes }) c.entries;
  order = c.order ++ (lba ∷ []);
  bytes = c.bytes + length bytes;
}

abbrev pub push_evicted : ℕ → List ℕ → Option SdReadCache → Option SdReadCache
push_evicted lba bytes none = none
push_evicted lba bytes (some c) = some (pushed lba bytes c)

-- Each round removes the first of `order` at least.
unfoldable pub insert : SdReadCache → ℕ → List ℕ → Option SdReadCache
unfolding evict invalidate put
insert c lba bytes =
    let d = invalidate c lba (length bytes) in
    if ltb budget_bytes (length bytes)
    then some c
    else push_evicted lba bytes (evict (suc (length d.order)) d d.order (length bytes))

-- The outcome of a read with the bytes that it filled in, and the cache then.
pub record Filled (E : Type 0) : Type 0 where
  pub outcome : Result E (List ℕ)
  pub cache : SdReadCache

abbrev pub keep_fetched : {E : Type 0} → List ℕ → Option SdReadCache → Option (Filled E)
keep_fetched bytes none = none
keep_fetched bytes (some c) = some (record { outcome = ok bytes; cache = c })

unfoldable pub fetch_through :
    {E : Type 0} → SdReadCache → ℕ → Result E (List ℕ) → Option (Filled E)
unfolding insert
fetch_through c lba (err e) = some (record { outcome = err e; cache = c })
fetch_through c lba (ok bytes) = keep_fetched bytes (insert c lba bytes)

unfoldable pub read_through :
    {E : Type 0} → SdReadCache → ℕ → ℕ → (ℕ → ℕ → Result E (List ℕ)) → Option (Filled E)
unfolding covering fetch_through
read_through c lba len fetch =
    if len == 0
    then some (record { outcome = fetch lba len; cache = c })
    else elim (covering c lba len) [
      | some bytes ↦ some (record { outcome = ok bytes; cache = c })
      | none ↦ fetch_through c lba (fetch lba len)
    ]

-- What `store` returns, and the cache then.
unfoldable pub write_through :
    {A : Type 0} → SdReadCache → ℕ → List ℕ → (ℕ → List ℕ → A) → A × SdReadCache
unfolding invalidate
write_through c lba buf store = let d = invalidate c lba (length buf) in (store lba buf, d)

unfoldable pub clear : SdReadCache → SdReadCache
clear c = record { entries = []; order = []; bytes = 0 }
