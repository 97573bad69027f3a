-- ===== src/Ap64/Backend.antt =====
-- `Multi64` of crates/ap64-cart/src/backend.rs: how batches of reads and writes become requests. An address is a
-- u32. What is under it, requests with their retries and the watch, is a Link.
pub mod Memory
pub mod Coalescing
pub mod Requests
pub mod Writing
pub mod Splitting
pub mod Reading
pub mod Wire
pub mod Stalls
pub mod RomPages
mod Examples
use multi.Common.{
  ℕ, zero, suc, ◌+◌, ◌-◌, ◌*◌, ◌%◌, ◌^◌, min, List, [], ◌∷◌, ◌++◌, Option, none, some, length,
  Result, ok, err, ◌>>=◌, ◌>>◌, fail_if, ok_or, Bool, true, false, ltb, leb, ◌==◌, ◌&&◌, ◌||◌,
  if◌then◌else◌,
}
use multi.Common.Chunks.{chunk_loop}
use multi.Ap64.M64p.{Region, max_regions, max_region_bytes, max_total_bytes}

pub data BackendError (E : Type 0) : Type 0 where
  outside : ℕ → ℕ → ℕ → BackendError E
  fewer_regions : BackendError E
  link_error : E → BackendError E

-- What is written where.
abbrev pub Write : Type 0
Write = ℕ × List ℕ

-- `addr + i as u32`.
abbrev pub address : ℕ → ℕ → ℕ
address addr i = (addr + i) % 2 ^ 32

abbrev pub check_in : {E : Type 0} → ℕ → ℕ → ℕ → Result (BackendError E) (Unit {0})
check_in addr len size = fail_if (ltb size (addr + len)) (outside addr (addr + len) size)

-- `BTreeMap::insert`, on the entries in the order of their keys.
unfoldable pub insert : ℕ → ℕ → List (ℕ × ℕ) → List (ℕ × ℕ)
insert a b [] = (a, b) ∷ []
insert a b ((k, v) ∷ m) =
    let rest = insert a b m in
    if ltb a k then (a, b) ∷ (k, v) ∷ m else if a == k then (k, b) ∷ m else (k, v) ∷ rest

-- The bytes of a write from the `i`-th.
unfoldable pub insert_bytes : ℕ → ℕ → List ℕ → List (ℕ × ℕ) → List (ℕ × ℕ)
insert_bytes addr i [] m = m
insert_bytes addr i (b ∷ bs) m = insert_bytes addr (suc i) bs (insert (address addr i) b m)

unfoldable pub insert_writes : List Write → List (ℕ × ℕ) → List (ℕ × ℕ)
insert_writes [] m = m
insert_writes ((addr, bs) ∷ ws) m = insert_writes ws (insert_bytes addr 0 bs m)

-- The loop over the entries, with the run that is last.
unfoldable pub runs_from : ℕ → List ℕ → List (ℕ × ℕ) → List Write
runs_from start run [] = (start, run) ∷ []
runs_from start run ((a, b) ∷ m) = elim (address start (length run) == a) [
  | true ↦ runs_from start (run ++ (b ∷ [])) m
  | false ↦ (start, run) ∷ runs_from a (b ∷ []) m
]

unfoldable pub runs : List (ℕ × ℕ) → List Write
runs [] = []
runs ((a, b) ∷ m) = runs_from a (b ∷ []) m

unfoldable pub coalesce : List Write → List Write
coalesce ws = runs (insert_writes ws [])

-- The chunks of one write, from the `i`-th.
unfoldable pub place_chunks : ℕ → ℕ → List (List ℕ) → List Write
place_chunks addr i [] = []
place_chunks addr i (c ∷ cs) =
    (address addr (i * max_region_bytes), c) ∷ place_chunks addr (suc i) cs

unfoldable pub chunks_of : List Write → List Write
chunks_of [] = []
chunks_of ((addr, bs) ∷ ws) =
    place_chunks addr 0 (chunk_loop (length bs) max_region_bytes bs) ++ chunks_of ws

abbrev pub sum_of : {A : Type 0} → (A → ℕ) → List A → ℕ
sum_of len_of [] = 0
sum_of len_of (x ∷ xs) = len_of x + sum_of len_of xs

abbrev pub write_len : Write → ℕ
write_len w = length w.1

abbrev pub fits_one_request : List Write → Bool
fits_one_request cs = leb (length cs) max_regions && leb (sum_of write_len cs) max_total_bytes

-- The chunks that `write_many` sends.
unfoldable pub chunks_to_send : List Write → List Write
chunks_to_send ws =
    let merged = chunks_of (coalesce ws) in if fits_one_request merged then merged else chunks_of ws

-- Whether a request of so many has no room for what makes it so long.
abbrev pub is_full : ℕ → ℕ → Bool
is_full n bytes = n == max_regions || ltb max_total_bytes bytes

-- The loops of `write_many` and `batches` that fill requests, for what has a length. The last request may be empty, and is not sent then.
module _ {A : Type 0} (len_of : A → ℕ) where
  abbrev pub not_empty : List A → List (List A)
  not_empty [] = []
  not_empty (c ∷ cs) = (c ∷ cs) ∷ []

  unfoldable pub fill : List A → ℕ → List A → List (List A)
  fill batch bytes [] = not_empty batch
  fill batch bytes (c ∷ cs) = elim (is_full (length batch) (bytes + len_of c)) [
    | true ↦ batch ∷ fill (c ∷ []) (len_of c) cs
    | false ↦ fill (batch ++ (c ∷ [])) (bytes + len_of c) cs
  ]

unfoldable pub write_batches : List Write → List (List Write)
write_batches cs = fill write_len [] 0 cs

unfoldable pub batches : List Region → List (List Region)
batches cs = fill Region.len [] 0 cs

abbrev pub fits : List Region → ℕ → Bool
fits batch len =
    ltb (length batch) max_regions && leb (sum_of Region.len batch + len) max_total_bytes

-- The region that is to be sampled, if it still fits.
abbrev pub fitting : List Region → Option (ℕ × ℕ) → Option (ℕ × ℕ)
fitting batch none = none
fitting batch (some region) = if fits batch region.1 then some region else none

-- The loop of `split` over one region. Each round takes a byte at least, so that as much fuel as there are bytes is enough.
unfoldable pub split_region : ℕ → ℕ → ℕ → ℕ → List Region
split_region zero addr len done = []
split_region (suc fuel) addr len done =
    let size = min (len - done) max_region_bytes in
    let rest = split_region fuel addr len (done + size) in
    if ltb done len then record { addr = address addr done; len = size % 2 ^ 16 } ∷ rest else []

unfoldable pub split :
    {E : Type 0} → ℕ → List (ℕ × ℕ) → Result (BackendError E) (List Region × List ℕ)
split size [] = ok ([], [])
split size ((addr, len) ∷ regions) = do
  check_in addr len size
  let cs = split_region len addr len 0
  rest ← split size regions
  ok (cs ++ rest.0, length cs ∷ rest.1)

-- The next `n` blocks joined, and those behind.
unfoldable pub join_blocks : ℕ → List (List ℕ) → Option (List ℕ × List (List ℕ))
join_blocks zero flat = some ([], flat)
join_blocks (suc n) [] = none
join_blocks (suc n) (b ∷ flat) = elim (join_blocks n flat) [
  | none ↦ none
  | some joined ↦ some (b ++ joined.0, joined.1)
]

unfoldable pub stitch :
    {E : Type 0} → List (List ℕ) → List ℕ → Result (BackendError E) (List (List ℕ))
stitch flat [] = ok []
stitch flat (n ∷ counts) = do
  joined ← ok_or (join_blocks n flat) fewer_regions
  rest ← stitch joined.1 counts
  ok (joined.0 ∷ rest)

-- What `Multi64` is on top of: its state `S`, and requests that are answered, with what became of the state, or fail with an `E`.
pub record Link (S E : Type 0) : Type 0 where
  -- RDRAM size that the cart reported, a u32.
  pub rdram_bytes : S → ℕ
  -- `with_retry` of a `peek`, and `poke_once`.
  pub peek : S → List Region → Result E (S × List (List ℕ))
  pub poke : S → List Write → Result E S
  -- `stats.regions +=`.
  pub counted : S → ℕ → S
  -- `arm_watch` where it is to be called, `collect_events`, the region that is to be sampled, and the watch's `observe`.
  pub arm : S → S
  pub collect : S → S
  pub probe : S → Option (ℕ × ℕ)
  pub observe : S → List ℕ → S

abbrev pub over_link : {E A : Type 0} → Result E A → Result (BackendError E) A
over_link (ok a) = ok a
over_link (err e) = err (link_error e)

-- The last of a reply (`pop().unwrap_or_default()`), and those before.
abbrev pub pop : List (List ℕ) → List (List ℕ) × List ℕ
pop [] = ([], [])
pop (b ∷ []) = ([], b)
pop (b ∷ c ∷ cs) = let rest = pop (c ∷ cs) in (b ∷ rest.0, rest.1)

module _ {S E : Type 0} (link : Link S E) where
  abbrev pub check_all : S → List Write → Result (BackendError E) (Unit {0})
  check_all s [] = ok tt
  check_all s ((addr, bs) ∷ ws) = do check_in addr (length bs) (link.rdram_bytes s); check_all s ws

  unfoldable pub send_batches : S → List (List Write) → Result (BackendError E) S
  send_batches s [] = ok s
  send_batches s (batch ∷ bs) = do
    s' ← over_link (link.poke (link.counted s (length batch)) batch)
    send_batches s' bs

  unfoldable pub write_many : S → List Write → Result (BackendError E) S
  write_many s ws = do check_all s ws; send_batches s (write_batches (chunks_to_send ws))

  -- One request, and one that the region to be sampled goes along with: what they brought for the regions asked for.
  unfoldable pub read_with :
      S → List Region → Option (ℕ × ℕ) → Result (BackendError E) (S × List (List ℕ))
  read_with s batch none = do
    done ← over_link (link.peek (link.counted s (length batch)) batch)
    ok (link.collect done.0, done.1)
  read_with s batch (some region) = do
    let whole = batch ++ (record { addr = region.0; len = region.1 % 2 ^ 16 } ∷ [])
    done ← over_link (link.peek (link.counted s (length whole)) whole)
    ok (link.collect (link.observe done.0 (pop done.1).1), (pop done.1).0)

  unfoldable pub read_batch : S → List Region → Result (BackendError E) (S × List (List ℕ))
  read_batch s batch = read_with s batch (fitting batch (link.probe s))

  unfoldable pub read_batches : S → List (List Region) → Result (BackendError E) (S × List (List ℕ))
  read_batches s [] = ok (s, [])
  read_batches s (batch ∷ bs) = do
    done ← read_batch s batch
    rest ← read_batches done.0 bs
    ok (rest.0, done.1 ++ rest.1)

  unfoldable pub read_many : S → List (ℕ × ℕ) → Result (BackendError E) (S × List (List ℕ))
  read_many s regions = do
    let armed = link.arm s
    parts ← split (link.rdram_bytes armed) regions
    flat ← read_batches armed (batches parts.0)
    blocks ← stitch flat.1 parts.1
    ok (flat.0, blocks)
