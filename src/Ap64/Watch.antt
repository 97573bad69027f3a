-- ===== src/Ap64/Watch.antt =====
-- `Watch` of crates/ap64-cart/src/watch.rs. The counters wrap as release builds do.
pub mod Steps
pub mod History
mod Examples
use multi.Common.{
  ℕ, zero, suc, ◌+◌, ◌%◌, ◌^◌, Bool, true, false, List, [], ◌∷◌, ◌++◌, Option, none, some, length,
  min, ◌-◌, not, ◌&&◌, ◌||◌, ◌==◌, leb, if◌then◌else◌,
}

abbrev pub queue_cap : ℕ
queue_cap = 16

pub record Filter : Type 0 where
  pub place : ℕ
  pub values : List ℕ

pub get_elem? : List ℕ → ℕ → Option ℕ
get_elem? [] i = none
get_elem? (b ∷ bs) zero = some b
get_elem? (b ∷ bs) (suc i) = get_elem? bs i

pub contains : List ℕ → ℕ → Bool
contains [] b = false
contains (v ∷ vs) b = v == b || contains vs b

is_some_and : Option ℕ → (ℕ → Bool) → Bool
is_some_and none p = false
is_some_and (some b) p = p b

unfoldable pub admits : Filter → List ℕ → Bool
unfolding get_elem? contains is_some_and
admits f value = is_some_and (get_elem? value f.place) (contains f.values)

pub record WatchStats : Type 0 where
  pub samples : ℕ
  pub events : ℕ
  pub queued : ℕ
  pub replayed : ℕ
  pub dropped : ℕ
  pub waiting : ℕ

abbrev no_stats : WatchStats
no_stats = record { samples = 0; events = 0; queued = 0; replayed = 0; dropped = 0; waiting = 0 }

-- The head of `queue` is the front of the `VecDeque`.
pub record Watch : Type 0 where
  pub addr : ℕ
  pub len : ℕ
  pub filter : Option Filter
  pub last : Option (List ℕ)
  pub queue : List (List ℕ)
  pub counts : WatchStats

unfoldable pub new : ℕ → ℕ → Option Filter → Watch
new addr len filter = record {
  addr = addr;
  len = len;
  filter = filter;
  last = none;
  queue = [];
  counts = no_stats;
}

-- `x += 1` on a u32 and on a u64.
abbrev pub bump32 : ℕ → ℕ
bump32 n = (n + 1) % 2 ^ 32

abbrev pub bump64 : ℕ → ℕ
bump64 n = (n + 1) % 2 ^ 64

unfoldable pub pop_front : List (List ℕ) → List (List ℕ)
pop_front [] = []
pop_front (x ∷ xs) = xs

-- The end of `push_event` and of `observe`: drop the oldest where the queue is full, and push.
unfoldable pub enqueue : Watch → List ℕ → Watch
unfolding pop_front
enqueue w bytes =
    if length w.queue == queue_cap
    then record w {
      queue = pop_front w.queue ++ (bytes ∷ []);
      counts = record w.counts {
        dropped = bump32 w.counts.dropped;
        queued = bump32 w.counts.queued;
      };
    }
    else record w {
      queue = w.queue ++ (bytes ∷ []);
      counts = record w.counts { queued = bump32 w.counts.queued };
    }

abbrev pub count_event : Watch → Watch
count_event w = record w { counts = record w.counts { events = bump32 w.counts.events } }

unfoldable pub push_event : Watch → List ℕ → Watch
push_event w bytes = if not (length bytes == w.len) then w else enqueue (count_event w) bytes

unfoldable pub add_dropped : Watch → ℕ → Watch
add_dropped w n = record w {
  counts = record w.counts { dropped = min (w.counts.dropped + n) (2 ^ 32 - 1) };
}

-- `was == bytes`
pub same : List ℕ → List ℕ → Bool
same [] [] = true
same (a ∷ xs) (b ∷ bs) = a == b && same xs bs
same _ _ = false

pub all_zero : List ℕ → Bool
all_zero [] = true
all_zero (b ∷ bs) = b == 0 && all_zero bs

-- `if let Some(f) = &self.filter { if !f.admits(bytes) … }`
pub rejects : Option Filter → List ℕ → Bool
rejects none bytes = false
rejects (some f) bytes = not (admits f bytes)

-- `observe` from the comparison with the sample before on.
unfoldable pub compare_sample : Watch → Option (List ℕ) → List ℕ → Watch
compare_sample w none bytes = w
compare_sample w (some was) bytes =
    if same was bytes
    then w
    else if all_zero bytes
    then w
    else if rejects w.filter bytes
    then count_event w
    else enqueue (count_event w) bytes

unfoldable pub sampled : Watch → List ℕ → Watch
sampled w bytes = record w {
  last = some bytes;
  counts = record w.counts { samples = bump64 w.counts.samples };
}

unfoldable pub observe : Watch → List ℕ → Watch
unfolding sampled compare_sample
observe w bytes =
    if not (length bytes == w.len) then w else compare_sample (sampled w bytes) w.last bytes

unfoldable pub take_front : Watch → List (List ℕ) → Option (List ℕ) × Watch
take_front w [] = (none, w)
take_front w (v ∷ rest) = (
  some v,
  record w { queue = rest; counts = record w.counts { replayed = bump32 w.counts.replayed } },
)

-- `take`
unfoldable pub take_oldest : Watch → Option (List ℕ) × Watch
unfolding take_front
take_oldest w = take_front w w.queue

unfoldable pub stats : Watch → WatchStats
stats w = record w.counts { waiting = length w.queue }
