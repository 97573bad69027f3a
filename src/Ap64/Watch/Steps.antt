-- ===== src/Ap64/Watch/Steps.antt =====
-- What each operation does to the queue and to the sample before.
use multi.Common.{
  ℕ, ◌≡◌, refl, Bool, false, List, [], ◌∷◌, ◌++◌, Option, none, some, length, not, ◌&&◌, ◌==◌,
  if◌then◌else◌, arith,
}
use multi.Ap64.Watch.{
  Watch, Filter, queue_cap, pop_front, enqueue, count_event, push_event, same, all_zero, rejects,
  compare_sample, sampled, observe,
}

-- A sample is news if it differs from the one before it, is not all zero, and is not filtered out.
abbrev pub is_news : Option Filter → Option (List ℕ) → List ℕ → Bool
is_news f none bytes = false
is_news f (some was) bytes = not (same was bytes) && (not (all_zero bytes) && not (rejects f bytes))

abbrev pub pushed : List (List ℕ) → List ℕ → List (List ℕ)
pushed queue bytes =
    if length queue == queue_cap then pop_front queue ++ (bytes ∷ []) else queue ++ (bytes ∷ [])

-- Where the slot is and what it filters stay as they are.
abbrev pub Steps : Watch → Watch → List (List ℕ) → Option (List ℕ) → Type 0
Steps w v queue last = (v.queue ≡ queue) × (v.last ≡ last) × (v.len ≡ w.len) × (v.filter ≡ w.filter)

enqueue-Steps :
    (w : Watch) (bytes : List ℕ) → Steps w (enqueue w bytes) (pushed w.queue bytes) w.last
unfolding enqueue
enqueue-Steps w bytes = ground arith

compare_sample-Steps :
    (w : Watch) (was : Option (List ℕ)) (bytes : List ℕ)
    → Steps w
        (compare_sample w was bytes)
        (if is_news w.filter was bytes then pushed w.queue bytes else w.queue)
        w.last
unfolding compare_sample
compare_sample-Steps w none bytes = (refl, refl, refl, refl)
compare_sample-Steps w (some was) bytes = ground (arith, enqueue-Steps (count_event w) bytes)

pub observe-Steps :
    (w : Watch) (bytes : List ℕ)
    → Steps w
        (observe w bytes)
        (if length bytes == w.len && is_news w.filter w.last bytes
          then pushed w.queue bytes
          else w.queue)
        (if length bytes == w.len then some bytes else w.last)
unfolding observe
observe-Steps w bytes = ground (arith, compare_sample-Steps (sampled w bytes) w.last bytes)

pub push_event-Steps :
    (w : Watch) (bytes : List ℕ)
    → Steps w
        (push_event w bytes)
        (if length bytes == w.len then pushed w.queue bytes else w.queue)
        w.last
unfolding push_event
push_event-Steps w bytes = ground (arith, enqueue-Steps (count_event w) bytes)
