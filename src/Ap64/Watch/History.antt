-- ===== src/Ap64/Watch/History.antt =====
-- A watch over a history of operations: what the slot reported, and what was handed over.
use multi.Common.{
  ℕ, ◌≤◌, ◌≡◌, refl, sym, ap, subst, ◌∙◌, Bool, true, false, List, [], ◌∷◌, ◌++◌, Option, none,
  some, inl, inr, length, ◌&&◌, ◌==◌, if◌then◌else◌, arith, Bool-cases, length-append,
}
use mathlib.Core.List.{append-nil, append_assoc}
use multi.Ap64.Watch.{
  Watch, Filter, new, queue_cap, pop_front, push_event, add_dropped, observe, take_front,
  take_oldest,
}
use multi.Ap64.Watch.Steps.{is_news, pushed, Steps, observe-Steps, push_event-Steps}

pub data Op : Type 0 where
  observes reports : List ℕ → Op
  takes : Op
  loses : ℕ → Op

-- The value that an operation hands over, if it does, and the watch then.
unfoldable pub handle : Watch → Op → Option (List ℕ) × Watch
handle w (observes bytes) = (none, observe w bytes)
handle w (reports bytes) = (none, push_event w bytes)
handle w takes = take_oldest w
handle w (loses n) = (none, add_dropped w n)

abbrev pub cons? : Option (List ℕ) → List (List ℕ) → List (List ℕ)
cons? none vs = vs
cons? (some v) vs = v ∷ vs

-- All values handed over, in order, and the watch at the end.
unfoldable pub run : Watch → List Op → List (List ℕ) × Watch
run w [] = ([], w)
run w (op ∷ ops) = let (v, next) = handle w op in let (vs, end) = run next ops in (cons? v vs, end)

-- The changes that a history shows, by the samples alone: `len` is the slot's length and `was` the
-- sample before.
abbrev pub changes : ℕ → Option Filter → Option (List ℕ) → List Op → List (List ℕ)
changes len f was [] = []
changes len f was (observes bytes ∷ ops) =
    let rest = changes len f (if length bytes == len then some bytes else was) ops in
    if length bytes == len && is_news f was bytes then bytes ∷ rest else rest
changes len f was (reports bytes ∷ ops) =
    let rest = changes len f was ops in if length bytes == len then bytes ∷ rest else rest
changes len f was (takes ∷ ops) = changes len f was ops
changes len f was (loses n ∷ ops) = changes len f was ops

-- The first list stands in the second, in order.
pub data InOrder : List (List ℕ) → List (List ℕ) → Type 0 where
  done : InOrder [] []
  keep : {xs ys : List (List ℕ)} (v : List ℕ) → InOrder xs ys → InOrder (v ∷ xs) (v ∷ ys)
  pass : {xs ys : List (List ℕ)} (v : List ℕ) → InOrder xs ys → InOrder xs (v ∷ ys)

-- `pending` are the values queued and to come. They split into those that left the queue, among which
-- the handed over ones stand in order, and those still in it. Where sixteen or fewer are pending, all
-- that left the queue were handed over.
abbrev pub Accounted : List (List ℕ) → List (List ℕ) → Watch → Type 0
Accounted pending taken end =
    (gone : List (List ℕ)) × (pending ≡ gone ++ end.queue)
    × InOrder taken gone
    × (length end.queue ≤ queue_cap)
    × (length pending ≤ queue_cap → taken ≡ gone)

overfull :
    (x : List ℕ) (q : List (List ℕ)) (b : List ℕ) (rest : List (List ℕ))
    → (length (x ∷ q) == queue_cap) ≡ true
    → ¬ (length ((x ∷ q) ++ (b ∷ rest)) ≤ queue_cap)
overfull x q b rest full few = ground (arith, length-append q (b ∷ rest))

-- One more value arrives and is queued.
arrive :
    (q : List (List ℕ)) (b : List ℕ) (rest taken : List (List ℕ)) (end : Watch)
    → Accounted (pushed q b ++ rest) taken end
    → Accounted (q ++ (b ∷ rest)) taken end
unfolding pop_front
arrive [] b rest taken end acc = acc
arrive (x ∷ q) b rest taken end acc = elim (Bool-cases (length (x ∷ q) == queue_cap)) [
  | inl full ↦
      let (gone, e, o, l, _) = rw full at acc in
      (
        x ∷ gone,
        ap (λ ys. x ∷ ys) (sym (append_assoc q (b ∷ []) rest) ∙ e),
        pass x o,
        l,
        λ few. absurd (overfull x q b rest full few),
      )
  | inr room ↦
      subst (λ ys. Accounted ys taken end) (append_assoc (x ∷ q) (b ∷ []) rest) (rw room at acc)
]

length-pushed :
    (q : List (List ℕ)) (b : List ℕ) → length q ≤ queue_cap → length (pushed q b) ≤ queue_cap
unfolding pop_front
length-pushed [] b h = omega arith
length-pushed (x ∷ q) b h = ground (arith, length-append q (b ∷ []), length-append (x ∷ q) (b ∷ []))

-- An operation that hands over nothing, followed by others.
follow :
    (w v : Watch) (ops : List Op) (q : List (List ℕ)) (last : Option (List ℕ))
    (taken : List (List ℕ)) (end : Watch)
    → Steps w v q last
    → Accounted (v.queue ++ changes v.len v.filter v.last ops) taken end
    → Accounted (q ++ changes w.len w.filter last ops) taken end
follow w v ops q last taken end s acc = rw (← s.0, ← s.1, ← s.2, ← s.3) acc

abbrev Holds : Watch → List Op → Type 0
Holds w ops = Accounted (w.queue ++ changes w.len w.filter w.last ops) (run w ops).0 (run w ops).1

-- A value arrives if `news` says so.
arrive_if :
    (news : Bool) (q : List (List ℕ)) (b : List ℕ) (rest taken : List (List ℕ)) (end : Watch)
    → Accounted ((if news then pushed q b else q) ++ rest) taken end
    → Accounted (q ++ (if news then b ∷ rest else rest)) taken end
arrive_if true q b rest taken end acc = arrive q b rest taken end acc
arrive_if false q b rest taken end acc = acc

length-if :
    (news : Bool) (q : List (List ℕ)) (b : List ℕ)
    → length q ≤ queue_cap
    → length (if news then pushed q b else q) ≤ queue_cap
length-if true q b h = length-pushed q b h
length-if false q b h = h

taking :
    (w : Watch) (q : List (List ℕ)) (ops : List Op)
    → w.queue ≡ q
    → length q ≤ queue_cap
    → ((v : Watch) → length v.queue ≤ queue_cap → Holds v ops)
    → Accounted
        (q ++ changes w.len w.filter w.last ops)
        (cons? (take_front w q).0 (run (take_front w q).1 ops).0)
        (run (take_front w q).1 ops).1
unfolding take_front
taking w [] ops e h more =
    subst (λ q. Accounted (q ++ changes w.len w.filter w.last ops) (run w ops).0 (run w ops).1) e
      (more w (rw e (omega arith)))
taking w (v ∷ q) ops e h more =
    let (gone, p, o, l, all) = more (take_front w (v ∷ q)).1 (omega arith) in
    (v ∷ gone, ap (λ ys. v ∷ ys) p, keep v o, l, λ few. ap (λ ys. v ∷ ys) (all (omega arith)))

queueing :
    (w v : Watch) (ops : List Op) (news : Bool) (b : List ℕ) (last : Option (List ℕ))
    → Steps w v (if news then pushed w.queue b else w.queue) last
    → length w.queue ≤ queue_cap
    → ((v : Watch) → length v.queue ≤ queue_cap → Holds v ops)
    → Accounted
        (w.queue
          ++ (if news
              then b ∷ changes w.len w.filter last ops
              else changes w.len w.filter last ops))
        (run v ops).0
        (run v ops).1
queueing w v ops news b last s h more =
    let small = length-if news w.queue b h in
    let acc = more v (rw s.0 small) in
    arrive_if news w.queue b (changes w.len w.filter last ops) (run v ops).0 (run v ops).1 (
      follow w v ops (if news then pushed w.queue b else w.queue) last (run v ops).0 (run v ops).1 s
        acc)

run-Accounted : (ops : List Op) (w : Watch) → length w.queue ≤ queue_cap → Holds w ops
unfolding run handle take_oldest add_dropped
run-Accounted [] w h = ([], append-nil w.queue, done, h, λ few. refl)
run-Accounted (observes b ∷ ops) w h =
    queueing w (observe w b) ops (length b == w.len && is_news w.filter w.last b) b
      (if length b == w.len then some b else w.last) (observe-Steps w b) h (run-Accounted ops)
run-Accounted (reports b ∷ ops) w h =
    queueing w (push_event w b) ops (length b == w.len) b w.last (push_event-Steps w b) h
      (run-Accounted ops)
run-Accounted (takes ∷ ops) w h = taking w w.queue ops refl h (run-Accounted ops)
run-Accounted (loses n ∷ ops) w h = run-Accounted ops (add_dropped w n) h

-- From a new watch, over any history of samples, agent reports and reads: the changes that the
-- history shows split into those that have left the queue and those still in it, in order; the values
-- handed over are among those that left it, in order, and are all of them where the history shows
-- sixteen changes at most; and the queue holds sixteen at most.
pub run-new-Accounted :
    (addr len : ℕ) (filter : Option Filter) (ops : List Op)
    → let (taken, end) = run (new addr len filter) ops in
      Accounted (changes len filter none ops) taken end
unfolding new
run-new-Accounted addr len filter ops = run-Accounted ops (new addr len filter) (omega arith)
