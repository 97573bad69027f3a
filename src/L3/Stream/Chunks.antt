-- ===== src/L3/Stream/Chunks.antt =====
-- Chunk boundaries are arbitrary: any way to cut the input into pushes yields the same frames.
use multi.Common.Chunks.{concat}
use multi.Common.{ℕ, ◌≡◌, refl, sym, ap, ◌∙◌, List, [], ◌∷◌, ◌++◌, Option, none, some}
use mathlib.Core.Option
use mathlib.Core.List.{append-nil, append_assoc}
use multi.L3.Frame.{Frame}
use multi.L3.Stream.{stop, round, Drained, push_bytes}
use multi.L3.Stream.Extends.{round-Extends}
use multi.L3.Stream.Runs.{
  Drains, stops, skips, yields, drained, run, push_bytes-Drains, push_bytes_inv, Drains-unique,
}

Drains-round :
    {x y rest : List ℕ} {fs : List Frame} → round x ≡ round y → Drains y fs rest → Drains x fs rest
Drains-round p (stops e) = stops (p ∙ e)
Drains-round p (skips e d) = skips (p ∙ e) d
Drains-round p (yields e d) = yields (p ∙ e) d

-- What is left of one buffer, with more bytes behind it, drains as the whole does.
pub Drains-append :
    {buf mid rest : List ℕ} {fs gs : List Frame} (more : List ℕ)
    → Drains buf fs mid
    → Drains (mid ++ more) gs rest
    → Drains (buf ++ more) (fs ++ gs) rest
Drains-append {buf} {mid} more (stops e) d = Drains-round (rw e at (round-Extends buf more)) d
Drains-append {buf} more (skips e s) d =
    skips (rw e at (round-Extends buf more)) (Drains-append more s d)
Drains-append {buf} more (yields e s) d =
    yields (rw e at (round-Extends buf more)) (Drains-append more s d)

-- Two pushes yield what one push of both chunks yields, and leave the same buffer.
pub push_bytes-append :
    (buf first second mid rest : List ℕ) (fs gs : List Frame)
    → push_bytes buf first ≡ some (drained fs mid)
    → push_bytes mid second ≡ some (drained gs rest)
    → push_bytes buf (first ++ second) ≡ some (drained (fs ++ gs) rest)
push_bytes-append buf first second mid rest fs gs p q =
    push_bytes-Drains buf (first ++ second) rest (fs ++ gs) (
      rw (sym (append_assoc buf first second)) (
        Drains-append second (push_bytes_inv buf first mid fs p)
          (push_bytes_inv mid second rest gs q)))

abbrev pub behind : List Frame → Option Drained → Option Drained
behind fs = Option.map λ d. record { frames = fs ++ d.frames; buf = d.buf }

abbrev pub then_feed : (List ℕ → Option Drained) → Option Drained → Option Drained
then_feed next none = none
then_feed next (some d) = behind d.frames (next d.buf)

-- One push for each chunk, and the frames of all of them.
pub feed : List (List ℕ) → List ℕ → Option Drained
feed [] buf = some (drained [] buf)
feed (c ∷ cs) buf = then_feed (feed cs) (push_bytes buf c)

-- What a run leaves is settled: a round on it stops at once.
abbrev pub IsSettled : List ℕ → Type 0
IsSettled buf = round buf ≡ stop buf

pub Drains-IsSettled : {buf rest : List ℕ} {fs : List Frame} → Drains buf fs rest → IsSettled rest
Drains-IsSettled {buf} {rest} (stops e) =
    let same : round (buf ++ []) ≡ round (rest ++ []) = rw e at (round-Extends buf []) in
    sym (rw (append-nil buf, append-nil rest) at same) ∙ e
Drains-IsSettled (skips e d) = Drains-IsSettled d
Drains-IsSettled (yields e d) = Drains-IsSettled d

feed-Drains :
    (cs : List (List ℕ)) {buf rest : List ℕ} {fs : List Frame}
    → IsSettled buf
    → Drains (buf ++ concat cs) fs rest
    → feed cs buf ≡ some (drained fs rest)
unfolding feed
feed-Drains [] {buf} settled d =
    let (p, q) = Drains-unique (stops settled) (rw append-nil at d) in rw (← p, ← q) refl
feed-Drains (c ∷ cs) {buf} settled d =
    let (gs, mid, d₁) = run (buf ++ c) in
    let (hs, out, d₂) = run (mid ++ concat cs) in
    let whole = Drains-append (concat cs) d₁ d₂ in
    let (p, q) = Drains-unique d (rw append_assoc at whole) in
    rw (p, q, push_bytes-Drains buf c mid gs d₁)
      (ap (behind gs) (feed-Drains cs (Drains-IsSettled d₁) d₂))

-- A new decoder yields the same frames, and keeps the same bytes, however its input is cut: a push
-- for each chunk does what one push of all the bytes does.
pub feed_chunking : (cs : List (List ℕ)) → feed cs [] ≡ push_bytes [] (concat cs)
feed_chunking cs =
    let (fs, rest, d) = run (concat cs) in
    feed-Drains cs (unfold round in refl) d ∙ sym (push_bytes-Drains [] (concat cs) rest fs d)
