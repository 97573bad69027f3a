-- ===== src/L3/Stream/Runs.antt =====
-- The loop of `drain_frames` as a relation between a buffer, the frames it yields and the buffer
-- that it leaves; the loop with enough fuel and the relation are the same.
use multi.Common.{ℕ, zero, suc, ◌<◌, ◌≡◌, refl, ap, List, [], ◌∷◌, ◌++◌, some, length, arith}
use multi.L3.Frame.{Frame}
use multi.L3.Stream.{Round, stop, again, emit, round, Drained, emitting, drain_frames, push_bytes}
use multi.L3.Stream.Rounds.{round-Shrinks}

pub data Drains : List ℕ → List Frame → List ℕ → Type 0 where
  stops : {buf rest : List ℕ} → round buf ≡ stop rest → Drains buf [] rest
  skips :
      {buf next rest : List ℕ} {fs : List Frame}
      → round buf ≡ again next
      → Drains next fs rest
      → Drains buf fs rest
  yields :
      {buf next rest : List ℕ} {f : Frame} {fs : List Frame}
      → round buf ≡ emit f next
      → Drains next fs rest
      → Drains buf (f ∷ fs) rest

-- The loop's answer, for a buffer that is in the relation, does not depend on the fuel.
abbrev pub drained : List Frame → List ℕ → Drained
drained fs rest = record { frames = fs; buf = rest }

pub shrinks_again : (buf next : List ℕ) → round buf ≡ again next → length next < length buf
shrinks_again buf next e = rw e at (round-Shrinks buf)

pub shrinks_emit :
    (buf next : List ℕ) (f : Frame) → round buf ≡ emit f next → length next < length buf
shrinks_emit buf next f e = rw e at (round-Shrinks buf)

pub Drains-drain_frames :
    {buf rest : List ℕ} {fs : List Frame}
    → Drains buf fs rest
    → (fuel : ℕ) → length buf < fuel
    → drain_frames fuel buf ≡ some (drained fs rest)
unfolding drain_frames
Drains-drain_frames d zero h = elim h [ ]
Drains-drain_frames {buf} (stops e) (suc fuel) h = rw (e, drain_frames)
Drains-drain_frames {buf} (skips {next = n} e d) (suc fuel) h =
    rw (e, drain_frames) (Drains-drain_frames d fuel (omega (arith, shrinks_again buf n e)))
Drains-drain_frames {buf} (yields {next = n} {f = f} e d) (suc fuel) h =
    rw (e, drain_frames)
      (ap (emitting f) (Drains-drain_frames d fuel (omega (arith, shrinks_emit buf n f e))))

-- What a buffer drains to.
abbrev pub Run : List ℕ → Type 0
Run buf = (fs : List Frame) × (rest : List ℕ) × Drains buf fs rest

Run-of : (fuel : ℕ) (buf : List ℕ) → length buf < fuel → Run buf
Run-of zero buf h = absurd (omega arith)
Run-of (suc fuel) buf h = go (round buf) refl (Run-of fuel)
  where
    go : (r : Round) → round buf ≡ r → ((next : List ℕ) → length next < fuel → Run next) → Run buf
    go (stop rest) e run = ([], rest, stops e)
    go (again next) e run =
        let (fs, rest, d) = run next (omega (arith, shrinks_again buf next e)) in
        (fs, rest, skips e d)
    go (emit f next) e run =
        let (fs, rest, d) = run next (omega (arith, shrinks_emit buf next f e)) in
        (f ∷ fs, rest, yields e d)

pub run : (buf : List ℕ) → Run buf
run buf = Run-of (suc (length buf)) buf (omega arith)

pub push_bytes-Drains :
    (buf chunk rest : List ℕ) (fs : List Frame)
    → Drains (buf ++ chunk) fs rest
    → push_bytes buf chunk ≡ some (drained fs rest)
unfolding push_bytes
push_bytes-Drains buf chunk rest fs d =
    Drains-drain_frames d (suc (length (buf ++ chunk))) (omega arith)

-- A buffer drains in one way.
pub Drains-unique :
    {buf rest out : List ℕ} {fs gs : List Frame}
    → Drains buf fs rest
    → Drains buf gs out
    → (fs ≡ gs) × (rest ≡ out)
Drains-unique {buf} d e =
    let enough : length buf < suc (length buf) = omega arith in
    let p = Drains-drain_frames d (suc (length buf)) enough in
    let q = Drains-drain_frames e (suc (length buf)) enough in (cc (p, q), cc (p, q))

pub push_bytes_inv :
    (buf chunk rest : List ℕ) (fs : List Frame)
    → push_bytes buf chunk ≡ some (drained fs rest)
    → Drains (buf ++ chunk) fs rest
push_bytes_inv buf chunk rest fs e =
    let (gs, out, d) = run (buf ++ chunk) in
    let q = push_bytes-Drains buf chunk out gs d in
    let frames : fs ≡ gs = cc (e, q) in let left : rest ≡ out = cc (e, q) in rw (frames, left) d

pub push_bytes_total : (buf chunk : List ℕ) → (d : Drained) × (push_bytes buf chunk ≡ some d)
push_bytes_total buf chunk =
    let (fs, rest, d) = run (buf ++ chunk) in
    (drained fs rest, push_bytes-Drains buf chunk rest fs d)
