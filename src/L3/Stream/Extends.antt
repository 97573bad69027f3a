-- ===== src/L3/Stream/Extends.antt =====
-- One round of the streaming decoder: what more bytes behind the buffer change.
use multi.Common.{
  ℕ, suc, ◌+◌, ◌-◌, ◌≤◌, ◌≡◌, refl, sym, ap, ◌∙◌, true, false, List, [], ◌∷◌, ◌++◌, none, some, inl,
  inr, length, drop, slice-take, Result, ok, err, arith, length-append, drop-append_le, min,
  Option-cases,
}
use multi.Common.Find.{
  find_tag_found, find_tag-append, find_tag_here, find_tag_next, find_tag-none, starts_with-append,
}
use multi.L3.Consts.{header_len}
use multi.L3.Decode.{Header, DecodeError, has_magic, parse_header}
use multi.L3.Decode.Layout.{parse_header-append}
use multi.L3.Decode.Permanence.{payload-append}
use multi.L3.Stream.{
  Round, stop, again, emit, find_magic, after_header, at_magic, without_magic, from_magic, round,
}
use multi.L3.Stream.Rounds.{from_magic-some, round_at, round-none, at_magic_long}
use native.Mathlib.Decide.{dec_lt}

-- What a round on `buf` says of the round on `buf ++ more`.
abbrev pub Extends : List ℕ → List ℕ → Round → Type 0
Extends buf more (stop rest) = round (buf ++ more) ≡ round (rest ++ more)
Extends buf more (again rest) = round (buf ++ more) ≡ again (rest ++ more)
Extends buf more (emit f rest) = round (buf ++ more) ≡ emit f (rest ++ more)

-- With the magic at `p`, more bytes do not move it.
round_at-append :
    (buf more : List ℕ) (p : ℕ)
    → find_magic buf ≡ some p
    → round (buf ++ more) ≡ at_magic (drop p buf ++ more)
unfolding find_magic
round_at-append buf more p e =
    let (inside, _) = find_tag_found _ _ _ _ buf p e in
    round_at (buf ++ more) p (find_tag-append _ _ _ _ buf more p e)
    ∙ ap at_magic (drop-append_le p buf more (omega arith))

round_at_front :
    (buf more : List ℕ) → has_magic buf ≡ true → round (buf ++ more) ≡ at_magic (buf ++ more)
unfolding has_magic find_magic
round_at_front buf more h = round_at-append buf more 0 (find_tag_here _ _ _ _ buf h)

-- The same of a round that begins at the magic.
abbrev AtExtends : List ℕ → List ℕ → Round → Type 0
AtExtends buf more (stop rest) = rest ≡ buf
AtExtends buf more (again rest) = at_magic (buf ++ more) ≡ again (rest ++ more)
AtExtends buf more (emit f rest) = at_magic (buf ++ more) ≡ emit f (rest ++ more)

at_magic_more :
    (buf more : List ℕ) (r : Result DecodeError Header)
    → header_len ≤ length buf
    → parse_header buf ≡ r
    → at_magic (buf ++ more) ≡ after_header (buf ++ more) r
at_magic_more buf more r long e =
    at_magic_long (buf ++ more) (omega (arith, length-append buf more))
    ∙ ap (after_header (buf ++ more)) (parse_header-append buf more long ∙ e)

after_header-AtExtends :
    (buf more : List ℕ) (r : Result DecodeError Header)
    → header_len ≤ length buf
    → parse_header buf ≡ r
    → AtExtends buf more (after_header buf r)
unfolding after_header
after_header-AtExtends buf more (err e) long q =
    at_magic_more buf more (err e) long q ∙ ap again (drop-append_le 1 buf more (omega arith))
after_header-AtExtends buf more (ok h) long q =
    elim (dec_lt (length buf) (header_len + h.payload_len)) [
      | yes short ↦ ground arith
      | no fits ↦ ground (
        arith,
        at_magic_more buf more (ok h) long q,
        slice-take buf header_len h.payload_len,
        slice-take (buf ++ more) header_len h.payload_len,
        payload-append h.payload_len buf more,
        drop-append_le (header_len + h.payload_len) buf more,
        length-append buf more,
      )
    ]

at_magic-AtExtends : (buf more : List ℕ) → AtExtends buf more (at_magic buf)
at_magic-AtExtends buf more = elim (dec_lt (length buf) header_len) [
  | yes short ↦ unfold at_magic in ground arith
  | no long ↦
      rw (at_magic_long buf (omega arith))
        (after_header-AtExtends buf more (parse_header buf) (omega arith) refl)
]

lift :
    (buf m more : List ℕ) (r : Round)
    → has_magic m ≡ true
    → round (buf ++ more) ≡ at_magic (m ++ more)
    → AtExtends m more r
    → Extends buf more r
lift buf m more (stop rest) h e x = rw x (e ∙ sym (round_at_front m more h))
lift buf m more (again rest) h e x = e ∙ x
lift buf m more (emit f rest) h e x = e ∙ x

found-Extends : (buf more : List ℕ) (p : ℕ) → find_magic buf ≡ some p → Extends buf more (round buf)
unfolding has_magic
found-Extends buf more p e = rw (round_at buf p e) (
    lift buf (drop p buf) more _ (unfold find_magic in (find_tag_found _ _ _ _ buf p e).1)
      (round_at-append buf more p e) (at_magic-AtExtends (drop p buf) more))

without_magic_next :
    (x : ℕ) (ys : List ℕ) → 3 ≤ length ys → without_magic (x ∷ ys) ≡ without_magic ys
unfolding without_magic
without_magic_next x ys h =
    let step : length (x ∷ ys) - min 3 (length (x ∷ ys)) ≡ suc (length ys - min 3 (length ys)) =
      omega arith in
    rw step refl

-- A byte at which no magic begins makes no difference, once three bytes follow it.
pub round_next :
    (x : ℕ) (ys : List ℕ) → has_magic (x ∷ ys) ≡ false → 3 ≤ length ys → round (x ∷ ys) ≡ round ys
unfolding round has_magic find_magic
round_next x ys h long =
    ap (from_magic (x ∷ ys)) (find_tag_next _ _ _ _ x ys h) ∙ elim (Option-cases (find_magic ys)) [
      | inl e ↦ rw e (unfold from_magic in without_magic_next x ys long)
      | inr (p, e) ↦ rw e (from_magic-some (x ∷ ys) (suc p) ∙ sym (from_magic-some ys p))
    ]

lost_bytes :
    (buf more : List ℕ)
    → find_magic buf ≡ none
    → round (buf ++ more) ≡ round (drop (length buf - min 3 (length buf)) buf ++ more)
unfolding find_magic has_magic
lost_bytes [] more e = refl
lost_bytes (x ∷ xs) more e = elim (dec_lt (length xs) 3) [
  | yes short ↦ let all : length (x ∷ xs) - min 3 (length (x ∷ xs)) ≡ 0 = omega arith in rw all refl
  | no long ↦
      let step : length (x ∷ xs) - min 3 (length (x ∷ xs)) ≡ suc (length xs - min 3 (length xs)) =
        omega arith in
      let (h, e') = find_tag-none _ _ _ _ x xs e in
      rw step (
        round_next x (xs ++ more) (starts_with-append _ _ _ _ (x ∷ xs) more (omega arith) ∙ h)
          (omega (arith, length-append xs more))
        ∙ lost_bytes xs more e')
]

-- A round that stops waits for more; one that goes on does so whatever follows.
pub round-Extends : (buf more : List ℕ) → Extends buf more (round buf)
round-Extends buf more = elim (Option-cases (find_magic buf)) [
  | inl e ↦ rw (round-none buf e) (lost_bytes buf more e)
  | inr (p, e) ↦ found-Extends buf more p e
]
