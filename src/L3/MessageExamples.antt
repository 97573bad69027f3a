-- ===== src/L3/MessageExamples.antt =====
-- The messages at concrete values: tests, and the theorems at these inputs.
use multi.Common.{ℕ, ◌≡◌, refl, true, false, List, [], ◌∷◌}
use multi.Common.Utf8.{is_utf8}
use multi.L3.Session.State.{Event, handshake_done, closed, opened}

-- "bye" in UTF-8.
abbrev bye : List ℕ
bye = 98 ∷ 121 ∷ 101 ∷ []

bye_utf8 : is_utf8 bye ≡ true
unfolding is_utf8
bye_utf8 = refl

-- The code unit of a surrogate is no UTF-8; the euro sign is.
surrogate_refused : is_utf8 (0xED ∷ 0xA0 ∷ 0x80 ∷ []) ≡ false
unfolding is_utf8
surrogate_refused = refl

euro_accepted : is_utf8 (0xE2 ∷ 0x82 ∷ 0xAC ∷ []) ≡ true
unfolding is_utf8
euro_accepted = refl

abbrev history : List Event
history = closed ∷ opened 42 ∷ handshake_done ∷ []
