-- ===== src/L3/Session/State.antt =====
-- `SessionState`: whether application data is allowed.
use multi.Common.{
  ℕ, ◌≡◌, Bool, true, false, List, [], ◌∷◌, Option, none, some, arith, not, ◌&&◌, ◌||◌,
  if◌then◌else◌,
}

pub record SessionState : Type 0 where
  pub session_layer : Bool
  pub handshake_complete : Bool
  pub session_id : Option ℕ

unfoldable pub new : Bool → SessionState
new negotiated = record {
  session_layer = negotiated;
  handshake_complete = false;
  session_id = none;
}

unfoldable pub on_handshake_ok : SessionState → SessionState
on_handshake_ok s = record s { handshake_complete = true }

unfoldable pub on_session_open_ok : SessionState → ℕ → SessionState
on_session_open_ok s id = record s { session_id = some id }

unfoldable pub on_session_closed : SessionState → SessionState
on_session_closed s = if s.session_layer then record s { session_id = none } else s

is_some {ℓ} : {A : Type ℓ} → Option A → Bool
is_some none = false
is_some (some a) = true

unfoldable pub application_data_allowed : SessionState → Bool
unfolding is_some
application_data_allowed s =
    if not s.handshake_complete
    then false
    else if not s.session_layer
    then true
    else is_some s.session_id

pub data Event : Type 0 where
  handshake_done closed : Event
  opened : ℕ → Event

unfoldable pub handle : SessionState → Event → SessionState
unfolding on_handshake_ok on_session_open_ok on_session_closed
handle s handshake_done = on_handshake_ok s
handle s (opened id) = on_session_open_ok s id
handle s closed = on_session_closed s

-- The state after a history, the newest event first.
unfoldable pub after : Bool → List Event → SessionState
unfolding new handle
after negotiated [] = new negotiated
after negotiated (e ∷ es) = handle (after negotiated es) e

-- What the history says, with no state: a handshake is somewhere in it; the newest of the events
-- that open and close is an open.
abbrev pub greeted : List Event → Bool
greeted [] = false
greeted (handshake_done ∷ es) = true
greeted (closed ∷ es) = greeted es
greeted (opened id ∷ es) = greeted es

abbrev pub in_session : List Event → Bool
in_session [] = false
in_session (handshake_done ∷ es) = in_session es
in_session (closed ∷ es) = false
in_session (opened id ∷ es) = true

record Follows (negotiated : Bool) (es : List Event) : Type 0 where
  layer : (after negotiated es).session_layer ≡ negotiated
  greeting : (after negotiated es).handshake_complete ≡ greeted es
  session : (negotiated ≡ true) → is_some (after negotiated es).session_id ≡ in_session es

after-Follows : (negotiated : Bool) (es : List Event) → Follows negotiated es
unfolding after is_some
after-Follows negotiated [] = ground arith
after-Follows negotiated (handshake_done ∷ es) = ground (arith, after-Follows negotiated es)
after-Follows negotiated (closed ∷ es) = ground (arith, after-Follows negotiated es)
after-Follows negotiated (opened id ∷ es) = ground (arith, after-Follows negotiated es)

-- After any history of handled frames, application data is allowed exactly when a handshake has been
-- completed and, where the session layer was negotiated, the newest open has not been closed.
pub application_data_allowed-after :
    (negotiated : Bool) (es : List Event)
    → application_data_allowed (after negotiated es)
      ≡ (greeted es && (not negotiated || in_session es))
unfolding application_data_allowed
application_data_allowed-after negotiated es = ground (arith, after-Follows negotiated es)
