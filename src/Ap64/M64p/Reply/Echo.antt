-- ===== src/Ap64/M64p/Reply/Echo.antt =====
-- What `parse` says of the PC's own requests.
use multi.Common.{ℕ, ◌≡◌, refl, List, [], ◌++◌, map, ok, err, arith, ◌∙◌}
use multi.Common.Find.{starts_with}
use multi.Ap64.M64p.{Region, Slot, echoed_request}
use multi.Ap64.M64p.Msg
use multi.Ap64.M64p.Request.{
  header, check_limits, encode_hello, encode_peek, encode_peekv, encode_peekrom, encode_pokev,
  encode_watch, write_lens,
}
use multi.Ap64.M64p.Request.Limits.{check-ok}
use multi.Ap64.M64p.Request.Reading.{accepted, watch_checked}
use multi.Ap64.M64p.Reply.{parse, parse_body}

-- The bytes are a request of the code, as one of the encoders returns it.
pub data IsRequest : ℕ → List ℕ → Type 0 where
  hello : IsRequest Msg.hello encode_hello
  peekv :
      (rid : ℕ) (rs : List Region) (bs : List ℕ)
      → encode_peekv rid rs ≡ ok bs
      → IsRequest Msg.peekv bs
  peekrom :
      (rid : ℕ) (rs : List Region) (bs : List ℕ)
      → encode_peekrom rid rs ≡ ok bs
      → IsRequest Msg.peekrom bs
  pokev :
      (rid : ℕ) (ws : List (ℕ × List ℕ)) (bs : List ℕ)
      → encode_pokev rid ws ≡ ok bs
      → IsRequest Msg.pokev bs
  watch :
      (rid : ℕ) (ss : List Slot) (bs : List ℕ)
      → encode_watch rid ss ≡ ok bs
      → IsRequest Msg.watch bs

pub parse-header : (msg : ℕ) (body : List ℕ) → parse (header msg ++ body) ≡ parse_body msg body
unfolding parse starts_with
parse-header msg body = ground arith

sent :
    (msg : ℕ) (body bs : List ℕ)
    → accepted (header msg ++ body) ≡ ok bs
    → parse_body msg body ≡ err (echoed_request msg)
    → parse bs ≡ err (echoed_request msg)
sent msg body bs e h =
    let whole : bs ≡ header msg ++ body = cc in rw whole (parse-header msg body ∙ h)

-- Whatever request an encoder builds, `parse` reports it as one sent back, with its code.
pub parse-IsRequest :
    (msg : ℕ) (bs : List ℕ) → IsRequest msg bs → parse bs ≡ err (echoed_request msg)
unfolding encode_hello encode_peekv encode_peekrom encode_peek encode_pokev parse_body
parse-IsRequest msg bs hello = parse-header Msg.hello []
parse-IsRequest msg bs (peekv rid rs _ h) =
    sent Msg.peekv _ bs (check-ok (check_limits (map Region.len rs)) _ bs h).1 refl
parse-IsRequest msg bs (peekrom rid rs _ h) =
    sent Msg.peekrom _ bs (check-ok (check_limits (map Region.len rs)) _ bs h).1 refl
parse-IsRequest msg bs (pokev rid ws _ h) =
    sent Msg.pokev _ bs (check-ok (check_limits (write_lens ws)) _ bs h).1 refl
parse-IsRequest msg bs (watch rid ss _ h) = sent Msg.watch _ bs (watch_checked rid ss bs h).1 refl
