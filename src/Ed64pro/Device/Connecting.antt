-- ===== src/Ed64pro/Device/Connecting.antt =====
-- `connect`: what it takes for an EverDrive-64 PRO.
use multi.Common.{
  ℕ, ◌≡◌, refl, ap, List, [], ◌∷◌, ◌++◌, Option, none, ok, err, false, not, ◌==◌, ◌||◌, arith,
  replicate, Bool-cases, inl, inr,
}
use multi.Ed64pro.Wire.{
  status_key, protocol_id_n64, device_id_ed64_pro, protocol_id_mega, protocol_id_n8, cmd_status,
  cmd_status2, wake_zeros, cmd_frame,
}
use multi.Ed64pro.Link.{
  Link, M, wrong_device, unexpected_status_key, wrong_protocol, ◌>>=◌, ◌>>◌, fail_if, pure,
  set_timeout, write_all, flush, read_exact, read_received, split_at,
}
use multi.Ed64pro.Device.Failing.{written_on, write_all-Sends, flush-Sends, send-Sends}
use multi.Ed64pro.Device.{
  Identity, open_timeout, operation_timeout, identity, check_head, check_generation, connect, send,
  send_loop,
}
use multi.Ed64pro.Device.Steps.{
  IsCurrent, ok-next, onto, two-next, four-next, Sends-next, check_head-next, check_generation-next,
  fail_if-next,
}

-- What an EverDrive-64 PRO answers to the probe and to the second status command: two answers, the first from
-- a cart that is of no other generation, the second with the PRO's own device id.
abbrev pub pro_reply : ℕ → ℕ → ℕ → ℕ → List ℕ
pro_reply protocol a b status =
    status_key ∷ protocol ∷ a ∷ b ∷ status_key ∷ protocol_id_n64 ∷ device_id_ed64_pro ∷ status ∷ []

-- All that `connect` writes to an EverDrive-64 PRO.
abbrev pub connect_blocks : List (List ℕ)
connect_blocks =
    replicate wake_zeros 0
    ∷ (cmd_frame cmd_status2 ++ cmd_frame cmd_status)
    ∷ cmd_frame cmd_status
    ∷ []

pub connect-pro :
    (received rest : List ℕ) (protocol a b status t : ℕ)
    → IsCurrent protocol
    → connect (record {
      received = received;
      to_come = pro_reply protocol a b status ++ rest;
      written = [];
      takes = none;
      timeout = t;
    })
      ≡ (
        ok tt,
        record {
          received = [];
          to_come = rest;
          written = connect_blocks;
          takes = none;
          timeout = operation_timeout;
        },
      )
unfolding connect check_head check_generation identity read_exact read_received split_at send
    send_loop ◌>>=◌
connect-pro received rest protocol a b status t (p, q) =
    let old : (protocol == protocol_id_mega || protocol == protocol_id_n8) ≡ false = ground arith in
    rw old refl

-- The checks of `identity`, on the four bytes.
checks-ok :
    (x y z v : ℕ) (l m : Link) (id : Identity)
    → (fail_if (not (x == status_key)) (unexpected_status_key x)
          >> (fail_if (not (y == protocol_id_n64)) (wrong_protocol y)
              >> pure (record { protocol_id = y; device_id = z; status = v })))
        l
      ≡ (ok id, m)
    → (x ≡ status_key) × (y ≡ protocol_id_n64) × (z ≡ id.device_id)
unfolding ◌>>=◌
checks-ok x y z v l m id h = elim (Bool-cases (x == status_key)) [
  | inl p ↦ elim (Bool-cases (y == protocol_id_n64)) [
    | inl q ↦
        let key : x ≡ status_key = ground arith in
        let protocol : y ≡ protocol_id_n64 = ground arith in
        let passed : (ok (record { protocol_id = y; device_id = z; status = v }), l) ≡ (ok id, m) =
          rw (p, q) at h in
        let same : record { protocol_id = y; device_id = z; status = v } ≡ id = cc in
        (key, protocol, ap (λ i. i.device_id) same)
    | inr q ↦ let stopped : (err (wrong_protocol y), l) ≡ (ok id, m) = rw (p, q) at h in cc
  ]
  | inr p ↦ let stopped : (err (unexpected_status_key x), l) ≡ (ok id, m) = rw p at h in cc
]

second_answer :
    {replies rest : List ℕ} {x y z v device : ℕ}
    → x ≡ status_key
    → y ≡ protocol_id_n64
    → z ≡ device
    → not (device == device_id_ed64_pro) ≡ false
    → replies ≡ x ∷ y ∷ z ∷ v ∷ rest
    → replies ≡ status_key ∷ protocol_id_n64 ∷ device_id_ed64_pro ∷ v ∷ rest
second_answer {device = device} p q r s h =
    let pro : device ≡ device_id_ed64_pro = ground arith in rw (p, q, r, pro) at h

both_answers :
    {replies rest last tail : List ℕ} {x y a b : ℕ}
    → replies ≡ x ∷ y ∷ rest
    → x ≡ status_key
    → rest ≡ a ∷ b ∷ last
    → last ≡ tail
    → replies ≡ status_key ∷ y ∷ a ∷ b ∷ tail
both_answers p q r s = cc

-- The second status command.
connect-second :
    (k : Option ℕ) (replies : List ℕ) (w : List (List ℕ)) (t : ℕ) (l : Link)
    → (identity >>= λ id.
          fail_if (not (id.device_id == device_id_ed64_pro)) (wrong_device id.device_id)
          >> set_timeout operation_timeout)
        (onto k replies w t)
      ≡ (ok tt, l)
    → (status : ℕ) × (rest : List ℕ) × (replies
        ≡ status_key ∷ protocol_id_n64 ∷ device_id_ed64_pro ∷ status ∷ rest)
unfolding identity ◌>>=◌
connect-second k replies w t l h =
    let (id, m, e, g) = ok-next (identity (onto k replies w t)) _ tt l h in
    let (bl, k', e') =
      Sends-next id m (send (cmd_frame cmd_status)) (cmd_frame cmd_status) _ (onto k replies w t)
        (send-Sends (cmd_frame cmd_status)) e in
    let (x, y, z, v, rest, whole, c) = four-next id m _ k' replies (w ++ bl) t e' in
    let (key, protocol, same) = checks-ok x y z v _ m id c in
    let (pro, _) = fail_if-next tt l _ (not (id.device_id == device_id_ed64_pro)) _ m g in
    (v, rest, second_answer key protocol same pro whole)

-- What `connect` does once the probe is sent.
abbrev after_probe : M (Unit {0})
after_probe = do
  head ← read_exact 2
  check_head head
  tail ← read_exact 2
  check_generation head
  id ← identity
  fail_if (not (id.device_id == device_id_ed64_pro)) (wrong_device id.device_id)
  set_timeout operation_timeout

after_probe-ok :
    (k : Option ℕ) (replies : List ℕ) (w : List (List ℕ)) (t : ℕ) (l : Link)
    → after_probe (onto k replies w t) ≡ (ok tt, l)
    → (protocol : ℕ) × (a : ℕ) × (b : ℕ) × (status : ℕ) × (rest : List ℕ) × (IsCurrent protocol)
      × (replies ≡ pro_reply protocol a b status ++ rest)
after_probe-ok k replies w t l h =
    let (x, y, rest, e, g) = two-next tt l _ k replies w t h in
    let (key, g') = check_head-next tt l _ x y _ g in
    let (a, b, rest', e', f) = two-next tt l _ k rest w t g' in
    let (current, f') = check_generation-next tt l _ x y _ f in
    let (status, last, e'') = connect-second k rest' w t l f' in
    (y, a, b, status, last, current, both_answers e key e' e'')

-- `connect` succeeds only on an EverDrive-64 PRO, whatever the port does with what is written: what the cart answers
-- begins with a status of which the key is right and the protocol is of no other generation, followed by a status with the
-- key, the protocol id of the N64 and the PRO's device id. What was received before plays no part.
pub connect-replies :
    (received replies : List ℕ) (w : List (List ℕ)) (k : Option ℕ) (t : ℕ) (l : Link)
    → connect
        (record { received = received; to_come = replies; written = w; takes = k; timeout = t })
      ≡ (ok tt, l)
    → (protocol : ℕ) × (a : ℕ) × (b : ℕ) × (status : ℕ) × (rest : List ℕ) × (IsCurrent protocol)
      × (replies ≡ pro_reply protocol a b status ++ rest)
unfolding connect ◌>>=◌
connect-replies received replies w k t l h =
    let m : Link = record {
      received = received;
      to_come = replies;
      written = w;
      takes = k;
      timeout = open_timeout;
    } in
    let zeros = replicate wake_zeros 0 in
    let probe = cmd_frame cmd_status2 ++ cmd_frame cmd_status in
    let (b1, k1, h1) = Sends-next tt l (write_all zeros) zeros _ m (write_all-Sends zeros) h in
    let (b2, k2, h2) = Sends-next tt l flush [] _ (written_on m b1 k1) flush-Sends h1 in
    let m2 = record m { written = (w ++ b1) ++ b2; takes = k2; received = [] } in
    let (b3, k3, h3) = Sends-next tt l (write_all probe) probe _ m2 (write_all-Sends probe) h2 in
    let (b4, k4, h4) = Sends-next tt l flush [] _ (written_on m2 b3 k3) flush-Sends h3 in
    after_probe-ok k4 replies ((((w ++ b1) ++ b2) ++ b3) ++ b4) open_timeout l h4
