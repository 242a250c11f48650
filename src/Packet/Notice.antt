-- ===== src/Packet/Notice.antt =====
-- make_notify_req and parse_notify_req: a notification is twelve bytes of header and its data.
use blitzmail.Common.{
  ℕ, ◌<◌, ◌^◌, ◌≡◌, arith, Bytes, AreBytes, [], ◌∷◌, ◌++◌, Option, none, some, ltb, length, take,
  drop, if◌then◌else◌, ℤ, pos,
}
use blitzmail.Errors.{Result, ok, err, value_error, ◌>>=◌, ◌>>◌}
use blitzmail.Packet.Struct.{be32, of_be32, pack_i, read_i, read_end}
use blitzmail.Packet.Service.{Key, code, resolve, pack_key}

-- `out` or `out + str(data)`
abbrev pub payload : Option Bytes → Bytes
payload none = []
payload (some d) = d

unfoldable pub make_notify_req : Key → ℤ → ℤ → Option Bytes → Result Bytes
unfolding pack_key
make_notify_req service userid messid body = do
  svc ← pack_key (resolve service)
  uid ← pack_i userid
  mid ← pack_i messid
  ok (svc ++ (uid ++ (mid ++ payload body)))

-- service, user, message identifier and data
abbrev pub Fields : Type 0
Fields = ℤ × ℤ × ℤ × Bytes

abbrev pub notify_req_len : ℕ
notify_req_len = 12

unfoldable pub parse_notify_req : Bytes → Result Fields
parse_notify_req pkt = if ltb (length pkt) notify_req_len then err value_error else do
  (svc, r1) ← read_i (take notify_req_len pkt)
  (uid, r2) ← read_i r1
  (mid, r3) ← read_i r2
  read_end r3
  ok (pos svc, pos uid, pos mid, drop notify_req_len pkt)

-- A notification made for a service known by its name or code, a user and a message, all of at most
-- 32 bits, is parsed back into the code of the service, the user, the message and the data, where
-- absent data come back as the empty text.
pub parse-make_notify_req :
    (k : Key) (svc uid mid : ℕ) (body : Option Bytes)
    → resolve k ≡ code (pos svc)
    → svc < 2 ^ 32
    → uid < 2 ^ 32
    → mid < 2 ^ 32
    → (make_notify_req k (pos uid) (pos mid) body >>= parse_notify_req)
      ≡ ok (pos svc, pos uid, pos mid, payload body)
unfolding make_notify_req parse_notify_req read_i read_end be32 of_be32 pack_i
parse-make_notify_req k svc uid mid body e hs hu hm = ground arith

-- Bytes that parse as a notification are, byte for byte, what is made of the fields found in them.
pub make-parse_notify_req :
    (pkt : Bytes) (svc uid mid : ℤ) (body : Bytes)
    → AreBytes pkt
    → parse_notify_req pkt ≡ ok (svc, uid, mid, body)
    → make_notify_req (code svc) uid mid (some body) ≡ ok pkt
unfolding make_notify_req resolve parse_notify_req read_i read_end be32 of_be32 pack_i
make-parse_notify_req (a ∷ b ∷ c ∷ d ∷ e ∷ f ∷ g ∷ h ∷ i ∷ j ∷ k ∷ l ∷ rest) svc uid mid body bytes
      eq =
    ground arith
make-parse_notify_req pkt svc uid mid body bytes eq = ground arith
