-- ===== src/Packet/Clear.antt =====
-- make_clear_req and parse_clear_req: a request to clear sticky notifications is two numbers.
use blitzmail.Common.{
  ℕ, ◌<◌, ◌^◌, ◌≡◌, ◌≢◌, refl, arith, Bytes, AreBytes, [], ◌∷◌, ◌++◌, length, ℤ, pos,
}
use blitzmail.Errors.{Result, ok, err, struct_error, name_error, ◌>>=◌, ◌>>◌}
use blitzmail.Packet.Struct.{be32, of_be32, pack_i, read_i, read_end}
use blitzmail.Packet.Service.{Key, code, resolve, pack_key}

unfoldable pub make_clear_req : Key → ℤ → Result Bytes
unfolding pack_key
make_clear_req service userid = do
  uid ← pack_i userid
  svc ← pack_key (resolve service)
  ok (uid ++ svc)

-- The module imports `struct` as `_struct`, so a handler `except struct.error` raises a NameError
-- when the exception arrives.
abbrev pub except_struct_error {ℓ} : {A : Type ℓ} → Result A → Result A
except_struct_error (ok a) = ok a
except_struct_error (err struct_error) = err name_error
except_struct_error (err e) = err e

unpack_ii : Bytes → Result (ℤ × ℤ)
unfolding read_i read_end
unpack_ii pkt = do (a, r1) ← read_i pkt; (b, r2) ← read_i r1; read_end r2; ok (pos a, pos b)

unfoldable pub parse_clear_req : Bytes → Result (ℤ × ℤ)
unfolding unpack_ii
parse_clear_req pkt = except_struct_error (unpack_ii pkt)

-- A clear request for a user and a service known by its name or code, both of at most 32 bits, is
-- parsed back into that user and the code of that service.
pub parse-make_clear_req :
    (k : Key) (svc uid : ℕ)
    → resolve k ≡ code (pos svc)
    → svc < 2 ^ 32
    → uid < 2 ^ 32
    → (make_clear_req k (pos uid) >>= parse_clear_req) ≡ ok (pos uid, pos svc)
unfolding make_clear_req parse_clear_req be32 of_be32 pack_i
parse-make_clear_req k svc uid e hs hu = ground arith

-- Bytes that parse as a clear request are what is made for the user and the code found in them.
pub make-parse_clear_req :
    (pkt : Bytes) (uid svc : ℤ)
    → AreBytes pkt
    → parse_clear_req pkt ≡ ok (uid, svc)
    → make_clear_req (code svc) uid ≡ ok pkt
unfolding make_clear_req resolve parse_clear_req be32 of_be32 pack_i
make-parse_clear_req (a ∷ b ∷ c ∷ d ∷ e ∷ f ∷ g ∷ h ∷ []) uid svc bytes eq = ground arith
make-parse_clear_req pkt uid svc bytes eq = ground arith

-- A packet of any size but eight bytes is answered by a NameError, not by the ValueError that the
-- handler was written to raise.
pub parse_clear_req_malformed :
    (pkt : Bytes) → length pkt ≢ 8 → parse_clear_req pkt ≡ err name_error
unfolding parse_clear_req
parse_clear_req_malformed (a ∷ b ∷ c ∷ d ∷ e ∷ f ∷ g ∷ h ∷ []) wrong = absurd (wrong refl)
parse_clear_req_malformed pkt wrong = ground arith
