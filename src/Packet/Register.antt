-- ===== src/Packet/Register.antt =====
-- make_register_req and parse_register_req: a registration is a user as a Pascal string, a port, and
-- a counted list of service codes.
use blitzmail.Common.{
  ℕ, zero, suc, ◌*◌, ◌<◌, ◌^◌, ◌≡◌, ◌≢◌, refl, ap, arith, Bytes, List, [], ◌∷◌, ◌++◌, map, length,
  take, drop, ltb, if◌then◌else◌, ℤ, pos, negsuc, take-length-append, drop-length-append, All, sym,
  ◌∙◌, lt→ltb, le→ltb, length-append, false,
}
use blitzmail.Common.Decimal.{str}
use blitzmail.Errors.{
  Result, ok, err, struct_error, value_error, index_error, name_error, ◌>>=◌, ◌>>◌,
}
use blitzmail.Packet.Struct.{
  be16, be32, pack_h, pack_i, read_h, read_i, read_end, read_i-be32, of_be16-digits, of_be32-digits,
}
use blitzmail.Packet.Service.{Key, code, resolve, pack_key}
use blitzmail.Packet.Clear.{except_struct_error}

-- a user is given by number or by text
pub data Who : Type 0 where
  number : ℤ → Who
  text : Bytes → Who

unfoldable pub user_text : Who → Bytes
user_text (text uid) = uid
user_text (number (pos n)) = b'#' ∷ str n
user_text (number (negsuc n)) = b'#' ∷ b'-' ∷ str (suc n)

-- `'I' * len(svc)`
unfoldable pub pack_keys : List Key → Result Bytes
pack_keys [] = ok []
pack_keys (k ∷ ks) = do head ← pack_key k; rest ← pack_keys ks; ok (head ++ rest)

pub chr : ℕ → Result Bytes
chr n = if ltb n 256 then ok (n ∷ []) else err value_error

unfoldable pub make_register_req : List Key → Who → ℤ → Result Bytes
unfolding chr
make_register_req services userid port = do
  size ← chr (length (user_text userid))
  p ← pack_h port
  n ← pack_i (pos (length services))
  svcs ← pack_keys (map resolve services)
  ok (size ++ (user_text userid ++ (p ++ (n ++ svcs))))

-- the user's text, the port and the services
abbrev pub Fields : Type 0
Fields = Bytes × ℤ × List ℤ

unfoldable pub read_is : ℕ → Bytes → Result (List ℤ × Bytes)
read_is zero rest = ok ([], rest)
read_is (suc n) pkt = do (x, r1) ← read_i pkt; (xs, r2) ← read_is n r1; ok (pos x ∷ xs, r2)

unpack_is : ℕ → Bytes → Result (List ℤ)
unpack_is n pkt = do (xs, rest) ← read_is n pkt; read_end rest; ok xs

-- what follows the user
parse_services : Bytes → Bytes → Result Fields
unfolding unpack_is
parse_services uid pkt = do
  (port, r1) ← read_h (take 6 pkt)
  (num, r2) ← read_i r1
  read_end r2
  svcs ← except_struct_error (unpack_is num (drop 6 pkt))
  ok (uid, pos port, svcs)

unfoldable pub parse_register_req : Bytes → Result Fields
unfolding parse_services
parse_register_req [] = err index_error
parse_register_req (ulen ∷ pkt) =
    if ltb (length pkt) ulen
    then err value_error
    else parse_services (take ulen pkt) (drop ulen pkt)

abbrev codes_of : List ℕ → List Key
codes_of = map (λ n. code (pos n))

-- the bytes of a list of codes
words : List ℕ → Bytes
words [] = []
words (n ∷ ns) = be32 n ++ words ns

abbrev pub AreWords : List ℕ → Type 0
AreWords = All (λ n. n < 2 ^ 32)

pack_keys-words : (ns : List ℕ) → AreWords ns → pack_keys (codes_of ns) ≡ ok (words ns)
unfolding pack_keys words pack_key pack_i
pack_keys-words [] h = refl
pack_keys-words (n ∷ ns) h = ground (arith, pack_keys-words ns)

read_is-words : (ns : List ℕ) → AreWords ns → read_is (length ns) (words ns) ≡ ok (map pos ns, [])
unfolding read_is words
read_is-words [] h = refl
read_is-words (n ∷ ns) h = rw (read_i-be32 n (words ns) h.0, read_is-words ns h.1)

-- The services of a registration that is made of fields that fit.
parse_services-words :
    (uid : Bytes) (port : ℕ) (ns : List ℕ)
    → port < 2 ^ 16
    → length ns < 2 ^ 32
    → AreWords ns
    → parse_services uid (be16 port ++ (be32 (length ns) ++ words ns))
      ≡ ok (uid, pos port, map pos ns)
unfolding parse_services be16 be32 read_h read_i read_end unpack_is
parse_services-words uid port ns hp hn hs =
    rw (of_be32-digits (length ns) hn, read_is-words ns hs, of_be16-digits port)

length-map_code : (ns : List ℕ) → length (codes_of ns) ≡ length ns
length-map_code [] = refl
length-map_code (n ∷ ns) = ap suc (length-map_code ns)

resolve-codes_of : (ns : List ℕ) → map resolve (codes_of ns) ≡ codes_of ns
unfolding resolve
resolve-codes_of [] = refl
resolve-codes_of (n ∷ ns) = ap (λ t. code (pos n) ∷ t) (resolve-codes_of ns)

length-resolve : (ks : List Key) → length (map resolve ks) ≡ length ks
length-resolve [] = refl
length-resolve (k ∷ ks) = ap suc (length-resolve ks)

-- the packet that fields that fit are made into
make_register_req-eq-ok :
    (ks : List Key) (ns : List ℕ) (who : Who) (port : ℕ)
    → map resolve ks ≡ codes_of ns
    → AreWords ns
    → length ns < 2 ^ 32
    → port < 2 ^ 16
    → length (user_text who) < 256
    → make_register_req ks who (pos port)
      ≡ ok (
          length (user_text who) ∷ (user_text who ++ (be16 port ++ (be32 (length ns) ++ words ns))))
unfolding make_register_req pack_h pack_i
make_register_req-eq-ok ks ns who port e hs hn hp hu =
    let same : length ks ≡ length ns = sym (length-resolve ks) ∙ ap length e ∙ length-map_code ns in
    rw (e, pack_keys-words ns hs, same, lt→ltb _ _ hu, lt→ltb _ _ hp, lt→ltb _ _ hn)

parse_register_req-parts :
    (u rest : Bytes) → parse_register_req (length u ∷ (u ++ rest)) ≡ parse_services u rest
unfolding parse_register_req
parse_register_req-parts u rest =
    let long : ltb (length (u ++ rest)) (length u) ≡ false =
      le→ltb _ _ (omega (arith, length-append u rest)) in
    rw (long, take-length-append u rest, drop-length-append u rest)

-- What is made of fields that fit is parsed back into them: the user's text, the port, and the
-- service codes in their order.
pub parse-make_register_req :
    (ks : List Key) (ns : List ℕ) (who : Who) (port : ℕ)
    → map resolve ks ≡ map (λ n. code (pos n)) ns
    → All (λ n. n < 2 ^ 32) ns
    → length ns < 2 ^ 32
    → port < 2 ^ 16
    → length (user_text who) < 256
    → (make_register_req ks who (pos port) >>= parse_register_req)
      ≡ ok (user_text who, pos port, map pos ns)
parse-make_register_req ks ns who port e hs hn hp hu =
    rw (make_register_req-eq-ok ks ns who port e hs hn hp hu) (
      parse_register_req-parts (user_text who) _
      ∙ parse_services-words (user_text who) port ns hp hn hs)

unpack_is_malformed : (n : ℕ) (b : Bytes) → length b ≢ 4 * n → unpack_is n b ≡ err struct_error
unfolding unpack_is read_is read_i read_end
unpack_is_malformed zero [] wrong = absurd (wrong (omega arith))
unpack_is_malformed zero (x ∷ b) wrong = refl
unpack_is_malformed (suc n) (a ∷ b ∷ c ∷ d ∷ rest) wrong =
    ground (arith, unpack_is_malformed n rest)
unpack_is_malformed (suc n) (a ∷ b ∷ c ∷ []) wrong = refl
unpack_is_malformed (suc n) (a ∷ b ∷ []) wrong = refl
unpack_is_malformed (suc n) (a ∷ []) wrong = refl
unpack_is_malformed (suc n) [] wrong = refl

parse_services_malformed :
    (uid : Bytes) (port num : ℕ) (body : Bytes)
    → num < 2 ^ 32
    → length body ≢ 4 * num
    → parse_services uid (be16 port ++ (be32 num ++ body)) ≡ err name_error
unfolding parse_services be16 be32 read_h read_i read_end
parse_services_malformed uid port num body hn wrong =
    rw (of_be32-digits num hn, unpack_is_malformed num body wrong)

-- A registration whose list of services has another length than it announces ends in a NameError,
-- not in the ValueError that the handler was written to raise.
pub parse_register_req_malformed :
    (uid : Bytes) (port num : ℕ) (body : Bytes)
    → num < 2 ^ 32
    → length body ≢ 4 * num
    → parse_register_req (length uid ∷ (uid ++ (be16 port ++ (be32 num ++ body)))) ≡ err name_error
parse_register_req_malformed uid port num body hn wrong =
    parse_register_req-parts uid _ ∙ parse_services_malformed uid port num body hn wrong
