-- ===== src/Message/Body.antt =====
-- Reading the body of a message through its cache.
use blitzmail.Common.{
  ℕ, zero, suc, ◌≤◌, ◌<◌, ◌≡◌, refl, arith, Bytes, Bool, true, false, take, drop, length, ◌++◌,
  Option, none, some, if◌then◌else◌,
}
use blitzmail.Errors.{ok}
use blitzmail.Link.Answer.{IsLine}
use blitzmail.Blitz.Online.{online}
use blitzmail.Message.{Summary, newlines, asked, part, load_bcache, get_body}
use blitzmail.Message.Parts.{IsWindow, IsCache, parts, window, window_lem}
use blitzmail.Message.Served.{served, told, flag_after}
use blitzmail.Message.Window.{load_from_lem}

asked-cases :
    (offset n : Option ℕ) (size : ℕ) → (part offset n size).1 ≡ 0 → size ≤ (part offset n size).0
unfolding asked
asked-cases none n size z = ground arith
asked-cases (some zero) n size z = ground arith
asked-cases (some (suc o)) none size z = ground arith
asked-cases (some (suc o)) (some zero) size z = ground arith
asked-cases (some (suc o)) (some (suc n)) size z = ground arith

-- The text that get_body returns is the part of the server's body that was asked for, with returns
-- made newlines, whatever part of the body the cache holds: the offset and the length that are given
-- where both are other than 0, else all. It sends a request for each part that the cache lacks (all
-- of it where force is set) after one selection of the message, reads just the answers to these, and
-- the cache still holds a part of the body afterwards. The size of the summary must be the body's
-- length, and the server answers TEXT with that part of the body.
pub get_body_lem :
    (w : ℕ) (done body : Bytes) (m : Summary) (offset n : Option ℕ) (force : Bool)
    (rest sent : Bytes) (warn : Bool)
    → w < 10
    → IsLine done
    → m.size ≡ length body
    → (force ≡ false → IsCache body m.b_cache)
    → (let r = part offset n m.size in
        let cache = if force then none else m.b_cache in
        let missing = parts body cache r.0 r.1 in
        (get_body offset n force
            (record m { session = online (served w done body false missing ++ rest) sent warn })
          ≡ (
            ok (newlines (take r.1 (drop r.0 body))),
            record m {
              session = online rest (sent ++ told m false missing) (flag_after w missing warn);
              b_cache = some (window body cache r.0 r.1);
            },
          ))
        × IsWindow body (window body cache r.0 r.1))
unfolding get_body load_bcache
get_body_lem w done body m offset n true rest sent warn hw hd size held =
    let (o, k) = part offset n m.size in
    let fact = window_lem body none o k tt (λ z. rw (← size) (asked-cases offset n m.size z)) in
    (load_from_lem w hw done hd body m none o k rest sent warn, fact.0)
get_body_lem w done body m offset n false rest sent warn hw hd size held =
    let (o, k) = part offset n m.size in
    let fact =
      window_lem body m.b_cache o k (held refl)
        (λ z. rw (← size) (asked-cases offset n m.size z)) in
    (rw (← fact.1) (load_from_lem w hw done hd body m m.b_cache o k rest sent warn), fact.0)
