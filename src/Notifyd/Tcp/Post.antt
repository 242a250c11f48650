-- ===== src/Notifyd/Tcp/Post.antt =====
-- Who may post and clear notices over TCP, and what that does to the sticky notices.
use blitzmail.Common.{
  ℕ, ◌≡◌, refl, sym, ap, ◌∙◌, arith, Bytes, codes, true, false, not, List, [], ◌∷◌, ◌++◌, length,
  suc, if◌then◌else◌, append-nil, Option, none, some, ℤ, pos, eq_ℤ, Bool-cases, inl, inr,
}
use blitzmail.Common.Decimal.{int}
use blitzmail.Errors.{Result, ok, err}
use blitzmail.Notifyd.Db.{Notice, Database, notices-enter}
use blitzmail.Notifyd.Directory.{Directory}
use blitzmail.Notifyd.Udp.{State, post}
use blitzmail.Notifyd.World.{World, check_perms, all_notices, notify}
use blitzmail.Notifyd.Wire.{ints, with_int, read_data, may_not_broadcast}
use blitzmail.Notifyd.Tcp.{
  Conn, told, cleared, cmd_clear, notified, cmd_notify, cmd_list, no_broadcast, perform,
}
use blitzmail.Notifyd.Tcp.Handle.{parse_line, sequenced, turn}
use blitzmail.Common.Lines.{upper, readline}

length-with_int :
    (z : Option ℤ) (zs : Option (List ℤ)) (ys : List ℤ)
    → with_int z zs ≡ some ys
    → (y : ℤ) × (rest : List ℤ) × (zs ≡ some rest) × (ys ≡ y ∷ rest)
length-with_int none zs ys e = cc
length-with_int (some z) none ys e = cc
length-with_int (some z) (some zs) ys e = (z, zs, refl, cc)

length-ints : (args : List Bytes) (zs : List ℤ) → ints args ≡ some zs → length args ≡ length zs
unfolding ints
length-ints [] zs e = ground arith
length-ints (w ∷ ws) zs e =
    let (z, rest, more, eq) = length-with_int (int w) (ints ws) zs e in
    rw eq (ap suc (length-ints ws rest more))

module _ (db : Database) where
  db-post : (now : ℕ) (n : Notice) (o : State db) → (post db now n o).1.0.db ≡ o.0.db
  unfolding post
  db-post now n (s, a) = elim (Bool-cases s.locked) [ inl e ↦ rw e | inr e ↦ rw e ]

  -- A sticky notice joins the notices that are kept, whatever becomes of its delivery.
  all_notices-notify :
      (now : ℕ) (uid type msgid : ℤ) (content : Option Bytes) (w : World db)
      → (n : ℕ) × (all_notices (notify now uid type msgid true content w).1
          ≡ all_notices w
            ++ record {
              uid = uid;
              type = type;
              msgid = msgid;
              sticky = true;
              content = content;
              rowid = some n;
            }
              ∷ [])
  unfolding notify all_notices
  all_notices-notify now uid type msgid content w =
      let (n, e) = notices-enter db uid type msgid content w.udp.0.db in
      (n, elim (Bool-cases w.has_udp) [ inl up ↦ rw (up, db-post now) e | inr down ↦ rw down e ])

  -- a notice that is not sticky leaves the notices that are kept as they are
  all_notices-notify_once :
      (now : ℕ) (uid type msgid : ℤ) (content : Option Bytes) (w : World db)
      → all_notices (notify now uid type msgid false content w).1 ≡ all_notices w
  unfolding notify all_notices
  all_notices-notify_once now uid type msgid content w = elim (Bool-cases w.has_udp) [
    | inl up ↦ rw (up, db-post now)
    | inr down ↦ rw down
  ]

module _ (db : Database) (dir : Directory) where
  world-told :
      (t : Bytes) (c : Conn dir) (r : Result (Unit {0}) × World db) → (told db dir t c r).1.1 ≡ r.1
  world-told t c (ok u, w) = refl
  world-told t c (err x, w) = refl

  world-cmd_notify :
      (now : ℕ) (args : List Bytes) (c : Conn dir) (w : World db) (len uid type msgid sticky : ℤ)
      → ints args ≡ some (len ∷ uid ∷ type ∷ msgid ∷ sticky ∷ [])
      → may_not_broadcast uid w ≡ false
      → (cmd_notify db dir now args (c, w)).1.1
        ≡ (notify now uid type msgid (not (eq_ℤ sticky (pos 0))) (read_data len c.input).0 w).1
  unfolding cmd_notify notified
  world-cmd_notify now args c w len uid type msgid sticky e may =
      rw (length-ints args _ e, e, may) (world-told (codes "200 Ok.") _ _)

  -- NOTIFY with five numbers, from whoever may post to the user: the notices that are kept gain the
  -- new one, at their end and with the data that followed the line, exactly if the last number is not
  -- 0; and that is so even where the delivery by UDP raises an exception.
  pub all_notices-cmd_notify :
      (now : ℕ) (args : List Bytes) (c : Conn dir) (w : World db) (len uid type msgid sticky : ℤ)
      → ints args ≡ some (len ∷ uid ∷ type ∷ msgid ∷ sticky ∷ [])
      → may_not_broadcast uid w ≡ false
      → (n : ℕ) × (all_notices (cmd_notify db dir now args (c, w)).1.1
          ≡ all_notices w
            ++ (if eq_ℤ sticky (pos 0)
                then []
                else record {
                  uid = uid;
                  type = type;
                  msgid = msgid;
                  sticky = true;
                  content = (read_data len c.input).0;
                  rowid = some n;
                }
                  ∷ []))
  all_notices-cmd_notify now args c w len uid type msgid sticky e may =
      let world = world-cmd_notify now args c w len uid type msgid sticky e may in
      elim (Bool-cases (eq_ℤ sticky (pos 0))) [
        | inl once ↦ (
          0,
          rw (world, once)
              (all_notices-notify_once db now uid type msgid _ w
                ∙ sym (append-nil (all_notices w))),
        )
        | inr lasts ↦
            (let (n, kept) = all_notices-notify db now uid type msgid (read_data len c.input).0 w in
              (n, rw (world, lasts) kept))
      ]

  -- Without the privilege, NOTIFY and CLEAR for user 0 and LIST are refused with 554, and nothing of
  -- what the connections share is changed; NOTIFY has read its data all the same.
  pub unprivileged_refused :
      (now : ℕ) (c : Conn dir) (w : World db) (posting clearing listing : List Bytes)
      (len type msgid sticky : ℤ)
      → check_perms (codes "broadcast") w ≡ false
      → ints posting ≡ some (len ∷ pos 0 ∷ type ∷ msgid ∷ sticky ∷ [])
      → ints clearing ≡ some (pos 0 ∷ type ∷ [])
      → (cmd_notify db dir now posting (c, w) ≡ (
        ok tt,
        (
          record c {
            input = (read_data len c.input).1;
            output = c.output ++ codes "554 Broadcast permission denied.\r\n";
          },
          w,
        ),
      ))
        × (cmd_clear db dir clearing (c, w) ≡ (
          ok tt,
          (record c { output = c.output ++ codes "554 Broadcast permission denied.\r\n" }, w),
        ))
        × (cmd_list db dir now listing (c, w)
            ≡ (ok tt, (record c { output = c.output ++ codes "554 Permission denied.\r\n" }, w)))
  unfolding cmd_notify notified cmd_clear cleared cmd_list check_perms may_not_broadcast
  unprivileged_refused now c w posting clearing listing len type msgid sticky no_right p q = (
    rw (length-ints posting _ p, p, no_right),
    rw (length-ints clearing _ q, q, no_right),
    rw no_right,
  )

  -- NOTIFY with five numbers
  pub cmd_notify_lem :
      (now : ℕ) (args : List Bytes) (c : Conn dir) (w : World db) (len uid type msgid sticky : ℤ)
      → ints args ≡ some (len ∷ uid ∷ type ∷ msgid ∷ sticky ∷ [])
      → cmd_notify db dir now args (c, w) ≡ (
          if may_not_broadcast uid w
          then no_broadcast db dir (record c { input = (read_data len c.input).1 }, w)
          else told db dir
              (codes "200 Ok.")
              (record c { input = (read_data len c.input).1 })
              (notify now uid type msgid (not (eq_ℤ sticky (pos 0))) (read_data len c.input).0 w))
  unfolding cmd_notify notified
  cmd_notify_lem now args c w len uid type msgid sticky e = rw (length-ints args _ e, e)

  -- a turn that reads NOTIFY performs it
  pub turn-cmd_notify :
      (now : ℕ) (line rest : Bytes) (args : List Bytes) (c : Conn dir) (w : World db)
      → readline c.input ≡ (line, rest)
      → parse_line line ≡ (codes "NOTIFY", args)
      → c.dnd ≡ none
      → turn db dir now (c, w) ≡ cmd_notify db dir now args (record c { input = rest }, w)
  unfolding turn sequenced perform upper
  turn-cmd_notify now line rest args c w e p idle = rw (e, p, idle)
