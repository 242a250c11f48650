-- ===== src/Lists/Tests.antt =====
-- Two private lists, a group list that is removed, and a server that refuses.
use blitzmail.Common.{◌≡◌, refl, arith, codes, true, false, List, [], ◌∷◌, ◌++◌, none, some}
use blitzmail.Common.Decimal.{rstrip, lstrip, int, str}
use blitzmail.Common.Lines.{lower, readline, split_space, join}
use blitzmail.Errors.{ok, err, key_error, not_connected}
use blitzmail.Link.{raw_send, next_answer, answer}
use blitzmail.Link.Answer.{IsLine}
use blitzmail.Blitz.{tell, expect_value, hear, value_of, is_flagged}
use blitzmail.Blitz.Online.{online}
use blitzmail.Blitz.Listing.{says_all}
use blitzmail.Lists.{
  group, own, MailList, Mail, new_list, made_of, place_of, load_lists, get_list, get_members,
  set_members, type_code, object, change, save_members,
}
use blitzmail.Lists.Cache.{
  found_at, last_named, with_lists, lsts, get_list-loads, get_list_after_failure,
}
use blitzmail.Lists.Members.{get_members-set_members}

abbrev mail : Mail
mail = record { session = online [] [] false; store = []; pl_cache = none; gl_cache = none }

friends-IsLine : IsLine (codes "friends")
unfolding rstrip
friends-IsLine = record { inside = ground arith; trimmed = refl }

work-IsLine : IsLine (codes "Work")
unfolding rstrip
work-IsLine = record { inside = ground arith; trimmed = refl }

abbrev lists : List MailList
lists = new_list own (codes "friends") none false ∷ new_list own (codes "Work") none false ∷ []

get_list-loads_example :
    get_list 2 own (codes "work") true (record mail {
      session = online (says_all 0 ((1, codes "friends") ∷ (0, codes "Work") ∷ []) ++ []) [] false;
    })
    ≡ (
      found_at (last_named (lower (codes "work")) 0 lists none),
      with_lists own lists [] (lsts own) false mail,
    )
unfolding made_of
get_list-loads_example =
    get_list-loads 0 (omega arith) (1, codes "friends") ((0, codes "Work") ∷ [])
      (omega arith, friends-IsLine, refl) refl lists [] [] false mail own (codes "work")
      (refl, refl, (omega arith, work-IsLine, refl), (refl, refl))

-- the peer says nothing and is gone
abbrev gone : Mail
gone = record mail {
  session = record {
    link = record { is_connected = false; input = []; sent = [] };
    warn_flag = false;
  };
}

gone_lem : load_lists 1 own gone ≡ (err not_connected, record gone { pl_cache = some [] })
unfolding load_lists tell raw_send
gone_lem = refl

get_list_after_failure_example :
    get_list 1 own (codes "work") false (record gone { pl_cache = some [] })
    ≡ (err key_error, record gone { pl_cache = some [] })
get_list_after_failure_example = get_list_after_failure 1 1 own (codes "work") gone gone_lem

-- a group list whose members are at hand, and which the server does not have yet
abbrev staff : MailList
staff = record {
  kind = group;
  name = codes "Staff";
  fresh = true;
  cache = some (codes "ann" ∷ []);
  perms = none;
}

abbrev with_staff : Mail
with_staff = record mail { store = staff ∷ []; gl_cache = some ((codes "staff", 0) ∷ []) }

staff_lem : place_of (lower (codes "STAFF")) ((codes "staff", 0) ∷ []) ≡ some 0
unfolding place_of lower
staff_lem = refl

-- the answers to LDAT, to the data and to LDEF
abbrev answering : Mail
answering = record with_staff { session = online (codes "050 Go\n010 Ok\n010 Ok\n") [] false }

abbrev answered : Mail
answered = record with_staff {
  session = online [] (codes "LDAT 4\nbob\nLDEF Staff,2\n") false;
  store = record staff { fresh = false } ∷ [];
}

set_members_lem : set_members 0 (codes "bob" ∷ []) answering ≡ (ok tt, answered)
unfolding set_members save_members tell hear expect_value raw_send next_answer answer value_of
    is_flagged join str int rstrip lstrip readline split_space type_code object change
set_members_lem = refl

object_lem : object 0 answering.store ≡ some staff
unfolding object
object_lem = refl

get_members-set_members_example : get_members 1 0 false answered ≡ (ok (codes "ann" ∷ []), answered)
get_members-set_members_example =
    get_members-set_members 1 0 (codes "bob" ∷ []) answering staff object_lem refl set_members_lem
