-- ===== src/SignOn.antt =====
-- Signing on: reconnect, sign_on and close of class BlitzSession of session.py. What the network and
-- the name directory give, and the encryption of `dnd`, are arguments.
pub mod Dialog
mod Tests
use blitzmail.Common.{
  ℕ, Bytes, codes, Bool, true, false, ◌||◌, List, [], ◌∷◌, ◌++◌, Option, none, some, ◌==◌, ℤ, pos,
  if◌then◌else◌,
}
use blitzmail.Errors.{
  Error, Result, ok, err, value_error, type_error, key_error, session_error, lost_connection,
  not_connected, socket_error, protocol_error, protocol_text,
}
use blitzmail.Link.{Link, shut}
use blitzmail.Lists.{Cache}
use blitzmail.Blitz.{Blitz, Call, go_on, ◌>>=◌, ◌>>◌, return, raise, expect_value, tell, hear}

-- user_info: the password, and the number once the directory has named the user
pub record User : Type 0 where
  pub password : Bytes
  pub uid : Option Bytes

-- `half_open` tells of a socket that did not connect, and that close has not yet taken away. Folders
-- and lists are known by their places in stores.
pub record Account : Type 0 where
  pub session : Blitz
  pub half_open : Bool
  pub user_info : Option User
  pub blitzserv : Option Bytes
  pub gl_cache : Option Cache
  pub pl_cache : Option Cache
  pub fl_cache : Option (List ℕ)
  pub session_id : Option ℤ

abbrev pub on_session : {A : Type 0} → Call Blitz A → Call Account A
on_session c a = let (r, b) = c a.session in (r, record a { session = b })

-- is_connected
abbrev pub is_connected : Account → Bool
is_connected a = a.session.link.is_connected || a.half_open

-- SessionError with its subclasses, and errors of a socket
unfoldable pub is_ignored : Error → Bool
is_ignored session_error = true
is_ignored lost_connection = true
is_ignored not_connected = true
is_ignored socket_error = true
is_ignored (protocol_error key text) = true
is_ignored (protocol_text text) = true
is_ignored x = false

-- `try: … except (socket.error, SessionError): pass`
ignoring : Result Bytes × Blitz → Result (Unit {0}) × Blitz
unfolding is_ignored
ignoring (ok text, b) = (ok tt, b)
ignoring (err x, b) = if is_ignored x then (ok tt, b) else (err x, b)

unfoldable pub quit : Call Blitz (Unit {0})
unfolding ignoring
quit b = ignoring ((do tell (codes "QUIT\n"); hear 10) b)

-- what close forgets, user information apart
abbrev pub forgotten : Account → Account
forgotten a = record a {
  session = record { link = shut a.session.link; warn_flag = false };
  half_open = false;
  blitzserv = none;
  gl_cache = none;
  pl_cache = none;
  fl_cache = none;
  session_id = none;
}

abbrev pub forget_user : Bool → Account → Account
forget_user flush a = record a { user_info = if flush then none else a.user_info }

-- close
unfoldable pub close : Bool → Call Account (Unit {0})
close flush a =
    if a.half_open
    then (ok tt, forget_user flush (forgotten a))
    else if a.session.link.is_connected
    then (do on_session quit; λ a'. (ok tt, forget_user flush (forgotten a'))) a
    else (ok tt, forget_user flush (forgotten a))

-- the network: no such host, a host that does not answer, or a peer with all that it will say
pub data Network : Type 0 where
  unknown unreachable : Network
  peer : (input : Bytes) → Network

-- push_off: false, true, or a function of the server's text
pub data Push : Type 0 where
  never always : Push
  ask : (decide : Bytes → Bool) → Push

unfoldable pub connect : Network → Call Account (Unit {0})
connect unknown a = (err session_error, a)
connect unreachable a = (err session_error, record a { half_open = true })
connect (peer input) a = (
  ok tt,
  record a {
    session = record a.session {
      link = record a.session.link { is_connected = true; input = input };
    };
  },
)

abbrev pub keep_version : Bytes → Call Account (Unit {0})
keep_version text a = (ok tt, record a { blitzserv = some text })

abbrev pub client_version : Bytes
client_version = codes "Python BlitzMail library v.1.8"

-- the account is in use: is the other client pushed off?
unfoldable pub wants_push : Push → Bytes → Bool
wants_push never text = false
wants_push always text = true
wants_push (ask decide) text = decide text

unfoldable pub busy : Push → ℕ × Bytes → Call Account (Unit {0})
busy push answer =
    if wants_push push answer.1
    then (do on_session (tell (codes "PUSH\n")); on_session (hear 10); return tt)
    else (do close false; raise (err (protocol_error (pos answer.0) answer.1)))

-- the answer to the password
unfoldable pub admitted : Push → Call Account (Unit {0})
admitted never = do on_session (hear 30); return tt
admitted push = do
  answer ← on_session (expect_value (30 ∷ 34 ∷ []))
  if answer.0 == 34 then busy push answer else return tt

-- reconnect; `encrypt` is encrypt_challenge, of the challenge and the password
unfoldable pub greet : (Bytes → Bytes → Bytes) → Push → Bytes → Bytes → Call Account (Unit {0})
greet encrypt push uid password = do
  on_session (tell (codes "VERS " ++ client_version ++ codes "\n"))
  version ← on_session (hear 10)
  keep_version version
  on_session (tell (codes "UID# " ++ uid ++ codes "\n"))
  challenge ← on_session (hear 33)
  on_session (tell (codes "PASE " ++ encrypt challenge password ++ codes "\n"))
  admitted push

dial : (Bytes → Bytes → Bytes) → Network → Push → Option User → Call Account (Unit {0})
dial encrypt network push none a = (err value_error, a)
dial encrypt network push (some user) a =
    (do
      close false
      uid ← raise (elim user.uid [ some uid ↦ ok uid | none ↦ err key_error ])
      connect network
      greet encrypt push uid user.password)
      a

unfoldable pub reconnect : (Bytes → Bytes → Bytes) → Network → Push → Call Account (Unit {0})
unfolding dial
reconnect encrypt network push a = dial encrypt network push a.user_info a

abbrev keep_user : User → Call Account (Unit {0})
keep_user user a = (ok tt, record a { user_info = some user })

-- the password that sign_on is given, or the one that the environment has under the name `pw_env`;
-- to scramble none of these is a TypeError
unfoldable pub password_of : Option Bytes → Option (Option Bytes) → Result Bytes
password_of (some pw) env = ok pw
password_of none none = err type_error
password_of none (some none) = err session_error
password_of none (some (some pw)) = ok pw

-- sign_on; `found` is the user's number in the directory, if one user matches
unfoldable pub sign_on :
    (Bytes → Bytes → Bytes)
    → Network
    → Push
    → Option Bytes
    → Option (Option Bytes)
    → Option Bytes
    → Call Account (Unit {0})
sign_on encrypt network push pw env found a =
    if is_connected a
    then (err value_error, a)
    else (do
      password ← raise (password_of pw env)
      keep_user (record { password = password; uid = none })
      uid ← raise (elim found [ some uid ↦ ok uid | none ↦ err session_error ])
      keep_user (record { password = password; uid = some uid })
      reconnect encrypt network push)
        a
