-- ===== src/Notifyd/Db.antt =====
-- class Notice and class NoticeDB: sticky notifications in a table of an SQL database. The database
-- itself is a parameter, with the documented behaviour of the statements that the class executes.
use blitzmail.Common.{
  ℕ, ◌≡◌, refl, arith, Bytes, Bool, true, not, ◌&&◌, List, [], ◌∷◌, ◌++◌, map, map-append, select,
  select-append, append-nil, eq_ℤ-refl, Option, some, ℤ, eq_ℤ,
}

pub record Notice : Type 0 where
  pub uid : ℤ
  pub type : ℤ
  pub msgid : ℤ
  pub sticky : Bool
  pub content : Option Bytes
  pub rowid : Option ℕ

-- a row of the table notices
pub record Row : Type 0 where
  pub uid : ℤ
  pub type : ℤ
  pub msgid : ℤ
  pub content : Option Bytes
  pub rowid : ℕ

pub record Database : Type 1 where
  pub Store : Type 0
  -- SELECT *, rowid FROM notices
  pub rows : Store → List Row
  -- INSERT INTO notices (uid, type, msgid, data) VALUES (?, ?, ?, ?)
  pub insert : ℤ → ℤ → ℤ → Option Bytes → Store → Store
  -- DELETE FROM notices WHERE uid == ? AND type == ?
  pub delete : ℤ → ℤ → Store → Store
  -- DELETE FROM notices
  pub delete_all : Store → Store
  -- a new row comes last, under a row number that the database chooses
  pub rows-insert :
      (uid type msgid : ℤ) (content : Option Bytes) (s : Store)
      → (n : ℕ) × (rows (insert uid type msgid content s)
          ≡ rows s
            ++ record { uid = uid; type = type; msgid = msgid; content = content; rowid = n } ∷ [])
  pub rows-delete :
      (uid type : ℤ) (s : Store)
      → rows (delete uid type s) ≡ select (λ r. not (eq_ℤ r.uid uid && eq_ℤ r.type type)) (rows s)
  pub rows-delete_all : (s : Store) → rows (delete_all s) ≡ []

-- `Notice(uid, type, msgid, True, data, rowid)`
pub of_row : Row → Notice
of_row r = record {
  uid = r.uid;
  type = r.type;
  msgid = r.msgid;
  sticky = true;
  content = r.content;
  rowid = some r.rowid;
}

module _ (db : Database) where
  open db use {Store}

  unfoldable pub enter : ℤ → ℤ → ℤ → Option Bytes → Store → Store
  enter uid type msgid content s = db.insert uid type msgid content s

  unfoldable pub notices : Store → List Notice
  unfolding of_row
  notices s = map of_row (db.rows s)

  unfoldable pub cleartype : ℤ → ℤ → Store → Store
  cleartype uid type s = db.delete uid type s

  unfoldable pub flush : Store → Store
  flush s = db.delete_all s

  -- a notice of the user and the type
  abbrev pub is_for : ℤ → ℤ → Notice → Bool
  is_for uid type n = eq_ℤ n.uid uid && eq_ℤ n.type type

  map-of_row :
      (uid type : ℤ) (rs : List Row)
      → map of_row (select (λ r. not (eq_ℤ r.uid uid && eq_ℤ r.type type)) rs)
        ≡ select (λ n. not (is_for uid type n)) (map of_row rs)
  unfolding select of_row
  map-of_row uid type [] = refl
  map-of_row uid type (r ∷ rs) = ground (arith, map-of_row uid type rs)

  -- Clearing a type of a user's notices removes those and keeps all others, in their order.
  pub notices-cleartype :
      (uid type : ℤ) (s : Store)
      → notices (cleartype uid type s) ≡ select (λ n. not (is_for uid type n)) (notices s)
  unfolding notices cleartype
  notices-cleartype uid type s = rw (db.rows-delete uid type s) (map-of_row uid type (db.rows s))

  -- A notice that was entered comes after those that were there.
  pub notices-enter :
      (uid type msgid : ℤ) (content : Option Bytes) (s : Store)
      → (n : ℕ) × (notices (enter uid type msgid content s)
          ≡ notices s
            ++ record {
              uid = uid;
              type = type;
              msgid = msgid;
              sticky = true;
              content = content;
              rowid = some n;
            }
              ∷ [])
  unfolding notices enter
  notices-enter uid type msgid content s =
      let (n, e) = db.rows-insert uid type msgid content s in (n, rw e (map-append _ (db.rows s) _))

  -- What is entered and then cleared is gone, and with it what was there of the user and type.
  pub cleartype-enter :
      (uid type msgid : ℤ) (content : Option Bytes) (s : Store)
      → notices (cleartype uid type (enter uid type msgid content s))
        ≡ notices (cleartype uid type s)
  unfolding select
  cleartype-enter uid type msgid content s =
      let (n, e) = notices-enter uid type msgid content s in
      rw
        (
          notices-cleartype uid type (enter uid type msgid content s),
          notices-cleartype uid type s,
          e,
          select-append (λ n. not (is_for uid type n)) (notices s) _,
          eq_ℤ-refl uid,
          eq_ℤ-refl type,
        )
        (append-nil _)
