-- ===== src/Database.antt =====
-- src/dbaccess.c: the seven databases and their operations. The library gdbm and `crypt` are a
-- parameter. Each operation takes the mutex of its database around the access, so a call is one
-- step; malloc succeeds. The state is the content of each database, by its number.
pub mod Backend
pub mod View
pub mod Frame
pub mod Password
pub mod InMemory
mod Tests
use ebotula.Prelude.{
  ℕ, ◌≡◌, Bool, true, false, not, List, [], ◌∷◌, ◌++◌, Option, none, some, ltb, ◌==◌, if◌then◌else◌,
  length,
}
use ebotula.CString.{Bytes, codes, take_until, streq}
use ebotula.CString.Outcome.{Outcome, done, fault}
use ebotula.Utilities.{str_to_lower}
use ebotula.Queue.Memory.{QueueData}
use Backend.{Library}

-- the numbers of `DatabaseID_t`
abbrev pub user_db : ℕ
user_db = 0

abbrev pub channel_db : ℕ
channel_db = 1

abbrev pub access_db : ℕ
access_db = 2

abbrev pub banlist_db : ℕ
banlist_db = 3

abbrev pub usertonick_db : ℕ
usertonick_db = 4

abbrev pub timelog_db : ℕ
timelog_db = 5

abbrev pub nicktouser_db : ℕ
nicktouser_db = 6

abbrev pub max_db : ℕ
max_db = 7

-- a string with its NUL, as key and value are stored
abbrev pub datum : Bytes → Bytes
datum s = s ++ (0 ∷ [])

-- the string that a pointer to these bytes stands for
abbrev pub c_string : Bytes → Bytes
c_string = take_until (λ c. c == 0)

abbrev pub put {ℓ} : {A : Type ℓ} → (ℕ → A) → ℕ → A → ℕ → A
put dbf db store other = if other == db then store else dbf other

abbrev pub strings : Option Bytes → Option Bytes
strings none = none
strings (some v) = some (c_string v)

-- strcmp with the fetched value, which is NULL when there is none
abbrev pub compare_fetched : Option Bytes → Bytes → Outcome Bool
compare_fetched none value = fault
compare_fetched (some v) value = done (streq (c_string v) value)

module _ (lib : Library) where
  abbrev pub Databases : Type 0
  Databases = ℕ → lib.Store

  -- Whether `get_dbf` knows the number; numbers are not negative here.
  abbrev pub get_dbf : ℕ → Bool
  get_dbf db = ltb db max_db

  -- the value as it is stored: the user database holds the crypted password
  abbrev pub stored : ℕ → Bytes → Bytes
  stored db value = if db == user_db then lib.crypt value (codes "SL") else value

  unfoldable pub exist_db : ℕ → Option Bytes → Databases → Bool
  exist_db db none dbf = false
  exist_db db (some key) dbf =
      if get_dbf db then lib.exists (datum (str_to_lower key)) (dbf db) else false

  unfoldable pub add_db : ℕ → Option Bytes → Option Bytes → Databases → Bool × Databases
  add_db db none value dbf = (false, dbf)
  add_db db (some key) none dbf = (false, dbf)
  add_db db (some key) (some value) dbf =
      let low = str_to_lower key in
      if exist_db db (some low) dbf
      then (false, dbf)
      else if get_dbf db
      then (let r = lib.insert (datum low) (datum (stored db value)) (dbf db) in
          (r.0, put dbf db r.1))
      else (false, dbf)

  unfoldable pub replace_db : ℕ → Option Bytes → Option Bytes → Databases → Bool × Databases
  replace_db db none value dbf = (false, dbf)
  replace_db db (some key) none dbf = (false, dbf)
  replace_db db (some key) (some value) dbf =
      if not (exist_db db (some key) dbf)
      then (false, dbf)
      else if get_dbf db
      then (let r = lib.replace (datum (str_to_lower key)) (datum (stored db value)) (dbf db) in
          (r.0, put dbf db r.1))
      else (false, dbf)

  unfoldable pub del_db : ℕ → Option Bytes → Databases → Bool × Databases
  del_db db none dbf = (false, dbf)
  del_db db (some key) dbf =
      if not (exist_db db (some key) dbf)
      then (false, dbf)
      else if get_dbf db
      then (let r = lib.delete (datum (str_to_lower key)) (dbf db) in (r.0, put dbf db r.1))
      else (false, dbf)

  unfoldable pub check_db : ℕ → Option Bytes → Option Bytes → Databases → Outcome Bool
  check_db db none value dbf = done false
  check_db db (some key) none dbf = done false
  check_db db (some key) (some value) dbf =
      let low = str_to_lower key in
      if not (exist_db db (some low) dbf)
      then done false
      else if get_dbf db
      then compare_fetched (lib.fetch (datum low) (dbf db)) (stored db value)
      else done false

  unfoldable pub get_db : ℕ → Option Bytes → Databases → Option Bytes
  get_db db none dbf = none
  get_db db (some key) dbf =
      if get_dbf db then strings (lib.fetch (datum (str_to_lower key)) (dbf db)) else none

  abbrev pub items : List Bytes → List QueueData
  items [] = []
  items (k ∷ ks) = record { t_size = length k; bytes = some k } ∷ items ks

  -- the items of the queue it returns, the oldest first
  unfoldable pub list_db : ℕ → Databases → List QueueData
  list_db db dbf = if get_dbf db then items (lib.keys (dbf db)) else []
