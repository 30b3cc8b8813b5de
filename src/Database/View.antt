-- ===== src/Database/View.antt =====
-- src/dbaccess.c as a dictionary: for each database a map from keys, upper and lower case alike,
-- to values.
use ebotula.Prelude.{
  ℕ, ◌<◌, ◌≡◌, refl, sym, inl, inr, Bool, true, false, not, ◌&&◌, [], ◌∷◌, Option, none, some, ltb,
  ◌==◌, if◌then◌else◌, is_some, arith, and_parts, Bool-cases, Option-cases,
}
use ebotula.CString.{Bytes, streq}
use ebotula.CString.Laws.{lacks, take_until-append, streq→eq, streq_refl}
use ebotula.Utilities.{str_to_lower}
use ebotula.Utilities.Names.{str_to_lower_idem}
use ebotula.Database.Backend.{Library, IsGdbm}
use ebotula.Database.{
  max_db, datum, c_string, put, strings, Databases, stored, exist_db, add_db, replace_db, del_db,
  get_db,
}

abbrev pub same_key : Bytes → Bytes → Bool
same_key a b = streq (str_to_lower a) (str_to_lower b)

streq-datum : (a b : Bytes) → streq (datum a) (datum b) ≡ streq a b
unfolding streq
streq-datum [] [] = refl
streq-datum [] (y ∷ []) = ground arith
streq-datum [] (y ∷ z ∷ b) = ground arith
streq-datum (x ∷ []) [] = ground arith
streq-datum (x ∷ z ∷ a) [] = ground arith
streq-datum (x ∷ a) (y ∷ b) = ground (arith, streq-datum a b)

c_string-datum : (s : Bytes) → lacks 0 s ≡ true → c_string (datum s) ≡ s
c_string-datum s h = take_until-append 0 s [] h

abbrev pub or_else : Option Bytes → Option Bytes → Option Bytes
or_else none w = w
or_else (some v) w = some v

abbrev pub and_then : Option Bytes → Option Bytes → Option Bytes
and_then none w = none
and_then (some v) w = w

module _ (lib : Library) where
  -- `new` is `old`, but for the key `key` of the database `db`, which has the value `w`
  abbrev pub Updated : Databases lib → Databases lib → ℕ → Bytes → Option Bytes → Type 0
  Updated old new db key w =
      (other : ℕ) (k : Bytes)
      → get_db lib other (some k) new
        ≡ (if other == db && same_key k key then w else get_db lib other (some k) old)

is_some-strings : (o : Option Bytes) → is_some (strings o) ≡ is_some o
is_some-strings none = refl
is_some-strings (some v) = refl

strings-if :
    (b : Bool) (v w : Option Bytes)
    → strings (if b then v else w) ≡ (if b then strings v else strings w)
strings-if true v w = refl
strings-if false v w = refl

strings-none : (o : Option Bytes) → strings o ≡ none → o ≡ none
strings-none none e = refl
strings-none (some v) e = ground arith

module _ (lib : Library) (gdbm : IsGdbm lib) where
  -- exist_db tells whether get_db finds a value, whatever the number and the key
  pub exist_db-get_db :
      (db : ℕ) (key : Option Bytes) (dbf : Databases lib)
      → exist_db lib db key dbf ≡ is_some (get_db lib db key dbf)
  unfolding exist_db get_db
  exist_db-get_db db none dbf = refl
  exist_db-get_db db (some key) dbf = ground (
    arith,
    gdbm.exists-fetch (datum (str_to_lower key)) (dbf db),
    is_some-strings (lib.fetch (datum (str_to_lower key)) (dbf db)),
  )

  Updated-put :
      (db : ℕ) (key : Bytes) (w : Option Bytes) (dbf : Databases lib) (store : lib.Store)
      → db < max_db
      → ((j : Bytes)
          → lib.fetch j store
            ≡ (if streq j (datum (str_to_lower key)) then w else lib.fetch j (dbf db)))
      → Updated lib dbf (put dbf db store) db key (strings w)
  unfolding get_db
  Updated-put db key w dbf store n h other k = elim (Bool-cases (other == db)) [
    | inl e ↦
        let same : other ≡ db = ground arith in
        let found = h (datum (str_to_lower k)) in
        let folded = streq-datum (str_to_lower k) (str_to_lower key) in
        let self : (db == db) ≡ true = ground arith in
        let known : ltb db max_db ≡ true = ground arith in
        rw (same, self, known, found, folded)
          (strings-if (same_key k key) w (lib.fetch (datum (str_to_lower k)) (dbf db)))
    | inr e ↦ rw e refl
  ]

  unchanged :
      (db : ℕ) (key : Bytes) (dbf : Databases lib)
      → Updated lib dbf dbf db key (get_db lib db (some key) dbf)
  unfolding get_db
  unchanged db key dbf other k = elim (Bool-cases (other == db && same_key k key)) [
    | inl e ↦
        let same : other ≡ db = ground arith in
        let low : str_to_lower k ≡ str_to_lower key =
          streq→eq (str_to_lower k) (str_to_lower key)
            (and_parts (other == db) (same_key k key) e).1 in
        let self : (db == db) ≡ true = ground arith in
        rw (same, low, self, streq_refl (str_to_lower key)) refl
    | inr e ↦ rw e refl
  ]

  pub keeps :
      (db : ℕ) (key : Bytes) (dbf : Databases lib) {w : Option Bytes}
      → get_db lib db (some key) dbf ≡ w
      → Updated lib dbf dbf db key w
  keeps db key dbf e other k = rw (sym e) (unchanged db key dbf other k)

  pub exist_db-lower :
      (db : ℕ) (key : Bytes) (dbf : Databases lib)
      → exist_db lib db (some (str_to_lower key)) dbf ≡ exist_db lib db (some key) dbf
  unfolding exist_db
  exist_db-lower db key dbf = rw (str_to_lower_idem key)

  fetch-none :
      (db : ℕ) (key : Bytes) (dbf : Databases lib)
      → db < max_db
      → get_db lib db (some key) dbf ≡ none
      → lib.fetch (datum (str_to_lower key)) (dbf db) ≡ none
  unfolding get_db
  fetch-none db key dbf n e =
      ground (arith, strings-none (lib.fetch (datum (str_to_lower key)) (dbf db)))

  -- a database after its key `key` got the value `v`
  stored-put :
      (db : ℕ) (key v : Bytes) (dbf : Databases lib) (store : lib.Store)
      → db < max_db
      → lacks 0 v ≡ true
      → ((j : Bytes)
          → lib.fetch j store
            ≡ (if streq j (datum (str_to_lower key)) then some (datum v) else lib.fetch j (dbf db)))
      → Updated lib dbf (put dbf db store) db key (some v)
  stored-put db key v dbf store n h e other k =
      rw (sym (c_string-datum v h)) (Updated-put db key (some (datum v)) dbf store n e other k)

  fetch-some :
      (db : ℕ) (key : Bytes) (dbf : Databases lib) {v : Bytes}
      → db < max_db
      → get_db lib db (some key) dbf ≡ some v
      → is_some (lib.fetch (datum (str_to_lower key)) (dbf db)) ≡ true
  unfolding get_db
  fetch-some db key dbf n e =
      ground (arith, is_some-strings (lib.fetch (datum (str_to_lower key)) (dbf db)))

  -- Over a library that does what gdbm documents, add_db on a known database, with a stored value
  -- free of NUL bytes, succeeds exactly when the key has no value, in upper or lower case; then
  -- the key has the value (in the user database the crypted one), and in either case every other
  -- key of every database keeps what it had.
  pub add_db-Updated :
      (db : ℕ) (key value : Bytes) (dbf : Databases lib)
      → db < max_db
      → lacks 0 (stored lib db value) ≡ true
      → let old = get_db lib db (some key) dbf in
        let ran = add_db lib db (some key) (some value) dbf in
        (ran.0 ≡ not (is_some old))
        × Updated lib dbf ran.1 db key (or_else old (some (stored lib db value)))
  unfolding add_db
  add_db-Updated db key value dbf n h =
      let known : ltb db max_db ≡ true = ground arith in
      let low = exist_db-lower db key dbf in
      let found = exist_db-get_db db (some key) dbf in
      let k = datum (str_to_lower key) in
      let v = stored lib db value in
      elim (Option-cases (get_db lib db (some key) dbf)) [
        | inl e ↦
            let no = fetch-none db key dbf n e in
            rw (low, found, e, known)
              (
                gdbm.insert_new k (datum v) (dbf db) no,
                stored-put db key v dbf (lib.insert k (datum v) (dbf db)).1 n h
                    (λ j. gdbm.fetch-insert k (datum v) (dbf db) j no),
              )
        | inr (old, e) ↦ rw (low, found, e) (refl, keeps db key dbf e)
      ]

  -- Over a library that does what gdbm documents, replace_db on a known database, with a stored
  -- value free of NUL bytes, succeeds exactly when the key has a value; then the key has the new
  -- one (in the user database crypted), and in either case every other key of every database keeps
  -- what it had.
  pub replace_db-Updated :
      (db : ℕ) (key value : Bytes) (dbf : Databases lib)
      → db < max_db
      → lacks 0 (stored lib db value) ≡ true
      → let old = get_db lib db (some key) dbf in
        let ran = replace_db lib db (some key) (some value) dbf in
        (ran.0 ≡ is_some old)
        × Updated lib dbf ran.1 db key (and_then old (some (stored lib db value)))
  unfolding replace_db
  replace_db-Updated db key value dbf n h =
      let known : ltb db max_db ≡ true = ground arith in
      let found = exist_db-get_db db (some key) dbf in
      let k = datum (str_to_lower key) in
      let v = stored lib db value in
      elim (Option-cases (get_db lib db (some key) dbf)) [
        | inl e ↦ rw (found, e) (refl, keeps db key dbf e)
        | inr (old, e) ↦
            rw (found, e, known)
              (
                gdbm.replace_done k (datum v) (dbf db),
                stored-put db key v dbf (lib.replace k (datum v) (dbf db)).1 n h
                    (gdbm.fetch-replace k (datum v) (dbf db)),
              )
      ]

  -- Over a library that does what gdbm documents, del_db on a known database succeeds exactly when
  -- the key has a value; afterwards it has none, and every other key of every database keeps what
  -- it had.
  pub del_db-Updated :
      (db : ℕ) (key : Bytes) (dbf : Databases lib)
      → db < max_db
      → let ran = del_db lib db (some key) dbf in
        (ran.0 ≡ is_some (get_db lib db (some key) dbf)) × Updated lib dbf ran.1 db key none
  unfolding del_db
  del_db-Updated db key dbf n =
      let known : ltb db max_db ≡ true = ground arith in
      let found = exist_db-get_db db (some key) dbf in
      let k = datum (str_to_lower key) in
      elim (Option-cases (get_db lib db (some key) dbf)) [
        | inl e ↦ rw (found, e) (refl, keeps db key dbf e)
        | inr (old, e) ↦
            rw (found, e, known)
              (
                gdbm.delete_found k (dbf db) (fetch-some db key dbf n e),
                Updated-put db key none dbf (lib.delete k (dbf db)).1 n
                    (gdbm.fetch-delete k (dbf db)),
              )
      ]
