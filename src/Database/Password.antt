-- ===== src/Database/Password.antt =====
-- check_db of src/dbaccess.c, and the passwords of the user database.
use ebotula.Prelude.{
  ℕ, ◌<◌, ◌≡◌, refl, inl, inr, Bool, true, false, Option, none, some, ltb, arith, Option-cases,
}
use ebotula.CString.{Bytes, codes, streq}
use ebotula.CString.Outcome.{done}
use ebotula.CString.Laws.{lacks}
use ebotula.Utilities.{str_to_lower}
use ebotula.Database.Backend.{Library, IsGdbm}
use ebotula.Database.{
  user_db, max_db, datum, strings, Databases, stored, add_db, check_db, compare_fetched, get_db,
}
use ebotula.Database.View.{same_key, exist_db-get_db, exist_db-lower, add_db-Updated}

abbrev pub matches : Option Bytes → Bytes → Bool
matches none value = false
matches (some v) value = streq v value

compare_fetched-strings :
    (o : Option Bytes) (v value : Bytes)
    → strings o ≡ some v
    → compare_fetched o value ≡ done (streq v value)
compare_fetched-strings none v value e = ground arith
compare_fetched-strings (some w) v value e = ground arith

module _ (lib : Library) (gdbm : IsGdbm lib) where
  fetched :
      (db : ℕ) (key : Bytes) (dbf : Databases lib) (v : Bytes)
      → db < max_db
      → get_db lib db (some key) dbf ≡ some v
      → strings (lib.fetch (datum (str_to_lower key)) (dbf db)) ≡ some v
  unfolding get_db
  fetched db key dbf v n e = ground arith

  -- Over a library that does what gdbm documents, check_db on a known database never reads a
  -- missing value: it tells whether get_db finds a value that equals the given one, for the user
  -- database the given one crypted.
  pub check_db-get_db :
      (db : ℕ) (key value : Bytes) (dbf : Databases lib)
      → db < max_db
      → check_db lib db (some key) (some value) dbf
        ≡ done (matches (get_db lib db (some key) dbf) (stored lib db value))
  unfolding check_db
  check_db-get_db db key value dbf n =
      let known : ltb db max_db ≡ true = ground arith in
      let low = exist_db-lower lib gdbm db key dbf in
      let found = exist_db-get_db lib gdbm db (some key) dbf in
      elim (Option-cases (get_db lib db (some key) dbf)) [
        | inl e ↦ rw (low, found, e) refl
        | inr (v, e) ↦
            rw (low, found, e, known)
              (compare_fetched-strings (lib.fetch (datum (str_to_lower key)) (dbf db)) v
                (stored lib db value) (fetched db key dbf v n e))
      ]

  -- Over a library that does what gdbm documents, and with crypted passwords free of NUL bytes:
  -- once add_db has made an account for a login that had none, check_db on that login, in upper or
  -- lower case, accepts a password exactly when it crypts to the same text as that of the account.
  pub add_db-check_db :
      (login other password attempt : Bytes) (dbf : Databases lib)
      → lacks 0 (lib.crypt password (codes "SL")) ≡ true
      → get_db lib user_db (some login) dbf ≡ none
      → same_key other login ≡ true
      → check_db lib user_db
          (some other)
          (some attempt)
          (add_db lib user_db (some login) (some password) dbf).1
        ≡ done (streq (lib.crypt password (codes "SL")) (lib.crypt attempt (codes "SL")))
  add_db-check_db login other password attempt dbf h e same =
      let after = (add_db lib user_db (some login) (some password) dbf).1 in
      let updated =
        (add_db-Updated lib gdbm user_db login password dbf (omega arith) h).1 user_db other in
      rw (check_db-get_db user_db other attempt after (omega arith), updated, same, e) refl
