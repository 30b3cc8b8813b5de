-- ===== src/Database/Frame.antt =====
-- An operation of src/dbaccess.c touches the database it is called for, and no other; nothing is
-- asked of gdbm.
use ebotula.Prelude.{ℕ, ◌≡◌, refl, inl, inr, false, Option, none, some, ◌==◌, ltb, Bool-cases}
use ebotula.CString.{Bytes}
use ebotula.Utilities.{str_to_lower}
use ebotula.Database.Backend.{Library}
use ebotula.Database.{max_db, Databases, exist_db, add_db, replace_db, del_db, get_db}

-- what get_db finds depends on that database alone
pub get_db-same :
    (lib : Library) (db : ℕ) (key : Option Bytes) (new old : Databases lib)
    → new db ≡ old db
    → get_db lib db key new ≡ get_db lib db key old
unfolding get_db
get_db-same lib db none new old e = refl
get_db-same lib db (some key) new old e = rw e refl

module _ (lib : Library) (other : ℕ) where
  pub add_db-other :
      (db : ℕ) (key value : Option Bytes) (dbf : Databases lib)
      → (other == db) ≡ false
      → (add_db lib db key value dbf).1 other ≡ dbf other
  unfolding add_db
  add_db-other db none value dbf h = refl
  add_db-other db (some key) none dbf h = refl
  add_db-other db (some key) (some value) dbf h =
      elim (Bool-cases (exist_db lib db (some (str_to_lower key)) dbf)) [
        | inl e ↦ rw e refl
        | inr e ↦ elim (Bool-cases (ltb db max_db)) [
          | inl k ↦ rw (e, k, h) refl
          | inr k ↦ rw (e, k) refl
        ]
      ]

  pub replace_db-other :
      (db : ℕ) (key value : Option Bytes) (dbf : Databases lib)
      → (other == db) ≡ false
      → (replace_db lib db key value dbf).1 other ≡ dbf other
  unfolding replace_db
  replace_db-other db none value dbf h = refl
  replace_db-other db (some key) none dbf h = refl
  replace_db-other db (some key) (some value) dbf h =
      elim (Bool-cases (exist_db lib db (some key) dbf)) [
        | inr e ↦ rw e refl
        | inl e ↦ elim (Bool-cases (ltb db max_db)) [
          | inl k ↦ rw (e, k, h) refl
          | inr k ↦ rw (e, k) refl
        ]
      ]

  pub del_db-other :
      (db : ℕ) (key : Option Bytes) (dbf : Databases lib)
      → (other == db) ≡ false
      → (del_db lib db key dbf).1 other ≡ dbf other
  unfolding del_db
  del_db-other db none dbf h = refl
  del_db-other db (some key) dbf h = elim (Bool-cases (exist_db lib db (some key) dbf)) [
    | inr e ↦ rw e refl
    | inl e ↦ elim (Bool-cases (ltb db max_db)) [
      | inl k ↦ rw (e, k, h) refl
      | inr k ↦ rw (e, k) refl
    ]
  ]
