-- ===== src/Database/Backend.antt =====
-- What src/dbaccess.c calls: the operations of gdbm on one open database file, and `crypt`.
use ebotula.Prelude.{◌≡◌, Bool, true, List, Option, none, some, is_some, if◌then◌else◌}
use ebotula.CString.{Bytes, streq}

-- `insert` is gdbm_store with GDBM_INSERT and `replace` with GDBM_REPLACE; with `delete` they tell
-- whether gdbm returns 0. `keys` are those of gdbm_firstkey and gdbm_nextkey in their order.
pub record Library : Type 1 where
  pub Store : Type 0
  pub insert : Bytes → Bytes → Store → Bool × Store
  pub replace : Bytes → Bytes → Store → Bool × Store
  pub delete : Bytes → Store → Bool × Store
  pub exists : Bytes → Store → Bool
  pub fetch : Bytes → Store → Option Bytes
  pub keys : Store → List Bytes
  pub crypt : Bytes → Bytes → Bytes

-- What gdbm documents of a database that is open for writing, without an I/O error: a key has one
-- value, a store of a key that is allowed succeeds and changes that key alone.
pub record IsGdbm (lib : Library) : Type 0 where
  pub exists-fetch : (k : Bytes) (s : lib.Store) → lib.exists k s ≡ is_some (lib.fetch k s)
  pub insert_new :
      (k v : Bytes) (s : lib.Store) → lib.fetch k s ≡ none → (lib.insert k v s).0 ≡ true
  pub fetch-insert :
      (k v : Bytes) (s : lib.Store) (j : Bytes)
      → lib.fetch k s ≡ none
      → lib.fetch j (lib.insert k v s).1 ≡ (if streq j k then some v else lib.fetch j s)
  pub replace_done : (k v : Bytes) (s : lib.Store) → (lib.replace k v s).0 ≡ true
  pub fetch-replace :
      (k v : Bytes) (s : lib.Store) (j : Bytes)
      → lib.fetch j (lib.replace k v s).1 ≡ (if streq j k then some v else lib.fetch j s)
  pub delete_found :
      (k : Bytes) (s : lib.Store) → is_some (lib.fetch k s) ≡ true → (lib.delete k s).0 ≡ true
  pub fetch-delete :
      (k : Bytes) (s : lib.Store) (j : Bytes)
      → lib.fetch j (lib.delete k s).1 ≡ (if streq j k then none else lib.fetch j s)
