-- ===== src/Database/InMemory.antt =====
-- A library that keeps the databases of src/dbaccess.c in memory, for the tests.
use ebotula.Prelude.{
  refl, true, false, List, [], ◌∷◌, ◌++◌, Option, none, some, is_some, if◌then◌else◌,
}
use ebotula.CString.{Bytes, streq}
use ebotula.Database.Backend.{Library, IsGdbm}
use ebotula.Database.{Databases}

abbrev pub Memory : Type 0
Memory = (Bytes → Option Bytes) × List Bytes

abbrev without : Bytes → List Bytes → List Bytes
without k [] = []
without k (j ∷ js) = let rest = without k js in if streq j k then rest else j ∷ rest

abbrev write : Bytes → Option Bytes → Memory → Memory
write k v s = ((λ j. if streq j k then v else s.0 j), s.1)

abbrev pub in_memory : Library
in_memory = record {
  Store = Memory;
  insert =
      λ k v s. if is_some (s.0 k) then (false, s) else (true, ((write k (some v) s).0, k ∷ s.1));
  replace = λ k v s. (true, write k (some v) s);
  delete = λ k s. (is_some (s.0 k), ((write k none s).0, without k s.1));
  exists = λ k s. is_some (s.0 k);
  fetch = λ k s. s.0 k;
  keys = λ s. s.1;
  crypt = λ key salt. salt ++ key;
}

pub in_memory-IsGdbm : IsGdbm in_memory
in_memory-IsGdbm = record {
  exists-fetch = λ k s. refl;
  insert_new = λ k v s e. rw e refl;
  fetch-insert = λ k v s j e. rw e refl;
  replace_done = λ k v s. refl;
  fetch-replace = λ k v s j. refl;
  delete_found = λ k s e. e;
  fetch-delete = λ k s j. refl;
}

abbrev pub no_entries : Databases in_memory
no_entries = λ _. ((λ _. none), [])
