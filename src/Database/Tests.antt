-- ===== src/Database/Tests.antt =====
-- Runs of src/dbaccess.c over a library in memory.
use ebotula.Prelude.{◌≡◌, refl, not, none, some, is_some, arith}
use ebotula.CString.{codes, streq}
use ebotula.Utilities.{str_to_lower}
use ebotula.CString.Outcome.{done}
use ebotula.Database.{user_db, channel_db, add_db, replace_db, del_db, check_db, get_db}
use ebotula.Database.View.{
  or_else, and_then, Updated, add_db-Updated, replace_db-Updated, del_db-Updated,
}
use ebotula.Database.Password.{add_db-check_db}
use ebotula.Database.InMemory.{in_memory, in_memory-IsGdbm, no_entries}

add_db-Updated_example :
    let old = get_db in_memory channel_db (some (codes "#C")) no_entries in
    let ran = add_db in_memory channel_db (some (codes "#C")) (some (codes "+t")) no_entries in
    (ran.0 ≡ not (is_some old))
    × Updated in_memory no_entries ran.1 channel_db (codes "#C") (or_else old (some (codes "+t")))
add_db-Updated_example =
    add_db-Updated in_memory in_memory-IsGdbm channel_db (codes "#C") (codes "+t") no_entries
      (omega arith) refl

replace_db-Updated_example :
    let old = get_db in_memory channel_db (some (codes "#C")) no_entries in
    let ran = replace_db in_memory channel_db (some (codes "#C")) (some (codes "+t")) no_entries in
    (ran.0 ≡ is_some old)
    × Updated in_memory no_entries ran.1 channel_db (codes "#C") (and_then old (some (codes "+t")))
replace_db-Updated_example =
    replace_db-Updated in_memory in_memory-IsGdbm channel_db (codes "#C") (codes "+t") no_entries
      (omega arith) refl

del_db-Updated_example :
    let ran = del_db in_memory channel_db (some (codes "#C")) no_entries in
    (ran.0 ≡ is_some (get_db in_memory channel_db (some (codes "#C")) no_entries))
    × Updated in_memory no_entries ran.1 channel_db (codes "#C") none
del_db-Updated_example =
    del_db-Updated in_memory in_memory-IsGdbm channel_db (codes "#C") no_entries (omega arith)

add_db-check_db_example :
    check_db in_memory user_db
      (some (codes "BOB"))
      (some (codes "pW"))
      (add_db in_memory user_db (some (codes "bob")) (some (codes "pw")) no_entries).1
    ≡ done (
        streq
          (in_memory.crypt (codes "pw") (codes "SL"))
          (in_memory.crypt (codes "pW") (codes "SL")))
unfolding get_db str_to_lower streq
add_db-check_db_example =
    add_db-check_db in_memory in_memory-IsGdbm (codes "bob") (codes "BOB") (codes "pw") (codes "pW")
      no_entries refl refl refl
