-- ===== src/Account/Tests.antt =====
-- Sessions and removals of src/account.c over a library in memory.
use ebotula.Prelude.{◌≡◌, refl, [], ◌∷◌, ◌++◌, none, some, ◌==◌, if◌then◌else◌, All, arith}
use ebotula.Utilities.{str_to_lower}
use ebotula.CString.{streq, codes, take_until}
use ebotula.Database.InMemory.{in_memory, in_memory-IsGdbm, no_entries}
use ebotula.Database.{
  Databases, user_db, channel_db, access_db, usertonick_db, nicktouser_db, timelog_db, get_db,
  list_db, datum,
}
use ebotula.Account.{text_of, log_on, log_out, rm_account, rm_dead_logins, rm_dead_accounts}
use ebotula.Account.Sessions.{Consistent, log_on-session, log_out-ended}
use ebotula.Account.LogOn.{log_on-Consistent}
use ebotula.Account.Expiry.{rm_dead_logins-Swept}
use ebotula.Account.Neglect.{rm_dead_accounts-Spared}
use ebotula.Account.Removal.{rm_account-gone}

-- every login has the netmask `n!u@h`, which is bob's, and there is one channel
abbrev one_session : Databases in_memory
one_session = λ db.
    if db == usertonick_db
    then ((λ _. some (datum (codes "n!u@h"))), [])
    else if db == channel_db
    then ((λ _. none), datum (codes "#c") ∷ [])
    else ((λ _. none), [])

-- only `bob` has logged in
abbrev logged : Databases in_memory
logged = log_on in_memory (some (codes "bob!u@h")) (codes "bob") (codes "1000") no_entries

logged-Consistent : Consistent in_memory logged
unfolding get_db
logged-Consistent =
    log_on-Consistent in_memory in_memory-IsGdbm (codes "bob!u@h") (codes "bob") no_entries refl
      refl refl (codes "1000") refl (λ login. tt)

bob_session : get_db in_memory usertonick_db (some (codes "bob")) logged ≡ some (codes "bob!u@h")
unfolding get_db
bob_session =
    (log_on-session in_memory in_memory-IsGdbm (codes "bob!u@h") (codes "bob") (codes "1000")
      no_entries refl refl refl refl).1

log_out-ended_example :
    let after = log_out in_memory (codes "bob") logged in
    (get_db in_memory usertonick_db (some (codes "Bob")) after ≡ none)
    × (get_db in_memory nicktouser_db (some (codes "Bob")) after
        ≡ get_db in_memory nicktouser_db (some (codes "Bob")) logged)
    × Consistent in_memory after
unfolding streq str_to_lower
log_out-ended_example =
    log_out-ended in_memory in_memory-IsGdbm (codes "bob") (codes "bob!u@h") (codes "Bob") logged
      logged-Consistent bob_session

rm_account-gone_example :
    let after = rm_account in_memory (codes "bob") one_session in
    (get_db in_memory user_db (some (codes "bob")) after ≡ none)
    × (get_db in_memory timelog_db (some (codes "bob")) after ≡ none)
    × (get_db in_memory usertonick_db (some (codes "bob")) after ≡ none)
    × (get_db in_memory access_db (some (codes "bob")) after ≡ none)
    × All
        (λ item. get_db in_memory access_db (some (codes "bob" ++ text_of item)) after ≡ none)
        (list_db in_memory channel_db one_session)
unfolding list_db take_until
rm_account-gone_example =
    rm_account-gone in_memory in_memory-IsGdbm (codes "bob") one_session (omega arith, tt)

-- amy and bob have accounts, and every login has a session from the time 500
abbrev old_sessions : Databases in_memory
old_sessions = λ db.
    if db == user_db
    then ((λ _. some (datum (codes "SLpw"))), datum (codes "amy") ∷ datum (codes "bob") ∷ [])
    else if db == usertonick_db
    then ((λ _. some (datum (codes "n!u@h"))), [])
    else if db == timelog_db
    then ((λ _. some (datum (codes "500"))), [])
    else ((λ _. none), [])

rm_dead_logins-Swept_example :
    let after = rm_dead_logins in_memory 1000 old_sessions in
    (get_db in_memory usertonick_db (some (codes "Bob")) after ≡ none)
    × (get_db in_memory timelog_db (some (codes "Bob")) after ≡ some (codes "500"))
unfolding get_db list_db streq str_to_lower take_until
rm_dead_logins-Swept_example =
    rm_dead_logins-Swept in_memory in_memory-IsGdbm 1000 old_sessions (codes "Bob")

-- amy and bob have accounts and times in the time log, but bob is not in its list
abbrev old_accounts : Databases in_memory
old_accounts = λ db.
    if db == user_db
    then ((λ _. some (datum (codes "SLpw"))), datum (codes "amy") ∷ datum (codes "bob") ∷ [])
    else if db == timelog_db
    then ((λ _. some (datum (codes "500"))), datum (codes "amy") ∷ [])
    else ((λ _. none), [])

rm_dead_accounts-Spared_example :
    let after = rm_dead_accounts in_memory 1000 old_accounts in
    (get_db in_memory user_db (some (codes "Amy")) after ≡ none)
    × (get_db in_memory timelog_db (some (codes "Amy")) after ≡ none)
unfolding get_db list_db streq str_to_lower take_until
rm_dead_accounts-Spared_example =
    rm_dead_accounts-Spared in_memory in_memory-IsGdbm 1000 old_accounts (codes "Amy")
