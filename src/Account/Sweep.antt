-- ===== src/Account/Sweep.antt =====
-- rmDeadLogins and rmDeadAccounts of src/account.c and the sessions.
use ebotula.Prelude.{
  ℕ, ◌≡◌, ◌∙◌, refl, Bool, true, false, ◌&&◌, ◌||◌, List, [], ◌∷◌, Option, none, some, ◌==◌,
  if◌then◌else◌, arith,
}
use ebotula.CString.{Bytes}
use ebotula.Queue.Memory.{QueueData}
use ebotula.Database.Backend.{Library, IsGdbm}
use ebotula.Database.{
  user_db, channel_db, access_db, usertonick_db, timelog_db, nicktouser_db, Databases, exist_db,
  del_db, get_db, list_db,
}
use ebotula.Database.Frame.{get_db-same, del_db-other}
use ebotula.Account.Sessions.{Held, Consistent, log_out-Consistent}
use ebotula.Account.{
  text_of, access_key, log_out, remove_rights, rm_access_rights, rm_account, is_dead, log_out_dead,
  rm_dead_logins, rm_dead, rm_dead_accounts,
}

-- a database that the sessions are read from
abbrev is_session : ℕ → Bool
is_session db = db == usertonick_db || db == nicktouser_db

module _ (lib : Library) where
  Held-frame :
      (dbf after : Databases lib) (login : Bytes) (o : Option Bytes)
      → after nicktouser_db ≡ dbf nicktouser_db
      → Held lib dbf login o
      → Held lib after login o
  Held-frame dbf after login none e h = tt
  Held-frame dbf after login (some netmask) e (owner, g, k) =
      (owner, get_db-same lib nicktouser_db (some netmask) after dbf e ∙ g, k)

  -- nothing but these two databases counts
  Consistent-frame :
      (dbf after : Databases lib)
      → ((db : ℕ) → is_session db ≡ true → after db ≡ dbf db)
      → Consistent lib dbf
      → Consistent lib after
  Consistent-frame dbf after same c login =
      let e = get_db-same lib usertonick_db (some login) after dbf (same usertonick_db refl) in
      rw e (
        Held-frame dbf after login (get_db lib usertonick_db (some login) dbf)
          (same nicktouser_db refl) (c login))

  del_db-session :
      (db other : ℕ) (key : Option Bytes) (dbf : Databases lib)
      → is_session db ≡ true
      → is_session other ≡ false
      → (del_db lib other key dbf).1 db ≡ dbf db
  del_db-session db other key dbf h g = del_db-other lib db other key dbf (ground arith)

  remove_rights-session :
      (db : ℕ) (login : Bytes) (channels : List QueueData) (dbf : Databases lib)
      → is_session db ≡ true
      → remove_rights lib login channels dbf db ≡ dbf db
  unfolding remove_rights
  remove_rights-session db login [] dbf h = refl
  remove_rights-session db login (item ∷ rest) dbf h =
      let key = some (access_key lib login item) in
      remove_rights-session db login rest (del_db lib access_db key dbf).1 h
      ∙ del_db-session db access_db key dbf h refl

module _ (lib : Library) (gdbm : IsGdbm lib) where
  -- rmAccount ends the session of the login, and touches no other session
  pub rm_account-Consistent :
      (login : Bytes) (dbf : Databases lib)
      → Consistent lib dbf
      → Consistent lib (rm_account lib login dbf)
  unfolding rm_account rm_access_rights
  rm_account-Consistent login dbf c =
      let out = log_out lib login dbf in
      let bare = (del_db lib access_db (some login) out).1 in
      let free = remove_rights lib login (list_db lib channel_db bare) bare in
      let gone = (del_db lib user_db (some login) free).1 in
      Consistent-frame lib out (rm_account lib login dbf)
        (λ db h.
          del_db-session lib db timelog_db (some login) gone h refl
          ∙ del_db-session lib db user_db (some login) free h refl
          ∙ remove_rights-session lib db login (list_db lib channel_db bare) bare h
          ∙ del_db-session lib db access_db (some login) out h refl)
        (log_out-Consistent lib gdbm login dbf c)

  if-Consistent :
      (b : Bool) (x y : Databases lib)
      → Consistent lib x
      → Consistent lib y
      → Consistent lib (if b then x else y)
  if-Consistent true x y h k = h
  if-Consistent false x y h k = k

  log_out_dead-Consistent :
      (check_time : ℕ) (logins : List QueueData) (dbf : Databases lib)
      → Consistent lib dbf
      → Consistent lib (log_out_dead lib check_time logins dbf)
  unfolding log_out_dead
  log_out_dead-Consistent check_time [] dbf c = c
  log_out_dead-Consistent check_time (item ∷ rest) dbf c =
      let login = text_of item in
      let dead = is_dead lib check_time login dbf && exist_db lib usertonick_db (some login) dbf in
      log_out_dead-Consistent check_time rest (if dead then log_out lib login dbf else dbf)
        (if-Consistent dead (log_out lib login dbf) dbf (log_out-Consistent lib gdbm login dbf c) c)

  pub rm_dead_logins-Consistent :
      (check_time : ℕ) (dbf : Databases lib)
      → Consistent lib dbf
      → Consistent lib (rm_dead_logins lib check_time dbf)
  unfolding rm_dead_logins
  rm_dead_logins-Consistent check_time dbf c =
      log_out_dead-Consistent check_time (list_db lib user_db dbf) dbf c

  rm_dead-Consistent :
      (check_time : ℕ) (logins : List QueueData) (dbf : Databases lib)
      → Consistent lib dbf
      → Consistent lib (rm_dead lib check_time logins dbf)
  unfolding rm_dead
  rm_dead-Consistent check_time [] dbf c = c
  rm_dead-Consistent check_time (item ∷ rest) dbf c =
      let login = text_of item in
      let dead = is_dead lib check_time login dbf in
      rm_dead-Consistent check_time rest (if dead then rm_account lib login dbf else dbf)
        (if-Consistent dead (rm_account lib login dbf) dbf (rm_account-Consistent login dbf c) c)

  pub rm_dead_accounts-Consistent :
      (check_time : ℕ) (dbf : Databases lib)
      → Consistent lib dbf
      → Consistent lib (rm_dead_accounts lib check_time dbf)
  unfolding rm_dead_accounts
  rm_dead_accounts-Consistent check_time dbf c =
      rm_dead-Consistent check_time (list_db lib timelog_db dbf) dbf c
