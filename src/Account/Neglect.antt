-- ===== src/Account/Neglect.antt =====
-- Which accounts rmDeadAccounts of src/account.c removes.
use ebotula.Prelude.{
  ℕ, ◌≡◌, ◌∙◌, refl, inl, inr, Bool, true, false, not, ◌&&◌, ◌||◌, List, [], ◌∷◌, Option, none,
  some, ◌==◌, if◌then◌else◌, arith, Bool-cases,
}
use ebotula.CString.{Bytes}
use ebotula.Queue.Memory.{QueueData}
use ebotula.Database.Backend.{Library, IsGdbm}
use ebotula.Database.{
  user_db, channel_db, access_db, usertonick_db, timelog_db, nicktouser_db, Databases, del_db,
  get_db, list_db,
}
use ebotula.Database.Frame.{get_db-same, del_db-other}
use ebotula.Database.View.{same_key, del_db-Updated}
use ebotula.Account.Sessions.{get_db-same_key, get_db-log_out}
use ebotula.Account.Expiry.{is_older, is_named}
use ebotula.Account.{
  text_of, access_key, log_out, remove_rights, rm_access_rights, rm_account, is_dead, rm_dead,
  rm_dead_accounts,
}

-- the two databases that have one entry for each account
abbrev pub is_account : ℕ → Bool
is_account db = db == user_db || db == timelog_db

-- an entry of the account of a login behind the removal of the dead ones
abbrev pub spared : (lib : Library) → ℕ → List QueueData → ℕ → Databases lib → Bytes → Option Bytes
spared lib check_time logins db dbf login =
    if is_named login logins && is_older check_time (get_db lib timelog_db (some login) dbf)
    then none
    else get_db lib db (some login) dbf

module _ (lib : Library) (gdbm : IsGdbm lib) (db : ℕ) (is : is_account db ≡ true) where
  remove_rights-account :
      (login : Bytes) (channels : List QueueData) (dbf : Databases lib)
      → remove_rights lib login channels dbf db ≡ dbf db
  unfolding remove_rights
  remove_rights-account login [] dbf = refl
  remove_rights-account login (item ∷ rest) dbf =
      let key = some (access_key lib login item) in
      remove_rights-account login rest (del_db lib access_db key dbf).1
      ∙ del_db-other lib db access_db key dbf (ground arith)

  get_db-rm_account :
      (login : Bytes) (dbf : Databases lib) (k : Bytes)
      → get_db lib db (some k) (rm_account lib login dbf)
        ≡ (if same_key k login then none else get_db lib db (some k) dbf)
  unfolding rm_account rm_access_rights
  get_db-rm_account login dbf k =
      let out = log_out lib login dbf in
      let bare = (del_db lib access_db (some login) out).1 in
      let free = remove_rights lib login (list_db lib channel_db bare) bare in
      let gone = (del_db lib user_db (some login) free).1 in
      let same = get_db-same lib db (some k) free out (
        remove_rights-account login (list_db lib channel_db bare) bare
        ∙ del_db-other lib db access_db (some login) out (ground arith)) in
      let first = (del_db-Updated lib gdbm user_db login free (omega arith)).1 db k in
      let second = (del_db-Updated lib gdbm timelog_db login gone (omega arith)).1 db k in
      let zeroth = get_db-log_out lib gdbm login dbf db k in
      let no_user : (db == usertonick_db) ≡ false = ground arith in
      let no_nick : (db == nicktouser_db) ≡ false = ground arith in
      rw (second, first, same, zeroth, no_user, no_nick)
        (either (db == user_db) (db == timelog_db) (same_key k login) (get_db lib db (some k) dbf)
          is)
    where
      either :
          (u t h : Bool) (o : Option Bytes)
          → (u || t) ≡ true
          → (if t && h then none else if u && h then none else o) ≡ (if h then none else o)
      either true true true o e = refl
      either true true false o e = refl
      either true false h o e = refl
      either false true true o e = refl
      either false true false o e = refl
      either false false h o e = absurd cc

  abbrev step : ℕ → Bytes → Databases lib → Databases lib
  step check_time login dbf =
      if is_dead lib check_time login dbf then rm_account lib login dbf else dbf

  get_db-step :
      (check_time : ℕ) (login : Bytes) (dbf : Databases lib) (k : Bytes)
      → get_db lib db (some k) (step check_time login dbf) ≡ (
          if same_key k login && is_older check_time (get_db lib timelog_db (some k) dbf)
          then none
          else get_db lib db (some k) dbf)
  get_db-step check_time login dbf k =
      get_db-if (is_dead lib check_time login dbf) (rm_account lib login dbf) dbf k
      ∙ elim (Bool-cases (same_key k login)) [
        | inr miss ↦ rw (get_db-rm_account login dbf k, miss) (if-same _ _)
        | inl hit ↦
            rw (get_db-rm_account login dbf k, hit, get_db-same_key lib timelog_db k login dbf hit)
              refl
      ]
    where
      if-same : (b : Bool) (o : Option Bytes) → (if b then o else o) ≡ o
      if-same true o = refl
      if-same false o = refl

      get_db-if :
          (b : Bool) (x y : Databases lib) (k : Bytes)
          → get_db lib db (some k) (if b then x else y)
            ≡ (if b then get_db lib db (some k) x else get_db lib db (some k) y)
      get_db-if true x y k = refl
      get_db-if false x y k = refl

module _ (lib : Library) (gdbm : IsGdbm lib) where
  rm_dead-spared :
      (db check_time : ℕ) (logins : List QueueData) (dbf : Databases lib) (k : Bytes)
      → is_account db ≡ true
      → get_db lib db (some k) (rm_dead lib check_time logins dbf)
        ≡ spared lib check_time logins db dbf k
  unfolding rm_dead
  rm_dead-spared db check_time [] dbf k is = refl
  rm_dead-spared db check_time (item ∷ rest) dbf k is =
      let login = text_of item in
      let next = step lib gdbm db is check_time login dbf in
      rw
        (
          rm_dead-spared db check_time rest next k is,
          get_db-step lib gdbm timelog_db refl check_time login dbf k,
          get_db-step lib gdbm db is check_time login dbf k,
        )
        (joined (same_key k login) (is_named k rest) check_time (get_db lib timelog_db (some k) dbf)
          (get_db lib db (some k) dbf))
    where
      is_older-if :
          (x : Bool) (check_time : ℕ) (time : Option Bytes)
          → is_older check_time (if x then none else time) ≡ not x && is_older check_time time
      is_older-if true check_time time = refl
      is_older-if false check_time time = refl

      both :
          (here behind old : Bool) (o : Option Bytes)
          → (if behind && (not (here && old) && old) then none else if here && old then none else o)
            ≡ (if (here || behind) && old then none else o)
      both true true true o = refl
      both true true false o = refl
      both true false true o = refl
      both true false false o = refl
      both false true true o = refl
      both false true false o = refl
      both false false old o = refl

      joined :
          (here behind : Bool) (check_time : ℕ) (time o : Option Bytes)
          → (if behind
                && is_older check_time (if here && is_older check_time time then none else time)
              then none
              else if here && is_older check_time time
              then none
              else o)
            ≡ (if (here || behind) && is_older check_time time then none else o)
      joined here behind check_time time o =
          rw (is_older-if (here && is_older check_time time) check_time time)
            (both here behind (is_older check_time time) o)

  -- Over a library that does what gdbm documents, rmDeadAccounts removes exactly the accounts of
  -- the logins that the time log lists, upper and lower case alike, with a time in front of the
  -- given one: for each login, its entries in the user database and in the time log are gone
  -- behind the sweep when this holds, and are as they were before otherwise.
  pub rm_dead_accounts-Spared :
      (check_time : ℕ) (dbf : Databases lib) (login : Bytes)
      → let after = rm_dead_accounts lib check_time dbf in
        let listed = list_db lib timelog_db dbf in
        (get_db lib user_db (some login) after ≡ spared lib check_time listed user_db dbf login)
        × (get_db lib timelog_db (some login) after
            ≡ spared lib check_time listed timelog_db dbf login)
  unfolding rm_dead_accounts
  rm_dead_accounts-Spared check_time dbf login = (
    rm_dead-spared user_db check_time (list_db lib timelog_db dbf) dbf login refl,
    rm_dead-spared timelog_db check_time (list_db lib timelog_db dbf) dbf login refl,
  )
