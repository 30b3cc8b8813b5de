-- ===== src/Account/Frame.antt =====
-- The databases that the sessions of src/account.c touch: the two of the sessions and the time log.
use ebotula.Prelude.{
  ℕ, ◌≡◌, ◌∙◌, refl, inl, inr, Bool, true, false, not, ◌||◌, Option, none, some, ◌==◌, Bool-cases,
  Option-cases, arith,
}
use ebotula.CString.{Bytes}
use ebotula.Database.Backend.{Library}
use ebotula.Database.{
  usertonick_db, timelog_db, nicktouser_db, Databases, exist_db, add_db, del_db, get_db,
}
use ebotula.Database.Frame.{add_db-other, replace_db-other, del_db-other}
use ebotula.Account.{rebind, bind_session, stamp, log_on, log_out}

-- a database of the accounts and channels, and not of the sessions
abbrev pub is_lasting : ℕ → Bool
is_lasting db = not (db == usertonick_db || db == timelog_db || db == nicktouser_db)

module _ (lib : Library) (db : ℕ) (h : is_lasting db ≡ true) where
  no_user : (db == usertonick_db) ≡ false
  no_user = ground arith

  no_time : (db == timelog_db) ≡ false
  no_time = ground arith

  no_nick : (db == nicktouser_db) ≡ false
  no_nick = ground arith

  rebind-lasting :
      (old netmask : Option Bytes) (login : Bytes) (dbf : Databases lib)
      → rebind lib old netmask login dbf db ≡ dbf db
  rebind-lasting none netmask login dbf = refl
  rebind-lasting (some old) netmask login dbf =
      let freed = (del_db lib nicktouser_db (some old) dbf).1 in
      let bound = (add_db lib nicktouser_db netmask (some login) freed).1 in
      replace_db-other lib db usertonick_db (some login) netmask bound no_user
      ∙ add_db-other lib db nicktouser_db netmask (some login) freed no_nick
      ∙ del_db-other lib db nicktouser_db (some old) dbf no_nick

  bind_session-lasting :
      (netmask : Option Bytes) (login : Bytes) (dbf : Databases lib)
      → bind_session lib netmask login dbf db ≡ dbf db
  unfolding bind_session
  bind_session-lasting netmask login dbf =
      elim (Bool-cases (exist_db lib usertonick_db (some login) dbf)) [
        | inl e ↦
            rw e (rebind-lasting (get_db lib usertonick_db (some login) dbf) netmask login dbf)
        | inr e ↦
            let bound = (add_db lib nicktouser_db netmask (some login) dbf).1 in
            rw e (
              add_db-other lib db usertonick_db (some login) netmask bound no_user
              ∙ add_db-other lib db nicktouser_db netmask (some login) dbf no_nick)
      ]

  pub log_on-lasting :
      (netmask : Option Bytes) (login time : Bytes) (dbf : Databases lib)
      → log_on lib netmask login time dbf db ≡ dbf db
  unfolding log_on stamp
  log_on-lasting netmask login time dbf =
      let bound = bind_session lib netmask login dbf in
      let same = bind_session-lasting netmask login dbf in
      elim (Bool-cases (exist_db lib timelog_db (some login) bound)) [
        | inl e ↦
            rw e (replace_db-other lib db timelog_db (some login) (some time) bound no_time ∙ same)
        | inr e ↦
            rw e (add_db-other lib db timelog_db (some login) (some time) bound no_time ∙ same)
      ]

  pub log_out-lasting : (login : Bytes) (dbf : Databases lib) → log_out lib login dbf db ≡ dbf db
  unfolding log_out
  log_out-lasting login dbf = elim (Option-cases (get_db lib usertonick_db (some login) dbf)) [
    | inl e ↦ rw e refl
    | inr (m, e) ↦
        let freed = (del_db lib nicktouser_db (some m) dbf).1 in
        rw e (
          del_db-other lib db usertonick_db (some login) freed no_user
          ∙ del_db-other lib db nicktouser_db (some m) dbf no_nick)
  ]
