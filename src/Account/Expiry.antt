-- ===== src/Account/Expiry.antt =====
-- Which sessions rmDeadLogins of src/account.c ends.
use ebotula.Prelude.{
  ℕ, ◌≡◌, ◌∙◌, refl, inl, inr, Bool, true, false, ◌&&◌, ◌||◌, List, [], ◌∷◌, Option, none, some,
  ltb, if◌then◌else◌, is_some, Bool-cases,
}
use ebotula.CString.{Bytes}
use ebotula.Queue.Memory.{QueueData}
use ebotula.Database.Backend.{Library, IsGdbm}
use ebotula.Database.{user_db, usertonick_db, timelog_db, Databases, exist_db, get_db, list_db}
use ebotula.Database.View.{same_key, exist_db-get_db}
use ebotula.Account.Sessions.{get_db-same_key, get_db-log_out}
use ebotula.Account.{text_of, atol, log_out, is_dead, log_out_dead, rm_dead_logins}

-- whether this time of the time log is in front of `check_time`
abbrev pub is_older : ℕ → Option Bytes → Bool
is_older check_time none = false
is_older check_time (some time) = ltb (atol time) check_time

-- whether the login is one of these, in upper or lower case
abbrev pub is_named : Bytes → List QueueData → Bool
is_named login [] = false
is_named login (item ∷ rest) = same_key login (text_of item) || is_named login rest

-- the netmask of the login behind the sweep
abbrev pub swept : (lib : Library) → ℕ → List QueueData → Databases lib → Bytes → Option Bytes
swept lib check_time logins dbf login =
    if is_named login logins && is_older check_time (get_db lib timelog_db (some login) dbf)
    then none
    else get_db lib usertonick_db (some login) dbf

module _ (lib : Library) (gdbm : IsGdbm lib) where
  -- a step of the loop for a login that the list names, which leaves the time log as it is
  abbrev step : ℕ → Bytes → Databases lib → Databases lib
  step check_time login dbf =
      if is_dead lib check_time login dbf && exist_db lib usertonick_db (some login) dbf
      then log_out lib login dbf
      else dbf

  step-timelog :
      (check_time : ℕ) (login : Bytes) (dbf : Databases lib) (k : Bytes)
      → get_db lib timelog_db (some k) (step check_time login dbf)
        ≡ get_db lib timelog_db (some k) dbf
  step-timelog check_time login dbf k =
      elim (Bool-cases
        (is_dead lib check_time login dbf && exist_db lib usertonick_db (some login) dbf)) [
          | inl e ↦ rw e (rw (get_db-log_out lib gdbm login dbf timelog_db k) refl)
          | inr e ↦ rw e refl
        ]

  step-usertonick :
      (check_time : ℕ) (login : Bytes) (dbf : Databases lib) (k : Bytes)
      → get_db lib usertonick_db (some k) (step check_time login dbf) ≡ (
          if same_key k login && is_older check_time (get_db lib timelog_db (some k) dbf)
          then none
          else get_db lib usertonick_db (some k) dbf)
  step-usertonick check_time login dbf k =
      get_db-if (is_dead lib check_time login dbf && exist_db lib usertonick_db (some login) dbf)
        (log_out lib login dbf) dbf k
      ∙ elim (Bool-cases (same_key k login)) [
        | inr miss ↦ rw (get_db-log_out lib gdbm login dbf usertonick_db k, miss) (if-same _ _)
        | inl hit ↦
            rw
              (
                get_db-log_out lib gdbm login dbf usertonick_db k,
                hit,
                get_db-same_key lib timelog_db k login dbf hit,
                get_db-same_key lib usertonick_db k login dbf hit,
                exist_db-get_db lib gdbm usertonick_db (some login) dbf,
              )
              (ended (is_older check_time (get_db lib timelog_db (some login) dbf))
                (get_db lib usertonick_db (some login) dbf))
      ]
    where
      if-same : (b : Bool) (o : Option Bytes) → (if b then o else o) ≡ o
      if-same true o = refl
      if-same false o = refl

      get_db-if :
          (b : Bool) (x y : Databases lib) (k : Bytes)
          → get_db lib usertonick_db (some k) (if b then x else y) ≡ (
              if b
              then get_db lib usertonick_db (some k) x
              else get_db lib usertonick_db (some k) y)
      get_db-if true x y k = refl
      get_db-if false x y k = refl

      ended :
          (old : Bool) (o : Option Bytes)
          → (if old && is_some o then none else o) ≡ (if old then none else o)
      ended true none = refl
      ended true (some m) = refl
      ended false o = refl

  log_out_dead-usertonick :
      (check_time : ℕ) (logins : List QueueData) (dbf : Databases lib) (k : Bytes)
      → get_db lib usertonick_db (some k) (log_out_dead lib check_time logins dbf)
        ≡ swept lib check_time logins dbf k
  unfolding log_out_dead
  log_out_dead-usertonick check_time [] dbf k = refl
  log_out_dead-usertonick check_time (item ∷ rest) dbf k =
      let login = text_of item in
      rw
        (
          log_out_dead-usertonick check_time rest (step check_time login dbf) k,
          step-timelog check_time login dbf k,
          step-usertonick check_time login dbf k,
        )
        (joined (same_key k login) (is_named k rest)
          (is_older check_time (get_db lib timelog_db (some k) dbf))
          (get_db lib usertonick_db (some k) dbf))
    where
      joined :
          (here behind old : Bool) (o : Option Bytes)
          → (if behind && old then none else if here && old then none else o)
            ≡ (if (here || behind) && old then none else o)
      joined true true true o = refl
      joined true true false o = refl
      joined true false true o = refl
      joined true false false o = refl
      joined false true true o = refl
      joined false true false o = refl
      joined false false old o = refl

  log_out_dead-timelog :
      (check_time : ℕ) (logins : List QueueData) (dbf : Databases lib) (k : Bytes)
      → get_db lib timelog_db (some k) (log_out_dead lib check_time logins dbf)
        ≡ get_db lib timelog_db (some k) dbf
  unfolding log_out_dead
  log_out_dead-timelog check_time [] dbf k = refl
  log_out_dead-timelog check_time (item ∷ rest) dbf k =
      log_out_dead-timelog check_time rest (step check_time (text_of item) dbf) k
      ∙ step-timelog check_time (text_of item) dbf k

  -- Over a library that does what gdbm documents, rmDeadLogins ends the sessions of exactly those
  -- logins that the user database lists, upper and lower case alike, and whose time in the time log
  -- is in front of the given time: for each login, it has no netmask behind the sweep when this
  -- holds, and the netmask it had before otherwise. The time log is left as it is.
  pub rm_dead_logins-Swept :
      (check_time : ℕ) (dbf : Databases lib) (login : Bytes)
      → let after = rm_dead_logins lib check_time dbf in
        (get_db lib usertonick_db (some login) after
          ≡ swept lib check_time (list_db lib user_db dbf) dbf login)
        × (get_db lib timelog_db (some login) after ≡ get_db lib timelog_db (some login) dbf)
  unfolding rm_dead_logins
  rm_dead_logins-Swept check_time dbf login = (
    log_out_dead-usertonick check_time (list_db lib user_db dbf) dbf login,
    log_out_dead-timelog check_time (list_db lib user_db dbf) dbf login,
  )
