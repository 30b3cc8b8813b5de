-- ===== src/Account.antt =====
-- src/account.c: sessions, access levels and the removal of accounts, over the databases of
-- Database. Log messages are left out. A login queue is the list of its items; popQueue takes the
-- oldest first (Queue/Fifo). `mutexAccount` makes each session change one step.
pub mod Frame
pub mod Sessions
pub mod LogOn
pub mod Levels
pub mod Removal
pub mod Expiry
pub mod Neglect
pub mod Sweep
mod Tests
use ebotula.Prelude.{
  ℕ, ◌+◌, ◌-◌, ◌*◌, Bool, true, false, List, [], ◌∷◌, ◌++◌, Option, none, some, ltb, leb, ◌&&◌,
  ◌==◌, if◌then◌else◌, is_some, length, take,
}
use ebotula.CString.{Bytes, strchr, is_digit}
use ebotula.CString.Outcome.{Outcome, done, fault}
use ebotula.Queue.Memory.{QueueData}
use ebotula.Database.Backend.{Library}
use ebotula.Database.{
  user_db, channel_db, access_db, usertonick_db, timelog_db, nicktouser_db, c_string, Databases,
  exist_db, add_db, replace_db, del_db, get_db, list_db,
}

pub data UserLevel : Type 0 where
  none_level logged_level friend_level owner_level master_level : UserLevel

-- the level that the modes of a channel right stand for
abbrev pub channel_level : Bytes → UserLevel
channel_level mods =
    if is_some (strchr b'o' mods)
    then owner_level
    else if is_some (strchr b'v' mods)
    then friend_level
    else logged_level

-- atol on the texts of the time log, which are decimal numbers without a sign
abbrev atol_loop : ℕ → Bytes → ℕ
atol_loop n [] = n
atol_loop n (c ∷ s) = let rest = atol_loop (n * 10 + (c - b'0')) s in if is_digit c then rest else n

abbrev pub atol : Bytes → ℕ
atol = atol_loop 0

-- the string at the pointer of a queue item
abbrev pub text_of : QueueData → Bytes
text_of item = elim item.bytes [ none ↦ [] | some s ↦ c_string s ]

module _ (lib : Library) where
  abbrev master_or : UserLevel → Bytes → Databases lib → UserLevel
  master_or level login dbf =
      if is_some (get_db lib access_db (some login) dbf) then master_level else level

  abbrev level_by : Option Bytes → Bytes → Databases lib → UserLevel
  level_by none login dbf = master_or logged_level login dbf
  level_by (some mods) login dbf = channel_level mods

  -- the level of a netmask that is logged in
  abbrev pub level_of_login : Option Bytes → Bytes → Databases lib → UserLevel
  level_of_login none login dbf = master_or logged_level login dbf
  level_of_login (some channel) login dbf =
      level_by (get_db lib access_db (some (login ++ channel)) dbf) login dbf

  abbrev pub level_for : Option Bytes → Option Bytes → Databases lib → UserLevel
  level_for channel none dbf = none_level
  level_for channel (some login) dbf = level_of_login channel login dbf

  unfoldable pub get_user_level : Option Bytes → Option Bytes → Databases lib → UserLevel
  get_user_level channel netmask dbf = level_for channel (get_db lib nicktouser_db netmask dbf) dbf

  -- `log_on` of a login that has the netmask `old`
  abbrev pub rebind : Option Bytes → Option Bytes → Bytes → Databases lib → Databases lib
  rebind none netmask login dbf = dbf
  rebind (some old) netmask login dbf =
      let freed = (del_db lib nicktouser_db (some old) dbf).1 in
      let bound = (add_db lib nicktouser_db netmask (some login) freed).1 in
      (replace_db lib usertonick_db (some login) netmask bound).1

  -- the part of `log_on` under the mutex
  unfoldable pub bind_session : Option Bytes → Bytes → Databases lib → Databases lib
  bind_session netmask login dbf =
      if exist_db lib usertonick_db (some login) dbf
      then rebind (get_db lib usertonick_db (some login) dbf) netmask login dbf
      else (let bound = (add_db lib nicktouser_db netmask (some login) dbf).1 in
          (add_db lib usertonick_db (some login) netmask bound).1)

  -- the last login of an account
  unfoldable pub stamp : Bytes → Bytes → Databases lib → Databases lib
  stamp login time dbf =
      if exist_db lib timelog_db (some login) dbf
      then (replace_db lib timelog_db (some login) (some time) dbf).1
      else (add_db lib timelog_db (some login) (some time) dbf).1

  -- `time` is the current time in digits; the netmask may be NULL
  unfoldable pub log_on : Option Bytes → Bytes → Bytes → Databases lib → Databases lib
  log_on netmask login time dbf = stamp login time (bind_session netmask login dbf)

  abbrev pub end_session : Option Bytes → Bytes → Databases lib → Databases lib
  end_session none login dbf = dbf
  end_session (some netmask) login dbf =
      (del_db lib usertonick_db (some login) (del_db lib nicktouser_db (some netmask) dbf).1).1

  -- `log_out`, and `__log_out` without the mutex
  unfoldable pub log_out : Bytes → Databases lib → Databases lib
  log_out login dbf = end_session (get_db lib usertonick_db (some login) dbf) login dbf

  -- the key of a channel right, in a buffer of `t_size + iLoginLen + 1` bytes
  abbrev pub access_key : Bytes → QueueData → Bytes
  access_key login item = take (item.t_size + length login + 1 - 1) (login ++ text_of item)

  -- the loop of rmAccessRights over the channels
  unfoldable pub remove_rights : Bytes → List QueueData → Databases lib → Databases lib
  remove_rights login [] dbf = dbf
  remove_rights login (item ∷ rest) dbf =
      remove_rights login rest (del_db lib access_db (some (access_key login item)) dbf).1

  unfoldable pub rm_access_rights : Bytes → Databases lib → Databases lib
  rm_access_rights login dbf =
      let unmastered = (del_db lib access_db (some login) dbf).1 in
      remove_rights login (list_db lib channel_db unmastered) unmastered

  unfoldable pub rm_account : Bytes → Databases lib → Databases lib
  rm_account login dbf =
      let unlinked = rm_access_rights login (log_out login dbf) in
      (del_db lib timelog_db (some login) (del_db lib user_db (some login) unlinked).1).1

  -- whether the time log holds a login older than `check_time`
  abbrev pub is_dead : ℕ → Bytes → Databases lib → Bool
  is_dead check_time login dbf = elim (get_db lib timelog_db (some login) dbf) [
    | none ↦ false
    | some time ↦ ltb (atol time) check_time
  ]

  -- the loop of rmDeadLogins
  unfoldable pub log_out_dead : ℕ → List QueueData → Databases lib → Databases lib
  log_out_dead check_time [] dbf = dbf
  log_out_dead check_time (item ∷ rest) dbf =
      let login = text_of item in
      let dead = is_dead check_time login dbf && exist_db lib usertonick_db (some login) dbf in
      log_out_dead check_time rest (if dead then log_out login dbf else dbf)

  unfoldable pub rm_dead_logins : ℕ → Databases lib → Databases lib
  rm_dead_logins check_time dbf = log_out_dead check_time (list_db lib user_db dbf) dbf

  -- the loop of rmDeadAccounts
  unfoldable pub rm_dead : ℕ → List QueueData → Databases lib → Databases lib
  rm_dead check_time [] dbf = dbf
  rm_dead check_time (item ∷ rest) dbf =
      let login = text_of item in
      rm_dead check_time rest (if is_dead check_time login dbf then rm_account login dbf else dbf)

  unfoldable pub rm_dead_accounts : ℕ → Databases lib → Databases lib
  rm_dead_accounts check_time dbf = rm_dead check_time (list_db lib timelog_db dbf) dbf

  -- The end of checkUserLevel, with the modes found for the login. A text of fewer than two bytes
  -- has its NUL, or nothing, in the second place.
  abbrev judge : Option Bytes → Bytes → Databases lib → Outcome Bool
  judge cmd_login [] dbf = fault
  judge cmd_login (_ ∷ []) dbf = done true
  judge cmd_login (_ ∷ m ∷ _) dbf =
      if m == b'm'
      then done false
      else if exist_db lib access_db cmd_login dbf
      then done true
      else if m == b'o'
      then done false
      else done true

  abbrev or_everywhere : Option Bytes → Bytes → Databases lib → Option Bytes
  or_everywhere (some mods) login dbf = some mods
  or_everywhere none login dbf = get_db lib access_db (some login) dbf

  abbrev found_mods : Bytes → Bytes → Databases lib → Option Bytes
  found_mods login channel dbf =
      or_everywhere (get_db lib access_db (some (login ++ channel)) dbf) login dbf

  abbrev judge_found : Option Bytes → Option Bytes → Databases lib → Outcome Bool
  judge_found cmd_login none dbf = done true
  judge_found cmd_login (some mods) dbf = judge cmd_login mods dbf

  -- `pMod` is not set when there is no login.
  unfoldable pub check_user_level :
      Option Bytes → Option Bytes → Bytes → Databases lib → Outcome Bool
  check_user_level cmd_login none channel dbf = fault
  check_user_level cmd_login (some login) channel dbf =
      judge_found cmd_login (found_mods login channel dbf) dbf
