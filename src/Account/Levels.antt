-- ===== src/Account/Levels.antt =====
-- The levels of src/account.c.
use ebotula.Prelude.{
  ℕ, ◌≡◌, refl, inl, inr, true, ◌++◌, Option, none, some, is_some, Option-cases, Bool-cases, leb,
}
use ebotula.CString.{Bytes, strchr}
use ebotula.Database.Backend.{Library}
use ebotula.Database.{access_db, nicktouser_db, Databases, get_db}
use ebotula.Account.{
  UserLevel, none_level, logged_level, friend_level, owner_level, master_level, level_of_login,
  get_user_level, channel_level,
}

-- the number of the level in UserLevel_t
abbrev pub rank : UserLevel → ℕ
rank none_level = 0
rank logged_level = 1
rank friend_level = 2
rank owner_level = 3
rank master_level = 4

channel_level-logged : (mods : Bytes) → leb 1 (rank (channel_level mods)) ≡ true
channel_level-logged mods = elim (Bool-cases (is_some (strchr b'o' mods))) [
  | inl e ↦ rw e refl
  | inr e ↦ elim (Bool-cases (is_some (strchr b'v' mods))) [
    | inl f ↦ rw (e, f) refl
    | inr f ↦ rw (e, f) refl
  ]
]

module _ (lib : Library) where
  master-logged :
      (login : Bytes) (dbf : Databases lib)
      → leb 1 (rank (level_of_login lib none login dbf)) ≡ true
  master-logged login dbf = elim (Option-cases (get_db lib access_db (some login) dbf)) [
    | inl e ↦ rw e refl
    | inr (m, e) ↦ rw e refl
  ]

  level_of_login-logged :
      (channel : Option Bytes) (login : Bytes) (dbf : Databases lib)
      → leb 1 (rank (level_of_login lib channel login dbf)) ≡ true
  level_of_login-logged none login dbf = master-logged login dbf
  level_of_login-logged (some channel) login dbf =
      elim (Option-cases (get_db lib access_db (some (login ++ channel)) dbf)) [
        | inl e ↦ rw e (master-logged login dbf)
        | inr (m, e) ↦ rw e (channel_level-logged m)
      ]

  -- A netmask has a level above NoneLevel exactly when it is logged in, whether a channel is asked
  -- for or not.
  pub get_user_level-logged :
      (channel netmask : Option Bytes) (dbf : Databases lib)
      → leb 1 (rank (get_user_level lib channel netmask dbf))
        ≡ is_some (get_db lib nicktouser_db netmask dbf)
  unfolding get_user_level
  get_user_level-logged channel netmask dbf =
      elim (Option-cases (get_db lib nicktouser_db netmask dbf)) [
        | inl e ↦ rw e refl
        | inr (login, e) ↦ rw e (level_of_login-logged channel login dbf)
      ]
