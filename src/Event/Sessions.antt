-- ===== src/Event/Sessions.antt =====
-- hNickChange of src/handles.c moves the session of a user to the netmask with the new nick name.
use ebotula.Prelude.{
  ◌<◌, ◌≡◌, refl, inl, inr, ◌⊎◌, true, ◌++◌, none, some, if◌then◌else◌, length, ltb, arith,
}
use ebotula.CString.{Bytes, strrchr}
use ebotula.CString.Laws.{lacks, streq_refl}
use ebotula.Utilities.{str_to_lower}
use ebotula.Extract.{drop_head}
use ebotula.Database.Backend.{Library, IsGdbm}
use ebotula.Database.{usertonick_db, nicktouser_db, Databases, get_db}
use ebotula.Database.View.{same_key}
use ebotula.Account.{log_on, log_out}
use ebotula.Account.Sessions.{Consistent, get_db-log_out, log_out-Consistent, log_on-session}
use ebotula.Account.LogOn.{log_on-Consistent, log_on-owner}
use ebotula.Bot.{MsgItem, World}
use ebotula.Bot.Runs.{Ends}
use ebotula.Event.{user_part, h_nick_change}

-- the session of a login has moved from one netmask to another, and the sessions are consistent
abbrev pub Moved : (lib : Library) → Bytes → Bytes → Bytes → Databases lib → Type 0
Moved lib login old new dbf =
    (get_db lib nicktouser_db (some new) dbf ≡ some login)
    × (get_db lib usertonick_db (some login) dbf ≡ some new)
    × (get_db lib nicktouser_db (some old) dbf ≡ (if same_key old new then some login else none))
    × Consistent lib dbf

module _ (lib : Library) (gdbm : IsGdbm lib) (login old new now : Bytes) (dbf : Databases lib) where
  -- after the logout of the session the new netmask is nobody's
  freed :
      get_db lib usertonick_db (some login) dbf ≡ some old
      → (same_key new old ≡ true) ⊎ (get_db lib nicktouser_db (some new) dbf ≡ none)
      → get_db lib nicktouser_db (some new) (log_out lib login dbf) ≡ none
  freed e (inl h) = rw (get_db-log_out lib gdbm login dbf nicktouser_db new, e, h) refl
  freed e (inr h) = ground (arith, get_db-log_out lib gdbm login dbf nicktouser_db new, e, h)

  move_session-Moved :
      lacks 0 new ≡ true
      → lacks 0 login ≡ true
      → lacks 0 now ≡ true
      → Consistent lib dbf
      → get_db lib usertonick_db (some login) dbf ≡ some old
      → (same_key new old ≡ true) ⊎ (get_db lib nicktouser_db (some new) dbf ≡ none)
      → Moved lib login old new (log_on lib (some new) login now (log_out lib login dbf))
  move_session-Moved hn hl ht c e h =
      let out = log_out lib login dbf in
      let free = freed e h in
      let (a, b, t) = log_on-session lib gdbm new login now out hn hl ht free in
      let owner = log_on-owner lib gdbm new login out hn hl free now ht old in
      let ended = get_db-log_out lib gdbm login dbf usertonick_db login in
      let left = get_db-log_out lib gdbm login dbf nicktouser_db old in
      (
        a,
        b,
        rw (owner, ended, streq_refl (str_to_lower login), left, e, streq_refl (str_to_lower old))
            refl,
        log_on-Consistent lib gdbm new login out hn hl free now ht
            (log_out-Consistent lib gdbm login dbf c),
      )

module _ (lib : Library) (gdbm : IsGdbm lib) where
  -- The event of a nick change, in a line whose last word is the new nick name behind two
  -- characters, for a user whose netmask is logged in, while the sessions are consistent and the
  -- netmask with the new nick name is the same one or nobody's, over a library that does what gdbm
  -- documents and with texts free of NUL bytes: it ends, the login has moved to the new netmask, the
  -- old one has no login unless it is the same, and the sessions are consistent.
  pub h_nick_change-Moved :
      (item : MsgItem) (old login pos user new : Bytes) (w : World lib)
      → lacks 0 new ≡ true
      → lacks 0 login ≡ true
      → lacks 0 w.now ≡ true
      → Consistent lib w.dbf
      → get_db lib nicktouser_db (some old) w.dbf ≡ some login
      → get_db lib usertonick_db (some login) w.dbf ≡ some old
      → strrchr b' ' item.raw_line ≡ some pos
      → 2 < length pos
      → user_part old ≡ some user
      → drop_head (drop_head pos) ++ user ≡ new
      → (same_key new old ≡ true) ⊎ (get_db lib nicktouser_db (some new) w.dbf ≡ none)
      → Ends
          (h_nick_change lib (record item { netmask = some old }) w)
          (λ _ v. Moved lib login old new v.dbf)
  unfolding h_nick_change
  h_nick_change-Moved item old login pos user new w hn hl ht c he e hp n hu hw h =
      let long : ltb 2 (length pos) ≡ true = ground arith in
      rw (he, hp, long, hu, hw)
        (move_session-Moved lib gdbm login old new w.now w.dbf hn hl ht c e h)
