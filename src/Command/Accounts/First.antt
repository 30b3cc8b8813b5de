-- ===== src/Command/Accounts/First.antt =====
-- The first account, which `hello` of src/command.c makes a master.
use ebotula.Prelude.{
  ℕ, ◌<◌, ◌≡◌, refl, ◌==◌, ◌&&◌, ◌∙◌, true, false, [], ◌∷◌, ◌++◌, Option, none, some, if◌then◌else◌,
  is_nil, length, ltb, arith,
}
use ebotula.CString.{Bytes, codes}
use ebotula.CString.Laws.{lacks, streq_refl}
use ebotula.CString.Outcome.{done}
use ebotula.Utilities.{str_to_lower}
use ebotula.Database.Backend.{Library, IsGdbm}
use ebotula.Database.{user_db, access_db, nicktouser_db, Databases, add_db, get_db, list_db}
use ebotula.Database.View.{same_key, exist_db-get_db, add_db-Updated}
use ebotula.Database.Frame.{get_db-same, add_db-other}
use ebotula.Account.{log_on, get_user_level, master_level, check_user_level}
use ebotula.Account.Sessions.{log_on-session}
use ebotula.Account.Frame.{log_on-lasting}
use ebotula.Account.Levels.{rank}
use ebotula.Bot.{MsgItem, World}
use ebotula.Bot.Runs.{send_msg-sent, Ends, Ends-weaken, go_on-Ends}
use ebotula.Command.Accounts.{welcome, create_account, appoint, hello}
use ebotula.Command.Accounts.Hello.{welcome_lem}

-- a message of the user `nick` with the netmask `netmask`
abbrev pub called_by : MsgItem → Bytes → Bytes → MsgItem
called_by item nick netmask = record item { calling_nick = some nick; netmask = some netmask }

module _ (lib : Library) (gdbm : IsGdbm lib) (nick : Bytes) where
  -- the right of the first master after `appoint`, for a nick name without one
  appoint_lem :
      (item : MsgItem) (netmask : Bytes) (w : World lib)
      → length nick < 900
      → get_db lib access_db (some nick) w.dbf ≡ none
      → Ends
          (appoint lib (called_by item nick netmask) w)
          (λ _ v. v.dbf ≡ (add_db lib access_db (some nick) (some (codes "m")) w.dbf).1)
  unfolding appoint
  appoint_lem item netmask w h e =
      let found = exist_db-get_db lib gdbm access_db (some nick) w.dbf in
      let added = (add_db-Updated lib gdbm access_db nick (codes "m") w.dbf (omega arith) refl).0 in
      rw
        (
          found,
          e,
          added,
          e,
          send_msg-sent (called_by item nick netmask)
              (codes "The account " ∷ nick ∷ codes " is now the botmaster." ∷ []) (omega arith),
        )
        refl

  abbrev created : Databases lib → Databases lib
  created dbf = (add_db lib user_db (some nick) (some []) dbf).1

  abbrev session : Bytes → Bytes → Databases lib → Databases lib
  session netmask now dbf = log_on lib (some netmask) nick now (created dbf)

  abbrev appointed : Bytes → Bytes → Databases lib → Databases lib
  appointed netmask now dbf =
      (add_db lib access_db (some nick) (some (codes "m")) (session netmask now dbf)).1

  session-access :
      (netmask now : Bytes) (dbf : Databases lib) (key : Bytes)
      → get_db lib access_db (some key) (session netmask now dbf)
        ≡ get_db lib access_db (some key) dbf
  session-access netmask now dbf key =
      get_db-same lib access_db (some key) (session netmask now dbf) dbf (
        log_on-lasting lib access_db refl (some netmask) nick now (created dbf)
        ∙ add_db-other lib access_db user_db (some nick) (some []) dbf refl)

  appointed-right :
      (netmask now : Bytes) (dbf : Databases lib) (db : ℕ) (key : Bytes)
      → get_db lib access_db (some nick) dbf ≡ none
      → get_db lib db (some key) (appointed netmask now dbf) ≡ (
          if db == access_db && same_key key nick
          then some (codes "m")
          else get_db lib db (some key) (session netmask now dbf))
  appointed-right netmask now dbf db key e =
      let updated =
        (add_db-Updated lib gdbm access_db nick (codes "m") (session netmask now dbf) (omega arith)
            refl).1
          db key in
      let was = session-access netmask now dbf nick in ground (arith, updated, was, e)

  session-login :
      (netmask now : Bytes) (dbf : Databases lib)
      → lacks 0 netmask ≡ true
      → lacks 0 nick ≡ true
      → lacks 0 now ≡ true
      → get_db lib nicktouser_db (some netmask) dbf ≡ none
      → get_db lib nicktouser_db (some netmask) (session netmask now dbf) ≡ some nick
  session-login netmask now dbf hm hl ht free =
      let kept =
        get_db-same lib nicktouser_db (some netmask) (created dbf) dbf
          (add_db-other lib nicktouser_db user_db (some nick) (some []) dbf refl) in
      (log_on-session lib gdbm netmask nick now (created dbf) hm hl ht (kept ∙ free)).0

  hello_lem :
      (item : MsgItem) (netmask : Bytes) (w : World lib)
      → length nick < 900
      → ltb 1 (rank item.user_level) ≡ false
      → is_nil (list_db lib user_db w.dbf) ≡ true
      → lacks 0 (lib.crypt [] (codes "SL")) ≡ true
      → get_db lib user_db (some nick) w.dbf ≡ none
      → get_db lib access_db (some nick) w.dbf ≡ none
      → Ends
          (hello lib (called_by item nick netmask) w)
          (λ _ v. v.dbf ≡ appointed netmask w.now w.dbf)
  unfolding hello create_account
  hello_lem item netmask w h low empty hc hu ha =
      let caller = called_by item nick netmask in
      let next = record w { dbf = created w.dbf } in
      let updated = add_db-Updated lib gdbm user_db nick [] w.dbf (omega arith) hc in
      let added : (add_db lib user_db (some nick) (some []) w.dbf).0 ≡ true =
        ground (arith, updated.0, hu) in
      rw (low, empty, added)
        (go_on-Ends (λ _ v. v.dbf ≡ appointed netmask w.now w.dbf) (λ _. appoint lib caller)
          (welcome lib caller nick next)
          (Ends-weaken (λ _ v. v.dbf ≡ session netmask w.now w.dbf)
            (λ _ v. Ends (appoint lib caller v) (λ _ u. u.dbf ≡ appointed netmask w.now w.dbf))
            (welcome lib caller nick next) (welcome_lem lib caller nick next h)
            (λ _ v e.
              let none_yet : get_db lib access_db (some nick) v.dbf ≡ none =
                rw e (session-access netmask w.now w.dbf nick ∙ ha) in
              Ends-weaken
                (λ _ u. u.dbf ≡ (add_db lib access_db (some nick) (some (codes "m")) v.dbf).1)
                (λ _ u. u.dbf ≡ appointed netmask w.now w.dbf) (appoint lib caller v)
                (appoint_lem item netmask v h none_yet) (λ _ u f. rw f (rw e refl)))))

  -- On a bot without accounts, hello of a user that is not identified, with a nick name below 900
  -- bytes that has no entry yet and texts free of NUL bytes, over a library that does what gdbm
  -- documents: it ends, and then the netmask of the user has the level of a master. In a channel
  -- for which no right of the nick name is stored, and whose key is not the nick name itself,
  -- checkUserLevel then lets everybody act against this master, since the right `m` has no second
  -- letter.
  pub hello-first :
      (item : MsgItem) (netmask channel : Bytes) (other : Option Bytes) (w : World lib)
      → length nick < 900
      → ltb 1 (rank item.user_level) ≡ false
      → is_nil (list_db lib user_db w.dbf) ≡ true
      → lacks 0 (lib.crypt [] (codes "SL")) ≡ true
      → lacks 0 netmask ≡ true
      → lacks 0 nick ≡ true
      → lacks 0 w.now ≡ true
      → get_db lib user_db (some nick) w.dbf ≡ none
      → get_db lib access_db (some nick) w.dbf ≡ none
      → get_db lib nicktouser_db (some netmask) w.dbf ≡ none
      → get_db lib access_db (some (nick ++ channel)) w.dbf ≡ none
      → same_key (nick ++ channel) nick ≡ false
      → Ends (hello lib (called_by item nick netmask) w) (λ _ v.
        (get_user_level lib none (some netmask) v.dbf ≡ master_level)
        × (check_user_level lib other (some nick) channel v.dbf ≡ done true))
  unfolding get_user_level check_user_level
  hello-first item netmask channel other w h low empty hc hm hn ht hu ha free right apart =
      let after = appointed netmask w.now w.dbf in
      let master = appointed-right netmask w.now w.dbf access_db nick ha in
      let login = appointed-right netmask w.now w.dbf nicktouser_db netmask ha in
      let bound = session-login netmask w.now w.dbf hm hn ht free in
      let rights = appointed-right netmask w.now w.dbf access_db (nick ++ channel) ha in
      let kept = session-access netmask w.now w.dbf (nick ++ channel) in
      let self = streq_refl (str_to_lower nick) in
      let level : get_user_level lib none (some netmask) after ≡ master_level =
        rw (login, bound, master, self) refl in
      let exposed : check_user_level lib other (some nick) channel after ≡ done true =
        rw (rights, apart, kept, right, master, self) refl in
      Ends-weaken (λ _ v. v.dbf ≡ after)
        (λ _ v.
          (get_user_level lib none (some netmask) v.dbf ≡ master_level)
          × (check_user_level lib other (some nick) channel v.dbf ≡ done true))
        (hello lib (called_by item nick netmask) w) (hello_lem item netmask w h low empty hc hu ha)
        (λ _ v e. rw e (level, exposed))
