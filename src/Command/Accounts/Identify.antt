-- ===== src/Command/Accounts/Identify.antt =====
-- `ident` of src/command.c: the password decides whether a session begins.
use ebotula.Prelude.{
  ◌≡◌, refl, Bool, true, false, [], ◌∷◌, Option, none, some, if◌then◌else◌, arith,
}
use ebotula.CString.{Bytes, codes, strstr, strtok_cut}
use ebotula.CString.Laws.{lacks}
use ebotula.CString.Outcome.{done}
use ebotula.Extract.{drop_head}
use ebotula.Irc.Lines.{mode_call}
use ebotula.Queue.Memory.{QueueData}
use ebotula.Database.Backend.{Library, IsGdbm}
use ebotula.Database.{
  user_db, channel_db, access_db, nicktouser_db, Databases, exist_db, check_db, get_db, list_db,
}
use ebotula.Database.View.{exist_db-get_db}
use ebotula.Account.{text_of, access_key, log_on}
use ebotula.Account.Sessions.{log_on-session}
use ebotula.Account.Frame.{log_on-lasting}
use ebotula.Bot.{MsgItem, World, for_each, parameters}
use ebotula.Bot.Runs.{
  send_msg-sent, Ends, Ends-weaken, Speaks, Speaks-dbf, emit-Speaks, for_each-Speaks,
}
use ebotula.Command.Accounts.{give_mode, restore_mode, admit, try_password, ident_as, ident}

module _ (lib : Library) where
  give_mode-Speaks :
      (item : MsgItem) (channel : QueueData) (right : Option Bytes)
      → Speaks (give_mode lib item channel right)
  give_mode-Speaks item channel none = λ w. refl
  give_mode-Speaks item channel (some modes) =
      emit-Speaks (mode_call (some (text_of channel)) (some modes) item.calling_nick)

  restore_mode-Speaks :
      (item : MsgItem) (login : Bytes) (master : Bool) (channel : QueueData)
      → Speaks (restore_mode lib item login master channel)
  unfolding restore_mode
  restore_mode-Speaks item login true channel =
      emit-Speaks (mode_call (some (text_of channel)) (some (codes "+o")) item.calling_nick)
  restore_mode-Speaks item login false channel = λ w.
      give_mode-Speaks item channel
        (get_db lib access_db (some (access_key lib login channel)) w.dbf) w

  admit-dbf :
      (item : MsgItem) (login : Bytes) (matched : Bool) (w : World lib)
      → Ends
          (admit lib item login matched w)
          (λ _ v. v.dbf ≡ (if matched then log_on lib item.netmask login w.now w.dbf else w.dbf))
  unfolding admit
  admit-dbf item login false w =
      rw (send_msg-sent item (codes "Invalid password" ∷ []) (omega arith)) refl
  admit-dbf item login true w =
      let after = log_on lib item.netmask login w.now w.dbf in
      let restore = restore_mode lib item login (exist_db lib access_db (some login) after) in
      rw (send_msg-sent item (codes "You're now identified." ∷ []) (omega arith)) (
        Speaks-dbf (for_each (list_db lib channel_db after) restore)
          (for_each-Speaks (list_db lib channel_db after) restore
            (restore_mode-Speaks item login (exist_db lib access_db (some login) after)))
          _)

-- what `ident` leaves behind, with a password that matches or not
abbrev pub Identified :
    (lib : Library) → Bytes → Bytes → Bool → Databases lib → Databases lib → Type 0
Identified lib netmask login ok old new =
    (get_db lib nicktouser_db (some netmask) new ≡ (if ok then some login else none))
    × (new user_db ≡ old user_db)
    × (new access_db ≡ old access_db)
    × (new channel_db ≡ old channel_db)

module _ (lib : Library) (gdbm : IsGdbm lib) where
  log_on-Identified :
      (netmask login time : Bytes) (ok : Bool) (dbf : Databases lib)
      → lacks 0 netmask ≡ true
      → lacks 0 login ≡ true
      → lacks 0 time ≡ true
      → get_db lib nicktouser_db (some netmask) dbf ≡ none
      → Identified lib netmask login ok dbf
          (if ok then log_on lib (some netmask) login time dbf else dbf)
  log_on-Identified netmask login time false dbf hm hl ht free = (free, refl, refl, refl)
  log_on-Identified netmask login time true dbf hm hl ht free = (
    (log_on-session lib gdbm netmask login time dbf hm hl ht free).0,
    log_on-lasting lib user_db refl (some netmask) login time dbf,
    log_on-lasting lib access_db refl (some netmask) login time dbf,
    log_on-lasting lib channel_db refl (some netmask) login time dbf,
  )

  -- ident of a netmask that belongs to no login, with a line that has a password behind its first
  -- space, over a library that does what gdbm documents and with texts free of NUL bytes: it ends,
  -- the netmask then has the login of the line exactly when check_db accepts the password, and
  -- neither the accounts nor the rights nor the channels change.
  pub ident-password :
      (item : MsgItem) (netmask line login pos : Bytes) (ok : Bool) (w : World lib)
      → lacks 0 netmask ≡ true
      → lacks 0 login ≡ true
      → lacks 0 w.now ≡ true
      → get_db lib nicktouser_db (some netmask) w.dbf ≡ none
      → parameters item ≡ some line
      → strtok_cut b' ' line ≡ login
      → strstr (codes " ") line ≡ some pos
      → check_db lib user_db (some login) (some (drop_head pos)) w.dbf ≡ done ok
      → Ends
          (ident lib (record item { netmask = some netmask }) w)
          (λ _ v. Identified lib netmask login ok w.dbf v.dbf)
  unfolding ident ident_as try_password
  ident-password item netmask line login pos ok w hm hl ht free hp hk hs hc =
      let caller = record item { netmask = some netmask } in
      let unknown = exist_db-get_db lib gdbm nicktouser_db (some netmask) w.dbf in
      let after = (if ok then log_on lib (some netmask) login w.now w.dbf else w.dbf) in
      rw (unknown, free, hp, hs, hk, hc)
        (Ends-weaken (λ _ v. v.dbf ≡ after) (λ _ v. Identified lib netmask login ok w.dbf v.dbf)
          (admit lib caller login ok w) (admit-dbf lib caller login ok w)
          (λ _ v e. rw e (log_on-Identified netmask login w.now ok w.dbf hm hl ht free)))
