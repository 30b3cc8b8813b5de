-- ===== src/Command/Accounts.antt =====
-- The commands on accounts of src/command.c: hello, password, logoff, ident, rmaccount.
pub mod Hello
pub mod Removed
pub mod Identify
pub mod First
use ebotula.Prelude.{
  ℕ, ◌+◌, ◌-◌, Bool, true, false, not, ◌==◌, List, [], ◌∷◌, ◌++◌, Option, none, some, ltb,
  if◌then◌else◌, is_nil, is_some, length, take,
}
use ebotula.CString.{Bytes, codes, strstr, strtok_cut}
use ebotula.CString.Outcome.{Outcome, done, fault}
use ebotula.Extract.{drop_head, get_nickname}
use ebotula.Irc.{mode}
use ebotula.Queue.Memory.{QueueData}
use ebotula.Database.Backend.{Library}
use ebotula.Database.{
  user_db, channel_db, access_db, usertonick_db, nicktouser_db, add_db, replace_db, check_db,
  exist_db, get_db, list_db,
}
use ebotula.Account.{UserLevel, text_of, access_key, log_on, log_out, rm_account}
use ebotula.Account.Levels.{rank}
use ebotula.Bot.Steps.{Done, pure, lift, ◌>>=◌, ◌>>◌}
use ebotula.Bot.{
  MsgItem, World, Handler, shown, emit, tell, query, query_checked, change, update_db, asks,
  for_each, parameters,
}

abbrev or_empty : Option Bytes → Bytes
or_empty none = []
or_empty (some s) = s

-- `pMode[0] = c`; on the empty string this overwrites the NUL
abbrev pub signed : ℕ → Bytes → Outcome Bytes
signed c [] = fault
signed c (_ ∷ s) = done (c ∷ s)

module _ (lib : Library) where
  -- the end of `hello`: the account becomes the first master
  unfoldable pub appoint : MsgItem → Handler lib
  appoint item = do
    known ← query (exist_db lib access_db item.calling_nick)
    appointed ←
        (if known
          then change (replace_db lib access_db item.calling_nick (some (codes "m")))
          else change (add_db lib access_db item.calling_nick (some (codes "m"))))
    if appointed
        then tell item
            (codes "The account " ∷ shown item.calling_nick ∷ codes " is now the botmaster." ∷ [])
        else tell item (
            codes "The initialization of the account "
            ∷ shown item.calling_nick
            ∷ codes " as the botmaster failed."
            ∷ [])

  unfoldable pub welcome : MsgItem → Bytes → Handler lib
  welcome item nick = do
    now ← asks (λ w. w.now)
    update_db (log_on lib item.netmask nick now)
    tell item (codes "Nice to meet you." ∷ [])
    tell item (codes "Your account is " ∷ nick ∷ codes "." ∷ [])
    tell item (codes "You're now identified." ∷ [])

  abbrev pub welcome_if : MsgItem → Option Bytes → Handler lib
  welcome_if item none = pure tt
  welcome_if item (some nick) = welcome item nick

  -- the middle of `hello`; add_db succeeds for no NULL
  unfoldable pub create_account : MsgItem → Bool → Handler lib
  create_account item false =
      tell item (codes "The account " ∷ shown item.calling_nick ∷ codes " is already exists." ∷ [])
  create_account item true = welcome_if item item.calling_nick

  unfoldable pub hello : MsgItem → Handler lib
  hello item =
      if ltb 1 (rank item.user_level)
      then tell item (codes "You're already identified." ∷ [])
      else do
        logins ← query (list_db lib user_db)
        added ← change (add_db lib user_db item.calling_nick (some []))
        create_account item added
        if is_nil logins then appoint item else pure tt

  abbrev note_empty : MsgItem → Option Bytes → Handler lib
  note_empty item none = tell item (codes "You've set a empty password." ∷ [])
  note_empty item (some _) = pure tt

  unfoldable pub set_password : MsgItem → Option Bytes → Handler lib
  set_password item none = pure tt
  set_password item (some []) = pure tt
  set_password item (some (c ∷ login)) = do
    note_empty item (parameters item)
    _ ← change (replace_db lib user_db (some (c ∷ login)) (some (or_empty (parameters item))))
    tell item (codes "Password is changed." ∷ [])

  unfoldable pub password : MsgItem → Handler lib
  password item = do login ← query (get_db lib nicktouser_db item.netmask); set_password item login

  abbrev change_mode : MsgItem → QueueData → Bytes → Handler lib
  change_mode item channel modes =
      emit (mode true (some (text_of channel)) (some modes) item.calling_nick)

  abbrev take_mode : MsgItem → QueueData → Option Bytes → Handler lib
  take_mode item channel none =
      if rank item.user_level == 4 then change_mode item channel (codes "-o") else pure tt
  take_mode item channel (some modes) = do
    removed ← lift (signed b'-' modes)
    change_mode item channel removed

  -- the body of the loop of `logoff`; the key is built in `t_size + nLength` bytes
  unfoldable pub drop_mode : MsgItem → Bytes → QueueData → Handler lib
  drop_mode item login channel = do
    right ← query (
        get_db lib access_db
          (some (take (channel.t_size + length login - 1) (login ++ text_of channel))))
    take_mode item channel right

  unfoldable pub end_login : MsgItem → Option Bytes → Handler lib
  end_login item none = pure tt
  end_login item (some login) = do
    update_db (log_out lib login)
    if item.interactive_mode
        then (do
          channels ← query (list_db lib channel_db)
          for_each channels (drop_mode item login)
          tell item (codes "You're now logged off." ∷ []))
        else pure tt

  unfoldable pub logoff : MsgItem → Handler lib
  logoff item = do login ← query (get_db lib nicktouser_db item.netmask); end_login item login

  abbrev pub give_mode : MsgItem → QueueData → Option Bytes → Handler lib
  give_mode item channel none = pure tt
  give_mode item channel (some modes) = change_mode item channel modes

  -- the body of the loop of `ident`
  unfoldable pub restore_mode : MsgItem → Bytes → Bool → QueueData → Handler lib
  restore_mode item login true channel = change_mode item channel (codes "+o")
  restore_mode item login false channel = do
    right ← query (get_db lib access_db (some (access_key lib login channel)))
    give_mode item channel right

  -- `ident` once the password is checked
  unfoldable pub admit : MsgItem → Bytes → Bool → Handler lib
  admit item login false = tell item (codes "Invalid password" ∷ [])
  admit item login true = do
    now ← asks (λ w. w.now)
    update_db (log_on lib item.netmask login now)
    tell item (codes "You're now identified." ∷ [])
    master ← query (exist_db lib access_db (some login))
    channels ← query (list_db lib channel_db)
    for_each channels (restore_mode item login master)

  unfoldable pub try_password : MsgItem → Bytes → Option Bytes → Handler lib
  try_password item login passwd = do
    matched ← query_checked (check_db lib user_db (some login) (some (or_empty passwd)))
    admit item login matched

  -- `ident` with its parameters; the password is what stands behind the first space
  abbrev ident_space : MsgItem → Bytes → Option Bytes → Handler lib
  ident_space item line none = do
    tell item (codes "You've set a empty password." ∷ [])
    try_password item (strtok_cut b' ' line) none
  ident_space item line (some pos) = try_password item (strtok_cut b' ' line) (some (drop_head pos))

  unfoldable pub ident_as : MsgItem → Option Bytes → Handler lib
  ident_as item none = tell item (codes "Couldn't found regulare parameters." ∷ [])
  ident_as item (some line) = ident_space item line (strstr (codes " ") line)

  unfoldable pub ident : MsgItem → Handler lib
  ident item = do
    known ← query (exist_db lib nicktouser_db item.netmask)
    if known
        then tell item (codes "You're already identified." ∷ [])
        else ident_as item (parameters item)

  -- the loop of `rmaccount`
  abbrev take_modes : Option Bytes → QueueData → Handler lib
  take_modes nick channel = do
    emit (mode true (some (text_of channel)) (some (codes "-o")) nick)
    emit (mode true (some (text_of channel)) (some (codes "-v")) nick)

  abbrev take_all_modes : Option Bytes → Handler lib
  take_all_modes none = pure tt
  take_all_modes (some nick) = do
    channels ← query (list_db lib channel_db)
    for_each channels (take_modes (some nick))

  abbrev take_modes_of : Option Bytes → Handler lib
  take_modes_of none = pure tt
  take_modes_of (some netmask) = do nick ← lift (get_nickname (some netmask)); take_all_modes nick

  unfoldable pub remove_account : MsgItem → Bytes → Handler lib
  remove_account item login = do
    update_db (rm_account lib login)
    netmask ← query (get_db lib usertonick_db (some login))
    take_modes_of netmask
    tell item (codes "The account is removed" ∷ [])

  abbrev rmaccount_of : MsgItem → Option Bytes → Handler lib
  rmaccount_of item none = tell item (codes "Couldn't found regulare parameters." ∷ [])
  rmaccount_of item (some line) = do
    known ← query (exist_db lib user_db (some (strtok_cut b' ' line)))
    if known
        then remove_account item (strtok_cut b' ' line)
        else tell item (codes "Couldn't fount the account " ∷ strtok_cut b' ' line ∷ codes "." ∷ [])

  unfoldable pub rmaccount : MsgItem → Handler lib
  rmaccount item = rmaccount_of item (parameters item)
