-- ===== src/Event.antt =====
-- src/handles.c: the handlers of the events that the server reports.
pub mod Modes
pub mod Waiting
pub mod Undo
pub mod Sessions
pub mod Answers
mod Tests
use ebotula.Prelude.{
  ℕ, Bool, true, false, not, ◌==◌, ◌||◌, List, [], ◌∷◌, ◌++◌, Option, none, some, concat,
  if◌then◌else◌, is_some, is_nil, length, ltb,
}
use ebotula.CString.{Bytes, codes, strchr, strrchr, strstr, strtok_cut}
use ebotula.CString.Outcome.{Outcome, done, fault}
use ebotula.Extract.{drop_head, get_nickname, get_topic, get_first_part, get_access_channel}
use ebotula.Irc.{pong, mode, topic, action, whois, join}
use ebotula.Channel.{ChannelData, str_to_channel_data, channel_mode_to_str}
use ebotula.Database.Backend.{Library}
use ebotula.Database.{channel_db, access_db, nicktouser_db, exist_db, get_db}
use ebotula.Account.{log_on, log_out}
use ebotula.Bot.Steps.{Done, pure, failed, lift, ◌>>=◌, ◌>>◌}
use ebotula.Bot.{
  MsgItem, World, Handler, CallbackItem, mode_reset_cb, same_name, emit, query, update_db, asks,
  add_callback,
}
use ebotula.Callback.{run_callback}

-- rmFirstPart(pRest,&pRest)
abbrev pub skip_part : Option Bytes → Option Bytes
skip_part rest = (get_first_part rest rest).1

-- the words of a line from the fourth on
abbrev pub fourth_on : Bytes → Option Bytes
fourth_on line = skip_part (skip_part (get_first_part (some line) none).1)

-- the second part of a netmask, from the `!` on, without what follows a space
abbrev pub user_part : Bytes → Option Bytes
user_part netmask = elim (strchr b'!' netmask) [ none ↦ none | some s ↦ some (strtok_cut b' ' s) ]

abbrev pub skip_item :
    CallbackItem
    → Option (CallbackItem × List CallbackItem)
    → Option (CallbackItem × List CallbackItem)
skip_item item none = none
skip_item item (some (other, left)) = some (other, item ∷ left)

-- the first item of the list for a nick name, and the list without it
unfoldable pub take_callback : Bytes → List CallbackItem → Option (CallbackItem × List CallbackItem)
take_callback nick [] = none
take_callback nick (item ∷ rest) =
    let found = take_callback nick rest in
    if same_name item.nickname nick then some (item, rest) else skip_item item found

module _ (lib : Library) where
  unfoldable pub h_pong : MsgItem → Handler lib
  h_pong item = emit (pong true none)

  -- the new session of `hNickChange`; without a `!` in the netmask strlen reads through NULL
  abbrev pub move_session : Bytes → Bytes → Option Bytes → Handler lib
  move_session login new_nick none = failed
  move_session login new_nick (some user) = do
    now ← asks (λ w. w.now)
    update_db (log_out lib login)
    update_db (log_on lib (some (new_nick ++ user)) login now)

  abbrev nick_from : Bytes → Bytes → Option Bytes → Handler lib
  nick_from login netmask none = failed
  nick_from login netmask (some pos) =
      if ltb 2 (length pos)
      then move_session login (drop_head (drop_head pos)) (user_part netmask)
      else pure tt

  abbrev nick_of_login : MsgItem → Bytes → Option Bytes → Handler lib
  nick_of_login item netmask none = pure tt
  nick_of_login item netmask (some login) = nick_from login netmask (strrchr b' ' item.raw_line)

  unfoldable pub h_nick_change : MsgItem → Handler lib
  h_nick_change item = elim item.netmask [
    | none ↦ pure tt
    | some netmask ↦ (do
      login ← query (get_db lib nicktouser_db (some netmask))
      nick_of_login item netmask login)
  ]

  abbrev init_topic : Bytes → Option Bytes → Handler lib
  init_topic channel none = pure tt
  init_topic channel (some text) = emit (topic true (some channel) (some text))

  abbrev init_with : Bytes → Option Bytes → Handler lib
  init_with channel none = pure tt
  init_with channel (some channel_set) = do
    d ← lift (str_to_channel_data channel_set)
    init_topic channel d.topic
    (if is_nil (channel_mode_to_str d.modes)
        then pure tt
        else emit (mode true (some channel) (some (channel_mode_to_str d.modes)) none))
    emit (action true (some channel) (some (codes "has initialized this channel.")))

  unfoldable pub channel_init : Option Bytes → Handler lib
  channel_init none = pure tt
  channel_init (some channel) = do
    channel_set ← query (get_db lib channel_db (some channel))
    init_with channel channel_set

  abbrev pub need_op : Option Bytes → Handler lib
  need_op channel = emit (action true channel (some (codes "needs operator access rights.")))

  abbrev bot_in_list : Bytes → Option Bytes → Handler lib
  bot_in_list channel none = failed
  bot_in_list channel (some nick_list) = do
    own ← asks (λ w. w.bot_name)
    if is_some (strstr (b'@' ∷ own) nick_list)
        then channel_init (some channel)
        else need_op (some channel)

  unfoldable pub h_bot_need_op : MsgItem → Handler lib
  h_bot_need_op item = elim item.access_channel [
    | none ↦ pure tt
    | some channel ↦ bot_in_list channel (strchr b':' (drop_head item.raw_line))
  ]

  abbrev op_if : Bytes → Bytes → Bool → Handler lib
  op_if channel nick false = pure tt
  op_if channel nick true = emit (mode true (some channel) (some (codes "+o")) (some nick))

  abbrev give_right : Bytes → Bytes → Bytes → Option Bytes → Handler lib
  give_right channel nick login (some right) =
      emit (mode true (some channel) (some right) (some nick))
  give_right channel nick login none = do
    master ← query (exist_db lib access_db (some login))
    op_if channel nick master

  abbrev give_rights : MsgItem → Bytes → Option Bytes → Option Bytes → Handler lib
  give_rights item nick none channel = pure tt
  give_rights item nick (some login) none = pure tt
  give_rights item nick (some login) (some channel) = do
    right ← query (get_db lib access_db (some (login ++ channel)))
    give_right channel nick login right

  abbrev welcome_back : MsgItem → Bytes → Bool → Handler lib
  welcome_back item nick true = pure tt
  welcome_back item nick false = do
    login ← query (get_db lib nicktouser_db item.netmask)
    give_rights item nick login item.access_channel

  unfoldable pub h_set_mod_user : MsgItem → Handler lib
  h_set_mod_user item = elim item.calling_nick [
    | none ↦ pure tt
    | some nick ↦ (do own ← asks (λ w. w.bot_name); welcome_back item nick (same_name nick own))
  ]

  unfoldable pub h_send_greeting : MsgItem → Handler lib
  h_send_greeting item = pure tt

  unfoldable pub h_user_join : MsgItem → Handler lib
  h_user_join item = h_set_mod_user item >> h_send_greeting item

  abbrev topic_of_entry : Bytes → Option Bytes → Handler lib
  topic_of_entry channel none = pure tt
  topic_of_entry channel (some channel_set) = emit (
      topic true (some channel)
        (elim (get_topic channel_set) [ none ↦ some [] | some text ↦ some text ]))

  abbrev back_to_topic : MsgItem → Bool → Option Bytes → Handler lib
  back_to_topic item true channel = pure tt
  back_to_topic item false none = pure tt
  back_to_topic item false (some channel) = do
    channel_set ← query (get_db lib channel_db (some channel))
    topic_of_entry channel channel_set

  unfoldable pub h_reset_topic : MsgItem → Handler lib
  h_reset_topic item = elim item.calling_nick [
    | none ↦ pure tt
    | some nick ↦ (do
      own ← asks (λ w. w.bot_name)
      back_to_topic item (same_name nick own) item.access_channel)
  ]

  abbrev rejoin : MsgItem → Option Bytes → Handler lib
  rejoin item none = pure tt
  rejoin item (some nick) = do
    own ← asks (λ w. w.bot_name)
    if same_name nick own then emit (join true item.access_channel) else pure tt

  unfoldable pub h_rejoin_after_kick : MsgItem → Handler lib
  h_rejoin_after_kick item =
      let rest = fourth_on item.raw_line in rejoin item (get_first_part rest rest).0

  unfoldable pub h_init_after_op : Bytes → Handler lib
  h_init_after_op line = channel_init (get_access_channel line).1
