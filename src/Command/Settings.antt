-- ===== src/Command/Settings.antt =====
-- The commands of src/command.c on what the channel database keeps of a channel: greeting, topic,
-- viewgreet, chanmode.
pub mod Merge
pub mod Stored
use ebotula.Prelude.{
  ℕ, zero, suc, Bool, true, false, not, ◌==◌, List, [], ◌∷◌, Option, none, some, if◌then◌else◌,
  get_or, set,
}
use ebotula.CString.{Bytes, codes, strpbrk}
use ebotula.CString.Outcome.{Outcome, done, fault}
use ebotula.Extract.{notice_mode, get_greeting}
use ebotula.Irc.{send_msg, mode, topic}
use ebotula.Channel.{
  or_empty, ChannelMode, ChannelData, str_to_channel_mode, str_to_channel_data, channel_mode_to_str,
  channel_data_to_str,
}
use ebotula.Database.Backend.{Library}
use ebotula.Database.{channel_db, get_db, replace_db}
use ebotula.Bot.Steps.{Done, pure, failed, lift, ◌>>=◌, ◌>>◌}
use ebotula.Bot.{MsgItem, World, Handler, same_name, emit, tell, query, change, asks, parameters}
use ebotula.Command.Channels.{in_channel}

abbrev pub told : Option Bytes → Bytes → Bytes → List Bytes
told none what channel =
    codes "The " ∷ what ∷ codes " of the channel " ∷ channel ∷ codes " is removed" ∷ []
told (some _) what channel =
    codes "The new " ∷ what ∷ codes " of the channel " ∷ channel ∷ codes " is set" ∷ []

-- one turn of the loop of `chanmode`, for the slot `i`, under `+` and under `-`
abbrev add_slot : ChannelMode → ℕ → ChannelMode → ChannelMode
add_slot new i old = record old {
  mode_str = set old.mode_str i (get_or new.mode_str i 0);
  keyword =
      if get_or new.mode_str i 0 == b'k'
      then elim new.keyword [ none ↦ old.keyword | some k ↦ some k ]
      else old.keyword;
  limit =
      if get_or new.mode_str i 0 == b'l'
      then elim new.limit [ none ↦ old.limit | some l ↦ some l ]
      else old.limit;
}

abbrev remove_slot : ChannelMode → ℕ → ChannelMode → ChannelMode
remove_slot new i old = record old {
  mode_str = set old.mode_str i b' ';
  keyword = if get_or new.mode_str i 0 == b'k' then none else old.keyword;
  limit = if get_or new.mode_str i 0 == b'l' then none else old.limit;
}

unfoldable pub merge_slot : ChannelMode → ℕ → ChannelMode → ChannelMode
merge_slot new i old =
    if get_or new.mode_str i 0 == b' '
    then old
    else if get_or new.mode_str 0 0 == b'+'
    then add_slot new i old
    else if get_or new.mode_str 0 0 == b'-'
    then remove_slot new i old
    else old

-- `n` turns of the loop from the slot `i` on
unfoldable pub merge_loop : ChannelMode → ℕ → ℕ → ChannelMode → ChannelMode
unfolding merge_slot
merge_loop new zero i old = old
merge_loop new (suc n) i old = merge_loop new n (suc i) (merge_slot new i old)

abbrev pub channel_modes : Bytes
channel_modes = codes "kltnmsprqi"

abbrev pub sign_slot : ChannelMode → ChannelMode
sign_slot m = record m {
  mode_str = set m.mode_str 0 (if strpbrk m.mode_str channel_modes then b'+' else b' ');
}

-- the new modes of the channel: the loop runs from 1 below MAX_MODES, which is 11
unfoldable pub merge_modes : ChannelMode → ChannelMode → ChannelMode
unfolding merge_loop
merge_modes new old = sign_slot (merge_loop new 10 1 old)

abbrev prefixed : ℕ → Outcome Bytes → Outcome Bytes
prefixed c fault = fault
prefixed c (done s) = done (c ∷ s)

-- what vsprintf makes of a format without arguments: any conversion but `%%` reads one
unfoldable pub formatted : Bytes → Outcome Bytes
formatted [] = done []
formatted (c ∷ []) = if c == b'%' then fault else done (c ∷ [])
formatted (c ∷ d ∷ s) =
    let behind = formatted s in
    let next = formatted (d ∷ s) in
    if c == b'%' then (if d == b'%' then prefixed b'%' behind else fault) else prefixed c next

module _ (lib : Library) where
  abbrev store : Bytes → ChannelData → Handler lib
  store channel d = do
    _ ← change (replace_db lib channel_db (some channel) (some (channel_data_to_str d)))
    pure tt

  abbrev not_listed : MsgItem → Bytes → Handler lib
  not_listed item channel =
      tell item (codes "The channel " ∷ channel ∷ codes " isn't in the channel list." ∷ [])

  abbrev greet_with : MsgItem → Bytes → Option Bytes → Handler lib
  greet_with item channel none = not_listed item channel
  greet_with item channel (some channel_set) = do
    d ← lift (str_to_channel_data channel_set)
    store channel (record d { greeting = parameters item })
    tell item (told (parameters item) (codes "greeting") channel)

  unfoldable pub set_greeting : MsgItem → Handler lib
  set_greeting item = in_channel lib item item.access_channel (λ channel. do
    channel_set ← query (get_db lib channel_db (some channel))
    greet_with item channel channel_set)

  abbrev topic_with : MsgItem → Bytes → Option Bytes → Handler lib
  topic_with item channel none = tell item (codes "This channel isn't in the channel list." ∷ [])
  topic_with item channel (some channel_set) = do
    d ← lift (str_to_channel_data channel_set)
    store channel (record d { topic = parameters item })
    emit (topic true (some channel) (some (or_empty (parameters item))))
    tell item (told (parameters item) (codes "topic") channel)

  unfoldable pub set_topic : MsgItem → Handler lib
  set_topic item = in_channel lib item item.access_channel (λ channel. do
    channel_set ← query (get_db lib channel_db (some channel))
    topic_with item channel channel_set)

  abbrev greet : MsgItem → Bytes → Handler lib
  greet item text = do
    answer ← lift (formatted text)
    emit (send_msg true notice_mode item.calling_nick answer)

  abbrev greet_if : MsgItem → Option Bytes → Handler lib
  greet_if item none = pure tt
  greet_if item (some text) = greet item text

  abbrev greet_entry : MsgItem → Option Bytes → Handler lib
  greet_entry item none = pure tt
  greet_entry item (some channel_set) = greet_if item (get_greeting channel_set)

  abbrev greet_in : MsgItem → Option Bytes → Handler lib
  greet_in item none = pure tt
  greet_in item (some channel) = do
    channel_set ← query (get_db lib channel_db (some channel))
    greet_entry item channel_set

  abbrev greet_other : MsgItem → Bool → Handler lib
  greet_other item true = pure tt
  greet_other item false = greet_in item item.access_channel

  -- the greeting is sent as a format
  unfoldable pub greeting : MsgItem → Handler lib
  greeting item = elim item.calling_nick [
    | none ↦ pure tt
    | some nick ↦ (do name ← asks (λ w. w.bot_name); greet_other item (same_name nick name))
  ]

  abbrev modes_with : MsgItem → Bytes → Bytes → Option Bytes → Handler lib
  modes_with item channel params none = not_listed item channel
  modes_with item channel params (some channel_set) = do
    d ← lift (str_to_channel_data channel_set)
    new ← lift (str_to_channel_mode (some params))
    store channel (record d { modes = merge_modes new d.modes })
    emit (mode true (some channel) (some (channel_mode_to_str new)) none)

  abbrev modes_of : MsgItem → Bytes → Option Bytes → Handler lib
  modes_of item channel none = tell item (codes "Couldn't found regulare parameters." ∷ [])
  modes_of item channel (some params) = do
    channel_set ← query (get_db lib channel_db (some channel))
    modes_with item channel params channel_set

  unfoldable pub chanmode : MsgItem → Handler lib
  chanmode item =
      in_channel lib item item.access_channel (λ channel. modes_of item channel (parameters item))
