-- ===== src/Command/Channels.antt =====
-- The commands on channels of src/command.c: addchannel, rmchannel, join, part, chanlist.
use ebotula.Prelude.{Bool, true, false, List, [], ◌∷◌, Option, none, some, if◌then◌else◌}
use ebotula.CString.{Bytes, codes, streq}
use ebotula.Extract.{get_channel}
use ebotula.Irc.{join, part}
use ebotula.Channel.{ChannelData, str_to_channel_data, channel_mode_to_str}
use ebotula.Queue.Memory.{QueueData}
use ebotula.Database.Backend.{Library}
use ebotula.Database.{channel_db, add_db, del_db, exist_db, get_db, list_db}
use ebotula.Account.{text_of}
use ebotula.Bot.Steps.{pure, lift, ◌>>=◌, ◌>>◌}
use ebotula.Bot.{MsgItem, Handler, emit, tell, query, change, for_each}

abbrev no_channel_name : List Bytes
no_channel_name = codes "This command requires a channel name." ∷ []

-- `(pCmdChannel=getChannel(...)) && strcmp(pAccessChannel,pCmdChannel)==0`
abbrev is_here : Bytes → Option Bytes → Bool
is_here channel none = false
is_here channel (some here) = streq channel here

module _ (lib : Library) where
  -- the early return of a command that needs a channel
  abbrev pub in_channel : MsgItem → Option Bytes → (Bytes → Handler lib) → Handler lib
  in_channel item none body = tell item no_channel_name
  in_channel item (some channel) body = body channel

  -- the early return of a command that needs another channel than the one it is given in
  abbrev in_other_channel : MsgItem → (Bytes → Handler lib) → Handler lib
  in_other_channel item body = in_channel item item.access_channel (λ channel.
      if is_here channel (get_channel item.raw_line)
      then tell item no_channel_name
      else body channel)

  abbrev enter : MsgItem → Bytes → Handler lib
  enter item channel = do
    emit (join true (some channel))
    tell item (codes "The bot is joined the channel " ∷ channel ∷ codes "." ∷ [])

  abbrev leave : MsgItem → Bytes → Handler lib
  leave item channel = do
    emit (part true (some channel))
    tell item (codes "The bot has left the channel " ∷ channel ∷ codes "." ∷ [])

  unfoldable pub list_channel : MsgItem → Bytes → Handler lib
  list_channel item channel = do
    known ← query (exist_db lib channel_db (some channel))
    if known
        then tell item
            (codes "The channel " ∷ channel ∷ codes " is already on the channel list." ∷ [])
        else (do
          _ ← change (add_db lib channel_db (some channel) (some (b'\t' ∷ b'\t' ∷ [])))
          tell item (codes "The channel " ∷ channel ∷ codes " is added to the channel list" ∷ [])
          enter item channel)

  unfoldable pub add_channel : MsgItem → Handler lib
  add_channel item = in_other_channel item (list_channel item)

  unfoldable pub unlist_channel : MsgItem → Bytes → Handler lib
  unlist_channel item channel = do
    removed ← change (del_db lib channel_db (some channel))
    tell item (
        codes "The channel "
        ∷ channel
        ∷ (if removed
            then codes " is removed from the channel list."
            else codes " isn't in the channel list.")
        ∷ [])
    leave item channel

  unfoldable pub rm_channel : MsgItem → Handler lib
  rm_channel item = in_channel item item.access_channel (unlist_channel item)

  unfoldable pub join_channel : MsgItem → Handler lib
  join_channel item = in_other_channel item (enter item)

  unfoldable pub part_channel : MsgItem → Handler lib
  part_channel item = in_channel item item.access_channel (leave item)

  abbrev tell_part : MsgItem → Bytes → Option Bytes → Handler lib
  tell_part item head none = pure tt
  tell_part item head (some text) = tell item (head ∷ text ∷ [])

  abbrev tell_data : MsgItem → Bytes → ChannelData → Handler lib
  tell_data item channel d = do
    tell item (channel ∷ codes " " ∷ channel_mode_to_str d.modes ∷ [])
    tell_part item (codes "Topic: ") d.topic
    tell_part item (codes "Greeting: ") d.greeting

  abbrev tell_entry : MsgItem → Bytes → Option Bytes → Handler lib
  tell_entry item channel none = pure tt
  tell_entry item channel (some channel_set) = do
    d ← lift (str_to_channel_data channel_set)
    tell_data item channel d

  -- the body of the loop of `chanlist`
  unfoldable pub tell_channel : MsgItem → QueueData → Handler lib
  tell_channel item channel = do
    channel_set ← query (get_db lib channel_db (some (text_of channel)))
    tell_entry item (text_of channel) channel_set

  unfoldable pub chanlist : MsgItem → Handler lib
  chanlist item = do
    tell item (codes "Channel list:" ∷ [])
    channels ← query (list_db lib channel_db)
    for_each channels (tell_channel item)
    tell item (codes "End of the channel list." ∷ [])
