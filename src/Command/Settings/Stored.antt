-- ===== src/Command/Settings/Stored.antt =====
-- What the commands greeting and topic of src/command.c store.
use ebotula.Prelude.{
  ◌<◌, ◌≡◌, refl, true, List, ◌++◌, concat, Option, none, some, length, total, arith,
}
use ebotula.CString.{Bytes, codes}
use ebotula.CString.Laws.{lacks, streq_refl}
use ebotula.CString.Outcome.{done}
use ebotula.Utilities.{str_to_lower}
use ebotula.Irc.Lines.{message_of, line_of, run_call-message_of, topic_call}
use ebotula.Channel.{ChannelData, or_empty, str_to_channel_data, channel_data_to_str}
use ebotula.Channel.RoundTrip.{IsData, str_to_channel_data-channel_data_to_str}
use ebotula.Database.Backend.{Library, IsGdbm}
use ebotula.Database.{channel_db, Databases, replace_db, get_db}
use ebotula.Database.View.{replace_db-Updated}
use ebotula.Bot.{MsgItem, World, lines, parameters}
use ebotula.Bot.Runs.{answer_call, send_msg-sent, Ends}
use ebotula.Command.Settings.{told, set_greeting, set_topic}

-- the channel database holds an entry for the channel that reads back as `d`
abbrev pub Holds : (lib : Library) → Bytes → ChannelData → Databases lib → Type 0
Holds lib channel d dbf =
    (channel_set : Bytes) × (get_db lib channel_db (some channel) dbf ≡ some channel_set)
    × (str_to_channel_data channel_set ≡ done d)

abbrev pub in_channel_of : MsgItem → Bytes → MsgItem
in_channel_of item channel = record item { access_channel = some channel }

-- the channel with the parameters of the message as its greeting, or as its topic
abbrev pub greeted : MsgItem → ChannelData → ChannelData
greeted item d = record d { greeting = parameters item }

abbrev pub titled : MsgItem → ChannelData → ChannelData
titled item d = record d { topic = parameters item }

-- the line of an answer to the caller
abbrev pub sent_to : MsgItem → List Bytes → List Bytes
sent_to item text =
    lines (line_of (message_of (answer_call item.answer_mode item.calling_nick (concat text))))

told-short :
    (o : Option Bytes) (what channel : Bytes)
    → length what < 20
    → length channel < 900
    → total (told o what channel) < 1024
told-short none what channel h n = omega arith
told-short (some _) what channel h n = omega arith

module _ (lib : Library) (gdbm : IsGdbm lib) where
  replaced-Holds :
      (channel old : Bytes) (d : ChannelData) (dbf : Databases lib)
      → IsData d
      → lacks 0 (channel_data_to_str d) ≡ true
      → get_db lib channel_db (some channel) dbf ≡ some old
      → Holds lib channel d
          (replace_db lib channel_db (some channel) (some (channel_data_to_str d)) dbf).1
  replaced-Holds channel old d dbf is h e =
      let text = channel_data_to_str d in
      let updated = (replace_db-Updated lib gdbm channel_db channel text dbf (omega arith) h).1 in
      (
        text,
        rw (updated channel_db channel, streq_refl (str_to_lower channel), e) refl,
        str_to_channel_data-channel_data_to_str is,
      )

  -- The command greeting in a listed channel with an entry that can be read, over a library that
  -- does what gdbm documents, for a channel name below 900 bytes: it ends, and the entry of the
  -- channel then reads back with the new greeting, and with the modes and the topic it had. The
  -- conditions on the entry with the new greeting are that its modes are well formed, that its topic
  -- and its greeting, where it has them, are texts without tabs that are not empty, and that it is
  -- written without NUL bytes.
  pub set_greeting-Holds :
      (item : MsgItem) (channel old : Bytes) (d : ChannelData) (w : World lib)
      → length channel < 900
      → get_db lib channel_db (some channel) w.dbf ≡ some old
      → str_to_channel_data old ≡ done d
      → IsData (greeted item d)
      → lacks 0 (channel_data_to_str (greeted item d)) ≡ true
      → Ends
          (set_greeting lib (in_channel_of item channel) w)
          (λ _ v. Holds lib channel (greeted item d) v.dbf)
  unfolding set_greeting
  set_greeting-Holds item channel old d w n e hd is h =
      let text = told (parameters item) (codes "greeting") channel in
      let short = told-short (parameters item) (codes "greeting") channel (omega arith) n in
      rw (e, hd, send_msg-sent (in_channel_of item channel) text short)
        (replaced-Holds channel old (greeted item d) w.dbf is h e)

  -- The command topic in a listed channel with an entry that can be read, over a library that does
  -- what gdbm documents, for a channel name below 900 bytes: it ends, and the entry of the
  -- channel then reads back with the new topic, and with the modes and the greeting it had. Two
  -- lines are sent: the command that gives the channel this topic on the server, an empty one when
  -- there is none, and the answer. The conditions on the entry with the new topic are those that
  -- the greeting has.
  pub set_topic-Holds :
      (item : MsgItem) (channel old : Bytes) (d : ChannelData) (w : World lib)
      → length channel < 900
      → get_db lib channel_db (some channel) w.dbf ≡ some old
      → str_to_channel_data old ≡ done d
      → IsData (titled item d)
      → lacks 0 (channel_data_to_str (titled item d)) ≡ true
      → Ends (set_topic lib (in_channel_of item channel) w) (λ _ v.
        Holds lib channel (titled item d) v.dbf
        × (v.sent
            ≡ w.sent
              ++ lines (
                  line_of
                    (message_of (topic_call (some channel) (some (or_empty (parameters item))))))
              ++ sent_to item (told (parameters item) (codes "topic") channel)))
  unfolding set_topic
  set_topic-Holds item channel old d w n e hd is h =
      let text = told (parameters item) (codes "topic") channel in
      let short = told-short (parameters item) (codes "topic") channel (omega arith) n in
      let line = topic_call (some channel) (some (or_empty (parameters item))) in
      rw (e, hd, send_msg-sent (in_channel_of item channel) text short, run_call-message_of line)
        (replaced-Holds channel old (titled item d) w.dbf is h e, refl)
