-- ===== src/Command/Speech.antt =====
-- The commands of src/command.c that only speak: say, allsay, nick, invite, die, restart.
use ebotula.Prelude.{true, false, [], ◌∷◌, ◌++◌, Option, none, some, if◌then◌else◌}
use ebotula.CString.{Bytes, codes}
use ebotula.CString.Outcome.{done}
use ebotula.Extract.{get_argument, get_first_part}
use ebotula.Utilities.{nick_string_check}
use ebotula.Irc.{crlf, privmsg, nick, invite}
use ebotula.Database.Backend.{Library}
use ebotula.Database.{channel_db, list_db}
use ebotula.Account.{text_of}
use ebotula.Bot.Steps.{failed, ◌>>=◌, ◌>>◌}
use ebotula.Bot.{
  MsgItem, Handler, same_name, emit, tell, query, asks, for_each, parameters, first_part,
}
use ebotula.Command.Channels.{in_channel}

module _ (lib : Library) where
  -- the early return of a command that needs parameters
  abbrev pub with_text : MsgItem → Option Bytes → (Bytes → Handler lib) → Handler lib
  with_text item none body = tell item (codes "Couldn't found regulare parameters." ∷ [])
  with_text item (some text) body = body text

  unfoldable pub say : MsgItem → Handler lib
  say item = in_channel lib item item.access_channel (λ channel.
      with_text item (parameters item) (λ text. emit (privmsg true (some channel) (some text))))

  unfoldable pub allsay : MsgItem → Handler lib
  allsay item = with_text item (parameters item) (λ text. do
    channels ← query (list_db lib channel_db)
    for_each channels (λ channel. emit (privmsg true (some (text_of channel)) (some text))))

  abbrev rename : Bytes → Handler lib
  rename name w = done (tt, record w { bot_name = name })

  abbrev take_nick : MsgItem → Bytes → Handler lib
  take_nick item name = do
    emit (nick true (some name))
    tell item (codes "The bot tries to change the nickname to " ∷ name ∷ codes "." ∷ [])
    rename name

  unfoldable pub set_nick : MsgItem → Handler lib
  set_nick item = with_text item (parameters item) (λ name.
      if nick_string_check (some name)
      then take_nick item name
      else tell item (codes "The Nickname " ∷ name ∷ codes " is invalid." ∷ []))

  abbrev invite_in : MsgItem → Bytes → Option Bytes → Handler lib
  invite_in item name none =
      tell item (codes "The bot need a channel parameter for inviting of the user " ∷ name ∷ [])
  invite_in item name (some channel) = do
    emit (invite true (some channel) (some name))
    tell item (
        codes "The bot has invite the user "
        ∷ name
        ∷ codes " to the channel "
        ∷ channel
        ∷ codes "."
        ∷ [])

  abbrev invite_name : MsgItem → Option Bytes → Handler lib
  invite_name item none = failed
  invite_name item (some name) = do
    own ← asks (λ w. w.bot_name)
    if same_name name own
        then tell item (codes "Can't invite myself." ∷ [])
        else invite_in item name item.access_channel

  abbrev or_caller : MsgItem → Option Bytes → Option Bytes
  or_caller item none = item.calling_nick
  or_caller item (some name) = some name

  -- the nick name is the second word, or the caller; without a caller strlen reads through NULL
  unfoldable pub invite_user : MsgItem → Handler lib
  invite_user item =
      with_text item (get_argument item.raw_line).1
        (λ line. invite_name item (or_caller item (first_part (get_first_part (some line) none).1)))

  abbrev stop_parser : Handler lib
  stop_parser w = elim w.stop [
    | true ↦ done (tt, w)
    | false ↦ done (tt, record w { sent = w.sent ++ ((codes "QUIT" ++ crlf) ∷ []); stop = true })
  ]

  unfoldable pub die : MsgItem → Handler lib
  die item = do tell item (codes "The bot is going down." ∷ []); stop_parser

  abbrev come_back : Handler lib
  come_back w = done (tt, record w { again = true })

  unfoldable pub restart : MsgItem → Handler lib
  restart item = do tell item (codes "The bot is going to restart." ∷ []); come_back; stop_parser
