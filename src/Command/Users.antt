-- ===== src/Command/Users.antt =====
-- The commands of src/command.c against a user: ban, deban, kick. The first and the last put a
-- callback on the list and ask the server for the user.
use ebotula.Prelude.{true, List, [], ◌∷◌, Option, none, some, concat, if◌then◌else◌}
use ebotula.CString.{Bytes, codes}
use ebotula.Extract.{get_first_part}
use ebotula.Irc.{whois, deban}
use ebotula.Database.Backend.{Library}
use ebotula.Database.{nicktouser_db, get_db}
use ebotula.Bot.Steps.{pure, failed, ◌>>=◌, ◌>>◌}
use ebotula.Bot.{
  MsgItem, Handler, CallbackFkt, set_ban_cb, kick_cb, same_name, emit, tell, query, asks,
  add_callback, parameters, first_part,
}
use ebotula.Command.Channels.{in_channel}
use ebotula.Command.Speech.{with_text}

module _ (lib : Library) where
  -- the callback waits for the answer on the user
  abbrev look_up : CallbackFkt → Bytes → List Bytes → Handler lib
  look_up callback name text = do
    add_callback (record { nickname = name; callback_fkt = callback; text = concat text })
    emit (whois true (some name))

  -- without a login strlen reads through NULL
  abbrev ban_by : Bytes → Bytes → Option Bytes → Handler lib
  ban_by name channel none = failed
  ban_by name channel (some login) = look_up set_ban_cb name (login ∷ codes " " ∷ channel ∷ [])

  abbrev ban_in : MsgItem → Bytes → Bytes → Handler lib
  ban_in item channel name = do
    own ← asks (λ w. w.bot_name)
    login ← query (get_db lib nicktouser_db item.netmask)
    if same_name name own
        then tell item (codes "Can't ban myself" ∷ [])
        else ban_by name channel login

  unfoldable pub ban_user : MsgItem → Handler lib
  ban_user item =
      in_channel lib item item.access_channel
        (λ channel. with_text lib item (first_part (parameters item)) (ban_in item channel))

  abbrev lift_ban : MsgItem → Bytes → Option Bytes → Handler lib
  lift_ban item channel none = pure tt
  lift_ban item channel (some banmask) = do
    emit (deban true (some channel) (some banmask))
    tell item (
        codes "The ban "
        ∷ banmask
        ∷ codes " is removed by the bot from the channel "
        ∷ channel
        ∷ [])

  unfoldable pub deban_user : MsgItem → Handler lib
  deban_user item = in_channel lib item item.access_channel (λ channel.
      with_text lib item (parameters item)
        (λ params. lift_ban item channel (first_part (some params))))

  abbrev or_default : Option Bytes → Bytes
  or_default none = codes "You are kicked from the bot."
  or_default (some reason) = reason

  abbrev kick_by : MsgItem → Bytes → Bytes → Option Bytes → Option Bytes → Handler lib
  kick_by item channel name reason none = tell item (codes "Couldn't found you account." ∷ [])
  kick_by item channel name reason (some login) =
      look_up kick_cb name (login ∷ codes " " ∷ channel ∷ codes " " ∷ or_default reason ∷ [])

  abbrev kick_in : MsgItem → Bytes → Option Bytes × Option Bytes → Handler lib
  kick_in item channel (none, reason) = pure tt
  kick_in item channel (some name, reason) = do
    own ← asks (λ w. w.bot_name)
    login ← query (get_db lib nicktouser_db item.netmask)
    if same_name name own
        then tell item (codes "Can't kick myself" ∷ [])
        else kick_by item channel name reason login

  unfoldable pub kick_user : MsgItem → Handler lib
  kick_user item = in_channel lib item item.access_channel (λ channel.
      with_text lib item (parameters item)
        (λ params. kick_in item channel (get_first_part (some params) none)))
