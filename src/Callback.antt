-- ===== src/Callback.antt =====
-- src/callback.c: what is done once the server has told who a user is. A callback gets the netmask
-- of that user and the text that was put on the callback list for it.
use ebotula.Prelude.{ℕ, Bool, true, false, not, ◌&&◌, ◌==◌, ◌++◌, Option, none, some, if◌then◌else◌}
use ebotula.CString.{Bytes, codes, streq}
use ebotula.Extract.{first, get_nickname, get_first_part, get_banmask}
use ebotula.Irc.{mode, ban, kick, notice}
use ebotula.Database.Backend.{Library}
use ebotula.Database.{access_db, usertonick_db, nicktouser_db, get_db}
use ebotula.Account.{check_user_level}
use ebotula.Bot.Steps.{pure, failed, lift, ◌>>=◌, ◌>>◌}
use ebotula.Bot.{
  Handler, CallbackItem, mode_reset_cb, set_ban_cb, kick_cb, same_name, emit, query, query_checked,
  asks, first_part,
}
use ebotula.Command.Accounts.{signed}
use ebotula.Command.AccountModes.{second}

-- the second word of a text, and what is behind it
abbrev second_part : Bytes → Option Bytes × Option Bytes
second_part text = let rest = (get_first_part (some text) none).1 in get_first_part rest rest

module _ (lib : Library) where
  -- a use of a string that must not be NULL
  abbrev needed : Option Bytes → (Bytes → Handler lib) → Handler lib
  needed none body = failed
  needed (some s) body = body s

  -- `pOldMode[0]=sign; mode(pChannel,pOldMode,pNick)`
  abbrev resign : Bytes → Bytes → ℕ → Option Bytes → Handler lib
  resign channel nick sign none = failed
  resign channel nick sign (some old) = do
    changed ← lift (signed sign old)
    emit (mode true (some channel) (some changed) (some nick))

  -- a user with a right in the channel; the code compares it with the channel's name
  abbrev reset_owner : Bytes → Bytes → Option Bytes → Bytes → Handler lib
  reset_owner channel nick old right = do
    r ← lift (second right)
    c ← lift (second channel)
    if r == c
        then (if first channel == b'-' then resign channel nick b'+' old else pure tt)
        else resign channel nick b'-' old

  abbrev reset_master : Bytes → Bytes → Option Bytes → Option Bytes → Handler lib
  reset_master channel nick old none = pure tt
  reset_master channel nick old (some right) = needed old (λ mods.
      if streq mods (codes "+o")
      then pure tt
      else resign channel nick (if first mods == b'-' then b'+' else b'-') old)

  abbrev reset_right : Bytes → Bytes → Option Bytes → Bytes → Option Bytes → Handler lib
  reset_right channel nick old login none = do
    right ← query (get_db lib access_db (some login))
    reset_master channel nick old right
  reset_right channel nick old login (some right) = reset_owner channel nick old right

  abbrev reset_login : Bytes → Bytes → Option Bytes → Option Bytes → Handler lib
  reset_login channel nick old (some login) = do
    right ← query (get_db lib access_db (some (login ++ channel)))
    reset_right channel nick old login right
  reset_login channel nick old none = needed old (λ mods. do
    own ← asks (λ w. w.bot_name)
    if (first mods == b'+') && not (same_name nick own)
        then resign channel nick b'-' old
        else pure tt)

  abbrev reset_nick : Bytes → Bytes → Option Bytes → Option Bytes → Handler lib
  reset_nick netmask channel old none = pure tt
  reset_nick netmask channel old (some nick) = do
    login ← query (get_db lib nicktouser_db (some netmask))
    reset_login channel nick old login

  unfoldable pub reset_modes : Bytes → Bytes → Handler lib
  reset_modes netmask text = do
    nick ← lift (get_nickname (some netmask))
    needed (get_first_part (some text) none).0
        (λ channel. reset_nick netmask channel (get_first_part (some text) none).1 nick)

  abbrev answer : Bytes → Bytes → Handler lib
  answer nick text = emit (notice true (some nick) (some text))

  abbrev ban_if : Bytes → Bytes → Option Bytes → Bool → Handler lib
  ban_if channel nick banmask true = do
    emit (ban true (some channel) banmask)
    answer nick (codes "The user is banned by the bot.")
  ban_if channel nick banmask false = answer nick (codes "Couldn't ban this user")

  -- the level is asked for the nick name of the caller, where a login is expected
  abbrev ban_for : Option Bytes → Option Bytes → Option Bytes → Option Bytes → Handler lib
  ban_for channel banmask dest none = pure tt
  ban_for channel banmask dest (some nick) = needed channel (λ chan. do
    allowed ← query_checked (check_user_level lib (some nick) dest chan)
    ban_if chan nick banmask allowed)

  unfoldable pub set_ban : Bytes → Bytes → Handler lib
  set_ban netmask text = do
    banmask ← lift (get_banmask (some netmask))
    dest ← query (get_db lib nicktouser_db (some netmask))
    caller ← query (get_db lib usertonick_db (get_first_part (some text) none).0)
    nick ← lift (get_nickname caller)
    ban_for (first_part (get_first_part (some text) none).1) banmask dest nick

  abbrev kick_nick : Bytes → Bytes → Option Bytes → Option Bytes → Handler lib
  kick_nick channel nick reason none = pure tt
  kick_nick channel nick reason (some target) = do
    emit (kick true (some channel) (some target) reason)
    answer nick (codes "The user is kicked by the bot")

  abbrev kick_if : Bytes → Bytes → Bytes → Option Bytes → Bool → Handler lib
  kick_if netmask channel nick reason true = do
    target ← lift (get_nickname (some netmask))
    kick_nick channel nick reason target
  kick_if netmask channel nick reason false = answer nick (codes "Couldn't kick this user")

  abbrev kick_for : Bytes → Option Bytes × Option Bytes → Option Bytes → Option Bytes → Handler lib
  kick_for netmask target dest none = pure tt
  kick_for netmask (channel, reason) dest (some nick) = needed channel (λ chan. do
    allowed ← query_checked (check_user_level lib (some nick) dest chan)
    kick_if netmask chan nick reason allowed)

  unfoldable pub kick_user_cb : Bytes → Bytes → Handler lib
  kick_user_cb netmask text = do
    dest ← query (get_db lib nicktouser_db (some netmask))
    caller ← query (get_db lib usertonick_db (get_first_part (some text) none).0)
    nick ← lift (get_nickname caller)
    kick_for netmask (second_part text) dest nick

  -- the call through the function pointer of an item
  unfoldable pub run_callback : CallbackItem → Bytes → Handler lib
  unfolding reset_modes set_ban kick_user_cb
  run_callback item netmask = elim item.callback_fkt [
    | mode_reset_cb ↦ reset_modes netmask item.text
    | set_ban_cb ↦ set_ban netmask item.text
    | kick_cb ↦ kick_user_cb netmask item.text
  ]
