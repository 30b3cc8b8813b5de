-- ===== src/Dispatch.antt =====
-- CommandExecutionThread of src/parser.c: what one item of the command queue does, over the table
-- of the handlers in src/cmdlist.c. The handlers of version and of the CTCP requests
-- are a parameter.
pub mod Admission
mod Tests
use ebotula.Prelude.{
  ℕ, Bool, true, false, ◌&&◌, ◌==◌, List, [], ◌∷◌, Option, none, some, ltb, if◌then◌else◌, get_or,
}
use ebotula.CString.{Bytes, codes}
use ebotula.Extract.{get_netmask, get_nickname, get_access_channel, get_answer_mode, get_parameters}
use ebotula.Irc.{notice}
use ebotula.Database.Backend.{Library}
use ebotula.Database.{Databases}
use ebotula.Account.{get_user_level}
use ebotula.Parser.{access_right}
use ebotula.Parser.Table.{
  cmd_none, cmd_onping, cmd_onquit, cmd_onnickchg, cmd_onmode, cmd_onkick, cmd_onjoin, cmd_onnames,
  cmd_ontopic, cmd_onwhois, cmd_onnonick, cmd_viewgreat, cmd_help, cmd_hello, cmd_ident, cmd_logoff,
  cmd_pass, cmd_invite, cmd_chanmode, cmd_accountlist, cmd_accountmode, cmd_say, cmd_kick,
  cmd_set_topic, cmd_set_greating, cmd_ban, cmd_deban, cmd_restart, cmd_allsay, cmd_rmuser,
  cmd_nick, cmd_die, cmd_channels, cmd_rmchannel, cmd_addchannel, cmd_join, cmd_part, cmd_count,
  CmdHandle, cmd_handle_field,
}
use ebotula.Bot.Steps.{Done, pure, lift, ◌>>=◌}
use ebotula.Bot.{MsgItem, World, Handler, emit, query}
use ebotula.Command.Accounts.{hello, password, logoff, ident, rmaccount}
use ebotula.Command.AccountModes.{account_mode}
use ebotula.Command.Help.{help}
use ebotula.Command.Listing.{account_list}
use ebotula.Command.Channels.{add_channel, rm_channel, join_channel, part_channel, chanlist}
use ebotula.Command.Settings.{set_greeting, set_topic, greeting, chanmode}
use ebotula.Command.Speech.{say, allsay, set_nick, invite_user, die, restart}
use ebotula.Command.Users.{ban_user, deban_user, kick_user}
use ebotula.Event.{
  h_pong, h_nick_change, h_bot_need_op, h_user_join, h_reset_topic, h_rejoin_after_kick,
}
use ebotula.Event.Modes.{h_reset_modes}
use ebotula.Event.Answers.{h_callback, h_whois_failed}

-- the column `bIsCommand` of the table
abbrev pub is_command_id : ℕ → List CmdHandle → Bool
is_command_id id [] = false
is_command_id id (r ∷ rs) =
    let rest = is_command_id id rs in if r.cmd_id == id then r.is_command else rest

module _ (lib : Library) where
  -- the column of the handlers
  abbrev pub handlers : List (ℕ × (MsgItem → Handler lib))
  handlers =
      (cmd_onping, h_pong lib)
      ∷ (cmd_onquit, logoff lib)
      ∷ (cmd_onnickchg, h_nick_change lib)
      ∷ (cmd_onmode, h_reset_modes lib)
      ∷ (cmd_onkick, h_rejoin_after_kick lib)
      ∷ (cmd_onjoin, h_user_join lib)
      ∷ (cmd_onnames, h_bot_need_op lib)
      ∷ (cmd_ontopic, h_reset_topic lib)
      ∷ (cmd_onwhois, h_callback lib)
      ∷ (cmd_onnonick, h_whois_failed lib)
      ∷ (cmd_viewgreat, greeting lib)
      ∷ (cmd_help, help lib)
      ∷ (cmd_hello, hello lib)
      ∷ (cmd_ident, ident lib)
      ∷ (cmd_logoff, logoff lib)
      ∷ (cmd_pass, password lib)
      ∷ (cmd_invite, invite_user lib)
      ∷ (cmd_chanmode, chanmode lib)
      ∷ (cmd_accountlist, account_list lib)
      ∷ (cmd_accountmode, account_mode lib)
      ∷ (cmd_say, say lib)
      ∷ (cmd_kick, kick_user lib)
      ∷ (cmd_set_topic, set_topic lib)
      ∷ (cmd_set_greating, set_greeting lib)
      ∷ (cmd_ban, ban_user lib)
      ∷ (cmd_deban, deban_user lib)
      ∷ (cmd_restart, restart lib)
      ∷ (cmd_allsay, allsay lib)
      ∷ (cmd_rmuser, rmaccount lib)
      ∷ (cmd_nick, set_nick lib)
      ∷ (cmd_die, die lib)
      ∷ (cmd_channels, chanlist lib)
      ∷ (cmd_rmchannel, rm_channel lib)
      ∷ (cmd_addchannel, add_channel lib)
      ∷ (cmd_join, join_channel lib)
      ∷ (cmd_part, part_channel lib)
      ∷ []

  -- the handler of an id: the one of the table, or else the parameter
  unfoldable pub command_handler :
      (ℕ → MsgItem → Handler lib) → List (ℕ × (MsgItem → Handler lib)) → ℕ → MsgItem → Handler lib
  command_handler others [] id = others id
  command_handler others ((key, handler) ∷ rest) id =
      let behind = command_handler others rest id in if key == id then handler else behind

  -- the values that are taken from the line, before the handler is chosen
  abbrev pub filled : Bytes → Option Bytes → Option Bytes → Option Bytes → Databases lib → MsgItem
  filled line netmask channel nick dbf = record {
    user_level = get_user_level lib channel netmask dbf;
    answer_mode = get_answer_mode line;
    access_channel = channel;
    calling_nick = nick;
    netmask = netmask;
    raw_line = (get_parameters line).0;
    interactive_mode = true;
    parameter = (get_parameters line).1;
  }

  unfoldable pub route : (ℕ → MsgItem → Handler lib) → ℕ → MsgItem → Handler lib
  route handler id item =
      if access_right item.user_level id
      then (if ltb cmd_none id && ltb id cmd_count
          then handler id (record item { interactive_mode = is_command_id id cmd_handle_field })
          else pure tt)
      else emit (notice true item.calling_nick (some (codes "Access denied")))

  -- one turn of the loop, for an item of the queue; the line changes while it is read
  unfoldable pub execute : (ℕ → MsgItem → Handler lib) → ℕ → Bytes → Handler lib
  execute handler id line = do
    netmask ← lift (get_netmask (some line))
    nick ← lift (get_nickname (some (get_access_channel line).0))
    item ← query (filled (get_access_channel line).0 netmask (get_access_channel line).1 nick)
    route handler id item
