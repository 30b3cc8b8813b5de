-- ===== src/Command/Help.antt =====
-- The command help of src/command.c, over the texts of src/irchelp.c.
use ebotula.Prelude.{
  ℕ, zero, suc, ◌-◌, ◌≤◌, ◌≡◌, Bool, not, ◌&&◌, ◌||◌, ◌==◌, List, [], ◌∷◌, Option, none, some,
  if◌then◌else◌, ltb, leb, length, get_or, arith,
}
use ebotula.CString.{Bytes, codes, streq, strtok_cut}
use ebotula.Parser.{access_right}
use ebotula.Parser.Table.{
  cmd_none, cmd_first, cmd_count, cmd_logged, cmd_friend, cmd_master, cmd_string,
}
use ebotula.Database.Backend.{Library}
use ebotula.Account.{UserLevel, none_level, logged_level, friend_level, owner_level, master_level}
use ebotula.Account.Levels.{rank}
use ebotula.Bot.Steps.{failed, pure, ◌>>◌}
use ebotula.Bot.{MsgItem, Handler, tell, parameters}
use ebotula.Command.HelpTexts.{IrcHelp, s_irc_help}

-- a row that fails the assertion of GetIrcHelp
abbrev no_help : IrcHelp
no_help = record { cmd_id = cmd_count; irc_help = []; short = []; irc_syntax = [] }

-- the checks of the list for a level
unfoldable pub is_listed : UserLevel → ℕ → Bool
is_listed level id =
    not (ltb (rank level) 1 && leb cmd_logged id) && not (ltb (rank level) 4 && leb cmd_master id)

-- `iLength=HELP_TAB-strlen(...)` blanks; no command is longer than HELP_TAB, which is 12
abbrev blanks : ℕ → Bytes
blanks zero = []
blanks (suc n) = b' ' ∷ blanks n

-- the id of the command with a name, among `n` ids from `id` on
unfoldable pub find_help : Bytes → ℕ → ℕ → Option ℕ
find_help name zero id = none
find_help name (suc n) id =
    let later = find_help name n (suc id) in if streq (cmd_string id) name then some id else later

abbrev commands : ℕ
commands = cmd_count - cmd_first

-- the name behind a `!`, which is put in front if it is not there
abbrev with_mark : Bytes → Bytes
with_mark [] = b'!' ∷ []
with_mark (c ∷ cs) = if c == b'!' then c ∷ cs else b'!' ∷ c ∷ cs

abbrev behind_mark : Bytes → Bytes
behind_mark [] = []
behind_mark (c ∷ cs) = cs

module _ (lib : Library) where
  unfoldable pub tell_all : MsgItem → List Bytes → Handler lib
  tell_all item [] = pure tt
  tell_all item (line ∷ rest) = tell item (line ∷ []) >> tell_all item rest

  -- GetIrcHelp, and what is done with the row; a failed assertion ends the program
  abbrev with_help : ℕ → (IrcHelp → Handler lib) → Handler lib
  with_help id body =
      let row = get_or s_irc_help id no_help in if row.cmd_id == id then body row else failed

  unfoldable pub list_commands : MsgItem → ℕ → ℕ → Handler lib
  list_commands item zero id = pure tt
  list_commands item (suc n) id =
      (if is_listed item.user_level id
        then with_help id (λ row.
          let name = cmd_string id in tell item (name ∷ blanks (12 - length name) ∷ row.short ∷ []))
        else pure tt)
      >> list_commands item n (suc id)

  abbrev help_for : MsgItem → Bytes → Option ℕ → Handler lib
  help_for item parameter none =
      tell item (codes "No help found for the command " ∷ parameter ∷ codes "." ∷ [])
  help_for item parameter (some id) = with_help id (λ row.
      tell item (codes "Help for " ∷ parameter ∷ codes ":" ∷ [])
      >> (tell_all item row.irc_help >> tell_all item (row.irc_syntax ∷ codes "Help end" ∷ [])))

  abbrev help_on : MsgItem → Option Bytes → Handler lib
  help_on item none =
      with_help cmd_none (λ row. tell_all item row.irc_help)
      >> (list_commands item commands cmd_first >> tell item (codes "Help end" ∷ []))
  help_on item (some parameter) =
      let named = with_mark (strtok_cut b' ' parameter) in
      help_for item named (find_help (behind_mark named) commands cmd_first)

  unfoldable pub help : MsgItem → Handler lib
  help item = help_on item (parameters item)

-- The list of help against AccessRight: for any level and any bot command, the command is listed
-- just when the level may run it, or when the user is logged in and the command is one for friends
-- or owners. So every command that a user may run is listed, and a user below an owner sees commands
-- that are refused to him.
pub is_listed-access_right :
    (level : UserLevel) (id : ℕ)
    → cmd_first ≤ id
    → is_listed level id
      ≡ (access_right level id || leb 1 (rank level) && leb cmd_friend id && ltb id cmd_master)
unfolding is_listed access_right
is_listed-access_right none_level id h = ground arith
is_listed-access_right logged_level id h = ground arith
is_listed-access_right friend_level id h = ground arith
is_listed-access_right owner_level id h = ground arith
is_listed-access_right master_level id h = ground arith
