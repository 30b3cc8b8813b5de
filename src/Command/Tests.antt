-- ===== src/Command/Tests.antt =====
-- Runs of the commands of src/command.c over a library in memory.
use ebotula.Prelude.{
  ◌≡◌, refl, inl, true, false, [], ◌∷◌, ◌++◌, none, some, ◌==◌, if◌then◌else◌, get_or, arith,
}
use ebotula.CString.{Bytes, codes, streq, strpbrk, strtok_cut, take_until}
use ebotula.Utilities.{trim, clearspace, str_to_lower}
use ebotula.Channel.ModeRoundTrip.{IsModes, modes}
use ebotula.CString.Outcome.{done}
use ebotula.Extract.{
  prv_msg_mode, get_parameters, get_nickname, get_greeting, get_topic, get_channel_mode,
}
use ebotula.Channel.{
  ChannelMode, ChannelData, blank_modes, add_parameter, channel_mode_to_str, str_to_channel_mode,
  str_to_channel_data, channel_data_to_str,
}
use ebotula.Database.View.{Updated}
use ebotula.Database.InMemory.{in_memory, in_memory-IsGdbm, no_entries}
use ebotula.Database.{
  Databases, user_db, channel_db, access_db, nicktouser_db, datum, get_db, list_db, check_db,
  exist_db,
}
use ebotula.Account.{
  UserLevel, none_level, owner_level, master_level, get_user_level, check_user_level,
}
use ebotula.Bot.{MsgItem, World}
use ebotula.Bot.Runs.{Ends}
use ebotula.Prelude.{ℕ, suc, List, Bool, ◌||◌, ◌&&◌, leb, ltb}
use ebotula.Parser.{access_right}
use ebotula.Parser.Table.{cmd_chanmode, cmd_friend, cmd_master}
use ebotula.Account.{friend_level}
use ebotula.Account.Levels.{rank}
use ebotula.Command.HelpTexts.{IrcHelp, s_irc_help}
use ebotula.Command.Help.{is_listed, is_listed-access_right}
use ebotula.Command.Accounts.{hello, ident}
use ebotula.Command.Accounts.First.{called_by, hello-first}
use ebotula.Command.Accounts.Hello.{hello-later}
use ebotula.Command.Accounts.Identify.{Identified, ident-password}
use ebotula.Command.AccountModes.{old_right, is_protected, account_mode}
use ebotula.Command.AccountModes.Granted.{given, account_mode-granted}
use ebotula.Command.Settings.{merge_loop, merge_modes, set_greeting}
use ebotula.Command.Settings.Merge.{merge_modes-slots}
use ebotula.Command.Settings.Stored.{Holds, in_channel_of, greeted, set_greeting-Holds}

abbrev said : UserLevel → Bytes → MsgItem
said level line = record {
  user_level = level;
  answer_mode = prv_msg_mode;
  access_channel = none;
  calling_nick = some (codes "bob");
  netmask = some (codes "bob!u@h");
  raw_line = codes ":bob!u@h PRIVMSG bot :!" ++ line;
  interactive_mode = true;
  parameter = none;
}

abbrev world : Databases in_memory → World in_memory
world dbf = record {
  dbf = dbf;
  sent = [];
  callbacks = [];
  bot_name = codes "bot";
  now = codes "1000";
  stop = false;
  again = false;
}

-- the account `amy` with the password `pw`, and no other entry
abbrev one_account : Databases in_memory
one_account = λ db.
    if db == user_db
    then ((λ _. some (datum (codes "SLpw"))), datum (codes "amy") ∷ [])
    else ((λ _. none), [])

hello-first_example :
    Ends
      (hello in_memory
        (called_by (said none_level (codes "hello")) (codes "bob") (codes "bob!u@h"))
        (world no_entries))
      (λ _ v.
        (get_user_level in_memory none (some (codes "bob!u@h")) v.dbf ≡ master_level)
        × (check_user_level in_memory (some (codes "x")) (some (codes "bob")) (codes "#c") v.dbf
            ≡ done true))
unfolding get_db list_db streq str_to_lower
hello-first_example =
    hello-first in_memory in_memory-IsGdbm (codes "bob") (said none_level (codes "hello"))
      (codes "bob!u@h") (codes "#c") (some (codes "x")) (world no_entries) (omega arith) refl refl
      refl refl refl refl refl refl refl refl refl

hello-later_example :
    Ends
      (hello in_memory (said none_level (codes "hello")) (world one_account))
      (λ _ v. v.dbf access_db ≡ one_account access_db)
unfolding list_db
hello-later_example =
    hello-later in_memory (said none_level (codes "hello")) (world one_account) (omega arith) refl

ident-password_example :
    Ends
      (ident in_memory
        (record (said none_level (codes "ident amy pw")) { netmask = some (codes "bob!u@h") })
        (world one_account))
      (λ _ v. Identified in_memory (codes "bob!u@h") (codes "amy") true one_account v.dbf)
unfolding get_db get_parameters strtok_cut check_db exist_db streq
ident-password_example =
    ident-password in_memory in_memory-IsGdbm (said none_level (codes "ident amy pw"))
      (codes "bob!u@h") (codes "amy pw") (codes "amy") (codes " pw") true (world one_account) refl
      refl refl refl refl refl refl refl

-- accounts, one of which has a right everywhere, a listed channel, and a session of `bob`
abbrev court : Bytes → Databases in_memory
court right = λ db.
    if db == user_db
    then ((λ _. some (datum (codes "SLpw"))), [])
    else if db == channel_db
    then ((λ _. some (datum (b'\t' ∷ b'\t' ∷ []))), datum (codes "#c") ∷ [])
    else if db == nicktouser_db
    then ((λ _. some (datum (codes "bob"))), [])
    else if db == access_db
    then ((λ k. if streq k (datum (codes "amy")) then some (datum right) else none), [])
    else ((λ _. none), [])

account_mode-granted_example :
    Ends
      (account_mode in_memory
        (in_channel_of (said owner_level (codes "accountmode amy +v")) (codes "#c"))
        (world (court (codes "+o"))))
      (λ _ v.
        Updated in_memory
          (court (codes "+o"))
          v.dbf
          access_db
          (codes "amy" ++ codes "#c")
          (given b'+' (codes "+v")))
unfolding get_db take_until exist_db get_parameters streq is_protected str_to_lower old_right
    get_nickname
account_mode-granted_example =
    account_mode-granted in_memory in_memory-IsGdbm (said owner_level (codes "accountmode amy +v"))
      (codes "#c") (codes "bob") (codes "amy +v") (codes " +v") (codes "amy") [] b'+' b'v' b'o' none
      (world (court (codes "+o"))) refl refl refl refl refl refl refl refl refl refl refl refl refl
      refl (omega arith)

-- the command `+i`
abbrev invite_only : ChannelMode
invite_only = record { mode_str = codes "+          i"; keyword = none; limit = none }

merge_modes-slots_example :
    (get_or (merge_modes invite_only blank_modes).mode_str 11 0 ≡ b' ')
    × (get_or (merge_modes invite_only blank_modes).mode_str 0 0 ≡ (
        if strpbrk (merge_loop invite_only 10 1 blank_modes).mode_str (codes "kltnmsprqi")
        then b'+'
        else b' '))
merge_modes-slots_example =
    merge_modes-slots invite_only blank_modes 11 refl (omega arith) (omega arith)

abbrev empty_channel : ChannelData
empty_channel = record { modes = blank_modes; topic = none; greeting = none }

blank-IsModes : IsModes blank_modes
blank-IsModes = modes b' ' b' ' b' ' (codes "         ") none none (inl refl) refl tt refl tt (
  inl refl,
  (
    inl refl,
    (inl refl, (inl refl, (inl refl, (inl refl, (inl refl, (inl refl, (inl refl, tt))))))),
  ),
)

set_greeting-Holds_example :
    Ends
      (set_greeting in_memory
        (in_channel_of (said owner_level (codes "greeting Hi")) (codes "#c"))
        (world (court [])))
      (λ _ v.
        Holds in_memory
          (codes "#c")
          (greeted (said owner_level (codes "greeting Hi")) empty_channel)
          v.dbf)
unfolding get_db take_until str_to_channel_data str_to_channel_mode get_channel_mode get_topic
    get_greeting channel_data_to_str channel_mode_to_str trim add_parameter clearspace
    get_parameters
set_greeting-Holds_example =
    set_greeting-Holds in_memory in_memory-IsGdbm (said owner_level (codes "greeting Hi"))
      (codes "#c") (b'\t' ∷ b'\t' ∷ []) empty_channel (world (court [])) (omega arith) refl refl
      (record { has_modes = blank-IsModes; has_topic = tt; has_greeting = (refl, refl) }) refl

is_listed-access_right_example : is_listed friend_level cmd_chanmode ≡ (
    access_right friend_level cmd_chanmode
    || leb 1 (rank friend_level) && leb cmd_friend cmd_chanmode && ltb cmd_chanmode cmd_master)
is_listed-access_right_example = is_listed-access_right friend_level cmd_chanmode (omega arith)

-- the ids of the rows from `id` on
abbrev in_order : ℕ → List IrcHelp → Bool
in_order id [] = true
in_order id (row ∷ rows) = let rest = in_order (suc id) rows in row.cmd_id == id && rest

-- the assertion of GetIrcHelp holds for every row of the table
s_irc_help_test : in_order 0 s_irc_help ≡ true
s_irc_help_test = refl
