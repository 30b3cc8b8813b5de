-- ===== src/Command/HelpTexts.antt =====
-- The table `sIrcHelp` of src/irchelp.c.
use ebotula.Prelude.{ℕ, List, [], ◌∷◌, ◌++◌}
use ebotula.CString.{Bytes, codes}
use ebotula.Parser.Table.{
  cmd_accountlist, cmd_accountmode, cmd_addchannel, cmd_allsay, cmd_ban, cmd_chanmode, cmd_channels,
  cmd_ctcpping, cmd_ctcptime, cmd_ctcpversion, cmd_deban, cmd_die, cmd_hello, cmd_help, cmd_ident,
  cmd_invite, cmd_join, cmd_kick, cmd_logoff, cmd_nick, cmd_none, cmd_onjoin, cmd_onkick,
  cmd_onmode, cmd_onnames, cmd_onnickchg, cmd_onnonick, cmd_onping, cmd_onquit, cmd_ontopic,
  cmd_onwhois, cmd_part, cmd_pass, cmd_restart, cmd_rmchannel, cmd_rmuser, cmd_say,
  cmd_set_greating, cmd_set_topic, cmd_version, cmd_viewgreat,
}

pub record IrcHelp : Type 0 where
  pub cmd_id : ℕ
  pub irc_help : List Bytes
  pub short : Bytes
  pub irc_syntax : Bytes

abbrev text_of_command : ℕ → List Bytes → Bytes → Bytes → IrcHelp
text_of_command id help short syntax = record {
  cmd_id = id;
  irc_help = help;
  short = short;
  irc_syntax = syntax;
}

-- the events and the commands for everybody
abbrev first_texts : List IrcHelp
first_texts =
    text_of_command cmd_none
      (codes "This is the help system for using this bot."
        ∷ codes "!help COMMAND for information about a special command"
        ∷ codes "------------------------------------------------------------------------"
        ∷ [])
      ([]) (codes "Syntax:")
    ∷ text_of_command cmd_onping ([]) ([]) ([])
    ∷ text_of_command cmd_onquit ([]) ([]) ([])
    ∷ text_of_command cmd_onnickchg ([]) ([]) ([])
    ∷ text_of_command cmd_onmode ([]) ([]) ([])
    ∷ text_of_command cmd_onkick ([]) ([]) ([])
    ∷ text_of_command cmd_onjoin ([]) ([]) ([])
    ∷ text_of_command cmd_onnames ([]) ([]) ([])
    ∷ text_of_command cmd_ontopic ([]) ([]) ([])
    ∷ text_of_command cmd_onwhois ([]) ([]) ([])
    ∷ text_of_command cmd_onnonick ([]) ([]) ([])
    ∷ text_of_command cmd_ctcpping ([]) ([]) ([])
    ∷ text_of_command cmd_ctcpversion ([]) ([]) ([])
    ∷ text_of_command cmd_ctcptime ([]) ([]) ([])
    ∷ text_of_command cmd_viewgreat
        (codes "Using this command you can inspect the greeting of a"
          ∷ codes "given channel. If no channel is given the greeting of"
          ∷ codes "the current channel will be viewed."
          ∷ [])
        (codes "shows the greeting line of a channel") (codes "!viewgreet <#Channel>")
    ∷ text_of_command cmd_help
        (codes "Displays general information about the bot and hints for"
          ∷ codes "using the available commands. A list of commands will be"
          ∷ codes "displayed too."
          ∷ [])
        (codes "give general help for using this bot") (codes "!help <Command>")
    ∷ text_of_command cmd_version (codes "Displays version and compile date of the bot." ∷ [])
        (codes "print the version information") (codes "!version")
    ∷ text_of_command cmd_hello
        (codes "Every user who wants to use the bot needs an account."
          ∷ codes "Using this command you get one. Your login is the nickname"
          ∷ codes "you had when sending this command. REMEMBER to set a"
          ∷ codes "password with !passwd"
          ∷ [])
        (codes "creates a new account.") (codes "!hello")
    ∷ text_of_command cmd_ident
        (codes "Any user who has got an account, must identify himself"
          ∷ codes "before bot commands are accepted. This is done by this command."
          ∷ [])
        (codes "identify yourself to the bot") (codes "!ident [Login] <Password>")
    ∷ text_of_command cmd_logoff
        (codes "If you want to disconnect from the bot," ∷ codes "you should logoff first." ∷ [])
        (codes "logoff from the bot") (codes "!logoff")
    ∷ []

-- the next rows
abbrev session_texts : List IrcHelp
session_texts =
    text_of_command cmd_pass
      (codes "Selfexplaining. Change your account password (see also !help hello)"
        ∷ codes "or set it if you don't have one yet."
        ∷ [])
      (codes "change the password for the current account") (codes "!pass <Password>")
    ∷ text_of_command cmd_invite
        (codes "If a channel is set invite-only, you can only join this channel"
          ∷ codes "if a user in it asks you to (invites you). So if only the bot has"
          ∷ codes "joined the invite-only channel you can use this command to make the"
          ∷ codes "bot invite you so you can join."
          ∷ [])
        (codes "invite the user in a channel") (codes "!invite <#channel> [nick]")
    ∷ text_of_command cmd_chanmode
        (codes "Change channel modes (e.g. moderated [+m], topic protected +[t] etc.)" ∷ [])
        (codes "Set and remove the modes for a channel.")
        (codes "!chanmod <#Channel> [+|-][tnmpsklrqa] <Limit> <Keyword>")
    ∷ text_of_command cmd_accountlist
        (codes "If a channel is given as parameter, all users with an account in this"
          ∷ codes "channel are listed. If no channel given, all users with an account in"
          ∷ codes "any channel are listed."
          ∷ [])
        (codes "print a list of users from the channel or all") (codes "!accountlist <#Channel>")
    ∷ text_of_command cmd_accountmode
        (codes "User modes are for example Channel-Operator (+o) or Voice (+v)"
          ∷ codes "m...Master"
          ∷ codes "o...Owner"
          ∷ codes "v...Friend"
          ∷ [])
        (codes "set the mode for a user") (codes "!accountmode <#Channel> [Login] [+|-][mov]")
    ∷ text_of_command cmd_say (codes "The bot posts the given message into this channel." ∷ [])
        (codes "send a message into a channel") (codes "!say <#Channel> [Text]")
    ∷ text_of_command cmd_kick (codes "Disconnects a user from the given channel" ∷ [])
        (codes "kicks a user out of the channel") (codes "!kick <#Channel> [Nickname]")
    ∷ text_of_command cmd_set_topic
        (codes "Topic is the line that can be seen near the channel name"
          ∷ codes "in the channel list."
          ∷ codes "EXAMPLE: #LUGse -== LUGse - Linux User Group Senftenberg ==-"
          ∷ codes "Used to discripe a channel."
          ∷ [])
        (codes "sets or removes the  topic of a channel") (codes "!topic <#Channel> [Topic]")
    ∷ []

-- the next rows
abbrev channel_texts : List IrcHelp
channel_texts =
    text_of_command cmd_set_greating
      (codes "The greeting is a message the bot sends to the channel"
        ∷ codes "when a user joins the channel."
        ∷ [])
      (codes "Sets or removes the greeting line for a channel")
      (codes "!greeting <#Channel> [Text]")
    ∷ text_of_command cmd_ban
        (codes "Ban means the user can't join the channel until"
          ∷ codes "he is debanned or changes his nick."
          ∷ [])
        (codes "bans a user from the channel") (codes "!ban <#channel> [Nickname]")
    ∷ text_of_command cmd_deban
        (codes "Removes an existing ban from a user so he can join the"
          ∷ codes "channel again he was banned from."
          ∷ [])
        (codes "resets the ban from a user") (codes "!deban <#channel> [Banmask]")
    ∷ text_of_command cmd_restart
        (codes "Useful if configuration is changed. By restarting config is read again." ∷ [])
        (codes "stops and restarts the bot.") (codes "!restart")
    ∷ text_of_command cmd_allsay
        (codes "Similar to SAY, but message is shown in all channels the bot has joined." ∷ [])
        (codes "sends a message to all channels") (codes "!allsay [Text]")
    ∷ text_of_command cmd_rmuser
        (codes "Selfexplaining. Accounts no longer needed can be removed this way." ∷ [])
        (codes "removes a user account of the bot") (codes "!rmaccount [Login]")
    ∷ text_of_command cmd_nick
        (codes "The given nickname is only valid until the bot is restarted." ∷ [])
        (codes "changes the nickname of the bot") (codes "!nick [Nickname]")
    ∷ text_of_command cmd_die
        (codes "The bot is stopped but unlike RESTART, DIE doesn't start"
          ∷ codes "the bot again."
          ∷ [])
        (codes "shutdown the bot.") (codes "!die")
    ∷ text_of_command cmd_channels (codes "Only channels the bot is within are listed." ∷ [])
        (codes "prints out a list of all channels from the bot") (codes "!chanlist")
    ∷ []

-- the last rows
abbrev master_texts : List IrcHelp
master_texts =
    text_of_command cmd_rmchannel
      (codes "The bot leaves the given channel and removes it"
        ∷ codes "from its channel list."
        ∷ [])
      (codes "let the bot part and remove a old channel") (codes "!rmchannel <#Channel>")
    ∷ text_of_command cmd_addchannel
        (codes "The channel must be given as a parameter."
          ∷ codes "The bot creates the channel, inserts it into his"
          ∷ codes "channel list and joins the channel."
          ∷ [])
        (codes "let the bot join and add a new channel") (codes "!addchannel [#Channel]")
    ∷ text_of_command cmd_join
        (codes "The channel must be given as a parameter and must exist"
          ∷ codes "before the bot joins it."
          ∷ [])
        (codes "let the bot join a channel") (codes "!join [#Channel]")
    ∷ text_of_command cmd_part
        (codes "The bot leaves the given channel. The channel is not"
          ∷ codes "removed from the bots channel list."
          ∷ [])
        (codes "let the bot part a channel") (codes "!part <#Channel>")
    ∷ []

abbrev pub s_irc_help : List IrcHelp
s_irc_help = first_texts ++ session_texts ++ channel_texts ++ master_texts
