-- ===== src/Lib.antt =====
-- ebotula, an IRC bot, as a library of definitions that follow its C sources and theorems on them.
--
-- The bot reads lines of an IRC server. src/parser.c recognises events and bot commands and puts
-- them on a message queue (src/queue.c); threads take them off, extract the fields of the line
-- (src/extract.c), look up the level of the sender (src/account.c) in gdbm databases
-- (src/dbaccess.c), and run a handler, which answers through src/irc.c. src/utilities.c has the
-- string helpers and the text form of a channel's modes, topic and greeting.
--
-- Which file models what, the functions under their names in snake_case:
--   Prelude      numbers, lists, Boolean tests; no code of the bot
--   CString      the functions of <string.h> and <ctype.h> that the bot calls, on lists of bytes,
--                and the outcome of code that may leave its memory
--   Utilities    src/utilities.c: trim, clearspace, StrToLower, the checks of names
--   Extract      src/extract.c: every function; one that changes its line returns the line as well
--   Channel      src/utilities.c and src/include/type.h: StrToChannelMode, ChannelModeToStr,
--                StrToChannelData, ChannelDataToStr
--   Queue        src/queue.c: every operation as a command on a heap of nodes
--   Irc          src/irc.c: the line that each function hands to SendLine
--   Database     src/dbaccess.c over a library of gdbm and crypt (Database/Backend)
--   Account      src/account.c over Database: sessions, levels, removal of accounts
--   Parser       src/parser.c, src/cmdlist.c, src/include/cmdtypes.h: preParser, AccessRight, the
--                command table (Parser/Table), stopParser in Command/Speech
--   Bot          what the handlers share: the message MsgItem_t and the state of the bot; Bot/Steps
--                is the form of a handler, a step that changes the state or leaves its memory
--   Command      src/command.c: the commands; Accounts, AccountModes, Channels, Help, Listing,
--                Settings, Speech and Users hold the commands that their names stand for, and
--                HelpTexts is the table of src/irchelp.c
--   Callback     src/callback.c: what is done when the server has told who a user is
--   Event        src/handles.c: the handlers of events, with hResetModes in Event/Modes, and
--                hCallback and hWhoisFailed in Event/Answers
--   CallbackList src/callbacklist.c: every operation on a heap of doubly linked nodes;
--                CallbackList/Pending relates it to the list of items of Bot and Event
--   Ctcp         src/ctcp.c
--   Timing       src/timing.c: the rounds of TimingThread over the times of the clock
--   Config       src/configparser.c: the checks (with atoi in Config/Numbers), the table
--                vsInputConfig (Config/Keys), the lines of the configuration file
--   Network      src/network.c: connectServer, SendLine and RecvLine, GetCharPerMin (Network/Rate),
--                the loop of ConnectToIrc, and JoinAllChannelsThread
--   Dispatch     src/parser.c and src/cmdlist.c: one turn of CommandExecutionThread, which calls the
--                handlers of Command and Event through the table
-- A child module proves what its name says; Tests holds runs and witnesses.
--
-- Conventions. A C string is the list of its bytes in front of the NUL; a pointer that may be NULL
-- is an Option. A write behind an allocation, a read through NULL and an access to a freed node
-- are the outcome `fault`, as are an access outside a table and a division by 0. Sizes and counts are
-- natural numbers: the lines of the protocol are far below the range of the machine's integers. The
-- counts of GetCharPerMin, which are summed up over hours, wrap around as an int does. Mutexes make a call one step, and a wait on an empty
-- queue is the outcome `blocked`. The loop of flushQueue runs on fuel, and a number above that of
-- the items in the queue is enough; so do the searches and the destruction of the callback list,
-- with as much fuel as it has items, or one more. ConnectToIrc runs over the answers of the server,
-- of which four are enough, and the loop of TimingThread over the times that the clock gives.
--
-- Parameters: the results of malloc (the queue's nodes and the `memory` of Irc), gdbm and crypt,
-- the clock, the answers of the resolver and the socket, and the text that vsprintf formats.
-- Database/Backend states what gdbm documents; Database/InMemory is a library for which it holds.
--
-- A handler is a function from the state of the bot to a new state, or a fault. What a handler
-- hands to SendLine is appended to the lines that were sent. The texts are those of the C locale.
-- In the state the callbacks are a list of items, with an insertion at the end and the removal of
-- the first one for a nick name. A flag or a letter that the code reads before it was set is a
-- fault.
--
-- Not modelled: opening and closing database files, threads, signals and the command line
-- (src/ircbot.c, src/parameter.c), the writing of a configuration file (src/baseconfig.c),
-- disconnectServer, which is one call of shutdown, logging (src/messages.c), the tools, the test
-- programs and the copy of gettext under intl.
pub mod Prelude
pub mod CString
pub mod Utilities
pub mod Extract
pub mod Channel
pub mod Queue
pub mod Irc
pub mod Database
pub mod Account
pub mod Parser
pub mod Bot
pub mod Command
pub mod Callback
pub mod Event
pub mod Ctcp
pub mod Dispatch
pub mod CallbackList
pub mod Config
pub mod Network
pub mod Timing
