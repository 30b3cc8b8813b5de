-- ===== src/Parser.antt =====
-- src/parser.c: preParser, which tells what a line of the server is, and AccessRight, with the
-- command ids of src/include/cmdtypes.h and the table of src/cmdlist.c.
pub mod Table
pub mod Access
pub mod Commands
pub mod Recognise
mod Tests
use ebotula.Prelude.{
  ℕ, zero, suc, ◌+◌, ◌-◌, Bool, true, false, ◌&&◌, ◌||◌, not, List, [], ◌∷◌, ◌++◌, Option, none,
  some, ltb, leb, ◌==◌, if◌then◌else◌, length, get_or,
}
use ebotula.CString.{Bytes, codes, starts_with, strchr, strstr}
use ebotula.CString.Outcome.{Outcome, done, fault, ◌>>=◌}
use ebotula.Extract.{get_command}
use ebotula.Irc.{pong}
use Table.{
  CmdHandle, cmd_none, cmd_onping, cmd_onquit, cmd_onnickchg, cmd_onmode, cmd_onkick, cmd_onjoin,
  cmd_onnames, cmd_ontopic, cmd_onwhois, cmd_onnonick, cmd_ctcpping, cmd_ctcpversion, cmd_ctcptime,
  cmd_master, cmd_owner, cmd_friend, cmd_logged, cmd_event, cmd_others, cmd_first, cmd_handle_field,
  cmd_string,
}
use ebotula.Account.{UserLevel, none_level, logged_level, friend_level, owner_level, master_level}
use ebotula.Account.Levels.{rank}

-- the table from row `first` on
abbrev pub rows_from : ℕ → List CmdHandle → List CmdHandle
rows_from n [] = []
rows_from n (r ∷ rs) = let rest = rows_from n rs in if leb n r.cmd_id then r ∷ rest else rest

-- The search over the rows of the table: the id of the first command the text starts with. CMD_NONE
-- when there is none.
unfoldable pub find_command : Bytes → List CmdHandle → ℕ
find_command s [] = cmd_none
find_command s (r ∷ rs) =
    let rest = find_command s rs in if starts_with r.cmd_string s then r.cmd_id else rest

-- the branch for PRIVMSG and NOTICE, on the whole line
abbrev behind : ℕ → Bytes → Bytes
behind zero s = s
behind (suc n) [] = []
behind (suc n) (c ∷ s) = behind n s

unfoldable pub ctcp_command : Option Bytes → ℕ
ctcp_command none = cmd_none
ctcp_command (some found) =
    let s = behind 2 found in
    if ltb (length found) 3
    then cmd_none
    else if starts_with (cmd_string cmd_ctcpping) s
    then cmd_ctcpping
    else if starts_with (cmd_string cmd_ctcpversion) s
    then cmd_ctcpversion
    else if starts_with (cmd_string cmd_ctcptime) s
    then cmd_ctcptime
    else cmd_none

abbrev pub bot_command : Option Bytes → Bytes → ℕ
bot_command none line = ctcp_command (strstr (codes " :" ++ (1 ∷ [])) line)
bot_command (some found) line =
    let hit = find_command (behind 3 found) (rows_from cmd_first cmd_handle_field) in
    if ltb (length found) 3 then cmd_none else hit

-- the branch for PRIVMSG and NOTICE, on the whole line
unfoldable pub message_command : Bytes → ℕ
message_command line = bot_command (strstr (codes " :!") line) line

-- the cascade of preParser behind PING, on the text from the command word on
unfoldable pub event_of : Bytes → Bytes → ℕ
event_of pos line =
    let other = message_command line in
    if starts_with (cmd_string cmd_onquit) pos
    then cmd_onquit
    else if starts_with (cmd_string cmd_onjoin) pos
    then cmd_onjoin
    else if starts_with (cmd_string cmd_onnickchg) pos
    then cmd_onnickchg
    else if starts_with (cmd_string cmd_onmode) pos
    then cmd_onmode
    else if starts_with (cmd_string cmd_onkick) pos
    then cmd_onkick
    else if starts_with (cmd_string cmd_ontopic) pos
    then cmd_ontopic
    else if starts_with (cmd_string cmd_onnames) pos
    then cmd_onnames
    else if starts_with (cmd_string cmd_onwhois) pos
    then cmd_onwhois
    else if starts_with (cmd_string cmd_onnonick) pos
    then cmd_onnonick
    else if starts_with (codes "PRIVMSG") pos || starts_with (codes "NOTICE") pos
    then other
    else cmd_none

-- What preParser does with a line: the message it fills, and the line `pong` sends, if any.
pub record Parsed : Type 0 where
  pub identify : ℕ
  pub msg_line : Option Bytes
  pub answer : Option Bytes

abbrev pub parsed : ℕ → Bytes → Parsed
parsed id line = record {
  identify = id;
  msg_line = if id == cmd_none then none else some line;
  answer = none;
}

abbrev ponged : Option Bytes → Outcome Parsed
ponged sent = done (record { identify = cmd_none; msg_line = none; answer = sent })

abbrev answer_ping : Bool → Option Bytes → Outcome Parsed
answer_ping memory none = do sent ← pong memory none; ponged sent
answer_ping memory (some s) = do sent ← pong memory (some (behind 1 s)); ponged sent

abbrev pub parse_at : Bool → Bytes → Bytes → Outcome Parsed
parse_at memory pos line =
    let ping = answer_ping memory (strstr (codes " ") pos) in
    if starts_with (cmd_string cmd_onping) pos then ping else done (parsed (event_of pos line) line)

-- from the preamble that getCommand gives
abbrev pub parse_behind : Bool → Option Bytes → Bytes → Outcome Parsed
parse_behind memory none line = done (parsed cmd_none line)
parse_behind memory (some s) line = parse_at memory (behind 1 s) line

abbrev pub parse_preamble : Bool → Option Bytes → Bytes → Outcome Parsed
parse_preamble memory none line = parse_at memory line line
parse_preamble memory (some preamble) line = parse_behind memory (strchr b' ' preamble) line

unfoldable pub pre_parser : Bool → Bytes → Outcome Parsed
pre_parser memory line = parse_preamble memory (get_command line) line

-- AccessRight; the levels and ids are compared as numbers
unfoldable pub access_right : UserLevel → ℕ → Bool
access_right level id =
    let l = rank level in
    let event =
      if (id == cmd_onnickchg || id == cmd_onquit) && leb 1 l
      then true
      else not (id == cmd_onnickchg) && not (id == cmd_onquit) in
    let as_master = l == 4 in
    let as_owner = if leb 3 l then (if leb cmd_master id then as_master else true) else false in
    let as_friend = if leb 2 l then (if leb cmd_owner id then as_owner else true) else false in
    let as_logged = if leb 1 l then (if leb cmd_friend id then as_friend else true) else false in
    if leb cmd_event id
    then (if leb cmd_others id then (if leb cmd_logged id then as_logged else true) else event)
    else false
