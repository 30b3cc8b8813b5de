-- ===== src/Irc.antt =====
-- src/irc.c: each function formats one IRC command in a buffer it allocates, and hands the line
-- to SendLine. The result is that line, or nothing when the function returns early. `memory` says
-- whether malloc succeeds. `user` and `pong` also get what the system calls answer.
pub mod Lines
mod Tests
use ebotula.Prelude.{
  ℕ, ◌+◌, ◌-◌, Bool, List, [], ◌∷◌, ◌++◌, Option, none, some, ltb, if◌then◌else◌, length, take,
  concat, set,
}
use ebotula.CString.{Bytes, codes}
use ebotula.CString.Outcome.{Outcome, done, fault}
use ebotula.Extract.{AnswerMode, notice_mode, prv_msg_mode}

-- malloc of `size` bytes, snprintf of the text in the buffer, SendLine
pub snprintf_line : Bool → ℕ → List Bytes → Outcome (Option Bytes)
snprintf_line memory size text =
    if memory then done (some (take (size - 1) (concat text))) else done none

-- the same with sprintf, which writes behind the buffer when the text is too long
pub sprintf_line : Bool → ℕ → List Bytes → Outcome (Option Bytes)
sprintf_line memory size text =
    if memory
    then (if ltb (length (concat text)) size then done (some (concat text)) else fault)
    else done none

abbrev pub crlf : Bytes
crlf = b'\r' ∷ b'\n' ∷ []

unfoldable pub user : Bool → (name host server realname : Bytes) → Outcome (Option Bytes)
user memory name host server realname =
    snprintf_line memory
      (length (codes "USER") + length name + length host + length server + length realname + 8)
      (codes "USER "
        ∷ name
        ∷ codes " "
        ∷ host
        ∷ codes " "
        ∷ server
        ∷ codes " :"
        ∷ realname
        ∷ crlf
        ∷ [])

unfoldable pub privmsg : Bool → Option Bytes → Option Bytes → Outcome (Option Bytes)
privmsg memory none msg = done none
privmsg memory (some target) none = done none
privmsg memory (some target) (some msg) =
    snprintf_line memory (length (codes "PRIVMSG ") + length target + length msg + 5)
      (codes "PRIVMSG " ∷ target ∷ codes " :" ∷ msg ∷ crlf ∷ [])

-- the buffer of `action`: byte 1, the text behind it, and byte 1 over the NUL of the text
pub action_text : Bytes → Bytes
action_text msg =
    let size = length (codes "ACTION ") + length msg + 3 in
    set (1 ∷ take (size - 3) (codes "ACTION " ++ msg) ++ (0 ∷ [])) (size - 2) 1

unfoldable pub action : Bool → Option Bytes → Option Bytes → Outcome (Option Bytes)
unfolding privmsg
action memory none msg = done none
action memory (some target) none = done none
action memory (some target) (some msg) =
    if memory then privmsg memory (some target) (some (action_text msg)) else done none

unfoldable pub notice : Bool → Option Bytes → Option Bytes → Outcome (Option Bytes)
notice memory none msg = done none
notice memory (some nick) none = done none
notice memory (some nick) (some msg) =
    snprintf_line memory (length (codes "NOTICE ") + length nick + length msg + 5)
      (codes "NOTICE " ∷ nick ∷ codes " :" ∷ msg ∷ crlf ∷ [])

abbrev pub answer_buffer_size : ℕ
answer_buffer_size = 1024

-- `text` is what vsprintf makes of the format and its arguments
unfoldable pub send_msg : Bool → AnswerMode → Option Bytes → Bytes → Outcome (Option Bytes)
send_msg memory answer_mode nick text =
    let as_notice = notice memory nick (some text) in
    let as_privmsg = privmsg memory nick (some text) in
    if ltb (length text) answer_buffer_size
    then elim answer_mode [ notice_mode ↦ as_notice | prv_msg_mode ↦ as_privmsg ]
    else fault

unfoldable pub join : Bool → Option Bytes → Outcome (Option Bytes)
join memory none = done none
join memory (some channel) =
    snprintf_line memory (length (codes "JOIN ") + length channel + 3)
      (codes "JOIN " ∷ channel ∷ crlf ∷ [])

unfoldable pub part : Bool → Option Bytes → Outcome (Option Bytes)
part memory none = done none
part memory (some channel) =
    snprintf_line memory (length (codes "PART ") + length channel + 3)
      (codes "PART " ∷ channel ∷ crlf ∷ [])

-- Without a parameter the size is taken from `hostname` before gethostname fills it: a read of an
-- uninitialised buffer.
unfoldable pub pong : Bool → Option Bytes → Outcome (Option Bytes)
pong memory none = fault
pong memory (some parameter) =
    snprintf_line memory (length (codes "PONG ") + length parameter + 3)
      (codes "PONG " ∷ parameter ∷ crlf ∷ [])

unfoldable pub ping : Bool → Option Bytes → Outcome (Option Bytes)
ping memory none = done none
ping memory (some target) =
    snprintf_line memory (length (codes "PING ") + length target + 3)
      (codes "PING " ∷ target ∷ crlf ∷ [])

pub invite_to : Bool → Bytes → Bytes → Outcome (Option Bytes)
invite_to memory channel nick =
    snprintf_line memory (length (codes "INVITE") + length nick + length channel + 5)
      (codes "INVITE " ∷ nick ∷ codes " " ∷ channel ∷ crlf ∷ [])

-- The empty string that stands for a missing channel is copied to an unchecked allocation.
unfoldable pub invite : Bool → Option Bytes → Option Bytes → Outcome (Option Bytes)
invite memory channel none = done none
invite memory none (some nick) = if memory then invite_to memory [] nick else fault
invite memory (some channel) (some nick) = invite_to memory channel nick

unfoldable pub nick : Bool → Option Bytes → Outcome (Option Bytes)
nick memory none = done none
nick memory (some name) =
    snprintf_line memory (length (codes "NICK ") + length name + 3)
      (codes "NICK " ∷ name ∷ crlf ∷ [])

unfoldable pub topic : Bool → Option Bytes → Option Bytes → Outcome (Option Bytes)
topic memory none msg = done none
topic memory (some channel) none = done none
topic memory (some channel) (some msg) =
    snprintf_line memory (length (codes "TOPIC ") + length channel + length msg + 5)
      (codes "TOPIC " ∷ channel ∷ codes " :" ∷ msg ∷ crlf ∷ [])

unfoldable pub kick : Bool → Option Bytes → Option Bytes → Option Bytes → Outcome (Option Bytes)
kick memory none name msg = done none
kick memory (some channel) none msg = done none
kick memory (some channel) (some name) none = done none
kick memory (some channel) (some name) (some msg) =
    sprintf_line memory (length (codes "KICK ") + length channel + length name + length msg + 6)
      (codes "KICK " ∷ channel ∷ codes " " ∷ name ∷ codes " :" ∷ msg ∷ crlf ∷ [])

unfoldable pub ban : Bool → Option Bytes → Option Bytes → Outcome (Option Bytes)
ban memory none mask = done none
ban memory (some channel) none = done none
ban memory (some channel) (some mask) =
    sprintf_line memory (length (codes "MODE ") + length channel + length mask + 6)
      (codes "MODE " ∷ channel ∷ codes " +b " ∷ mask ∷ crlf ∷ [])

unfoldable pub deban : Bool → Option Bytes → Option Bytes → Outcome (Option Bytes)
deban memory none mask = done none
deban memory (some channel) none = done none
deban memory (some channel) (some mask) =
    sprintf_line memory (length (codes "MODE ") + length channel + length mask + 6)
      (codes "MODE " ∷ channel ∷ codes " -b " ∷ mask ∷ crlf ∷ [])

abbrev or_empty : Option Bytes → Bytes
or_empty none = []
or_empty (some s) = s

unfoldable pub mode : Bool → Option Bytes → Option Bytes → Option Bytes → Outcome (Option Bytes)
mode memory none modes parameter = done none
mode memory (some channel) none parameter = done none
mode memory (some channel) (some modes) parameter =
    sprintf_line memory
      (length (codes "MODE ") + length channel + length modes + length (or_empty parameter) + 5)
      (codes "MODE " ∷ channel ∷ codes " " ∷ modes ∷ codes " " ∷ or_empty parameter ∷ crlf ∷ [])

unfoldable pub whois : Bool → Option Bytes → Outcome (Option Bytes)
whois memory none = done none
whois memory (some name) =
    sprintf_line memory (length (codes "WHOIS ") + length name + 3)
      (codes "WHOIS " ∷ name ∷ crlf ∷ [])
