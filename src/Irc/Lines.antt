-- ===== src/Irc/Lines.antt =====
-- The lines of src/irc.c as messages of RFC 1459: a command, parameters, and a last parameter
-- behind a colon.
use ebotula.Prelude.{
  ℕ, ◌+◌, ◌-◌, ◌<◌, ◌≤◌, ◌≡◌, refl, ap, Bool, true, List, [], ◌∷◌, ◌++◌, Option, none, some, ltb,
  if◌then◌else◌, length, take, concat, total, length-concat, take-all, set, arith, length-append,
}
use ebotula.CString.{Bytes, codes}
use ebotula.CString.Outcome.{Outcome, done, fault}
use ebotula.Extract.{AnswerMode, notice_mode, prv_msg_mode}
use ebotula.Irc.{
  crlf, snprintf_line, sprintf_line, user, privmsg, action_text, action, notice, send_msg,
  answer_buffer_size, join, part, pong, ping, invite_to, invite, nick, topic, kick, ban, deban,
  mode, whois,
}

pub record Message : Type 0 where
  pub command : Bytes
  pub middle : List Bytes
  pub trailing : Option Bytes

abbrev last_part : Option Bytes → Bytes
last_part none = crlf
last_part (some t) = b' ' ∷ b':' ∷ t ++ crlf

abbrev parameter_part : List Bytes → Bytes → Bytes
parameter_part [] rest = rest
parameter_part (p ∷ ps) rest = b' ' ∷ p ++ parameter_part ps rest

-- the line of a message
abbrev pub render : Message → Bytes
render m = m.command ++ parameter_part m.middle (last_part m.trailing)

-- a call of one of the functions but `ban` and `deban`, with its arguments
pub data Call : Type 0 where
  user_call : (name host server realname : Bytes) → Call
  action_call privmsg_call notice_call : Option Bytes → Option Bytes → Call
  join_call part_call ping_call nick_call whois_call : Option Bytes → Call
  pong_call : Bytes → Call
  invite_call topic_call : Option Bytes → Option Bytes → Call
  kick_call mode_call : Option Bytes → Option Bytes → Option Bytes → Call

abbrev pub run_call : Bool → Call → Outcome (Option Bytes)
run_call memory (user_call a b c d) = user memory a b c d
run_call memory (action_call a b) = action memory a b
run_call memory (privmsg_call a b) = privmsg memory a b
run_call memory (notice_call a b) = notice memory a b
run_call memory (join_call a) = join memory a
run_call memory (part_call a) = part memory a
run_call memory (ping_call a) = ping memory a
run_call memory (nick_call a) = nick memory a
run_call memory (whois_call a) = whois memory a
run_call memory (pong_call a) = pong memory (some a)
run_call memory (invite_call a b) = invite memory a b
run_call memory (topic_call a b) = topic memory a b
run_call memory (kick_call a b c) = kick memory a b c
run_call memory (mode_call a b c) = mode memory a b c

abbrev message : Bytes → List Bytes → Option Bytes → Option Message
message c ps t = some (record { command = c; middle = ps; trailing = t })

-- The message that a call stands for; a call with a NULL where it needs a text stands for none. A
-- missing channel of `invite` and a missing parameter of `mode` are empty parameters.
abbrev pub message_of : Call → Option Message
message_of (user_call a b c d) = message (codes "USER") (a ∷ b ∷ c ∷ []) (some d)
message_of (action_call (some a) (some b)) =
    message (codes "PRIVMSG") (a ∷ []) (some (1 ∷ codes "ACTION " ++ b ++ (1 ∷ [])))
message_of (privmsg_call (some a) (some b)) = message (codes "PRIVMSG") (a ∷ []) (some b)
message_of (notice_call (some a) (some b)) = message (codes "NOTICE") (a ∷ []) (some b)
message_of (join_call (some a)) = message (codes "JOIN") (a ∷ []) none
message_of (part_call (some a)) = message (codes "PART") (a ∷ []) none
message_of (ping_call (some a)) = message (codes "PING") (a ∷ []) none
message_of (nick_call (some a)) = message (codes "NICK") (a ∷ []) none
message_of (whois_call (some a)) = message (codes "WHOIS") (a ∷ []) none
message_of (pong_call a) = message (codes "PONG") (a ∷ []) none
message_of (invite_call none (some b)) = message (codes "INVITE") (b ∷ [] ∷ []) none
message_of (invite_call (some a) (some b)) = message (codes "INVITE") (b ∷ a ∷ []) none
message_of (topic_call (some a) (some b)) = message (codes "TOPIC") (a ∷ []) (some b)
message_of (kick_call (some a) (some b) (some c)) = message (codes "KICK") (a ∷ b ∷ []) (some c)
message_of (mode_call (some a) (some b) (some c)) = message (codes "MODE") (a ∷ b ∷ c ∷ []) none
message_of (mode_call (some a) (some b) none) = message (codes "MODE") (a ∷ b ∷ [] ∷ []) none
message_of _ = none

abbrev pub line_of : Option Message → Option Bytes
line_of none = none
line_of (some m) = some (render m)

snprintf_line-fits :
    (size : ℕ) (text : List Bytes)
    → total text < size
    → snprintf_line true size text ≡ done (some (concat text))
unfolding snprintf_line
snprintf_line-fits size text h =
    ap (λ s. done (some s)) (take-all (size - 1) (concat text) (omega (arith, length-concat text)))

sprintf_line-fits :
    (size : ℕ) (text : List Bytes)
    → total text < size
    → sprintf_line true size text ≡ done (some (concat text))
unfolding sprintf_line
sprintf_line-fits size text h =
    let short : length (concat text) < size = omega (arith, length-concat text) in ground arith

sprintf_line-long :
    (size : ℕ) (text : List Bytes) → size ≤ total text → sprintf_line true size text ≡ fault
unfolding sprintf_line
sprintf_line-long size text h =
    let long : size ≤ length (concat text) = omega (arith, length-concat text) in ground arith

set_end : (s : Bytes) (a b n : ℕ) → n ≡ length s → set (s ++ (a ∷ [])) n b ≡ s ++ (b ∷ [])
set_end [] a b n h = rw h
set_end (c ∷ s) a b n h = rw h (ap (λ t. c ∷ t) (set_end s a b (length s) refl))

action_buffer_lem :
    (size : ℕ) (msg : Bytes)
    → size ≡ length msg + 10
    → set (1 ∷ take (size - 3) (codes "ACTION " ++ msg) ++ (0 ∷ [])) (size - 2) 1
      ≡ 1 ∷ codes "ACTION " ++ msg ++ (1 ∷ [])
action_buffer_lem size msg h =
    let cut : size - 3 ≡ length msg + 7 = omega arith in
    let end : size - 2 ≡ length msg + 8 = omega arith in
    let whole : take (length msg + 7) (codes "ACTION " ++ msg) ≡ codes "ACTION " ++ msg =
      take-all (length msg + 7) (codes "ACTION " ++ msg) (omega arith) in
    rw (cut, end, whole) (set_end (1 ∷ codes "ACTION " ++ msg) 0 1 (length msg + 8) (omega arith))

action_text_lem : (msg : Bytes) → action_text msg ≡ 1 ∷ codes "ACTION " ++ msg ++ (1 ∷ [])
unfolding action_text
action_text_lem msg =
    action_buffer_lem (length (codes "ACTION ") + length msg + 3) msg (omega arith)

-- Each function of irc.c but `ban`, `deban`, `sendMsg` and `pong` without a parameter, called
-- while malloc succeeds, stays inside its buffer and hands over the complete line of the message
-- the call stands for, cut nowhere; it sends nothing when a text it needs is NULL.
pub run_call-message_of : (c : Call) → run_call true c ≡ done (line_of (message_of c))
unfolding user privmsg action notice join part pong ping invite nick topic kick mode whois invite_to
run_call-message_of (user_call a b c d) = snprintf_line-fits _ _ (omega arith)
run_call-message_of (action_call (some a) (some b)) =
    let grown : length (b ++ (1 ∷ [])) ≡ length b + 1 = length-append b (1 ∷ []) in
    rw (action_text_lem b) (snprintf_line-fits _ _ (omega (arith, grown)))
run_call-message_of (privmsg_call (some a) (some b)) = snprintf_line-fits _ _ (omega arith)
run_call-message_of (notice_call (some a) (some b)) = snprintf_line-fits _ _ (omega arith)
run_call-message_of (join_call (some a)) = snprintf_line-fits _ _ (omega arith)
run_call-message_of (part_call (some a)) = snprintf_line-fits _ _ (omega arith)
run_call-message_of (ping_call (some a)) = snprintf_line-fits _ _ (omega arith)
run_call-message_of (nick_call (some a)) = snprintf_line-fits _ _ (omega arith)
run_call-message_of (whois_call (some a)) = sprintf_line-fits _ _ (omega arith)
run_call-message_of (pong_call a) = snprintf_line-fits _ _ (omega arith)
run_call-message_of (invite_call none (some b)) = snprintf_line-fits _ _ (omega arith)
run_call-message_of (invite_call (some a) (some b)) = snprintf_line-fits _ _ (omega arith)
run_call-message_of (topic_call (some a) (some b)) = snprintf_line-fits _ _ (omega arith)
run_call-message_of (kick_call (some a) (some b) (some c)) = sprintf_line-fits _ _ (omega arith)
run_call-message_of (mode_call (some a) (some b) (some c)) = sprintf_line-fits _ _ (omega arith)
run_call-message_of (mode_call (some a) (some b) none) = sprintf_line-fits _ _ (omega arith)
run_call-message_of (action_call none b) = refl
run_call-message_of (action_call (some a) none) = refl
run_call-message_of (privmsg_call none b) = refl
run_call-message_of (privmsg_call (some a) none) = refl
run_call-message_of (notice_call none b) = refl
run_call-message_of (notice_call (some a) none) = refl
run_call-message_of (join_call none) = refl
run_call-message_of (part_call none) = refl
run_call-message_of (ping_call none) = refl
run_call-message_of (nick_call none) = refl
run_call-message_of (whois_call none) = refl
run_call-message_of (invite_call none none) = refl
run_call-message_of (invite_call (some a) none) = refl
run_call-message_of (topic_call none b) = refl
run_call-message_of (topic_call (some a) none) = refl
run_call-message_of (kick_call none b c) = refl
run_call-message_of (kick_call (some a) none c) = refl
run_call-message_of (kick_call (some a) (some b) none) = refl
run_call-message_of (mode_call none b c) = refl
run_call-message_of (mode_call (some a) none c) = refl

-- While malloc succeeds, an answer of sendMsg that is formatted to fewer than 1024 bytes is sent
-- whole to the receiver, as a notice or a private message as the mode asks; one of 1024 bytes or
-- more overflows pMsg.
pub send_msg-mode :
    (answer_mode : AnswerMode) (name text : Bytes)
    → send_msg true answer_mode (some name) text ≡ (
        if ltb (length text) answer_buffer_size
        then done (
            some (
              render (record {
                command = elim answer_mode [
                  | notice_mode ↦ codes "NOTICE"
                  | prv_msg_mode ↦ codes "PRIVMSG"
                ];
                middle = name ∷ [];
                trailing = some text;
              })))
        else fault)
unfolding send_msg
send_msg-mode notice_mode name text = rw (run_call-message_of (notice_call (some name) (some text)))
send_msg-mode prv_msg_mode name text =
    rw (run_call-message_of (privmsg_call (some name) (some text)))

-- `ban` and `deban` allocate one byte less than their line and its NUL need: with memory left and
-- no argument NULL, each call writes behind its buffer.
pub ban-overflow :
    (channel mask : Bytes)
    → (ban true (some channel) (some mask) ≡ fault)
      × (deban true (some channel) (some mask) ≡ fault)
unfolding ban deban
ban-overflow channel mask =
    (sprintf_line-long _ _ (omega arith), sprintf_line-long _ _ (omega arith))
