-- ===== src/Network.antt =====
-- src/network.c: the lines to the server with their pace, the lines from it, and the log on with a
-- nick name. The clock and what the socket answers are arguments; the mutex makes a call one step.
pub mod Rate
pub mod Bounds
pub mod Steady
pub mod Flood
pub mod LogOn
pub mod Channels
mod Tests
use ebotula.Prelude.{
  ℕ, zero, suc, ◌+◌, Bool, true, false, List, [], ◌∷◌, ◌++◌, Option, none, some, ltb, leb, ◌==◌,
  if◌then◌else◌, length, is_some, take, not,
}
use ebotula.CString.{Bytes, codes, strstr}
use ebotula.CString.Outcome.{Outcome, done, fault}
use ebotula.Irc.{join}
use ebotula.Database.Backend.{Library}
use ebotula.Database.{channel_db, list_db}
use ebotula.Bot.Steps.{◌>>=◌}
use ebotula.Bot.{Handler, query, for_each, emit}
use ebotula.Config.{below_int}
use ebotula.Config.Numbers.{ℤ}
use Rate.{SendRate, get_char_per_min}

-- what the resolver and the socket interface answer to connectServer
pub record Dialled : Type 0 where
  pub host_found : Bool
  pub protocol_found : Bool
  pub socket_made : Bool
  pub connected : Bool

-- Only a missing name together with a missing port is an error; a single one that is missing is
-- read through NULL.
unfoldable pub connect_server : Option Bytes → Option Bytes → Dialled → Outcome Bool
connect_server none none d = done false
connect_server none (some port) d = fault
connect_server (some host) none d = fault
connect_server (some host) (some port) d =
    if not d.host_found
    then done false
    else if not d.protocol_found
    then done false
    else if not d.socket_made
    then done false
    else if not d.connected
    then done false
    else done true

-- the entries of `ConfigSetup_t` that SendLine reads, ints that the checks keep from 0 up
pub record Pace : Type 0 where
  pub fast_sending_char_limit : ℕ
  pub send_delay : ℕ
  pub slow_send_delay : ℕ

-- `sleeps` are the calls of msleep and `wire` the calls of send, the oldest first.
pub record Connection : Type 0 where
  pub rate : SendRate
  pub char_per_minute : ℤ
  pub sleeps : List ℕ
  pub wire : List Bytes
  pub stop : Bool

-- When a line is sent: the seconds and the minute of the clock, and whether send returns 0.
pub record Moment : Type 0 where
  pub now : ℕ
  pub minute : ℕ
  pub closed : Bool

-- the delay in front of a line
abbrev pub delay : Pace → ℤ → ℕ
delay pace average =
    if below_int average pace.fast_sending_char_limit then pace.send_delay else pace.slow_send_delay

-- the connection behind a line, with the average and the table that GetCharPerMin has left
abbrev pub line_sent :
    Pace → Moment → Bytes → Connection → Outcome (ℤ × SendRate) → Outcome Connection
line_sent pace m msg c fault = fault
line_sent pace m msg c (done (average, rate)) = done (record {
  rate = rate;
  char_per_minute = average;
  sleeps = c.sleeps ++ delay pace c.char_per_minute ∷ [];
  wire = c.wire ++ msg ∷ [];
  stop = if m.closed then true else c.stop;
})

unfoldable pub send_line : Pace → Moment → Option Bytes → Connection → Outcome Connection
send_line pace m none c = done c
send_line pace m (some msg) c =
    line_sent pace m msg c (get_char_per_min m.now m.minute (length msg) c.rate)

-- What poll and recv answer: no line in time, an error of recv, the end of the connection, or bytes.
pub data Received : Type 0 where
  timeout error closed : Received
  received : Bytes → Received

-- RecvLine with a buffer of `size` bytes and the length `len`: the line and the flag `stop`. The
-- write of the NUL at the end may miss the buffer.
unfoldable pub recv_line : ℕ → ℕ → Received → Bool → Outcome (Bytes × Bool)
recv_line size len timeout stop = if size == 0 then fault else done ([], true)
recv_line size len error stop = fault
recv_line size len closed stop = if size == 0 then fault else done ([], true)
recv_line size len (received bytes) stop =
    let line = take len bytes in if ltb (length line) size then done (line, stop) else fault

abbrev pub max_nicks : ℕ
max_nicks = 3

abbrev pub in_use : Bytes → Bool
in_use answer = is_some (strstr (codes "Nickname is already in use.") answer)

-- The result of ConnectToIrc, the name of the bot, and the names it has sent with NICK.
abbrev pub Logon : Type 0
Logon = Bool × Bytes × List Bytes

abbrev pub sent_first : Bytes → Option Logon → Option Logon
sent_first name none = none
sent_first name (some (ok, last, names)) = some (ok, last, name ∷ names)

-- The loop of ConnectToIrc behind `trying` rounds, on the lines that RecvLine gives; `none` is the
-- end of these lines.
unfoldable pub log_on_loop : ℕ → Bytes → List Bytes → Option Logon
log_on_loop trying name [] = none
log_on_loop trying name (answer ∷ answers) =
    let used = in_use answer in
    let next = if used then b'_' ∷ name else name in
    let rest = log_on_loop (trying + 1) next answers in
    if ltb max_nicks (trying + 1)
    then some (false, next, name ∷ [])
    else if used
    then sent_first name rest
    else some (true, next, name ∷ [])

unfoldable pub connect_to_irc : Bytes → List Bytes → Option Logon
connect_to_irc = log_on_loop 0

-- The thread that joins the channels of the database, behind its sleep.
unfoldable pub join_all_channels_thread : (lib : Library) → Handler lib
join_all_channels_thread lib = do
  channels ← query (list_db lib channel_db)
  for_each channels (λ item. emit (join true item.bytes))
