-- ===== src/Timing.antt =====
-- src/timing.c: the thread that pings the server, ends dead logins, removes dead accounts and
-- identifies the bot to nickserv, each after its time. The clock of each round is an argument.
pub mod Rounds
pub mod Schedule
mod Tests
use ebotula.Prelude.{
  ℕ, ◌+◌, ◌-◌, ◌*◌, ◌/◌, ◌%◌, ◌^◌, Bool, true, false, ◌&&◌, List, [], ◌∷◌, ◌++◌, Option, none, some,
  leb, if◌then◌else◌,
}
use ebotula.CString.{Bytes, codes}
use ebotula.CString.Outcome.{done}
use ebotula.Irc.{ping, privmsg}
use ebotula.Database.Backend.{Library}
use ebotula.Account.{rm_dead_logins, rm_dead_accounts}
use ebotula.Bot.Steps.{Act, Done, pure, ◌>>=◌, ◌>>◌}
use ebotula.Bot.{World, Handler, emit, update_db}

-- the entries of `ConfigSetup_t` that the thread reads; `enable_ident` is `nEnableNickServIdent!=0`
pub record Setup : Type 0 where
  pub timeout : ℕ
  pub hostname : Option Bytes
  pub auto_loggoff : ℕ
  pub account_live_time : ℕ
  pub enable_ident : Bool
  pub nick_serv_ident : Option Bytes
  pub ident_timeout : ℕ

pub record Timers : Type 0 where
  pub last_ping : ℕ
  pub last_remove_dead_logins : ℕ
  pub last_remove_dead_accounts : ℕ
  pub last_nick_serv_ident : ℕ

-- `(now-last)>=period`, also when the clock was set back
abbrev pub due : ℕ → ℕ → ℕ → Bool
due period now last = leb last now && leb period (now - last)

-- `now-days*86400`, where the product is an unsigned int; a time in front of 1970 counts as 0, as
-- no login is older
abbrev pub time_before : ℕ → ℕ → ℕ
time_before now days = now - (days * 86400) % 2 ^ 32

-- the login for nickserv is sent when it is switched on and there is one
abbrev pub ident_due : Setup → ℕ → ℕ → Option Bytes → Bool
ident_due c now last none = false
ident_due c now last (some text) = c.enable_ident && due (c.ident_timeout / 2) now last

abbrev pub identify_line : Option Bytes → Option Bytes
identify_line none = none
identify_line (some text) = some (codes "identify " ++ text)

module _ (lib : Library) where
  -- `if(due){task;last=now}`; the result is the time of the last run of the task
  abbrev pub run_when : Bool → Handler lib → ℕ → ℕ → Act (World lib) ℕ
  run_when b task now last = if b then (task >> pure now) else pure last

  abbrev pub ping_server : Setup → ℕ → ℕ → Act (World lib) ℕ
  ping_server c now last =
      run_when (due (c.timeout / 2) now last) (emit (ping true c.hostname)) now last

  abbrev pub end_dead_logins : Setup → ℕ → ℕ → Act (World lib) ℕ
  end_dead_logins c now last =
      run_when (due 3600 now last) (update_db (rm_dead_logins lib (time_before now c.auto_loggoff)))
        now last

  abbrev pub remove_dead_accounts : Setup → ℕ → ℕ → Act (World lib) ℕ
  remove_dead_accounts c now last =
      run_when (due 3600 now last)
        (update_db (rm_dead_accounts lib (time_before now c.account_live_time))) now last

  abbrev pub identify : Setup → ℕ → ℕ → Act (World lib) ℕ
  identify c now last =
      run_when (ident_due c now last c.nick_serv_ident)
        (emit (privmsg true (some (codes "nickserv")) (identify_line c.nick_serv_ident))) now last

  -- a round of the loop, and the times of the last tasks behind it
  unfoldable pub timing_round : Setup → ℕ → Timers → Act (World lib) Timers
  timing_round c now t = do
    pinged ← ping_server c now t.last_ping
    swept ← end_dead_logins c now t.last_remove_dead_logins
    removed ← remove_dead_accounts c now t.last_remove_dead_accounts
    identified ← identify c now t.last_nick_serv_ident
    pure (record {
      last_ping = pinged;
      last_remove_dead_logins = swept;
      last_remove_dead_accounts = removed;
      last_nick_serv_ident = identified;
    })

  -- The loop, for the times that the clock gives: it ends at `stop`.
  unfoldable pub timing_loop : Setup → List ℕ → Timers → Act (World lib) Timers
  timing_loop c [] t w = pure t w
  timing_loop c (now ∷ clock) t w =
      let rest = timing_round c now t >>= timing_loop c clock in if w.stop then pure t w else rest w

  unfoldable pub timing_thread : Setup → List ℕ → Act (World lib) Timers
  timing_thread c clock = timing_loop c clock (record {
    last_ping = 0;
    last_remove_dead_logins = 0;
    last_remove_dead_accounts = 0;
    last_nick_serv_ident = 0;
  })
