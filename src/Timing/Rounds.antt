-- ===== src/Timing/Rounds.antt =====
-- The sessions over the rounds of the timing thread of src/timing.c.
use ebotula.Prelude.{ℕ, ◌/◌, Bool, true, false, List, [], ◌∷◌, Option, some, if◌then◌else◌}
use ebotula.CString.{Bytes, codes}
use ebotula.CString.Outcome.{Outcome, done, fault}
use ebotula.Irc.{ping, privmsg}
use ebotula.Irc.Lines.{ping_call, privmsg_call, run_call-message_of}
use ebotula.Database.Backend.{Library, IsGdbm}
use ebotula.Account.Sessions.{Consistent}
use ebotula.Account.Sweep.{rm_dead_logins-Consistent, rm_dead_accounts-Consistent}
use ebotula.Account.{rm_dead_logins, rm_dead_accounts}
use ebotula.Bot.Steps.{Act, pure, ◌>>=◌}
use ebotula.Bot.Runs.{Ends, go_on-Ends}
use ebotula.Bot.{World, Handler, emit, update_db}
use ebotula.Timing.{
  Setup, Timers, due, time_before, ident_due, identify_line, run_when, ping_server, end_dead_logins,
  remove_dead_accounts, identify, timing_round, timing_loop, timing_thread,
}

module _ (lib : Library) (gdbm : IsGdbm lib) where
  -- a step that ends and keeps the sessions consistent
  abbrev KeepsSessions : {A : Type 0} → Act (World lib) A → Type 0
  KeepsSessions act =
      (w : World lib) → Consistent lib w.dbf → Ends (act w) (λ _ v. Consistent lib v.dbf)

  then-Keeps :
      {A B : Type 0} (first : Act (World lib) A) (rest : A → Act (World lib) B)
      → KeepsSessions first
      → ((a : A) → KeepsSessions (rest a))
      → KeepsSessions (first >>= rest)
  then-Keeps {A = A} first rest hf hr w c =
      go_on-Ends (λ _ v. Consistent lib v.dbf) rest (first w) (through (first w) (hf w c))
    where
      through :
          (o : Outcome (A × World lib))
          → Ends o (λ _ v. Consistent lib v.dbf)
          → Ends o (λ a v. Ends (rest a v) (λ _ u. Consistent lib u.dbf))
      through fault h = h
      through (done (a, v)) h = hr a v h

  run_when-Keeps :
      (b : Bool) (task : Handler lib) (now last : ℕ)
      → KeepsSessions task
      → KeepsSessions (run_when lib b task now last)
  run_when-Keeps true task now last h = then-Keeps task (λ _. pure now) h (λ _ w c. c)
  run_when-Keeps false task now last h = λ w c. c

  ping-Keeps : (host : Option Bytes) → KeepsSessions (emit (ping true host))
  ping-Keeps host w c = rw (run_call-message_of (ping_call host)) c

  privmsg-Keeps : (target text : Option Bytes) → KeepsSessions (emit (privmsg true target text))
  privmsg-Keeps target text w c = rw (run_call-message_of (privmsg_call target text)) c

  ping_server-Keeps : (c : Setup) (now last : ℕ) → KeepsSessions (ping_server lib c now last)
  ping_server-Keeps c now last =
      run_when-Keeps (due (c.timeout / 2) now last) (emit (ping true c.hostname)) now last
        (ping-Keeps c.hostname)

  end_dead_logins-Keeps :
      (c : Setup) (now last : ℕ) → KeepsSessions (end_dead_logins lib c now last)
  end_dead_logins-Keeps c now last =
      run_when-Keeps (due 3600 now last)
        (update_db (rm_dead_logins lib (time_before now c.auto_loggoff))) now last
        (λ w h. rm_dead_logins-Consistent lib gdbm (time_before now c.auto_loggoff) w.dbf h)

  remove_dead_accounts-Keeps :
      (c : Setup) (now last : ℕ) → KeepsSessions (remove_dead_accounts lib c now last)
  remove_dead_accounts-Keeps c now last =
      run_when-Keeps (due 3600 now last)
        (update_db (rm_dead_accounts lib (time_before now c.account_live_time))) now last
        (λ w h. rm_dead_accounts-Consistent lib gdbm (time_before now c.account_live_time) w.dbf h)

  identify-Keeps : (c : Setup) (now last : ℕ) → KeepsSessions (identify lib c now last)
  identify-Keeps c now last =
      run_when-Keeps (ident_due c now last c.nick_serv_ident)
        (emit (privmsg true (some (codes "nickserv")) (identify_line c.nick_serv_ident))) now last
        (privmsg-Keeps (some (codes "nickserv")) (identify_line c.nick_serv_ident))

  timing_round-Keeps : (c : Setup) (now : ℕ) (t : Timers) → KeepsSessions (timing_round lib c now t)
  unfolding timing_round
  timing_round-Keeps c now t =
      then-Keeps (ping_server lib c now t.last_ping) _ (ping_server-Keeps c now t.last_ping) (λ _.
        then-Keeps (end_dead_logins lib c now t.last_remove_dead_logins) _
          (end_dead_logins-Keeps c now t.last_remove_dead_logins)
          (λ _.
            then-Keeps (remove_dead_accounts lib c now t.last_remove_dead_accounts) _
              (remove_dead_accounts-Keeps c now t.last_remove_dead_accounts)
              (λ _.
                then-Keeps (identify lib c now t.last_nick_serv_ident) _
                  (identify-Keeps c now t.last_nick_serv_ident) (λ _ w h. h))))

  timing_loop-Keeps :
      (c : Setup) (clock : List ℕ) (t : Timers) → KeepsSessions (timing_loop lib c clock t)
  unfolding timing_loop
  timing_loop-Keeps c [] t w h = h
  timing_loop-Keeps c (now ∷ clock) t w h =
      stopped w.stop (pure t w) ((timing_round lib c now t >>= timing_loop lib c clock) w) h (
        then-Keeps (timing_round lib c now t) (timing_loop lib c clock) (timing_round-Keeps c now t)
          (timing_loop-Keeps c clock) w h)
    where
      stopped :
          (b : Bool) (x y : Outcome (Timers × World lib))
          → Ends x (λ _ v. Consistent lib v.dbf)
          → Ends y (λ _ v. Consistent lib v.dbf)
          → Ends (if b then x else y) (λ _ v. Consistent lib v.dbf)
      stopped true x y h k = h
      stopped false x y h k = k

  -- Over a library that does what gdbm documents, the timing thread runs without a fault over any
  -- times that the clock gives, also when it is set back, and keeps the sessions consistent: in the
  -- end, as before, whenever a login has a netmask, the netmask has that login, up to upper and
  -- lower case.
  pub timing_thread-Consistent :
      (c : Setup) (clock : List ℕ) (w : World lib)
      → Consistent lib w.dbf
      → Ends (timing_thread lib c clock w) (λ _ v. Consistent lib v.dbf)
  unfolding timing_thread
  timing_thread-Consistent c clock w h = timing_loop-Keeps c clock _ w h
