-- ===== src/Timing/Schedule.antt =====
-- When the timing thread of src/timing.c runs its tasks.
use ebotula.Prelude.{
  ℕ, ◌+◌, ◌-◌, ◌/◌, ◌≤◌, ◌<◌, ◌≡◌, ◌⊎◌, refl, sym, inl, inr, Bool, true, false, ◌&&◌, List, ◌++◌,
  Option, none, some, leb, if◌then◌else◌, arith,
}
use ebotula.CString.{Bytes, codes}
use ebotula.CString.Outcome.{done}
use ebotula.Irc.{ping, privmsg}
use ebotula.Irc.Lines.{message_of, line_of, ping_call, privmsg_call, run_call-message_of}
use ebotula.Database.Backend.{Library}
use ebotula.Database.{Databases}
use ebotula.Account.{rm_dead_logins, rm_dead_accounts}
use ebotula.Bot.Runs.{Ends}
use ebotula.Bot.{World, Handler, lines, emit, update_db}
use ebotula.Timing.{
  Setup, Timers, due, time_before, ident_due, identify_line, run_when, ping_server, identify,
  timing_round,
}

-- A task with this period, in a round at `now`: either it is not run, its last time stays, and less
-- than the period has passed since; or it is run, `now` is its new last time, and the period had
-- passed.
abbrev pub Punctual : {A : Type 0} → ℕ → ℕ → ℕ → ℕ → A → A → A → Type 0
Punctual period now last new before run after =
    ((after ≡ before) × (new ≡ last) × (now < last + period))
    ⊎ ((after ≡ run) × (new ≡ now) × (last + period ≤ now))

-- the lines of the calls ping and privmsg
abbrev pub ping_lines : Option Bytes → List Bytes
ping_lines host = lines (line_of (message_of (ping_call host)))

abbrev pub identify_lines : Bytes → List Bytes
identify_lines password = lines (
    line_of
      (message_of (privmsg_call (some (codes "nickserv")) (some (codes "identify " ++ password)))))

-- the login for nickserv, which is sent only when it is switched on and there is a password
abbrev pub Identifies : Bool → Option Bytes → ℕ → ℕ → ℕ → ℕ → List Bytes → List Bytes → Type 0
Identifies true (some password) period now last new before after =
    Punctual period now last new before (before ++ identify_lines password) after
Identifies true none period now last new before after = (after ≡ before) × (new ≡ last)
Identifies false _ period now last new before after = (after ≡ before) × (new ≡ last)

-- What a round does: `pinged` are the lines behind the ping, and `swept` are the databases behind
-- the sweep of the dead logins.
abbrev pub Round : (lib : Library) → Setup → ℕ → Timers → World lib → Timers → World lib → Type 0
Round lib c now t w t' v =
    (pinged : List Bytes) × (swept : Databases lib) × Punctual (c.timeout / 2) now t.last_ping
      t'.last_ping w.sent (w.sent ++ ping_lines c.hostname) pinged
    × Punctual 3600 now t.last_remove_dead_logins t'.last_remove_dead_logins w.dbf
        (rm_dead_logins lib (time_before now c.auto_loggoff) w.dbf) swept
    × Punctual 3600 now t.last_remove_dead_accounts t'.last_remove_dead_accounts swept
        (rm_dead_accounts lib (time_before now c.account_live_time) swept) v.dbf
    × Identifies c.enable_ident c.nick_serv_ident (c.ident_timeout / 2) now t.last_nick_serv_ident
        t'.last_nick_serv_ident pinged v.sent

run-Punctual :
    {A : Type 0} (b : Bool) (period now last : ℕ) (before run : A)
    → last ≤ now
    → (leb period (now - last)) ≡ b
    → Punctual period now last (if b then now else last) before run (if b then run else before)
run-Punctual true period now last before run h e = inr (refl, refl, ground arith)
run-Punctual false period now last before run h e = inl (refl, refl, ground arith)

due-later : (period now last : ℕ) → last ≤ now → due period now last ≡ leb period (now - last)
due-later period now last h = let le : leb last now ≡ true = ground arith in rw le refl

module _ (lib : Library) where
  emit-run :
      (b : Bool) (task : Handler lib) (now last : ℕ) (w : World lib) (more : List Bytes)
      → task w ≡ done (tt, record w { sent = w.sent ++ more })
      → run_when lib b task now last w
        ≡ done (if b then now else last, record w { sent = if b then w.sent ++ more else w.sent })
  emit-run true task now last w more e = rw e refl
  emit-run false task now last w more e = refl

  update-run :
      (b : Bool) (f : Databases lib → Databases lib) (now last : ℕ) (w : World lib)
      → run_when lib b (update_db f) now last w
        ≡ done (if b then now else last, record w { dbf = if b then f w.dbf else w.dbf })
  update-run true f now last w = refl
  update-run false f now last w = refl

  ping_server-runs :
      (c : Setup) (now last : ℕ) (w : World lib)
      → last ≤ now
      → (new : ℕ) × (sent : List Bytes) × (ping_server lib c now last w
          ≡ done (new, record w { sent = sent }))
        × Punctual (c.timeout / 2) now last new w.sent (w.sent ++ ping_lines c.hostname) sent
  ping_server-runs c now last w h =
      let more = ping_lines c.hostname in
      let b = due (c.timeout / 2) now last in
      let call =
        emit-run b (emit (ping true c.hostname)) now last w more
          (rw (run_call-message_of (ping_call c.hostname)) refl) in
      let later = due-later (c.timeout / 2) now last h in
      (
        if b then now else last,
        if b then w.sent ++ more else w.sent,
        call,
        run-Punctual b (c.timeout / 2) now last w.sent (w.sent ++ more) h (sym later),
      )

  sweep-runs :
      (f : Databases lib → Databases lib) (period now last : ℕ) (w : World lib)
      → last ≤ now
      → (new : ℕ) × (dbf : Databases lib) × (run_when lib
            (due period now last)
            (update_db f)
            now
            last
            w
          ≡ done (new, record w { dbf = dbf }))
        × Punctual period now last new w.dbf (f w.dbf) dbf
  sweep-runs f period now last w h =
      let b = due period now last in
      (
        if b then now else last,
        if b then f w.dbf else w.dbf,
        update-run b f now last w,
        run-Punctual b period now last w.dbf (f w.dbf) h (sym (due-later period now last h)),
      )

  -- the test for the login for nickserv, from the two settings
  abbrev asked : Bool → Option Bytes → ℕ → ℕ → ℕ → Bool
  asked enabled none period now last = false
  asked enabled (some password) period now last = enabled && due period now last

  asked-runs :
      (enabled : Bool) (o : Option Bytes) (period now last : ℕ) (w : World lib)
      → last ≤ now
      → (new : ℕ) × (sent : List Bytes) × (run_when lib
            (asked enabled o period now last)
            (emit (privmsg true (some (codes "nickserv")) (identify_line o)))
            now
            last
            w
          ≡ done (new, record w { sent = sent }))
        × Identifies enabled o period now last new w.sent sent
  asked-runs true none period now last w h = (last, w.sent, refl, (refl, refl))
  asked-runs false none period now last w h = (last, w.sent, refl, (refl, refl))
  asked-runs false (some password) period now last w h = (last, w.sent, refl, (refl, refl))
  asked-runs true (some password) period now last w h =
      let more = identify_lines password in
      let line = privmsg_call (some (codes "nickserv")) (some (codes "identify " ++ password)) in
      let b = due period now last in
      (
        if b then now else last,
        if b then w.sent ++ more else w.sent,
        emit-run b
            (emit (privmsg true (some (codes "nickserv")) (some (codes "identify " ++ password))))
            now last w more (rw (run_call-message_of line) refl),
        run-Punctual b period now last w.sent (w.sent ++ more) h
            (sym (due-later period now last h)),
      )

  ident_due-asked :
      (c : Setup) (now last : ℕ) (o : Option Bytes)
      → ident_due c now last o ≡ asked c.enable_ident o (c.ident_timeout / 2) now last
  ident_due-asked c now last none = refl
  ident_due-asked c now last (some password) = refl

  identify-runs :
      (c : Setup) (now last : ℕ) (w : World lib)
      → last ≤ now
      → (new : ℕ) × (sent : List Bytes) × (identify lib c now last w
          ≡ done (new, record w { sent = sent }))
        × Identifies c.enable_ident c.nick_serv_ident (c.ident_timeout / 2) now last new w.sent sent
  identify-runs c now last w h =
      rw (ident_due-asked c now last c.nick_serv_ident)
        (asked-runs c.enable_ident c.nick_serv_ident (c.ident_timeout / 2) now last w h)

  -- A round of the timing thread ends, and runs each task exactly when it is due: the ping of the
  -- server when half the timeout has passed since the last one, the sweeps of the dead logins and
  -- of the dead accounts when an hour has passed, and the login for nickserv, if it is switched on
  -- and there is a password, when half its timeout has passed. A task that is run has its effect on
  -- the lines sent or on the databases and `now` as its new last time; a task that is not run
  -- leaves both. The condition is a clock that is not behind the last times.
  pub timing_round-Round :
      (c : Setup) (now : ℕ) (t : Timers) (w : World lib)
      → t.last_ping ≤ now
      → t.last_remove_dead_logins ≤ now
      → t.last_remove_dead_accounts ≤ now
      → t.last_nick_serv_ident ≤ now
      → Ends (timing_round lib c now t w) (Round lib c now t w)
  unfolding timing_round
  timing_round-Round c now t w p l a i =
      let (n1, pinged, e1, h1) = ping_server-runs c now t.last_ping w p in
      let w1 = record w { sent = pinged } in
      let (n2, swept, e2, h2) =
        sweep-runs (rm_dead_logins lib (time_before now c.auto_loggoff)) 3600 now
          t.last_remove_dead_logins w1 l in
      let w2 = record w1 { dbf = swept } in
      let (n3, left, e3, h3) =
        sweep-runs (rm_dead_accounts lib (time_before now c.account_live_time)) 3600 now
          t.last_remove_dead_accounts w2 a in
      let w3 = record w2 { dbf = left } in
      let (n4, sent, e4, h4) = identify-runs c now t.last_nick_serv_ident w3 i in
      rw (e1, e2, e3, e4) (pinged, swept, h1, h2, h3, h4)
