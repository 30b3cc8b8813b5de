-- ===== src/Timing/Tests.antt =====
-- A run of the timing thread of src/timing.c; and the witnesses of its theorems.
use ebotula.Prelude.{◌≡◌, refl, true, false, [], some, arith}
use ebotula.CString.{codes}
use ebotula.Database.InMemory.{in_memory, no_entries}
use ebotula.Bot.{World}
use ebotula.Bot.Runs.{Ends}
use ebotula.Timing.Schedule.{Round, timing_round-Round}
use ebotula.Timing.{Setup, Timers, timing_round, time_before}

abbrev setup : Setup
setup = record {
  timeout = 90;
  hostname = some (codes "irc.example.org");
  auto_loggoff = 3;
  account_live_time = 90;
  enable_ident = true;
  nick_serv_ident = some (codes "secret");
  ident_timeout = 600;
}

abbrev idle : World in_memory
idle = record {
  dbf = no_entries;
  sent = [];
  callbacks = [];
  bot_name = codes "bot";
  now = codes "1000";
  stop = false;
  again = false;
}

-- the product wraps around at 49711 days
time_before_test : time_before 1000000 49711 ≡ 936896
time_before_test = refl

-- the ping and the login for nickserv are due, and the sweep of the logins
abbrev timers : Timers
timers = record {
  last_ping = 5000;
  last_remove_dead_logins = 1000;
  last_remove_dead_accounts = 5000;
  last_nick_serv_ident = 4000;
}

timing_round-Round_example :
    Ends (timing_round in_memory setup 5050 timers idle) (Round in_memory setup 5050 timers idle)
timing_round-Round_example =
    timing_round-Round in_memory setup 5050 timers idle (omega arith) (omega arith) (omega arith)
      (omega arith)
