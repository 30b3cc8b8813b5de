-- ===== src/Network/Tests.antt =====
-- Runs of SendLine, GetCharPerMin and ConnectToIrc; and the witnesses of their theorems.
use ebotula.Prelude.{
  Option, none, ◌^◌, ℕ, zero, suc, ◌+◌, ◌≡◌, refl, true, false, List, [], ◌∷◌, ◌++◌, some, arith,
  ltb, set,
}
use ebotula.CString.{Bytes, codes}
use ebotula.CString.Outcome.{Outcome, done, fault}
use ebotula.Config.{below_int}
use ebotula.Config.Numbers.{ℤ, pos, negsuc}
use ebotula.Network.Rate.{SendRate, get_char_per_min}
use ebotula.Network.Bounds.{IsRate, InRange, get_char_per_min-IsRate}
use ebotula.Network.Flood.{WaitsNext, send_all, send_all-slow}
use ebotula.Network.LogOn.{refusals, underlined, attempts, connect_to_irc-refusals}
use ebotula.Network.{
  Pace, Connection, Moment, received, error, recv_line, log_on_loop, connect_to_irc,
}

abbrev zeros : ℕ → List ℕ
zeros zero = []
zeros (suc n) = 0 ∷ zeros n

-- the initial values, and 30 characters an hour ago at minute 7
abbrev start : SendRate
start = record {
  char_minute = set (zeros 60) 7 30;
  last_time = 1000;
  last_index = 6;
  item_count = 60;
  first_index = some 7;
}

start-IsRate : IsRate start
start-IsRate = record {
  entries = refl;
  last_lt = omega arith;
  first_lt = omega arith;
  items_pos = omega arith;
  items_le = omega arith;
}

abbrev average_of : Outcome (ℤ × SendRate) → Option ℤ
average_of fault = none
average_of (done (average, r)) = some average

-- a minute of the clock later, but less than 60 seconds: the old entry is still counted
stale_test : average_of (get_char_per_min 1030 7 90 start) ≡ some (pos 2)
unfolding get_char_per_min
stale_test = refl

silent_test : average_of (get_char_per_min 9000 7 90 start) ≡ some (pos 1)
unfolding get_char_per_min
silent_test = refl

-- a sum of 2 ^ 31 is negative, and lets the next line pass with the fast delay
wrapped_test :
    (average_of (get_char_per_min 9000 7 (2 ^ 31) start) ≡ some (negsuc 35791393))
    × (below_int (negsuc 35791393) 60 ≡ true)
unfolding get_char_per_min
wrapped_test = (refl, refl)

-- a minute outside the table
outside_test : average_of (get_char_per_min 1030 60 90 start) ≡ none
unfolding get_char_per_min
outside_test = refl

recv_line_test :
    (recv_line 4 4 (received (codes "abc")) false ≡ done (codes "abc", false))
    × (recv_line 4 4 (received (codes "abcd")) false ≡ fault)
    × (recv_line 4 4 error false ≡ fault)
unfolding recv_line
recv_line_test = (refl, refl, refl)

get_char_per_min-IsRate_example : InRange (get_char_per_min 1130 9 90 start)
get_char_per_min-IsRate_example = get_char_per_min-IsRate 1130 9 90 (omega arith) start-IsRate

abbrev used : Bytes
used = codes ":irc 433 * bot :Nickname is already in use."

connect_to_irc-refusals_example :
    connect_to_irc (codes "bot") (used ∷ codes "welcome" ∷ [] ++ used ∷ used ∷ [])
    ≡ some (
      ltb (refusals 3 (used ∷ codes "welcome" ∷ used ∷ used ∷ [])) 3,
      underlined (refusals 4 (used ∷ codes "welcome" ∷ used ∷ used ∷ [])) (codes "bot"),
      attempts (refusals 3 (used ∷ codes "welcome" ∷ used ∷ used ∷ []) + 1) (codes "bot"),
    )
connect_to_irc-refusals_example =
    connect_to_irc-refusals (codes "bot") (used ∷ codes "welcome" ∷ used ∷ used ∷ []) (omega arith)

connect_to_irc_test :
    connect_to_irc (codes "bot") (used ∷ codes "welcome" ∷ [])
    ≡ some (true, codes "_bot", codes "bot" ∷ codes "_bot" ∷ [])
unfolding connect_to_irc log_on_loop ebotula.CString.strstr ebotula.CString.starts_with
connect_to_irc_test = refl

abbrev at : ℕ → Moment
at t = record { now = t; minute = 7; closed = false }

abbrev pace : Pace
pace = record { fast_sending_char_limit = 1; send_delay = 5; slow_send_delay = 9 }

abbrev open_line : Connection
open_line = record { rate = start; char_per_minute = pos 0; sleeps = []; wire = []; stop = false }

abbrev long : Bytes
long = codes "a line of at least thirty characters"

send_all-slow_example :
    WaitsNext pace (at 1040) (codes "x") (send_all pace ((at 1030, long) ∷ []) open_line)
send_all-slow_example =
    send_all-slow open_line pace (at 1030) long [] (at 1040) (codes "x") start-IsRate
      (
        record {
          running = λ e. absurd (omega (arith, e));
          later = omega arith;
          soon = omega arith;
          minute_lt = omega arith;
        },
        tt,
      )
      (omega arith) (omega arith) (omega arith)
