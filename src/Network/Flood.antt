-- ===== src/Network/Flood.antt =====
-- SendLine of src/network.c under load: the pace of a bot that sends without a pause.
use ebotula.Prelude.{
  ℕ, ◌+◌, ◌*◌, ◌/◌, ◌^◌, ◌≤◌, ◌<◌, ◌≡◌, sym, subst, ap, false, List, [], ◌∷◌, ◌++◌, some, ltb,
  if◌then◌else◌, length, arith,
}
use native.Mathlib.Nat.{le-div_iff_mul-le, mul-le-mul_left}
use ebotula.CString.{Bytes}
use ebotula.CString.Outcome.{Outcome, done, fault, ◌>>=◌}
use ebotula.Config.{below_int}
use ebotula.Config.Numbers.{ℤ}
use ebotula.Network.Rate.{SendRate, sum, get_char_per_min}
use ebotula.Network.Bounds.{IsRate, InRange, get_char_per_min-IsRate}
use ebotula.Network.{Pace, Connection, Moment, line_sent, send_line}
use ebotula.Network.Steady.{Soon, Entered, Counted, get_char_per_min-Counted}

-- Lines that follow each other, each less than a minute behind the one in front of it.
abbrev pub Steady : ℕ → List (Moment × Bytes) → Type 0
Steady last [] = Unit
Steady last ((m, _) ∷ ms) = Soon last m × Steady m.now ms

pub send_all : Pace → List (Moment × Bytes) → Connection → Outcome Connection
send_all pace [] c = done c
send_all pace ((m, msg) ∷ ms) c = send_line pace m (some msg) c >>= send_all pace ms

abbrev pub characters : List (Moment × Bytes) → ℕ
characters [] = 0
characters ((_, msg) ∷ ms) = length msg + characters ms

-- the connection behind lines that follow soon
abbrev Filled : ℕ → Outcome Connection → Type 0
Filled total fault = ⊥
Filled total (done c) = Entered total c.rate c.char_per_minute

then-Filled :
    (pace : Pace) (m : Moment) (msg : Bytes) (c : Connection) (o : Outcome (ℤ × SendRate))
    (total all : ℕ) (rest : Connection → Outcome Connection)
    → Counted total m.now o
    → ((d : Connection)
        → Entered total d.rate d.char_per_minute
        → d.rate.last_time ≡ m.now
        → Filled all (rest d))
    → Filled all (line_sent pace m msg c o >>= rest)
then-Filled pace m msg c fault total all rest h k = absurd h
then-Filled pace m msg c (done (average, r)) total all rest (h, at) k = k _ h at

send_all-Filled :
    (pace : Pace) (m : Moment) (msg : Bytes) (ms : List (Moment × Bytes)) (c : Connection)
    → IsRate c.rate
    → Steady c.rate.last_time ((m, msg) ∷ ms)
    → characters ((m, msg) ∷ ms) + sum c.rate.char_minute < 2 ^ 31
    → Filled (characters ((m, msg) ∷ ms) + sum c.rate.char_minute) (send_all pace ((m, msg) ∷ ms) c)
unfolding send_all send_line
send_all-Filled pace m msg [] c is (s, _) h =
    let total = length msg + sum c.rate.char_minute in
    let counted = get_char_per_min-Counted m (length msg) is s (omega (arith, h)) in
    let same : length msg + 0 + sum c.rate.char_minute ≡ total = omega arith in
    rw same (
      then-Filled pace m msg c (get_char_per_min m.now m.minute (length msg) c.rate) total total
        (send_all pace []) counted (λ d e at. e))
send_all-Filled pace m msg ((m', msg') ∷ ms) c is (s, st) h =
    let total = length msg + sum c.rate.char_minute in
    let more = characters ((m', msg') ∷ ms) in
    let counted = get_char_per_min-Counted m (length msg) is s (omega (arith, h)) in
    let same : length msg + more + sum c.rate.char_minute ≡ more + total = omega arith in
    rw same (
      then-Filled pace m msg c (get_char_per_min m.now m.minute (length msg) c.rate) total
        (more + total) (send_all pace ((m', msg') ∷ ms)) counted
        (λ d e at.
          let k = e.holds in
          subst (λ t. Filled (more + t) (send_all pace ((m', msg') ∷ ms) d)) k
            (send_all-Filled pace m' msg' ms d e.is
              (subst (λ t. Steady t ((m', msg') ∷ ms)) (sym at) st) (rw k (omega (arith, h))))))

enough :
    (limit total items : ℕ) → 1 ≤ items → items ≤ 60 → limit * 60 ≤ total → limit ≤ total / items
enough limit total items p q h =
    let below : limit * items ≤ limit * 60 = mul-le-mul_left limit q in
    (le-div_iff_mul-le p).1 (omega (arith, below, h))

-- a line is sent without a fault, behind this delay
abbrev pub Waits : List ℕ → ℕ → Outcome Connection → Type 0
Waits sleeps n fault = ⊥
Waits sleeps n (done c) = (c.sleeps ≡ sleeps ++ n ∷ [])

-- lines are sent without a fault, and then one more behind the slow delay
abbrev pub WaitsNext : Pace → Moment → Bytes → Outcome Connection → Type 0
WaitsNext pace m line fault = ⊥
WaitsNext pace m line (done c) =
    Waits c.sleeps pace.slow_send_delay (send_line pace m (some line) c)

line_sent-Waits :
    (pace : Pace) (m : Moment) (line : Bytes) (c : Connection) (o : Outcome (ℤ × SendRate))
    → InRange o
    → below_int c.char_per_minute pace.fast_sending_char_limit ≡ false
    → Waits c.sleeps pace.slow_send_delay (line_sent pace m line c o)
line_sent-Waits pace m line c fault h slow = absurd h
line_sent-Waits pace m line c (done (average, r)) h slow =
    ap (λ b. c.sleeps ++ (if b then pace.send_delay else pace.slow_send_delay) ∷ []) slow

Filled-WaitsNext :
    (pace : Pace) (m : Moment) (line : Bytes) (total : ℕ) (o : Outcome Connection)
    → m.minute < 60
    → pace.fast_sending_char_limit * 60 ≤ total
    → Filled total o
    → WaitsNext pace m line o
unfolding send_line
Filled-WaitsNext pace m line total fault lt h f = f
Filled-WaitsNext pace m line total (done d) lt h f =
    let is = f.is in
    let lines =
      enough pace.fast_sending_char_limit total d.rate.item_count is.items_pos is.items_le h in
    let slow : ltb (total / d.rate.item_count) pace.fast_sending_char_limit ≡ false =
      ground (arith, lines) in
    line_sent-Waits pace m line d (get_char_per_min m.now m.minute (length line) d.rate)
      (get_char_per_min-IsRate m.now m.minute (length line) lt is)
      (subst (λ a. below_int a pace.fast_sending_char_limit ≡ false) (sym f.is_average) slow)

-- Lines that follow each other in less than a minute, however many hours they last, are sent
-- without a fault, and none of their characters is forgotten: when these characters and those that
-- the table had before come to 60 times the limit, the next line waits the slow delay, whenever it
-- is sent, and is sent without a fault. The conditions are at least one such line, the ranges of
-- the variables, minutes of the hour below 60, a clock that does not show 0 for these lines, and a
-- count below 2 ^ 31, where an int wraps around.
pub send_all-slow :
    (c : Connection) (pace : Pace) (m : Moment) (msg : Bytes) (ms : List (Moment × Bytes))
    (m' : Moment) (line : Bytes)
    → IsRate c.rate
    → Steady c.rate.last_time ((m, msg) ∷ ms)
    → characters ((m, msg) ∷ ms) + sum c.rate.char_minute < 2 ^ 31
    → pace.fast_sending_char_limit * 60 ≤ characters ((m, msg) ∷ ms) + sum c.rate.char_minute
    → m'.minute < 60
    → WaitsNext pace m' line (send_all pace ((m, msg) ∷ ms) c)
send_all-slow c pace m msg ms m' line is st small h lt =
    Filled-WaitsNext pace m' line (characters ((m, msg) ∷ ms) + sum c.rate.char_minute)
      (send_all pace ((m, msg) ∷ ms) c) lt h (send_all-Filled pace m msg ms c is st small)
