-- ===== src/Network/Rate.antt =====
-- GetCharPerMin of src/network.c: the characters of the last 60 minutes, one entry for each minute
-- of the clock, and their average. An int is 32 bits wide and wraps around; an access outside the
-- table and a division by 0 are a fault.
use ebotula.Prelude.{
  ℕ, suc, ◌+◌, ◌-◌, ◌/◌, ◌%◌, ◌^◌, Bool, not, ◌&&◌, List, [], ◌∷◌, Option, none, some, ltb, leb,
  ◌==◌, if◌then◌else◌, length, get_or, set,
}
use ebotula.CString.Outcome.{Outcome, done, fault, ◌>>=◌}
use ebotula.Config.Numbers.{ℤ, pos, negate}

-- The static variables; an entry of the table is the 32 bits of an int, and `first_index` is `none`
-- for -1.
pub record SendRate : Type 0 where
  pub char_minute : List ℕ
  pub last_time : ℕ
  pub last_index : ℕ
  pub item_count : ℕ
  pub first_index : Option ℕ

abbrev pub sum : List ℕ → ℕ
sum [] = 0
sum (x ∷ xs) = x + sum xs

-- `a[i]` and `a[i]=x`
abbrev pub read_entry : ℕ → List ℕ → Outcome ℕ
read_entry i xs = if ltb i (length xs) then done (get_or xs i 0) else fault

abbrev pub write_entry : ℕ → ℕ → List ℕ → Outcome (List ℕ)
write_entry i x xs = if ltb i (length xs) then done (set xs i x) else fault

abbrev pub clear_at : ℕ → ℕ → ℕ → List ℕ → List ℕ
clear_at i lo hi [] = []
clear_at i lo hi (x ∷ xs) = (if leb lo i && ltb i hi then 0 else x) ∷ clear_at (suc i) lo hi xs

-- `for (i=lo;i<hi;i++) a[i]=0`
abbrev pub clear_range : ℕ → ℕ → List ℕ → Outcome (List ℕ)
clear_range lo hi xs =
    if leb hi lo then done xs else if leb hi (length xs) then done (clear_at 0 lo hi xs) else fault

-- the sum of the 60 entries, as the 32 bits of an int
abbrev pub sum_entries : List ℕ → Outcome ℕ
sum_entries xs = if leb 60 (length xs) then done (sum xs % 2 ^ 32) else fault

-- `nSum/nItemCount`, where `n` are the 32 bits of nSum: the quotient is rounded towards 0
abbrev pub divide : ℕ → ℕ → Outcome ℤ
divide n items =
    if items == 0
    then fault
    else done (if ltb n (2 ^ 31) then pos (n / items) else negate ((2 ^ 32 - n) / items))

-- diffMinTime, when it is not negative
abbrev pub diff_min_time : ℕ → SendRate → ℕ
diff_min_time now r = if r.last_time == 0 then 0 else (now - r.last_time) / 60

-- Whether diffMinTime is negative: the clock was set back by a minute or more.
abbrev pub set_back : ℕ → SendRate → Bool
set_back now r = not (r.last_time == 0) && leb 60 (r.last_time - now)

-- the reset of the entries, where the count does not go on in its entry
abbrev pub reset_fields : ℕ → ℕ → SendRate → Outcome (List ℕ)
reset_fields diff minute r =
    if ltb minute r.last_index
    then (clear_range r.last_index 60 r.char_minute >>= clear_range 0 diff)
    else clear_range (r.last_index + 1) minute r.char_minute

abbrev pub with_count : ℕ → List ℕ → Outcome (List ℕ × ℕ)
with_count n xs = done (xs, n)

-- the entries after the reset, and the count to enter
abbrev pub reset_or_add : ℕ → ℕ → ℕ → SendRate → Outcome (List ℕ × ℕ)
reset_or_add now minute n r =
    let diff = diff_min_time now r in
    if ltb diff 60
    then (if diff == 0 && not (set_back now r)
        then (read_entry minute r.char_minute >>= λ old. done (r.char_minute, (n + old) % 2 ^ 32))
        else (reset_fields diff minute r >>= with_count n))
    else (clear_range 0 60 r.char_minute >>= with_count n)

abbrev pub start_index : ℕ → Option ℕ → ℕ
start_index minute none = minute
start_index minute (some i) = i

abbrev pub count_items : ℕ → ℕ → SendRate → ℕ
count_items minute first r =
    if ltb r.item_count 60 && not (r.last_index == minute)
    then (if leb first minute then (minute - first) + 1 else (60 - first) + minute + 1)
    else r.item_count

-- the end of GetCharPerMin: the count is entered, and the average taken
abbrev pub enter_count : ℕ → ℕ → SendRate → List ℕ × ℕ → Outcome (ℤ × SendRate)
enter_count now minute r kept =
    let first = start_index minute r.first_index in
    let items = count_items minute first r in
    write_entry minute kept.1 kept.0 >>= λ slots. sum_entries slots >>= λ total.
    divide total items >>= λ average. done (
      average,
      record {
        char_minute = slots;
        last_time = now;
        last_index = minute;
        item_count = items;
        first_index = some first;
      },
    )

-- The clock `now` in seconds, its minute of the hour and the number of characters, an unsigned int;
-- when time gives 0, all is left as it is.
unfoldable pub get_char_per_min : ℕ → ℕ → ℕ → SendRate → Outcome (ℤ × SendRate)
get_char_per_min now minute n r =
    if now == 0
    then (divide 0 r.item_count >>= λ average. done (average, r))
    else (reset_or_add now minute (n % 2 ^ 32) r >>= enter_count now minute r)
