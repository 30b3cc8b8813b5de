-- ===== src/Network/Bounds.antt =====
-- The static variables of GetCharPerMin in src/network.c stay in their ranges.
use ebotula.Prelude.{
  ℕ, suc, ◌+◌, ◌-◌, ◌/◌, ◌%◌, ◌^◌, ◌≤◌, ◌<◌, ◌≡◌, refl, ap, ◌∙◌, true, false, not, ◌&&◌, List, [],
  ◌∷◌, Option, none, some, ltb, leb, ◌==◌, if◌then◌else◌, length, length-set, set, arith,
  Bool-cases, inl, inr,
}
use ebotula.CString.Outcome.{Outcome, done, fault, ◌>>=◌}
use ebotula.Config.Numbers.{ℤ, pos, negate}
use ebotula.Network.Rate.{
  SendRate, sum, clear_at, clear_range, divide, diff_min_time, set_back, start_index, count_items,
  reset_fields, with_count, reset_or_add, enter_count, get_char_per_min,
}

-- 60 entries, indices of entries, and a number of items that a sum can be divided by
pub record IsRate (r : SendRate) : Type 0 where
  pub entries : length r.char_minute ≡ 60
  pub last_lt : r.last_index < 60
  pub first_lt : start_index 0 r.first_index < 60
  pub items_pos : 1 ≤ r.item_count
  pub items_le : r.item_count ≤ 60

length-clear_at : (i lo hi : ℕ) (xs : List ℕ) → length (clear_at i lo hi xs) ≡ length xs
length-clear_at i lo hi [] = refl
length-clear_at i lo hi (x ∷ xs) = ap suc (length-clear_at (suc i) lo hi xs)

-- a table of 60 entries, and no fault
abbrev pub IsTable : Outcome (List ℕ) → Type 0
IsTable fault = ⊥
IsTable (done xs) = length xs ≡ 60

abbrev pub IsCounted : Outcome (List ℕ × ℕ) → Type 0
IsCounted fault = ⊥
IsCounted (done (xs, n)) = length xs ≡ 60

clear_range-IsTable :
    (lo hi : ℕ) (xs : List ℕ) → hi ≤ 60 → length xs ≡ 60 → IsTable (clear_range lo hi xs)
clear_range-IsTable lo hi xs h l = elim (Bool-cases (leb hi lo)) [
  | inl e ↦ rw e l
  | inr e ↦
      let inside : leb hi (length xs) ≡ true = ground (arith, h, l) in
      rw (e, inside) (length-clear_at 0 lo hi xs ∙ l)
]

then-IsTable :
    (o : Outcome (List ℕ)) (f : List ℕ → Outcome (List ℕ))
    → IsTable o
    → ((xs : List ℕ) → length xs ≡ 60 → IsTable (f xs))
    → IsTable (o >>= f)
then-IsTable fault f h k = h
then-IsTable (done xs) f h k = k xs h

with_count-IsCounted : (n : ℕ) (o : Outcome (List ℕ)) → IsTable o → IsCounted (o >>= with_count n)
with_count-IsCounted n fault h = h
with_count-IsCounted n (done xs) h = h

reset_fields-IsTable :
    (diff minute : ℕ) (r : SendRate)
    → diff ≤ 60
    → minute < 60
    → length r.char_minute ≡ 60
    → IsTable (reset_fields diff minute r)
reset_fields-IsTable diff minute r d m l = elim (Bool-cases (ltb minute r.last_index)) [
  | inl e ↦ rw e (
      then-IsTable (clear_range r.last_index 60 r.char_minute) (clear_range 0 diff)
        (clear_range-IsTable r.last_index 60 r.char_minute (omega arith) l)
        (λ xs k. clear_range-IsTable 0 diff xs d k))
  | inr e ↦ rw e (clear_range-IsTable (r.last_index + 1) minute r.char_minute (omega (arith, m)) l)
]

pub reset_or_add-IsCounted :
    (now minute n : ℕ) (r : SendRate)
    → minute < 60
    → length r.char_minute ≡ 60
    → IsCounted (reset_or_add now minute n r)
reset_or_add-IsCounted now minute n r m l =
    let diff = diff_min_time now r in
    elim (Bool-cases (ltb diff 60)) [
      | inr e ↦ rw e (
          with_count-IsCounted n (clear_range 0 60 r.char_minute)
            (clear_range-IsTable 0 60 r.char_minute (omega arith) l))
      | inl e ↦ elim (Bool-cases (diff == 0 && not (set_back now r))) [
        | inl g ↦
            let inside : ltb minute (length r.char_minute) ≡ true = ground (arith, m, l) in
            rw (e, g, inside) l
        | inr g ↦
            rw (e, g)
              (with_count-IsCounted n (reset_fields diff minute r)
                (reset_fields-IsTable diff minute r (ground arith) m l))
      ]
    ]

pub count_items-bounds :
    (minute first : ℕ) (r : SendRate)
    → minute < 60
    → first < 60
    → 1 ≤ r.item_count
    → r.item_count ≤ 60
    → (1 ≤ count_items minute first r) × (count_items minute first r ≤ 60)
count_items-bounds minute first r m f p q =
    elim (Bool-cases (ltb r.item_count 60 && not (r.last_index == minute))) [
      | inr e ↦ rw e (p, q)
      | inl e ↦ elim (Bool-cases (leb first minute)) [
        | inl g ↦ rw (e, g) (omega arith, omega arith)
        | inr g ↦ let lt : minute < first = ground arith in rw (e, g) (omega arith, omega arith)
      ]
    ]

pub start-lt :
    (minute : ℕ) (o : Option ℕ) → minute < 60 → start_index 0 o < 60 → start_index minute o < 60
start-lt minute none m f = m
start-lt minute (some i) m f = f

-- the variables in their ranges, and no fault
abbrev pub InRange : Outcome (ℤ × SendRate) → Type 0
InRange fault = ⊥
InRange (done (average, r)) = IsRate r

divide-done : (n items : ℕ) → 1 ≤ items → (average : ℤ) × (divide n items ≡ done average)
divide-done n items h =
    let some_items : (items == 0) ≡ false = ground (arith, h) in
    (if ltb n (2 ^ 31) then pos (n / items) else negate ((2 ^ 32 - n) / items), rw some_items refl)

pub enter_count-InRange :
    {r : SendRate} (now minute n : ℕ) (xs : List ℕ)
    → minute < 60
    → IsRate r
    → length xs ≡ 60
    → InRange (enter_count now minute r (xs, n))
enter_count-InRange {r} now minute n xs m is l =
    let first = start_index minute r.first_index in
    let f = start-lt minute r.first_index m is.first_lt in
    let (p, q) = count_items-bounds minute first r m f is.items_pos is.items_le in
    let inside : ltb minute (length xs) ≡ true = ground (arith, m, l) in
    let kept : length (set xs minute n) ≡ 60 = length-set xs minute n ∙ l in
    let full : leb 60 (length (set xs minute n)) ≡ true = ground (arith, kept) in
    let (average, e) =
      divide-done (sum (set xs minute n) % 2 ^ 32) (count_items minute first r) p in
    rw (inside, full, e)
      (record { entries = kept; last_lt = m; first_lt = f; items_pos = p; items_le = q })

counted-InRange :
    {r : SendRate} (now minute : ℕ) (o : Outcome (List ℕ × ℕ))
    → minute < 60
    → IsRate r
    → IsCounted o
    → InRange (o >>= enter_count now minute r)
counted-InRange now minute fault m is h = h
counted-InRange now minute (done (xs, n)) m is h = enter_count-InRange now minute n xs m is h

-- Whatever the clock shows, also when it is set back, GetCharPerMin ends without a fault: it writes
-- and reads its table of 60 entries only inside, also in the loops that clear entries, and does not
-- divide by 0. It leaves the table with 60 entries, the indices inside it, and between 1 and 60 for
-- the number of items. The condition is that the minute of the hour is below 60, and that the
-- variables were in these ranges before, as their initial values are.
pub get_char_per_min-IsRate :
    {r : SendRate} (now minute n : ℕ)
    → minute < 60
    → IsRate r
    → InRange (get_char_per_min now minute n r)
unfolding get_char_per_min
get_char_per_min-IsRate {r} now minute n m is = elim (Bool-cases (now == 0)) [
  | inl e ↦ let (average, d) = divide-done 0 r.item_count is.items_pos in rw (e, d) is
  | inr e ↦ rw e (
      counted-InRange now minute (reset_or_add now minute (n % 2 ^ 32) r) m is
        (reset_or_add-IsCounted now minute (n % 2 ^ 32) r m is.entries))
]
