-- ===== src/Network/Steady.antt =====
-- GetCharPerMin of src/network.c for a line that follows in less than a minute.
use ebotula.Prelude.{
  ℕ, zero, suc, ◌+◌, ◌-◌, ◌/◌, ◌%◌, ◌^◌, ◌≤◌, ◌<◌, ◌≡◌, ◌≢◌, refl, true, false, List, [], ◌∷◌, ltb,
  leb, ◌==◌, length, length-set, ◌∙◌, get_or, set, arith, Bool-cases, inl, inr,
}
use ebotula.CString.Outcome.{Outcome, done, fault}
use ebotula.Config.Numbers.{ℤ, pos}
use ebotula.Network.Rate.{
  SendRate, sum, divide, start_index, count_items, reset_or_add, enter_count, get_char_per_min,
}
use ebotula.Network.Bounds.{IsRate, start-lt, count_items-bounds, enter_count-InRange}
use ebotula.Network.{Moment}

sum-set : (xs : List ℕ) (i n : ℕ) → i < length xs → sum (set xs i (n + get_or xs i 0)) ≡ n + sum xs
sum-set [] i n h = absurd (omega (arith, h))
sum-set (x ∷ xs) zero n h = omega arith
sum-set (x ∷ xs) (suc i) n h = omega (arith, sum-set xs i n (omega (arith, h)))

get_or-sum : (xs : List ℕ) (i : ℕ) → get_or xs i 0 ≤ sum xs
get_or-sum [] i = omega arith
get_or-sum (x ∷ xs) zero = omega arith
get_or-sum (x ∷ xs) (suc i) = omega (arith, get_or-sum xs i)

-- less than a minute after the last line
pub record Soon (last : ℕ) (m : Moment) : Type 0 where
  pub running : m.now ≢ 0
  pub later : last ≤ m.now
  pub soon : m.now < last + 60
  pub minute_lt : m.minute < 60

reset_or_add-Soon :
    (r : SendRate) (m : Moment) (n : ℕ)
    → Soon r.last_time m
    → length r.char_minute ≡ 60
    → n + sum r.char_minute < 2 ^ 31
    → reset_or_add m.now m.minute (n % 2 ^ 32) r
      ≡ done (r.char_minute, n + get_or r.char_minute m.minute 0)
reset_or_add-Soon r m n s l h =
    let a = s.later in
    let b = s.soon in
    let c = s.minute_lt in
    let zero_div : ((m.now - r.last_time) / 60) ≡ 0 = omega arith in
    let none_back : leb 60 (r.last_time - m.now) ≡ false = ground arith in
    let inside : ltb m.minute (length r.char_minute) ≡ true = ground arith in
    let below = get_or-sum r.char_minute m.minute in
    let small : (n % 2 ^ 32) ≡ n = omega arith in
    let exact : ((n + get_or r.char_minute m.minute 0) % 2 ^ 32)
        ≡ n + get_or r.char_minute m.minute 0 =
      omega arith in
    elim (Bool-cases (r.last_time == 0)) [
      | inl e ↦ rw (e, inside, small, exact) refl
      | inr e ↦ rw (e, zero_div, none_back, inside, small, exact) refl
    ]

-- the table and the average behind a line that follows soon
pub record Entered (total : ℕ) (r : SendRate) (average : ℤ) : Type 0 where
  pub is : IsRate r
  pub holds : sum r.char_minute ≡ total
  pub is_average : average ≡ pos (total / r.item_count)

-- the outcome of a line that follows soon
abbrev pub Counted : ℕ → ℕ → Outcome (ℤ × SendRate) → Type 0
Counted total now fault = ⊥
Counted total now (done (average, r)) = Entered total r average × (r.last_time ≡ now)

divide-pos : (n items : ℕ) → n < 2 ^ 31 → 1 ≤ items → divide n items ≡ done (pos (n / items))
divide-pos n items h p =
    let some_items : (items == 0) ≡ false = ground (arith, p) in
    let positive : ltb n (2 ^ 31) ≡ true = ground (arith, h) in rw (some_items, positive) refl

enter_count-Counted :
    {r : SendRate} (m : Moment) (n : ℕ)
    → IsRate r
    → m.minute < 60
    → n + sum r.char_minute < 2 ^ 31
    → Counted
        (n + sum r.char_minute)
        m.now
        (enter_count m.now m.minute r (r.char_minute, n + get_or r.char_minute m.minute 0))
enter_count-Counted {r} m n is lt h =
    let first = start_index m.minute r.first_index in
    let count = n + get_or r.char_minute m.minute 0 in
    let slots = set r.char_minute m.minute count in
    let (p, q) =
      count_items-bounds m.minute first r lt (start-lt m.minute r.first_index lt is.first_lt)
        is.items_pos is.items_le in
    let l = is.entries in
    let below : m.minute < length r.char_minute = omega arith in
    let inside : ltb m.minute (length r.char_minute) ≡ true = ground arith in
    let kept : length slots ≡ 60 = length-set r.char_minute m.minute count ∙ l in
    let full : leb 60 (length slots) ≡ true = ground arith in
    let summed = sum-set r.char_minute m.minute n below in
    let exact : (sum slots % 2 ^ 32) ≡ n + sum r.char_minute = omega (arith, summed, h) in
    let whole = divide-pos (n + sum r.char_minute) (count_items m.minute first r) h p in
    let next = enter_count-InRange m.now m.minute count r.char_minute lt is l in
    rw (inside, full, exact, whole)
      (
        record { is = rw (inside, full, exact, whole) at next; holds = summed; is_average = refl },
        refl,
      )

pub get_char_per_min-Counted :
    {r : SendRate} (m : Moment) (n : ℕ)
    → IsRate r
    → Soon r.last_time m
    → n + sum r.char_minute < 2 ^ 31
    → Counted (n + sum r.char_minute) m.now (get_char_per_min m.now m.minute n r)
unfolding get_char_per_min
get_char_per_min-Counted {r} m n is s h =
    let running : (m.now == 0) ≡ false = let r = s.running in ground arith in
    rw (running, reset_or_add-Soon r m n s is.entries h) (enter_count-Counted m n is s.minute_lt h)
