-- ===== src/Config/Invariant.antt =====
-- What the configuration file can set: src/configparser.c over all its lines.
use ebotula.Prelude.{
  ◌+◌, ◌-◌, length, ◌≡◌, ◌≢◌, ◌⊎◌, refl, sym, ap, ◌∙◌, Bool, true, false, List, [], ◌∷◌, Option,
  none, some, leb, if◌then◌else◌, Bool-cases, inl, inr,
}
use ebotula.CString.{Bytes, strchr, streq, strtok_cut}
use ebotula.CString.Outcome.{Outcome, done, fault}
use ebotula.Utilities.{trim, clearspace}
use ebotula.Config.{
  Verdict, accepted, edom, einval, check_param, InputValue, Assigned, unknown, already, refused,
  assigned, keep_row, store_checked, assign, Parsing, Line, exit, next, use_row, split_line,
  is_skipped, parse_line, follow, config_file_parser,
}
use ebotula.Config.Valid.{Fits, Holds, new_setting-Holds}

-- Every row fits its type, and what the file has set holds what the check demands.
abbrev pub IsTable : List InputValue → Type 0
IsTable [] = Unit
IsTable (row ∷ rows) =
    Fits row.param_type row.checker
    × (row.is_found ≡ true → Holds row.checker row.param)
    × IsTable rows

-- a row behind a run: as it was, or set by the run for the first time
abbrev pub Kept : InputValue → InputValue → Type 0
Kept old now = (now ≡ old) ⊎ ((old.is_found ≡ false) × (now.is_found ≡ true))

-- `now` has the rows of `old`, each of which is as it was or newly set.
abbrev pub Keeps : List InputValue → List InputValue → Type 0
Keeps [] [] = Unit
Keeps (r ∷ old) (r' ∷ now) =
    (r'.param_name ≡ r.param_name)
    × (r'.param_type ≡ r.param_type)
    × (r'.checker ≡ r.checker)
    × Kept r r'
    × Keeps old now
Keeps _ _ = ⊥

abbrev pub Assigns : List InputValue → Assigned → Type 0
Assigns rows unknown = Unit
Assigns rows already = Unit
Assigns rows (refused why) = why ≢ accepted
Assigns rows (assigned rows') = IsTable rows' × Keeps rows rows'

Keeps-refl : (rows : List InputValue) → Keeps rows rows
Keeps-refl [] = tt
Keeps-refl (r ∷ rows) = (refl, refl, refl, inl refl, Keeps-refl rows)

Kept-trans : (a b c : InputValue) → Kept a b → Kept b c → Kept a c
Kept-trans a b c (inl e) (inl f) = inl (f ∙ e)
Kept-trans a b c (inl e) (inr (n, s)) = inr (sym (ap (λ r. r.is_found) e) ∙ n, s)
Kept-trans a b c (inr (n, s)) (inl f) = inr (n, ap (λ r. r.is_found) f ∙ s)
Kept-trans a b c (inr (n, s)) (inr (m, u)) = inr (n, u)

pub Keeps-trans : (a b c : List InputValue) → Keeps a b → Keeps b c → Keeps a c
Keeps-trans [] [] [] k l = tt
Keeps-trans [] [] (z ∷ c) k l = absurd l
Keeps-trans [] (y ∷ b) c k l = absurd k
Keeps-trans (x ∷ a) [] c k l = absurd k
Keeps-trans (x ∷ a) (y ∷ b) [] k l = absurd l
Keeps-trans (x ∷ a) (y ∷ b) (z ∷ c) (n, p, h, f, k) (n', p', h', f', l) =
    (n' ∙ n, p' ∙ p, h' ∙ h, Kept-trans x y z f f', Keeps-trans a b c k l)

store-Assigns :
    (verdict : Verdict) (value : Bytes) (row : InputValue) (rows : List InputValue)
    → check_param row.checker value ≡ verdict
    → row.is_found ≡ false
    → IsTable (row ∷ rows)
    → Assigns (row ∷ rows) (store_checked verdict value row rows)
store-Assigns accepted value row rows h n (f, v, t) = (
  (f, λ e. new_setting-Holds row.param_type row.checker value f h, t),
  (refl, refl, refl, inr (n, refl), Keeps-refl rows),
)
store-Assigns edom value row rows h n t = λ e. cc
store-Assigns einval value row rows h n t = λ e. cc

keep_row-Assigns :
    (row : InputValue) (rows : List InputValue) (a : Assigned)
    → Fits row.param_type row.checker
    → (row.is_found ≡ true → Holds row.checker row.param)
    → Assigns rows a
    → Assigns (row ∷ rows) (keep_row row a)
keep_row-Assigns row rows unknown f v h = tt
keep_row-Assigns row rows already f v h = tt
keep_row-Assigns row rows (refused why) f v h = h
keep_row-Assigns row rows (assigned rows') f v (t, k) = ((f, v, t), (refl, refl, refl, inl refl, k))

unset-Assigns :
    (b : Bool) (rows : List InputValue) (a : Assigned)
    → (b ≡ false → Assigns rows a)
    → Assigns rows (if b then already else a)
unset-Assigns true rows a h = tt
unset-Assigns false rows a h = h refl

pub assign-Assigns :
    (key value : Bytes) (rows : List InputValue)
    → IsTable rows
    → Assigns rows (assign key value rows)
unfolding assign
assign-Assigns key value [] t = tt
assign-Assigns key value (row ∷ rows) (f, v, t) = elim (Bool-cases (streq row.param_name key)) [
  | inr e ↦
      rw e (keep_row-Assigns row rows (assign key value rows) f v (assign-Assigns key value rows t))
  | inl e ↦ rw e (
      unset-Assigns row.is_found (row ∷ rows)
        (store_checked (check_param row.checker value) value row rows)
        (λ g. store-Assigns (check_param row.checker value) value row rows refl g (f, v, t)))
]

-- What a run over lines comes to, from a table `rows`.
abbrev pub ReadTo : List InputValue → Outcome Line → Type 0
ReadTo rows fault = Unit
ReadTo rows (done (exit why)) = why ≢ accepted
ReadTo rows (done (next s)) = IsTable s.rows × Keeps rows s.rows

use_row-ReadTo :
    (s : Parsing) (a : Assigned) → IsTable s.rows → Assigns s.rows a → ReadTo s.rows (use_row s a)
use_row-ReadTo s unknown t h = elim (Bool-cases s.elem_found) [
  | inl e ↦ rw e tt
  | inr e ↦ rw e (t, Keeps-refl s.rows)
]
use_row-ReadTo s already t h = (t, Keeps-refl s.rows)
use_row-ReadTo s (refused why) t h = h
use_row-ReadTo s (assigned rows) t h = h

split_line-ReadTo :
    (s : Parsing) (buffer : Bytes) (c : Option Bytes)
    → IsTable s.rows
    → ReadTo s.rows (split_line s buffer c)
split_line-ReadTo s buffer none t = tt
split_line-ReadTo s buffer (some []) t = tt
split_line-ReadTo s buffer (some (x ∷ value)) t =
    let key = strtok_cut b'=' buffer in
    elim (Bool-cases (leb (length key) (length buffer - (length value + 1)))) [
      | inl e ↦
          rw e (use_row-ReadTo s (assign key value s.rows) t (assign-Assigns key value s.rows t))
      | inr e ↦ rw e tt
    ]

pub parse_line-ReadTo :
    (line : Bytes) (s : Parsing) → IsTable s.rows → ReadTo s.rows (parse_line line s)
unfolding parse_line
parse_line-ReadTo line s t =
    let buffer = clearspace (trim line) in
    elim (Bool-cases (is_skipped buffer)) [
      | inl e ↦ rw e (t, Keeps-refl s.rows)
      | inr e ↦ rw e (split_line-ReadTo s buffer (strchr b'=' buffer) t)
    ]

ReadTo-Keeps : (a b : List InputValue) (o : Outcome Line) → Keeps a b → ReadTo b o → ReadTo a o
ReadTo-Keeps a b fault k p = tt
ReadTo-Keeps a b (done (exit why)) k p = p
ReadTo-Keeps a b (done (next s)) k (t, l) = (t, Keeps-trans a b s.rows k l)

follow-ReadTo :
    (rows : List InputValue) (rest : Parsing → Outcome Line) (o : Outcome Line)
    → ReadTo rows o
    → ((s : Parsing) → IsTable s.rows → ReadTo s.rows (rest s))
    → ReadTo rows (follow rest o)
follow-ReadTo rows rest fault p h = tt
follow-ReadTo rows rest (done (exit why)) p h = p
follow-ReadTo rows rest (done (next s)) (t, k) h = ReadTo-Keeps rows s.rows (rest s) k (h s t)

-- Whatever lines the configuration file has, a run over them that reaches its end leaves a table
-- in which every setting that the file made holds what the check of its row demands: numbers are
-- in their range, also behind the narrowing to a short, and names have none of the bytes that are
-- not allowed. Each row is left as it was, or is one that was not set before and now counts as
-- set, so the first value of a key counts; and a run that ends by exit does so for an error of a
-- check. The condition is that each row has a type that holds what its check lets through, and is
-- valid if it is set already.
pub config_file_parser-ReadTo :
    (lines : List Bytes) (s : Parsing) → IsTable s.rows → ReadTo s.rows (config_file_parser lines s)
unfolding config_file_parser
config_file_parser-ReadTo [] s t = (t, Keeps-refl s.rows)
config_file_parser-ReadTo (line ∷ lines) s t =
    follow-ReadTo s.rows (config_file_parser lines) (parse_line line s) (parse_line-ReadTo line s t)
      (λ s' t'. config_file_parser-ReadTo lines s' t')
