-- ===== src/Config/Errors.antt =====
-- Lines of the configuration file that src/configparser.c reads safely, and lines that lead it out
-- of the table.
use ebotula.Prelude.{
  ℕ, ◌+◌, ◌-◌, ◌≡◌, ◌≢◌, refl, sym, subst, ap, ◌⊎◌, ◌∙◌, Bool, true, false, List, [], ◌∷◌, ◌++◌,
  leb, ◌==◌, ◌||◌, if◌then◌else◌, length, length-append, All, arith, Bool-cases, inl, inr,
}
use ebotula.CString.{Bytes, strchr, streq}
use ebotula.CString.Outcome.{Outcome, done, fault}
use ebotula.CString.Laws.{lacks, strchr-append, strtok_cut-append}
use ebotula.Utilities.{trim, clearspace}
use ebotula.Config.{
  Verdict, accepted, edom, einval, check_param, InputValue, Assigned, unknown, already, refused,
  assigned, keep_row, store_checked, assign, Parsing, Line, exit, next, use_row, is_skipped,
  parse_line, follow, config_file_parser,
}
use ebotula.Config.Invariant.{IsTable, Keeps, Assigns, assign-Assigns, ReadTo, parse_line-ReadTo}

abbrev pub has_key : Bytes → List InputValue → Bool
has_key key [] = false
has_key key (row ∷ rows) = streq row.param_name key || has_key key rows

keep_row-unknown : (row : InputValue) (a : Assigned) → a ≡ unknown → keep_row row a ≡ unknown
keep_row-unknown row a e = rw e refl

assign-unknown :
    (key value : Bytes) (rows : List InputValue)
    → has_key key rows ≡ false
    → assign key value rows ≡ unknown
unfolding assign
assign-unknown key value [] h = refl
assign-unknown key value (row ∷ rows) h =
    let (a, b) = or_parts (streq row.param_name key) (has_key key rows) h in
    rw a (keep_row-unknown row (assign key value rows) (assign-unknown key value rows b))
  where
    or_parts : (a b : Bool) → (a || b) ≡ false → (a ≡ false) × (b ≡ false)
    or_parts true b h = absurd cc
    or_parts false b h = (refl, h)

-- a line that is an assignment, behind the removal of spaces
abbrev pub Assignment : Bytes → ℕ → Bytes → Bytes → Type 0
Assignment line k key value =
    (clearspace (trim line) ≡ (k ∷ key) ++ b'=' ∷ value)
    × (lacks b'=' (k ∷ key) ≡ true)
    × (k ≢ b'#')

parse_line-assign :
    (line : Bytes) (k : ℕ) (key value : Bytes) (s : Parsing)
    → Assignment line k key value
    → parse_line line s ≡ use_row s (assign (k ∷ key) value s.rows)
unfolding parse_line strchr
parse_line-assign line k key value s (e, l, n) =
    let found = strchr-append b'=' (k ∷ key) (b'=' ∷ value) l in
    let cut = strtok_cut-append b'=' k key value l in
    let fits : leb (length (k ∷ key)) (length ((k ∷ key) ++ b'=' ∷ value) - (length value + 1))
        ≡ true =
      ground (arith, length-append (k ∷ key) (b'=' ∷ value)) in
    let no_comment : (k == b'#') ≡ false = ground arith in
    rw (e, no_comment, found) (rw (cut, fits) refl)

Keeps-has_key : (key : Bytes) (a b : List InputValue) → Keeps a b → has_key key b ≡ has_key key a
Keeps-has_key key [] [] k = refl
Keeps-has_key key [] (y ∷ b) k = absurd k
Keeps-has_key key (x ∷ a) [] k = absurd k
Keeps-has_key key (x ∷ a) (y ∷ b) (n, _, _, _, k) = rw (n, Keeps-has_key key a b k) refl

-- The flag `elem` is not reset in front of a line. With the table in order, an unknown key is
-- passed over while no line has set a value; on the line behind one that has set a value, the code
-- reads the row behind the end of the table.
pub config_file_parser-unknown :
    (s : Parsing) (first second : Bytes) (lines : List Bytes) (k : ℕ) (key value : Bytes)
    (rows : List InputValue) (u : ℕ) (unknown_key text : Bytes)
    → IsTable s.rows
    → s.elem_found ≡ false
    → Assignment first k key value
    → assign (k ∷ key) value s.rows ≡ assigned rows
    → Assignment second u unknown_key text
    → has_key (u ∷ unknown_key) s.rows ≡ false
    → (config_file_parser (first ∷ second ∷ lines) s ≡ fault)
      × (config_file_parser (second ∷ lines) s ≡ config_file_parser lines s)
unfolding config_file_parser
config_file_parser-unknown s first second lines k key value rows u unknown_key text t n a e b h =
    let (_, kept) = subst (Assigns s.rows) e (assign-Assigns (k ∷ key) value s.rows t) in
    let gone =
      assign-unknown (u ∷ unknown_key) text rows
        (Keeps-has_key (u ∷ unknown_key) s.rows rows kept ∙ h) in
    let gone_first = assign-unknown (u ∷ unknown_key) text s.rows h in
    (
      rw (parse_line-assign first k key value s a, e)
          (rw
            (
              parse_line-assign second u unknown_key text
                  (record { rows = rows; elem_found = true }) b,
              gone,
            )
            refl),
      rw (parse_line-assign second u unknown_key text s b, gone_first) (unset s n),
    )
  where
    unset :
        (s : Parsing)
        → s.elem_found ≡ false
        → follow (config_file_parser lines) (if s.elem_found then fault else done (next s))
          ≡ config_file_parser lines s
    unset s n = ap (λ b. follow (config_file_parser lines) (if b then fault else done (next s))) n

-- a comment, an empty line, or an assignment to a key of the table
abbrev pub Readable : List InputValue → Bytes → Type 0
Readable rows line =
    (is_skipped (clearspace (trim line)) ≡ true)
    ⊎ ((k : ℕ) × (key : Bytes) × (value : Bytes) × Assignment line k key value
        × (has_key (k ∷ key) rows ≡ true))

abbrev Known : Assigned → Type 0
Known unknown = ⊥
Known already = Unit
Known (refused why) = Unit
Known (assigned rows) = Unit

keep_row-Known : (row : InputValue) (a : Assigned) → Known a → Known (keep_row row a)
keep_row-Known row unknown h = h
keep_row-Known row already h = tt
keep_row-Known row (refused why) h = tt
keep_row-Known row (assigned rows) h = tt

store-Known :
    (b : Bool) (v : Verdict) (value : Bytes) (row : InputValue) (rows : List InputValue)
    → Known (if b then already else store_checked v value row rows)
store-Known true v value row rows = tt
store-Known false accepted value row rows = tt
store-Known false edom value row rows = tt
store-Known false einval value row rows = tt

assign-Known :
    (key value : Bytes) (rows : List InputValue)
    → has_key key rows ≡ true
    → Known (assign key value rows)
unfolding assign
assign-Known key value [] h = absurd cc
assign-Known key value (row ∷ rows) h = elim (Bool-cases (streq row.param_name key)) [
  | inl e ↦ rw e (store-Known row.is_found (check_param row.checker value) value row rows)
  | inr e ↦
      rw e (keep_row-Known row (assign key value rows) (assign-Known key value rows (rw e at h)))
]

-- a run that stays in its memory
abbrev pub Safe : Outcome Line → Type 0
Safe fault = ⊥
Safe (done line) = Unit

use_row-Safe : (s : Parsing) (a : Assigned) → Known a → Safe (use_row s a)
use_row-Safe s unknown h = absurd h
use_row-Safe s already h = tt
use_row-Safe s (refused why) h = tt
use_row-Safe s (assigned rows) h = tt

parse_line-Safe : (line : Bytes) (s : Parsing) → Readable s.rows line → Safe (parse_line line s)
unfolding parse_line
parse_line-Safe line s (inl h) = rw h tt
parse_line-Safe line s (inr (k, key, value, a, h)) =
    subst Safe (sym (parse_line-assign line k key value s a))
      (use_row-Safe s (assign (k ∷ key) value s.rows) (assign-Known (k ∷ key) value s.rows h))

Readable-Keeps :
    (a b : List InputValue) (line : Bytes) → Keeps a b → Readable a line → Readable b line
Readable-Keeps a b line kept (inl h) = inl h
Readable-Keeps a b line kept (inr (k, key, value, e, h)) =
    inr (k, key, value, e, Keeps-has_key (k ∷ key) a b kept ∙ h)

All-Keeps :
    (a b : List InputValue) (lines : List Bytes)
    → Keeps a b
    → All (Readable a) lines
    → All (Readable b) lines
All-Keeps a b [] kept h = tt
All-Keeps a b (line ∷ lines) kept (r, h) =
    (Readable-Keeps a b line kept r, All-Keeps a b lines kept h)

follow-Safe :
    (rows : List InputValue) (rest : Parsing → Outcome Line) (o : Outcome Line)
    → Safe o
    → ReadTo rows o
    → ((s : Parsing) → IsTable s.rows → Keeps rows s.rows → Safe (rest s))
    → Safe (follow rest o)
follow-Safe rows rest fault h p f = h
follow-Safe rows rest (done (exit why)) h p f = tt
follow-Safe rows rest (done (next s)) h (t, k) f = f s t k

-- A configuration file whose lines are comments, empty, or assignments to keys of the table, in any
-- order and any number and with any values, is read without an access outside of the table or a
-- buffer: the run reaches its end, or ends by exit for a value that its check refuses.
pub config_file_parser-Safe :
    (lines : List Bytes) (s : Parsing)
    → IsTable s.rows
    → All (Readable s.rows) lines
    → Safe (config_file_parser lines s)
unfolding config_file_parser
config_file_parser-Safe [] s t h = tt
config_file_parser-Safe (line ∷ lines) s t (r, h) =
    follow-Safe s.rows (config_file_parser lines) (parse_line line s) (parse_line-Safe line s r)
      (parse_line-ReadTo line s t)
      (λ s' t' kept. config_file_parser-Safe lines s' t' (All-Keeps s.rows s'.rows lines kept h))
