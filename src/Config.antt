-- ===== src/Config.antt =====
-- src/configparser.c: the checks of the values, the table of the keys, and the lines of the
-- configuration file. Each line is what fgets leaves in the buffer. malloc succeeds, and a call of
-- exit ends the run.
pub mod Numbers
pub mod Keys
pub mod Valid
pub mod Invariant
pub mod Errors
mod Tests
use ebotula.Prelude.{
  ℕ, ◌+◌, ◌-◌, Bool, true, false, not, ◌&&◌, List, [], ◌∷◌, ◌++◌, Option, none, some, ltb, leb,
  ◌==◌, if◌then◌else◌, length,
}
use ebotula.CString.{Bytes, codes, strchr, strpbrk, streq, strtok_cut}
use ebotula.CString.Outcome.{Outcome, done, fault}
use ebotula.Utilities.{trim, clearspace, nick_string_check}
use Numbers.{ℤ, pos, negsuc, atoi, wrap_short, as_unsigned}

-- the results EDOM and EINVAL of the checks, and 0
pub data Verdict : Type 0 where
  accepted edom einval : Verdict

-- `range2` is `none` for NULL
abbrev pub above : ℕ → Option ℕ → Bool
above n none = false
above n (some high) = ltb high n

unfoldable pub key_uint_checker : Bytes → ℕ → Option ℕ → Verdict
key_uint_checker value low high =
    let n = as_unsigned (atoi value) in
    if ltb n low then edom else if above n high then edom else accepted

abbrev pub below_int : ℤ → ℕ → Bool
below_int (pos n) low = ltb n low
below_int (negsuc n) low = true

abbrev pub above_int : ℤ → Option ℕ → Bool
above_int (pos n) high = above n high
above_int (negsuc n) high = false

unfoldable pub key_int_checker : Bytes → ℕ → Option ℕ → Verdict
key_int_checker value low high =
    let n = atoi value in
    if below_int n low then edom else if above_int n high then edom else accepted

-- SERVER_NOT_ALLOW_CHAR; the source has the byte 0xA7 in front of the `$`
abbrev pub server_not_allow_char : Bytes
server_not_allow_char = codes " :;<>*#/\"'\\{}[]()=?" ++ 167 ∷ codes "$"

unfoldable pub key_server_checker : Bytes → Verdict
key_server_checker value = if strpbrk value server_not_allow_char then einval else accepted

unfoldable pub key_nick_checker : Bytes → Verdict
key_nick_checker value = if nick_string_check (some value) then accepted else einval

-- the function of a row of the table with its ranges
pub data Checker : Type 0 where
  unchecked server_checker nick_checker : Checker
  int_checker : ℕ → Option ℕ → Checker

abbrev pub check_param : Checker → Bytes → Verdict
check_param unchecked value = accepted
check_param server_checker value = key_server_checker value
check_param nick_checker value = key_nick_checker value
check_param (int_checker low high) value = key_int_checker value low high

-- the types that the table has
pub data Input : Type 0 where
  param_short param_int param_string : Input

pub data Setting : Type 0 where
  text : Bytes → Setting
  number : ℤ → Setting

-- A row of the table; `param` is the entry of `sSetup` that the row points to.
pub record InputValue : Type 0 where
  pub param_name : Bytes
  pub param_type : Input
  pub param : Setting
  pub is_found : Bool
  pub checker : Checker

abbrev pub new_setting : Input → Bytes → Setting
new_setting param_short value = number (wrap_short (atoi value))
new_setting param_int value = number (atoi value)
new_setting param_string value = text value

-- What the search and the switch make of the table: no row with the key, a row that is set already,
-- an error of the check, or the table with the new value.
pub data Assigned : Type 0 where
  unknown already : Assigned
  refused : Verdict → Assigned
  assigned : List InputValue → Assigned

abbrev pub keep_row : InputValue → Assigned → Assigned
keep_row row unknown = unknown
keep_row row already = already
keep_row row (refused why) = refused why
keep_row row (assigned rows) = assigned (row ∷ rows)

abbrev pub store_checked : Verdict → Bytes → InputValue → List InputValue → Assigned
store_checked accepted value row rows =
    assigned (record row { param = new_setting row.param_type value; is_found = true } ∷ rows)
store_checked edom value row rows = refused edom
store_checked einval value row rows = refused einval

unfoldable pub assign : Bytes → Bytes → List InputValue → Assigned
assign key value [] = unknown
assign key value (row ∷ rows) =
    let rest = assign key value rows in
    if streq row.param_name key
    then (if row.is_found
        then already
        else store_checked (check_param row.checker value) value row rows)
    else keep_row row rest

-- The state of the loop: the table, and the flag `elem`, which a line does not reset.
pub record Parsing : Type 0 where
  pub rows : List InputValue
  pub elem_found : Bool

-- How a line ends: exit with an error of a check, or the next line.
pub data Line : Type 0 where
  exit : Verdict → Line
  next : Parsing → Line

-- With a key that no row has the counter stands behind the table, and with the flag of an earlier
-- line the code reads there.
abbrev pub use_row : Parsing → Assigned → Outcome Line
use_row s unknown = if s.elem_found then fault else done (next s)
use_row s already = done (next (record s { elem_found = false }))
use_row s (refused why) = done (exit why)
use_row s (assigned rows) = done (next (record { rows = rows; elem_found = true }))

-- The key is copied into the memory for what stands in front of the `=`.
abbrev pub split_line : Parsing → Bytes → Option Bytes → Outcome Line
split_line s buffer none = fault
split_line s buffer (some []) = fault
split_line s buffer (some (_ ∷ value)) =
    let key = strtok_cut b'=' buffer in
    if leb (length key) (length buffer - (length value + 1))
    then use_row s (assign key value s.rows)
    else fault

abbrev pub is_skipped : Bytes → Bool
is_skipped [] = true
is_skipped (c ∷ cs) = c == b'#'

unfoldable pub parse_line : Bytes → Parsing → Outcome Line
parse_line line s =
    let buffer = clearspace (trim line) in
    if is_skipped buffer then done (next s) else split_line s buffer (strchr b'=' buffer)

-- the loop, from the outcome of a line on
abbrev pub follow : (Parsing → Outcome Line) → Outcome Line → Outcome Line
follow rest fault = fault
follow rest (done (exit why)) = done (exit why)
follow rest (done (next s)) = rest s

unfoldable pub config_file_parser : List Bytes → Parsing → Outcome Line
config_file_parser [] s = done (next s)
config_file_parser (line ∷ lines) s = follow (config_file_parser lines) (parse_line line s)
