-- ===== src/Parser/Commands.antt =====
-- The search for a bot command in src/parser.c: no command name hides another.
use ebotula.Prelude.{
  ℕ, zero, suc, ◌<◌, ◌≡◌, refl, ◌∙◌, Bool, true, false, not, ◌&&◌, List, [], ◌∷◌, ◌++◌, some, ◌==◌,
  ltb, if◌then◌else◌, length, get_or, all, and_parts, arith,
}
use ebotula.CString.{Bytes, codes, starts_with, strstr}
use ebotula.CString.Laws.{starts_with-append}
use ebotula.Parser.Table.{CmdHandle, cmd_none, cmd_first, cmd_handle_field}
use ebotula.Parser.{find_command, rows_from, message_command, bot_command}

-- one of the strings starts with the other
abbrev pub comparable : Bytes → Bytes → Bool
comparable [] s = true
comparable (x ∷ p) [] = true
comparable (x ∷ p) (y ∷ s) = x == y && comparable p s

-- no string of the table is the beginning of another
abbrev pub prefix_free : List CmdHandle → Bool
prefix_free [] = true
prefix_free (r ∷ rs) = all (λ q. not (comparable r.cmd_string q.cmd_string)) rs && prefix_free rs

starts_with-comparable :
    (p s rest : Bytes) → comparable p s ≡ false → starts_with p (s ++ rest) ≡ false
unfolding starts_with
starts_with-comparable [] s rest h = ground arith
starts_with-comparable (x ∷ p) [] rest h = ground arith
starts_with-comparable (x ∷ p) (y ∷ s) rest h = ground (arith, starts_with-comparable p s rest)

all-get_or :
    {A : Type 0} (p : A → Bool) (xs : List A) (i : ℕ) (d : A)
    → all p xs ≡ true
    → i < length xs
    → p (get_or xs i d) ≡ true
all-get_or p [] i d h n = absurd (omega arith)
all-get_or p (x ∷ xs) zero d h n = (and_parts (p x) (all p xs) h).0
all-get_or p (x ∷ xs) (suc i) d h n =
    all-get_or p xs i d (and_parts (p x) (all p xs) h).1 (omega arith)

-- The text of a row, with anything behind it, is found as the row's id, when no string of the table
-- is the beginning of another.
pub find_command-prefix_free :
    (rs : List CmdHandle) (i : ℕ) (d : CmdHandle) (rest : Bytes)
    → prefix_free rs ≡ true
    → i < length rs
    → find_command ((get_or rs i d).cmd_string ++ rest) rs ≡ (get_or rs i d).cmd_id
unfolding find_command
find_command-prefix_free [] i d rest h n = absurd (omega arith)
find_command-prefix_free (r ∷ rs) zero d rest h n = rw (starts_with-append r.cmd_string rest) refl
find_command-prefix_free (r ∷ rs) (suc i) d rest h n =
    let apart : CmdHandle → Bool = λ q. not (comparable r.cmd_string q.cmd_string) in
    let (a, b) = and_parts (all apart rs) (prefix_free rs) h in
    let other = all-get_or apart rs i d a (omega arith) in
    let clear : comparable r.cmd_string (get_or rs i d).cmd_string ≡ false = ground arith in
    rw (starts_with-comparable r.cmd_string (get_or rs i d).cmd_string rest clear)
      (find_command-prefix_free rs i d rest b (omega arith))

-- the rows of the table that the search runs over
abbrev pub bot_commands : List CmdHandle
bot_commands = rows_from cmd_first cmd_handle_field

bot_commands-prefix_free : prefix_free bot_commands ≡ true
bot_commands-prefix_free = refl

bot_command-hit :
    (line s : Bytes) → bot_command (some (codes " :!" ++ s)) line ≡ find_command s bot_commands
bot_command-hit line s = reaches (length s) cmd_none (find_command s bot_commands)
  where
    reaches : (n a b : ℕ) → (if ltb (suc (suc (suc n))) 3 then a else b) ≡ b
    reaches n a b = ground arith

-- A message whose first ` :!` is followed by the text of a bot command, with anything behind it, is
-- recognised as that command, for each command of the table.
pub message_command-bot_commands :
    (i : ℕ) (d : CmdHandle) (line rest : Bytes)
    → i < length bot_commands
    → strstr (codes " :!") line
      ≡ some (codes " :!" ++ ((get_or bot_commands i d).cmd_string ++ rest))
    → message_command line ≡ (get_or bot_commands i d).cmd_id
unfolding message_command
message_command-bot_commands i d line rest n found = rw found (
    bot_command-hit line ((get_or bot_commands i d).cmd_string ++ rest)
    ∙ find_command-prefix_free bot_commands i d rest bot_commands-prefix_free n)
