-- ===== src/Utilities.antt =====
-- src/utilities.c: the string helpers `trim`, `clearspace`, `StrToLower` and the checks of channel
-- and nick names. An in-place update returns the string that the buffer holds afterwards.
pub mod TrimShape
pub mod Quotes
pub mod Names
mod Tests
use ebotula.Prelude.{
  ℕ, Bool, true, false, not, ◌&&◌, ◌||◌, [], ◌∷◌, Option, none, some, ◌==◌, if◌then◌else◌,
}
use ebotula.CString.{Bytes, codes, strpbrk, mem, isalpha, isalnum, tolower}

abbrev is_break : ℕ → Bool
is_break c = c == b'\n' || c == b'\r' || c == b'\t'

-- the loop of `trim`: the bytes it writes, from `bIsAlpha` on
pub trim_loop : Bool → Bytes → Bytes
trim_loop is_alpha [] = []
trim_loop is_alpha (c ∷ cs) =
    let dropped = trim_loop is_alpha cs in
    let gap = b' ' ∷ trim_loop false cs in
    let kept = c ∷ trim_loop true cs in
    if c == b' ' && is_alpha
    then gap
    else if not (c == b'\n') && not (c == b'\r') && not (c == b' ') && not (c == b'\t')
    then kept
    else dropped

-- `if (j > 0 && pStr[j - 1] == ' ') j--`
pub drop_last_space : Bytes → Bytes
drop_last_space [] = []
drop_last_space (c ∷ []) = if c == b' ' then [] else c ∷ []
drop_last_space (c ∷ d ∷ cs) = c ∷ drop_last_space (d ∷ cs)

unfoldable pub trim : Bytes → Bytes
unfolding trim_loop drop_last_space
trim s = drop_last_space (trim_loop false s)

-- `noclr` is the flag of an open quotation
pub clearspace_loop : Bool → Bytes → Bytes
clearspace_loop noclr [] = []
clearspace_loop noclr (c ∷ cs) =
    let toggled = clearspace_loop (not noclr) cs in
    let kept = c ∷ clearspace_loop noclr cs in
    let dropped = clearspace_loop noclr cs in
    if not (c == b' ') || noclr then (if c == b'\"' then toggled else kept) else dropped

unfoldable pub clearspace : Bytes → Bytes
unfolding clearspace_loop
clearspace = clearspace_loop false

-- `StrToLower` of a string that is not NULL
abbrev pub fold_char : ℕ → ℕ
fold_char c = if isalpha c then tolower c else c

unfoldable pub str_to_lower : Bytes → Bytes
str_to_lower [] = []
str_to_lower (c ∷ cs) = fold_char c ∷ str_to_lower cs

-- COMMON_NOT_ALLOW_CHAR ends at its NUL; `\a` is 7
abbrev pub common_not_allow_char : Bytes
common_not_allow_char = b'\t' ∷ b'\r' ∷ b'\n' ∷ b',' ∷ b' ' ∷ 7 ∷ []

abbrev pub user_allow_char : Bytes
user_allow_char = codes "-[]\\^{}|_`"

unfoldable pub common_string_check : Bytes → Bool
unfolding strpbrk
common_string_check s = not (strpbrk s common_not_allow_char)

abbrev starts_as_channel : Bytes → Bool
starts_as_channel [] = false
starts_as_channel (c ∷ _) = c == b'#' || c == b'&'

unfoldable pub channel_string_check : Option Bytes → Bool
unfolding common_string_check
channel_string_check none = false
channel_string_check (some s) = if common_string_check s then starts_as_channel s else false

-- the loop of `NickStringCheck`
unfoldable pub nick_loop : Bytes → Bool
nick_loop [] = true
nick_loop (c ∷ cs) =
    let rest = nick_loop cs in
    if not (isalnum c) then (if not (mem c user_allow_char) then false else rest) else rest

unfoldable pub nick_string_check : Option Bytes → Bool
unfolding common_string_check nick_loop
nick_string_check none = false
nick_string_check (some s) = if common_string_check s then nick_loop s else false
