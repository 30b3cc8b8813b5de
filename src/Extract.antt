-- ===== src/Extract.antt =====
-- src/extract.c: the fields of a line of the IRC protocol, and of a channel's database entry.
-- `getArgument` and `getAccessChannel` write into the line that they read, so these functions
-- return the line as it is afterwards too. Allocation is taken to succeed.
pub mod Argument
pub mod Banmask
pub mod Identity
mod Tests
use ebotula.Prelude.{
  ℕ, suc, ◌+◌, ◌≡◌, Bool, true, false, not, ◌&&◌, ◌||◌, [], ◌∷◌, ◌++◌, Option, none, some, ◌==◌,
  if◌then◌else◌, leb, length, is_nil, is_some,
}
use ebotula.CString.{Bytes, codes, strchr, strrchr, strstr, strtok_cut, take_until, strstr_before}
use ebotula.CString.Outcome.{Outcome, done, fault, ◌>>=◌}
use ebotula.Utilities.{trim, nick_string_check, channel_string_check}

abbrev pub drop_head : Bytes → Bytes
drop_head [] = []
drop_head (_ ∷ s) = s

-- the first byte of the buffer, the NUL at its end included
abbrev pub first : Bytes → ℕ
first [] = 0
first (c ∷ _) = c

-- getNetmask behind its NULL test. `&pStr[1]` of an empty line lies behind the buffer.
pub netmask_of : Bytes → Outcome (Option Bytes)
unfolding strtok_cut strchr
netmask_of [] = fault
netmask_of (c ∷ cs) =
    let cut = c ∷ strtok_cut b' ' cs in
    if is_some (strchr b'!' cut) || is_some (strchr b'@' cut)
    then (if c == b':' then done (some (drop_head cut)) else done (some cut))
    else done none

unfoldable pub get_netmask : Option Bytes → Outcome (Option Bytes)
unfolding netmask_of
get_netmask none = done none
get_netmask (some line) = netmask_of line

abbrev only_marks : Bytes → Bool
only_marks [] = true
only_marks (c ∷ cs) = c == b'!' && only_marks cs

-- what getNickname makes of the netmask; strtok returns NULL when there is nothing but `!`
pub nick_of : Option Bytes → Option Bytes
nick_of none = none
nick_of (some mask) =
    let cut = strtok_cut b'!' mask in
    if only_marks mask then none else if nick_string_check (some cut) then some cut else none

unfoldable pub get_nickname : Option Bytes → Outcome (Option Bytes)
unfolding nick_of get_netmask strtok_cut nick_string_check
get_nickname line = do mask ← get_netmask line; done (nick_of mask)

-- getCommand: the line up to its second colon, if it starts with one
unfoldable pub get_command : Bytes → Option Bytes
unfolding strtok_cut
get_command [] = none
get_command (c ∷ cs) = if c == b':' then some (c ∷ strtok_cut b':' cs) else none

-- The loop of getArgument over the text behind ` :!`: the text that is left in the line, and the
-- argument. When the rest is trimmed to nothing the loop goes on behind the NUL just written.
pub argument_loop : Bytes → Bytes × Option Bytes
unfolding trim
argument_loop [] = ([], none)
argument_loop (c ∷ []) = (c ∷ [], none)
argument_loop (c ∷ d ∷ cs) =
    let stale = argument_loop cs in
    let next = argument_loop (d ∷ cs) in
    let rest = trim (d ∷ cs) in
    if c == b' '
    then (if is_nil rest then (c ∷ [], stale.1) else (c ∷ rest, some rest))
    else (c ∷ next.0, next.1)

abbrev pub command_mark : Bytes
command_mark = codes " :!"

abbrev pub skip_mark : Bytes → Bytes
skip_mark (_ ∷ _ ∷ _ ∷ s) = s
skip_mark _ = []

-- getArgument: the line afterwards, and the argument
unfoldable pub get_argument : Bytes → Bytes × Option Bytes
unfolding strstr argument_loop strstr_before
get_argument line = elim (strstr command_mark line) [
  | none ↦ (line, none)
  | some s ↦
      let result = argument_loop (skip_mark s) in
      (strstr_before command_mark line ++ (command_mark ++ result.0), result.1)
]

-- `*pPos = '\0'` at the first space
abbrev pub to_space : Bytes → Bytes
to_space s = take_until (λ c. c == b' ') s

abbrev cut_channel : Option Bytes → Option Bytes
cut_channel none = none
cut_channel (some pos) = some (strtok_cut b' ' pos)

unfoldable pub get_channel : Bytes → Option Bytes
unfolding get_command strchr strtok_cut
get_channel line = elim (get_command line) [
  | none ↦ none
  | some preamble ↦ cut_channel (strchr b'#' preamble)
]

abbrev channel_mark : Bytes
channel_mark = codes " :#"

-- the second attempt of getAccessChannel, which cuts the line behind the channel
pub channel_behind_mark : Bytes → Bytes × Option Bytes
unfolding strstr strstr_before strtok_cut
channel_behind_mark line = elim (strstr channel_mark line) [
  | none ↦ (line, none)
  | some s ↦
      let cut = strtok_cut b' ' (drop_head (drop_head s)) in
      (strstr_before channel_mark line ++ (codes " :" ++ cut), some cut)
]

pub access_in_preamble : Bytes → Bytes × Option Bytes
unfolding get_channel channel_behind_mark
access_in_preamble line = elim (get_channel line) [
  | some channel ↦ (line, some channel)
  | none ↦ channel_behind_mark line
]

pub access_of_argument : Bytes → Option Bytes
unfolding channel_string_check strtok_cut
access_of_argument arg =
    let cut = strtok_cut b' ' arg in if channel_string_check (some cut) then some cut else none

-- getAccessChannel: the line afterwards, and the channel
unfoldable pub get_access_channel : Bytes → Bytes × Option Bytes
unfolding get_argument access_in_preamble access_of_argument
get_access_channel line =
    let (line', parameter) = get_argument line in
    elim parameter [
      | none ↦ access_in_preamble line'
      | some arg ↦
          if not (first arg == b'#')
          then access_in_preamble line'
          else (line', access_of_argument arg)
    ]

abbrev to_tab : Bytes → Bytes
to_tab s = take_until (λ c. c == b'\t') s

-- the text between the first two tabs, if there is any
unfoldable pub get_topic : Bytes → Option Bytes
unfolding strchr take_until
get_topic channel_set = elim (strchr b'\t' channel_set) [
  | none ↦ none
  | some pos ↦ elim (strchr b'\t' (drop_head pos)) [
    | none ↦ none
    | some _ ↦ if is_nil (to_tab (drop_head pos)) then none else some (to_tab (drop_head pos))
  ]
]

-- the text behind the last tab, if there is any
unfoldable pub get_greeting : Bytes → Option Bytes
unfolding strrchr
get_greeting channel_set = elim (strrchr b'\t' channel_set) [
  | none ↦ none
  | some pos ↦ if is_nil (drop_head pos) then none else some (drop_head pos)
]

-- the text in front of the first tab
unfoldable pub get_channel_mode : Bytes → Bytes
unfolding strchr take_until
get_channel_mode channel_set = elim (strchr b'\t' channel_set) [
  | none ↦ []
  | some _ ↦ to_tab channel_set
]

-- getParameters: the line afterwards, and the argument without its channel
pub parameters_of : Option Bytes → Option Bytes
unfolding strchr
parameters_of none = none
parameters_of (some arg) =
    if not (first arg == b'#')
    then some arg
    else elim (strchr b' ' arg) [ none ↦ none | some pos ↦ some (drop_head pos) ]

unfoldable pub get_parameters : Bytes → Bytes × Option Bytes
unfolding get_argument parameters_of
get_parameters line = let (line', arg) = get_argument line in (line', parameters_of arg)

abbrev split_first : Bytes → Option Bytes → Option Bytes → Option Bytes × Option Bytes
split_first line old none = (some line, old)
split_first line old (some pos) =
    (some (to_space line), if is_nil (drop_head pos) then none else some (drop_head pos))

-- getFirstPart with a `pRest` that is not NULL and holds `old`: the first word, and what `*pRest`
-- holds afterwards, which is `old` when the line has no space
unfoldable pub get_first_part : Option Bytes → Option Bytes → Option Bytes × Option Bytes
unfolding strchr take_until
get_first_part none old = (none, none)
get_first_part (some line) old = split_first line old (strchr b' ' line)

-- `strcat(pBanmask, pChar)` onto `cut`, where `size` is the allocation of pBanmask and the second
-- argument the dot that was found. Writing behind the allocation is a fault.
pub append_dot : ℕ → Bytes → Option Bytes → Outcome (Option Bytes)
append_dot size cut none = done (some cut)
append_dot size cut (some dot) =
    if leb (length cut + length dot + 1) size then done (some (cut ++ dot)) else fault

-- The end of getBanmask, where pBanmask and its copy in pStr hold `star`.
pub append_host : ℕ → Bytes → Outcome (Option Bytes)
unfolding strchr take_until append_dot
append_host size star = elim (strchr b'@' star) [
  | none ↦ fault
  | some _ ↦
      let cut = take_until (λ c. c == b'@') star ++ (b'@' ∷ b'*' ∷ []) in
      append_dot size cut (strchr b'.' star)
]

-- getBanmask behind getNetmask; `capacity` is the allocation of pStr, the buffer of the netmask
pub banmask_of : ℕ → Bytes → Outcome (Option Bytes)
unfolding strchr append_host
banmask_of capacity mask = elim (strchr b'!' mask) [
  | none ↦ fault
  | some bang ↦
      if leb (length bang + 2) capacity then append_host (length bang + 3) (b'*' ∷ bang) else fault
]

-- getNetmask allocates one byte more than it needs when it skips a colon
abbrev netmask_size : Option Bytes → Bytes → ℕ
netmask_size none mask = 0
netmask_size (some line) mask = if first line == b':' then length mask + 2 else length mask + 1

abbrev banmask_if : Option Bytes → Option Bytes → Outcome (Option Bytes)
banmask_if line none = done none
banmask_if line (some mask) = banmask_of (netmask_size line mask) mask

unfoldable pub get_banmask : Option Bytes → Outcome (Option Bytes)
unfolding get_netmask banmask_of
get_banmask line = do mask ← get_netmask line; banmask_if line mask

pub data AnswerMode : Type 0 where
  notice_mode prv_msg_mode : AnswerMode

unfoldable pub get_answer_mode : Bytes → AnswerMode
unfolding get_channel
get_answer_mode line = if is_some (get_channel line) then notice_mode else prv_msg_mode
