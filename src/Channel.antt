-- ===== src/Channel.antt =====
-- src/utilities.c and src/include/type.h: the modes, topic and greeting of a channel, as the string
-- that the channel database keeps. The twelve mode slots of `pModeStr` stand in the order of
-- ChanModeEnum; a slot is a space when its mode is off.
pub mod Bounds
pub mod ModeRoundTrip
pub mod RoundTrip
mod Tests
use ebotula.Prelude.{
  ℕ, zero, suc, ◌+◌, ◌≡◌, Bool, true, false, ◌&&◌, [], ◌∷◌, ◌++◌, List, Option, none, some, ◌==◌,
  if◌then◌else◌, length, get_or, set, is_some,
}
use ebotula.CString.{Bytes, codes, strchr, take_until}
use ebotula.CString.Outcome.{Outcome, done, fault, ◌>>=◌}
use ebotula.Utilities.{trim, clearspace}
use ebotula.Extract.{to_space, get_topic, get_greeting, get_channel_mode}

pub record ChannelMode : Type 0 where
  pub mode_str : Bytes
  pub keyword : Option Bytes
  pub limit : Option Bytes

pub record ChannelData : Type 0 where
  pub modes : ChannelMode
  pub topic : Option Bytes
  pub greeting : Option Bytes

-- `strcat(pModeStr," "); strcat(pModeStr,p)` when the mode is on and has its parameter
unfoldable pub add_parameter : ℕ → Option Bytes → Bytes → Bytes
add_parameter c none s = s
add_parameter c (some p) s = if is_some (strchr c s) then s ++ (b' ' ∷ p) else s

-- the buffer of ChannelModeToStr in front of the last `trim`
pub mode_buffer : ChannelMode → Bytes
mode_buffer m = add_parameter b'l' m.limit (add_parameter b'k' m.keyword (clearspace m.mode_str))

unfoldable pub channel_mode_to_str : ChannelMode → Bytes
unfolding mode_buffer
channel_mode_to_str m = trim (mode_buffer m)

abbrev pub length_or_zero : Option Bytes → ℕ
length_or_zero none = 0
length_or_zero (some s) = length s

-- what ChannelModeToStr allocates: MAX_MODES is 11
pub mode_buffer_size : ChannelMode → ℕ
mode_buffer_size m = 11 + 4 + length_or_zero m.keyword + length_or_zero m.limit

abbrev pub behind_space : Option Bytes → Option Bytes
behind_space none = none
behind_space (some []) = none
behind_space (some (_ ∷ s)) = some s

-- the loop that cuts the line in `n` parts at its spaces
pub split_parts : ℕ → Option Bytes → List (Option Bytes)
split_parts zero s = []
split_parts (suc n) none = none ∷ split_parts n none
split_parts (suc n) (some s) = some (to_space s) ∷ split_parts n (behind_space (strchr b' ' s))

-- the slot that the switch of StrToChannelMode sets to the letter itself
pub plain_slot : ℕ → Option ℕ
plain_slot c =
    if c == b'+'
    then some 0
    else if c == b'-'
    then some 0
    else if c == b't'
    then some 3
    else if c == b'n'
    then some 4
    else if c == b'm'
    then some 5
    else if c == b'p'
    then some 6
    else if c == b's'
    then some 7
    else if c == b'a'
    then some 8
    else if c == b'r'
    then some 10
    else if c == b'q'
    then some 9
    else if c == b'i'
    then some 11
    else none

abbrev pub set_slot : ChannelMode → Option ℕ → ℕ → ChannelMode
set_slot m none c = m
set_slot m (some i) c = record m { mode_str = set m.mode_str i c }

abbrev pub with_keyword : ChannelMode → Bytes → ChannelMode
with_keyword m p = record m { mode_str = set m.mode_str 1 b'k'; keyword = some p }

abbrev pub with_limit : ChannelMode → Bytes → ChannelMode
with_limit m p = record m { mode_str = set m.mode_str 2 b'l'; limit = some p }

-- `strlen(ppArgv[j])`: a part that is missing, or lies behind the array, is not readable
abbrev pub part_at : List (Option Bytes) → ℕ → Outcome Bytes
part_at parts j = elim (get_or parts j none) [ none ↦ fault | some p ↦ done p ]

-- the loop over the letters, with the next parameter `j`
pub mode_loop : List (Option Bytes) → Bytes → ℕ → ChannelMode → Outcome ChannelMode
mode_loop parts [] j m = done m
mode_loop parts (c ∷ cs) j m =
    let keyed = (do p ← part_at parts j; mode_loop parts cs (j + 1) (with_keyword m p)) in
    let limited = (do p ← part_at parts j; mode_loop parts cs (j + 1) (with_limit m p)) in
    let plain = mode_loop parts cs j (set_slot m (plain_slot c) c) in
    if c == b'k' then keyed else if c == b'l' then limited else plain

abbrev pub blank_modes : ChannelMode
blank_modes = record { mode_str = codes "            "; keyword = none; limit = none }

abbrev pub letters_of : Option Bytes → Bytes
letters_of none = []
letters_of (some s) = s

-- StrToChannelMode, with a mode line that may be NULL
unfoldable pub str_to_channel_mode : Option Bytes → Outcome ChannelMode
unfolding mode_loop split_parts plain_slot
str_to_channel_mode s =
    let parts = split_parts 3 s in mode_loop parts (letters_of (get_or parts 0 none)) 1 blank_modes

-- StrToChannelData of an entry that is not NULL
unfoldable pub str_to_channel_data : Bytes → Outcome ChannelData
str_to_channel_data entry = do
  m ← str_to_channel_mode (some (get_channel_mode entry))
  done (record { modes = m; topic = get_topic entry; greeting = get_greeting entry })

abbrev pub or_empty : Option Bytes → Bytes
or_empty none = []
or_empty (some s) = s

unfoldable pub channel_data_to_str : ChannelData → Bytes
channel_data_to_str d =
    channel_mode_to_str d.modes ++ (b'\t' ∷ (or_empty d.topic ++ (b'\t' ∷ or_empty d.greeting)))
