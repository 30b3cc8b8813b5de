-- ===== src/Command/AccountModes.antt =====
-- The command `accountmode` of src/command.c, which gives and takes the rights of an account.
pub mod Granted
use ebotula.Prelude.{
  ℕ, Bool, true, false, not, ◌&&◌, ◌||◌, ◌==◌, List, [], ◌∷◌, ◌++◌, Option, none, some,
  if◌then◌else◌, is_nil, is_some,
}
use ebotula.CString.{Bytes, codes, strchr, streq}
use ebotula.CString.Outcome.{Outcome, done, fault}
use ebotula.Extract.{drop_head, first, to_space, get_nickname}
use ebotula.Irc.{mode}
use ebotula.Database.Backend.{Library}
use ebotula.Database.{
  Databases, user_db, channel_db, access_db, usertonick_db, nicktouser_db, add_db, replace_db,
  del_db, exist_db, get_db,
}
use ebotula.Account.{UserLevel, rm_access_rights}
use ebotula.Account.Levels.{rank}
use ebotula.Bot.Steps.{Done, pure, failed, lift, ◌>>=◌, ◌>>◌}
use ebotula.Bot.{MsgItem, World, Handler, emit, tell, query, update_db, parameters}
use ebotula.Command.Channels.{in_channel}
use ebotula.Command.Speech.{with_text}

-- `oldmod[1]`; the empty string ends in front of it
abbrev pub second : Bytes → Outcome ℕ
second [] = fault
second (_ ∷ s) = done (first s)

abbrev pub second_of : Option Bytes → Outcome ℕ
second_of none = done 0
second_of (some s) = second s

module _ (lib : Library) where
  -- the right that the account has so far: in the channel, or else everywhere
  unfoldable pub old_right : Bytes → Bytes → Databases lib → Option Bytes
  old_right login channel dbf = elim (get_db lib access_db (some (login ++ channel)) dbf) [
    | none ↦ get_db lib access_db (some login) dbf
    | some right ↦ some right
  ]

  abbrev names_master : Option Bytes → Bool
  names_master none = false
  names_master (some right) = is_some (strchr b'm' right)

  -- a right everywhere with an `m`: only a master may touch it
  unfoldable pub is_protected : Bytes → Bytes → Databases lib → Bool
  is_protected login channel dbf =
      not (is_some (get_db lib access_db (some (login ++ channel)) dbf))
      && names_master (get_db lib access_db (some login) dbf)

  -- the removal of rights of the other kind; `s` is the mode of the old right, if there is one
  unfoldable pub clear_right : ℕ → ℕ → Bool → Bytes → Databases lib → Databases lib
  clear_right c s had login dbf =
      if c == b'm'
      then (if had && not (s == b'm') then rm_access_rights lib login dbf else dbf)
      else (if had && s == b'm' then (del_db lib access_db (some login) dbf).1 else dbf)

  abbrev right_key : ℕ → Bytes → Bytes → Bytes
  right_key c login channel = if c == b'm' then login else login ++ channel

  abbrev replace_unless : Bytes → Bytes → Bool × Databases lib → Databases lib
  replace_unless key right (true, dbf) = dbf
  replace_unless key right (false, dbf) = (replace_db lib access_db (some key) (some right) dbf).1

  unfoldable pub set_right : ℕ → Bytes → Bytes → Databases lib → Databases lib
  set_right sign key right dbf =
      if sign == b'+'
      then replace_unless key right (add_db lib access_db (some key) (some right) dbf)
      else (del_db lib access_db (some key) dbf).1

  unfoldable pub change_right :
      (sign c s : ℕ) → Bool → Bytes → Bytes → Databases lib → Databases lib
  unfolding clear_right set_right
  change_right sign c s had login channel dbf =
      set_right sign (right_key c login channel) (sign ∷ c ∷ []) (clear_right c s had login dbf)

  abbrev pub change_mode : Bytes → Bytes → Bytes → Handler lib
  change_mode channel nick modes = emit (mode true (some channel) (some modes) (some nick))

  abbrev pub take_old : Bytes → Bytes → Option Bytes → Handler lib
  take_old channel nick none = pure tt
  take_old channel nick (some right) =
      if is_some (strchr b'v' right)
      then change_mode channel nick (codes "-v")
      else if is_nil right
      then pure tt
      else change_mode channel nick (codes "-o")

  abbrev pub show_modes : Bytes → ℕ → ℕ → Option Bytes → Option Bytes → Handler lib
  show_modes channel sign c old none = pure tt
  show_modes channel sign c old (some nick) =
      if sign == b'-' then change_mode channel nick (sign ∷ c ∷ []) else (do
        take_old channel nick old
        change_mode channel nick (if c == b'v' then codes "+v" else codes "+o"))

  abbrev pub show_modes_to : Bytes → ℕ → ℕ → Option Bytes → Option Bytes → Handler lib
  show_modes_to channel sign c old none = pure tt
  show_modes_to channel sign c old (some netmask) = do
    nick ← lift (get_nickname (some netmask))
    show_modes channel sign c old nick

  unfoldable pub grant : MsgItem → Bytes → Bytes → ℕ → ℕ → Option Bytes → Handler lib
  grant item channel login sign c old = do
    s ← lift (second_of old)
    update_db (change_right sign c s (is_some old) login channel)
    netmask ← query (get_db lib usertonick_db (some login))
    show_modes_to channel sign c old netmask
    tell item (codes "The user mode of the account " ∷ login ∷ codes " is changed." ∷ [])

  -- the switch on the letter; behind the refusal of `m` the code goes on with a letter that was
  -- never set
  unfoldable pub grant_letter : MsgItem → Bytes → Bytes → ℕ → ℕ → Option Bytes → Handler lib
  grant_letter item channel login sign c old =
      if (c == b'v') || (c == b'o')
      then grant item channel login sign c old
      else if c == b'm'
      then (if rank item.user_level == 4
          then grant item channel login sign c old
          else tell item (codes "You're not a bot master." ∷ []) >> failed)
      else tell item (
          if c == 0
          then codes "The mode " ∷ []
          else codes "The mode " ∷ (c ∷ []) ∷ codes " is invalid." ∷ [])

  unfoldable pub grant_text : MsgItem → Bytes → Bytes → Bytes → Option Bytes → Handler lib
  grant_text item channel login modes old =
      if (first modes == b'+') || (first modes == b'-')
      then grant_letter item channel login (first modes) (first (drop_head modes)) old
      else pure tt

  unfoldable pub change_account : MsgItem → Bytes → Bytes → Bytes → Bytes → Handler lib
  change_account item channel caller login modes = do
    known ← query (exist_db lib user_db (some login))
    master ← query (is_protected login channel)
    old ← query (old_right login channel)
    if not known
        then tell item (codes "Couldn't find the account " ∷ login ∷ codes "." ∷ [])
        else if streq login caller
        then tell item (codes "You can't modify yourself" ∷ [])
        else if master && not (rank item.user_level == 4)
        then tell item (codes "You're not a bot master." ∷ [])
        else grant_text item channel login modes old

  abbrev account_mode_of : MsgItem → Bytes → Bytes → Bytes → Handler lib
  account_mode_of item channel caller line =
      with_text lib item (strchr b' ' line)
        (λ pos. change_account item channel caller (to_space line) (drop_head pos))

  abbrev account_mode_by : MsgItem → Bytes → Option Bytes → Handler lib
  account_mode_by item channel none = pure tt
  account_mode_by item channel (some caller) = do
    listed ← query (exist_db lib channel_db (some channel))
    if listed
        then with_text lib item (parameters item) (account_mode_of item channel caller)
        else tell item (codes "This channel isn't in the channel list." ∷ [])

  unfoldable pub account_mode : MsgItem → Handler lib
  account_mode item = in_channel lib item item.access_channel (λ channel. do
    caller ← query (get_db lib nicktouser_db item.netmask)
    account_mode_by item channel caller)
