-- ===== src/Command/Listing.antt =====
-- The commands of src/command.c that tell about the bot: accountlist and version.
use ebotula.Prelude.{
  ℕ, zero, suc, ◌+◌, ◌-◌, Bool, true, false, not, ◌&&◌, ◌==◌, List, [], ◌∷◌, ◌++◌, Option, none,
  some, if◌then◌else◌, is_some, ltb, length, take, concat,
}
use ebotula.CString.{Bytes, codes}
use ebotula.Extract.{get_argument}
use ebotula.Irc.{crlf}
use ebotula.Queue.Memory.{QueueData}
use ebotula.Database.Backend.{Library}
use ebotula.Database.{user_db, channel_db, access_db, usertonick_db, exist_db, get_db, list_db}
use ebotula.Account.{text_of}
use ebotula.Account.Levels.{rank}
use ebotula.Bot.Steps.{failed, pure, lift, ◌>>=◌, ◌>>◌}
use ebotula.Bot.{MsgItem, Handler, tell, query, for_each}
use ebotula.Command.Channels.{in_channel}
use ebotula.Command.Settings.{formatted}
use ebotula.Command.AccountModes.{second}

abbrev spaces : ℕ → Bytes
spaces zero = []
spaces (suc n) = b' ' ∷ spaces n

-- the login, filled up to ACCOUNT_LIST_TAB, which is 16; its size counts the NUL
abbrev tabbed : QueueData → Bytes
tabbed login = text_of login ++ spaces (16 - login.t_size)

-- SetIterToFirstQueue and getNextitrQueue visit the newest item first
abbrev newest_first : List QueueData → List QueueData
newest_first [] = []
newest_first (item ∷ rest) = newest_first rest ++ (item ∷ [])

-- what an owner and a friend are called; nothing for another right
abbrev called : Bytes → Bytes → ℕ → Option Bytes
called owner friend c = if c == b'o' then some owner else if c == b'v' then some friend else none

abbrev on_or_off : Bool → Bytes
on_or_off true = codes "ON "
on_or_off false = codes "OFF"

module _ (lib : Library) where
  -- the line is sent as a format
  abbrev tell_line : MsgItem → List Bytes → Handler lib
  tell_line item text = do answer ← lift (formatted (concat text)); tell item (answer ∷ [])

  abbrev tell_named : MsgItem → QueueData → Bytes → Option Bytes → Handler lib
  tell_named item login where_to none = pure tt
  tell_named item login where_to (some name) = do
    online ← query (exist_db lib usertonick_db (some (text_of login)))
    tell_line item (tabbed login ∷ name ∷ where_to ∷ codes "   Status: " ∷ on_or_off online ∷ [])

  abbrev tell_right : MsgItem → QueueData → Bytes → Bytes → Bytes → Option Bytes → Handler lib
  tell_right item login owner friend where_to none = pure tt
  tell_right item login owner friend where_to (some right) = do
    c ← lift (second right)
    tell_named item login where_to (called owner friend c)

  -- the right of a login in a channel, whose size counts the NUL or not
  unfoldable pub account_in :
      MsgItem → QueueData → (owner friend where_to channel : Bytes) → ℕ → Handler lib
  account_in item login owner friend where_to channel size = do
    right ←
        query (get_db lib access_db (some (take (size + login.t_size) (text_of login ++ channel))))
    tell_right item login owner friend where_to right

  abbrev account_everywhere : MsgItem → QueueData → Bool → List QueueData → Handler lib
  account_everywhere item login true channels = do
    online ← query (exist_db lib usertonick_db (some (text_of login)))
    tell_line item (tabbed login ∷ codes " Master   Status:" ∷ codes " " ∷ on_or_off online ∷ [])
  account_everywhere item login false channels = for_each (newest_first channels) (λ channel.
      account_in item login (codes " Owner of ") (codes " Friend of ") (text_of channel)
        (text_of channel) channel.t_size)

  unfoldable pub list_everywhere : MsgItem → Handler lib
  list_everywhere item = do
    logins ← query (list_db lib user_db)
    tell item (codes "Account list:" ∷ [])
    channels ← query (list_db lib channel_db)
    for_each logins (λ login. do
      master ← query (exist_db lib access_db (some (text_of login)))
      account_everywhere item login master channels)
    tell item (codes "End of the account list." ∷ [])

  unfoldable pub list_in : MsgItem → Bytes → Handler lib
  list_in item channel = do
    logins ← query (list_db lib user_db)
    tell item (codes "Account list:" ∷ [])
    for_each logins (λ login.
        account_in item login (codes "Owner ") (codes "Friend") [] channel (length channel))
    tell item (codes "End of the account list." ∷ [])

  unfoldable pub account_list : MsgItem → Handler lib
  account_list item =
      if (rank item.user_level == 4) && not (is_some (get_argument item.raw_line).1)
      then list_everywhere item
      else in_channel lib item item.access_channel (list_in item)

  -- snprintf of VERSIONSTR in 256 bytes, strcat of the line's end, and the text as a format; the
  -- names and the time of the build are parameters
  unfoldable pub version : (package_name package_version date time : Bytes) → MsgItem → Handler lib
  version package_name package_version date time item =
      let text = take 255 (
        concat (
          package_name
          ∷ codes " v"
          ∷ package_version
          ∷ codes " Built ["
          ∷ date
          ∷ codes " - "
          ∷ time
          ∷ codes "]"
          ∷ [])) in
      if ltb (length text + 2) 256 then tell_line item (text ∷ crlf ∷ []) else failed
