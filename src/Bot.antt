-- ===== src/Bot.antt =====
-- What the handlers of src/command.c, src/handles.c and src/callback.c work on: the message they
-- are called with (`MsgItem_t` of src/include/cmdtypes.h) and the state they share, which is the
-- databases, the lines handed to SendLine, the callback list, the bot's nick name and the flags
-- `stop` and `again`. malloc succeeds, and gettext passes its texts through.
pub mod Steps
pub mod Runs
use ebotula.Prelude.{
  ℕ, Bool, true, false, not, List, [], ◌∷◌, ◌++◌, Option, none, some, concat, if◌then◌else◌,
}
use ebotula.CString.{Bytes, codes, streq}
use ebotula.CString.Outcome.{Outcome, done, fault}
use ebotula.Utilities.{str_to_lower}
use ebotula.Extract.{AnswerMode, get_parameters, get_first_part}
use ebotula.Irc.{send_msg}
use ebotula.Database.Backend.{Library}
use ebotula.Database.{Databases}
use ebotula.Account.{UserLevel}
use ebotula.Queue.Memory.{QueueData}
use Steps.{Act, Done, pure, failed, lift, ◌>>=◌, ◌>>◌}

-- the functions that a callback item may point to
pub data CallbackFkt : Type 0 where
  mode_reset_cb set_ban_cb kick_cb : CallbackFkt

pub record CallbackItem : Type 0 where
  pub nickname : Bytes
  pub callback_fkt : CallbackFkt
  pub text : Bytes

pub record MsgItem : Type 0 where
  pub user_level : UserLevel
  pub answer_mode : AnswerMode
  pub access_channel : Option Bytes
  pub calling_nick : Option Bytes
  pub netmask : Option Bytes
  pub raw_line : Bytes
  pub interactive_mode : Bool
  pub parameter : Option Bytes

-- `sent` are the lines handed to SendLine, the oldest first; `now` is the time in digits
pub record World (lib : Library) : Type 0 where
  pub dbf : Databases lib
  pub sent : List Bytes
  pub callbacks : List CallbackItem
  pub bot_name : Bytes
  pub now : Bytes
  pub stop : Bool
  pub again : Bool

-- `!strcasecmp(a, b)`
abbrev pub same_name : Bytes → Bytes → Bool
same_name a b = streq (str_to_lower a) (str_to_lower b)

-- what `%s` makes of a pointer
abbrev pub shown : Option Bytes → Bytes
shown none = codes "(null)"
shown (some s) = s

abbrev pub lines : Option Bytes → List Bytes
lines none = []
lines (some line) = line ∷ []

abbrev pub Handler : Library → Type 0
Handler lib = Act (World lib) Done

module _ {lib : Library} where
  -- a line, if any, goes to SendLine
  abbrev pub handed : World lib → Outcome (Option Bytes) → Outcome (Done × World lib)
  handed w fault = fault
  handed w (done line) = done (tt, record w { sent = w.sent ++ lines line })

  abbrev pub emit : Outcome (Option Bytes) → Handler lib
  emit line w = handed w line

  -- an answer to the caller, from the pieces of its text
  abbrev pub tell : MsgItem → List Bytes → Handler lib
  tell item text = emit (send_msg true item.answer_mode item.calling_nick (concat text))

  abbrev pub query : {A : Type 0} → (Databases lib → A) → Act (World lib) A
  query f w = done (f w.dbf, w)

  abbrev pub query_checked : {A : Type 0} → (Databases lib → Outcome A) → Act (World lib) A
  query_checked f w = lift (f w.dbf) w

  abbrev pub change : (Databases lib → Bool × Databases lib) → Act (World lib) Bool
  change f w = let r = f w.dbf in done (r.0, record w { dbf = r.1 })

  abbrev pub update_db : (Databases lib → Databases lib) → Handler lib
  update_db f w = done (tt, record w { dbf = f w.dbf })

  abbrev pub asks : {A : Type 0} → (World lib → A) → Act (World lib) A
  asks f w = done (f w, w)

  -- insert_next_CallbackDList behind the tail (see CallbackList)
  abbrev pub add_callback : CallbackItem → Handler lib
  add_callback item w = done (tt, record w { callbacks = w.callbacks ++ (item ∷ []) })

  -- the loop over the items of a queue
  unfoldable pub for_each : List QueueData → (QueueData → Handler lib) → Handler lib
  for_each [] body = pure tt
  for_each (item ∷ rest) body = body item >> for_each rest body

-- the parameters of a command line; the line in the buffer is not read again by the handler
abbrev pub parameters : MsgItem → Option Bytes
parameters item = (get_parameters item.raw_line).1

-- getFirstPart(s, NULL)
abbrev pub first_part : Option Bytes → Option Bytes
first_part s = (get_first_part s none).0
