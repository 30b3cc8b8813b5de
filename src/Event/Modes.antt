-- ===== src/Event/Modes.antt =====
-- hResetModes of src/handles.c: a mode that was given to a user, or taken, puts a callback on the
-- list, which is to undo it.
use ebotula.Prelude.{
  ℕ, ◌+◌, true, ◌&&◌, ◌==◌, ◌||◌, [], ◌∷◌, ◌++◌, Option, none, some, if◌then◌else◌, length, take,
}
use ebotula.CString.{Bytes}
use ebotula.Extract.{get_nickname, get_first_part}
use ebotula.Irc.{whois}
use ebotula.Database.Backend.{Library}
use ebotula.Bot.Steps.{pure, failed, lift, ◌>>=◌, ◌>>◌}
use ebotula.Bot.{MsgItem, Handler, mode_reset_cb, same_name, emit, asks, add_callback}
use ebotula.Event.{skip_part, channel_init, need_op}

-- the text of the callback: the buffer has `strlen(pChannel)+3` bytes
abbrev pub reset_text : Bytes → ℕ → ℕ → Bytes
reset_text channel sign c = take (length channel + 2) (channel ++ (b' ' ∷ sign ∷ c ∷ []))

module _ (lib : Library) where
  -- a mode of the bot itself; the code reads `bTryToSet` also when no sign has set it
  abbrev bot_mode : Option Bytes → Option ℕ → ℕ → Handler lib
  bot_mode channel none c = failed
  bot_mode channel (some sign) c =
      if (sign == b'+') && (c == b'o') then channel_init lib channel else need_op lib channel

  -- a mode of another user: a channel that is NULL is read, and a sign that is not set
  unfoldable pub user_mode : Option Bytes → Option ℕ → ℕ → Bytes → Handler lib
  user_mode none sign c nick = failed
  user_mode (some channel) none c nick = failed
  user_mode (some channel) (some sign) c nick = do
    add_callback
        (record { nickname = nick; callback_fkt = mode_reset_cb; text = reset_text channel sign c })
    emit (whois true (some nick))

  abbrev one_mode : Option Bytes → Option ℕ → ℕ → Bytes → Handler lib
  one_mode channel sign c nick = do
    own ← asks (λ w. w.bot_name)
    if same_name nick own then bot_mode channel sign c else user_mode channel sign c nick

  abbrev mode_of_nick : Option Bytes → Option ℕ → ℕ → Option Bytes → Handler lib → Handler lib
  mode_of_nick channel sign c none behind = pure tt
  mode_of_nick channel sign c (some nick) behind = one_mode channel sign c nick >> behind

  -- the loop over the letters, with the last sign and the words that are left
  unfoldable pub reset_loop : Option Bytes → Bytes → Option ℕ → Option Bytes → Handler lib
  unfolding user_mode
  reset_loop channel [] sign rest = pure tt
  reset_loop channel (c ∷ cs) sign rest =
      let signed = reset_loop channel cs (some c) rest in
      let behind = reset_loop channel cs sign (skip_part rest) in
      let skipped = reset_loop channel cs sign rest in
      if (c == b'+') || (c == b'-')
      then signed
      else if (c == b'o') || (c == b'v')
      then mode_of_nick channel sign c (get_first_part rest rest).0 behind
      else skipped

  abbrev reset_letters : Option Bytes → Option Bytes × Option Bytes → Handler lib
  reset_letters channel (none, rest) = pure tt
  reset_letters channel (some letters, rest) = reset_loop channel letters none rest

  abbrev reset_words : Option Bytes × Option Bytes → Handler lib
  reset_words (channel, rest) = reset_letters channel (get_first_part rest rest)

  abbrev reset_by : Option Bytes → Option Bytes → Handler lib
  reset_by rest none = pure tt
  reset_by rest (some nick) = do
    own ← asks (λ w. w.bot_name)
    if same_name nick own
        then pure tt
        else reset_words (get_first_part (skip_part rest) (skip_part rest))

  unfoldable pub h_reset_modes : MsgItem → Handler lib
  h_reset_modes item = do
    nick ← lift (get_nickname (get_first_part (some item.raw_line) none).0)
    reset_by (get_first_part (some item.raw_line) none).1 nick
