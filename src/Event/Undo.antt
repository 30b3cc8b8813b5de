-- ===== src/Event/Undo.antt =====
-- What the callback of hResetModes in src/handles.c does when it runs in src/callback.c.
use ebotula.Prelude.{
  ℕ, suc, ◌+◌, ◌≡◌, refl, ap, ◌∙◌, true, false, ◌==◌, List, [], ◌∷◌, ◌++◌, none, some, length, take,
  arith,
}
use ebotula.CString.{Bytes, codes}
use ebotula.CString.Laws.{lacks, strchr-append, strchr-here, take_until-append}
use ebotula.CString.Outcome.{done}
use ebotula.Extract.{get_first_part, get_nickname}
use ebotula.Irc.Lines.{run_call, whois_call, run_call-message_of, message_of, line_of, mode_call}
use ebotula.Database.Backend.{Library}
use ebotula.Database.{access_db, nicktouser_db, get_db}
use ebotula.Bot.{World, CallbackItem, mode_reset_cb, same_name, lines}
use ebotula.Callback.{reset_modes, run_callback}
use ebotula.Command.AccountModes.{second}
use ebotula.Event.Modes.{reset_text, user_mode}

take-through : (s t : Bytes) (m n : ℕ) → m ≡ length s + n → take m (s ++ t) ≡ s ++ take n t
take-through [] t m n h = let same : m ≡ n = omega arith in rw same refl
take-through (c ∷ s) t m n h =
    let grown : m ≡ suc (length s + n) = omega arith in
    rw grown (ap (λ r. c ∷ r) (take-through s t (length s + n) n refl))

-- the letter of the mode does not fit the buffer
reset_text_lem :
    (channel : Bytes) (sign c : ℕ) → reset_text channel sign c ≡ channel ++ (b' ' ∷ sign ∷ [])
reset_text_lem channel sign c =
    take-through channel (b' ' ∷ sign ∷ c ∷ []) (length channel + 2) 2 refl

get_first_part-space :
    (word : Bytes) (c : ℕ)
    → lacks b' ' word ≡ true
    → get_first_part (some (word ++ (b' ' ∷ c ∷ []))) none ≡ (some word, some (c ∷ []))
unfolding get_first_part
get_first_part-space word c h =
    let found = strchr-append b' ' word (b' ' ∷ c ∷ []) h ∙ strchr-here b' ' (c ∷ []) in
    rw (found, take_until-append b' ' word (c ∷ []) h) refl

-- the callback that hResetModes puts on the list for a mode of `nick`
abbrev pub reset_item : Bytes → ℕ → ℕ → Bytes → CallbackItem
reset_item channel sign c nick = record {
  nickname = nick;
  callback_fkt = mode_reset_cb;
  text = reset_text channel sign c;
}

-- the command that takes a mode without a letter away
abbrev pub letterless : Bytes → Bytes → List Bytes
letterless channel nick =
    lines (line_of (message_of (mode_call (some channel) (some (codes "-")) (some nick))))

module _ (lib : Library) (channel netmask nick : Bytes) (c : ℕ) (w : World lib) where
  parts :
      (sign : ℕ)
      → lacks b' ' channel ≡ true
      → get_first_part (some (reset_text channel sign c)) none ≡ (some channel, some (sign ∷ []))
  parts sign h = rw (reset_text_lem channel sign c) (get_first_part-space channel sign h)

  sent_line :
      run_call true (mode_call (some channel) (some (codes "-")) (some nick))
      ≡ done (line_of (message_of (mode_call (some channel) (some (codes "-")) (some nick))))
  sent_line = run_call-message_of (mode_call (some channel) (some (codes "-")) (some nick))

  -- A mode given to another user than the bot, by hResetModes: its callback goes to the end of the
  -- list and the server is asked for the user. Run for a user who is not logged in and whose netmask
  -- has that nick name, it sends `MODE channel - nick`, whatever the letter of the mode was: the
  -- buffer has no room for the letter, so the mode is not taken back. The channel has no space in
  -- its name.
  pub mode_reset-stranger :
      lacks b' ' channel ≡ true
      → get_nickname (some netmask) ≡ done (some nick)
      → get_db lib nicktouser_db (some netmask) w.dbf ≡ none
      → same_name nick w.bot_name ≡ false
      → (user_mode lib (some channel) (some b'+') c nick w
          ≡ done (
            tt,
            record w {
              callbacks = w.callbacks ++ (reset_item channel b'+' c nick ∷ []);
              sent = w.sent ++ lines (line_of (message_of (whois_call (some nick))));
            },
          ))
        × (run_callback lib (reset_item channel b'+' c nick) netmask w
            ≡ done (tt, record w { sent = w.sent ++ letterless channel nick }))
  unfolding user_mode run_callback reset_modes
  mode_reset-stranger h hn free own = (
    rw (run_call-message_of (whois_call (some nick))) refl,
    rw (hn, parts b'+' h, free, own, sent_line) refl,
  )

  -- The callback of hResetModes, run for a user whose login has a right in the channel, compares
  -- the letter of the right with the second byte of the channel's name: where these differ, it sends
  -- `MODE channel - nick` also when the right allows the mode that was given.
  pub mode_reset-owner :
      (sign r k : ℕ) (login right : Bytes)
      → lacks b' ' channel ≡ true
      → get_nickname (some netmask) ≡ done (some nick)
      → get_db lib nicktouser_db (some netmask) w.dbf ≡ some login
      → get_db lib access_db (some (login ++ channel)) w.dbf ≡ some right
      → second right ≡ done r
      → second channel ≡ done k
      → (r == k) ≡ false
      → run_callback lib (reset_item channel sign c nick) netmask w
        ≡ done (tt, record w { sent = w.sent ++ letterless channel nick })
  unfolding run_callback reset_modes
  mode_reset-owner sign r k login right h hn he hr h1 h2 apart =
      rw (hn, parts sign h, he, hr, h1, h2, apart, sent_line) refl
