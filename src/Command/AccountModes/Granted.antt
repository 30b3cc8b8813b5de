-- ===== src/Command/AccountModes/Granted.antt =====
-- What `accountmode` of src/command.c changes.
use ebotula.Prelude.{
  ℕ, ◌<◌, ◌≡◌, refl, ◌∙◌, inl, inr, Bool, true, false, not, ◌&&◌, ◌||◌, ◌==◌, [], ◌∷◌, ◌++◌, Option,
  none, some, if◌then◌else◌, is_nil, is_some, length, length-concat, arith, Bool-cases,
  Option-cases,
}
use ebotula.CString.{Bytes, codes, strchr, streq}
use ebotula.CString.Laws.{lacks, streq_refl}
use ebotula.CString.Outcome.{done}
use ebotula.Utilities.{str_to_lower}
use ebotula.Extract.{drop_head, to_space, get_nickname}
use ebotula.Irc.Lines.{mode_call}
use ebotula.Database.Backend.{Library, IsGdbm}
use ebotula.Database.{
  user_db, channel_db, nicktouser_db, exist_db, access_db, usertonick_db, Databases, add_db, get_db,
}
use ebotula.Database.View.{Updated, add_db-Updated, replace_db-Updated, del_db-Updated}
use ebotula.Account.Levels.{rank}
use ebotula.Bot.{MsgItem, World, parameters, tell}
use ebotula.Bot.Runs.{
  send_msg-sent, Ends, Ends-weaken, go_on-Ends, Speaks, Speaks-then, Speaks-dbf, emit-Speaks,
  tell-Speaks,
}
use ebotula.Command.Settings.Stored.{in_channel_of, sent_to}
use ebotula.Command.AccountModes.{
  second_of, change_mode, old_right, set_right, change_right, clear_right, is_protected, take_old,
  show_modes, show_modes_to, grant, grant_letter, grant_text, change_account, account_mode,
}

-- the value that a right has after it was given or taken
abbrev pub given : ℕ → Bytes → Option Bytes
given sign right = if sign == b'+' then some right else none

module _ (lib : Library) (gdbm : IsGdbm lib) where
  set_right-Updated :
      (sign : ℕ) (key right : Bytes) (dbf : Databases lib)
      → lacks 0 right ≡ true
      → Updated lib dbf (set_right lib sign key right dbf) access_db key (given sign right)
  unfolding set_right
  set_right-Updated sign key right dbf h db k =
      let ran = add_db lib access_db (some key) (some right) dbf in
      let (ok, added) = add_db-Updated lib gdbm access_db key right dbf (omega arith) h in
      let replaced = (replace_db-Updated lib gdbm access_db key right ran.1 (omega arith) h).1 in
      elim (Bool-cases (sign == b'+')) [
        | inr f ↦ rw f ((del_db-Updated lib gdbm access_db key dbf (omega arith)).1 db k)
        | inl f ↦ elim (Option-cases (get_db lib access_db (some key) dbf)) [
          | inl e ↦ rw (f, ok, e) (added db k ∙ rw e refl)
          | inr (old, e) ↦
              let seen : get_db lib access_db (some key) ran.1 ≡ some old =
                rw (added access_db key, streq_refl (str_to_lower key), e) refl in
              let rest = added db k in rw (f, ok, e) (replaced db k ∙ ground (arith, seen, rest, e))
        ]
      ]

module _ (lib : Library) where
  change_mode-Speaks : (channel nick modes : Bytes) → Speaks (change_mode lib channel nick modes)
  change_mode-Speaks channel nick modes =
      emit-Speaks (mode_call (some channel) (some modes) (some nick))

  take_old-Speaks :
      (channel nick : Bytes) (old : Option Bytes) → Speaks (take_old lib channel nick old)
  take_old-Speaks channel nick none = λ w. refl
  take_old-Speaks channel nick (some right) = elim (Bool-cases (is_some (strchr b'v' right))) [
    | inl e ↦ rw e (change_mode-Speaks channel nick (codes "-v"))
    | inr e ↦ elim (Bool-cases (is_nil right)) [
      | inl f ↦ rw (e, f) (λ w. refl)
      | inr f ↦ rw (e, f) (change_mode-Speaks channel nick (codes "-o"))
    ]
  ]

  show_modes-Speaks :
      (channel : Bytes) (sign c : ℕ) (old nick : Option Bytes)
      → Speaks (show_modes lib channel sign c old nick)
  show_modes-Speaks channel sign c old none = λ w. refl
  show_modes-Speaks channel sign c old (some nick) = elim (Bool-cases (sign == b'-')) [
    | inl e ↦ rw e (change_mode-Speaks channel nick (sign ∷ c ∷ []))
    | inr e ↦ rw e (
        Speaks-then (take_old lib channel nick old)
          (change_mode lib channel nick (if c == b'v' then codes "+v" else codes "+o"))
          (take_old-Speaks channel nick old)
          (change_mode-Speaks channel nick (if c == b'v' then codes "+v" else codes "+o")))
  ]

  show_modes_to-Ends :
      (channel : Bytes) (sign c : ℕ) (old target nick : Option Bytes) (w : World lib)
      → get_nickname target ≡ done nick
      → Ends (show_modes_to lib channel sign c old target w) (λ _ v. v.dbf ≡ w.dbf)
  show_modes_to-Ends channel sign c old none nick w h = refl
  show_modes_to-Ends channel sign c old (some netmask) nick w h = rw h (
      Speaks-dbf (show_modes lib channel sign c old nick)
        (show_modes-Speaks channel sign c old nick) w)

  -- the databases after `grant`, when the netmask of the account can be read
  grant-dbf :
      (item : MsgItem) (channel login : Bytes) (sign c s : ℕ) (old nick : Option Bytes)
      (w : World lib)
      → length login < 900
      → second_of old ≡ done s
      → let after = change_right lib sign c s (is_some old) login channel w.dbf in
        get_nickname (get_db lib usertonick_db (some login) after) ≡ done nick
        → Ends (grant lib item channel login sign c old w) (λ _ v. v.dbf ≡ after)
  unfolding grant
  grant-dbf item channel login sign c s old nick w n hs hn =
      let after = change_right lib sign c s (is_some old) login channel w.dbf in
      let next = record w { dbf = after } in
      let target = get_db lib usertonick_db (some login) after in
      let text = codes "The user mode of the account " ∷ login ∷ codes " is changed." ∷ [] in
      let said = tell-Speaks item text (omega (arith, length-concat text)) in
      rw hs (
        go_on-Ends (λ _ v. v.dbf ≡ after) (λ _. tell item text)
          (show_modes_to lib channel sign c old target next)
          (Ends-weaken (λ _ v. v.dbf ≡ after)
            (λ _ v. Ends (tell item text v) (λ _ u. u.dbf ≡ after))
            (show_modes_to lib channel sign c old target next)
            (show_modes_to-Ends channel sign c old target nick next hn)
            (λ _ v e.
              Ends-weaken (λ _ u. u.dbf ≡ v.dbf) (λ _ u. u.dbf ≡ after) (tell item text v)
                (Speaks-dbf (tell item text) said v) (λ _ u f. f ∙ e))))

module _ (lib : Library) (gdbm : IsGdbm lib) where
  change_right-Updated :
      (sign c s : ℕ) (had : Bool) (login channel : Bytes) (dbf : Databases lib)
      → lacks 0 (sign ∷ c ∷ []) ≡ true
      → (c == b'm') ≡ false
      → (s == b'm') ≡ false
      → Updated lib dbf
          (change_right lib sign c s had login channel dbf)
          access_db
          (login ++ channel)
          (given sign (sign ∷ c ∷ []))
  unfolding change_right clear_right
  change_right-Updated sign c s false login channel dbf h hc hs =
      rw hc (set_right-Updated lib gdbm sign (login ++ channel) (sign ∷ c ∷ []) dbf h)
  change_right-Updated sign c s true login channel dbf h hc hs =
      rw (hc, hs) (set_right-Updated lib gdbm sign (login ++ channel) (sign ∷ c ∷ []) dbf h)

  -- accountmode of a logged in user, in a listed channel, for another account that exists and is not
  -- protected from the user, with a sign and one of the letters v and o, when the old right, if there
  -- is one, has a letter other than m and the netmask of the account, if it has one, can be read: it
  -- ends, the right of the account in the channel is the sign and the letter under `+` and gone under
  -- `-`, and no other entry of any database changes. The library does what gdbm documents and the
  -- login has fewer than 900 bytes.
  pub account_mode-granted :
      (item : MsgItem) (channel caller line pos login more : Bytes) (sign c s : ℕ)
      (nick : Option Bytes) (w : World lib)
      → get_db lib nicktouser_db item.netmask w.dbf ≡ some caller
      → exist_db lib channel_db (some channel) w.dbf ≡ true
      → parameters item ≡ some line
      → strchr b' ' line ≡ some pos
      → to_space line ≡ login
      → drop_head pos ≡ sign ∷ c ∷ more
      → exist_db lib user_db (some login) w.dbf ≡ true
      → streq login caller ≡ false
      → (is_protected lib login channel w.dbf && not (rank item.user_level == 4)) ≡ false
      → ((sign == b'+') || (sign == b'-')) ≡ true
      → ((c == b'v') || (c == b'o')) ≡ true
      → second_of (old_right lib login channel w.dbf) ≡ done s
      → (s == b'm') ≡ false
      → get_nickname (get_db lib usertonick_db (some login) w.dbf) ≡ done nick
      → length login < 900
      → Ends
          (account_mode lib (in_channel_of item channel) w)
          (λ _ v. Updated lib w.dbf v.dbf access_db (login ++ channel) (given sign (sign ∷ c ∷ [])))
  unfolding account_mode change_account grant_text grant_letter
  account_mode-granted item channel caller line pos login more sign c s nick w h1 h2 h3 h4 h5 h6 h7
        h8 h9 hs hc ho hm hn n =
      let old = old_right lib login channel w.dbf in
      let caller_item = in_channel_of item channel in
      let letter : (c == b'm') ≡ false = ground arith in
      let text : lacks 0 (sign ∷ c ∷ []) ≡ true = ground arith in
      let after = change_right lib sign c s (is_some old) login channel w.dbf in
      let updated =
        change_right-Updated sign c s (is_some old) login channel w.dbf text letter hm in
      let kept : get_nickname (get_db lib usertonick_db (some login) after) ≡ done nick =
        rw (updated usertonick_db login) hn in
      rw (h1, h2, h3, h4, h5, h6, h7, h8, h9, hs, hc)
        (Ends-weaken (λ _ v. v.dbf ≡ after)
          (λ _ v. Updated lib w.dbf v.dbf access_db (login ++ channel) (given sign (sign ∷ c ∷ [])))
          (grant lib caller_item channel login sign c old w)
          (grant-dbf lib caller_item channel login sign c s old nick w n ho kept)
          (λ _ v e. rw e updated))

module _ (lib : Library) where
  -- accountmode of a logged in user below a master, in a listed channel, for another account that
  -- has a right with an m everywhere and none in the channel: whatever mode is asked for, nothing
  -- changes, and the user is told so.
  pub account_mode-refused :
      (item : MsgItem) (channel caller line pos login : Bytes) (w : World lib)
      → get_db lib nicktouser_db item.netmask w.dbf ≡ some caller
      → exist_db lib channel_db (some channel) w.dbf ≡ true
      → parameters item ≡ some line
      → strchr b' ' line ≡ some pos
      → to_space line ≡ login
      → exist_db lib user_db (some login) w.dbf ≡ true
      → streq login caller ≡ false
      → is_protected lib login channel w.dbf ≡ true
      → (rank item.user_level == 4) ≡ false
      → account_mode lib (in_channel_of item channel) w
        ≡ done
            (tt, record w { sent = w.sent ++ sent_to item (codes "You're not a bot master." ∷ []) })
  unfolding account_mode change_account
  account_mode-refused item channel caller line pos login w h1 h2 h3 h4 h5 h6 h7 h8 h9 =
      let said =
        send_msg-sent (in_channel_of item channel) (codes "You're not a bot master." ∷ [])
          (omega arith) in
      rw (h1, h2, h3, h4, h5, h6, h7, h8, h9, said) refl
