-- ===== src/Command/Accounts/Hello.antt =====
-- `hello` of src/command.c makes the first account a master, and no later one.
use ebotula.Prelude.{
  ◌<◌, ◌≡◌, refl, ap, ◌∙◌, inl, inr, Bool, true, false, [], ◌∷◌, Option, none, some, is_nil, length,
  ltb, arith, Bool-cases,
}
use ebotula.CString.{Bytes, codes}
use ebotula.Database.Backend.{Library}
use ebotula.Database.{user_db, access_db, add_db, list_db}
use ebotula.Database.Frame.{add_db-other}
use ebotula.Account.{log_on}
use ebotula.Account.Frame.{log_on-lasting}
use ebotula.Account.Levels.{rank}
use ebotula.Bot.Steps.{pure}
use ebotula.Bot.{MsgItem, World, shown}
use ebotula.Bot.Runs.{send_msg-sent, Ends, Ends-weaken, go_on-Ends}
use ebotula.Command.Accounts.{welcome, welcome_if, create_account, hello}

module _ (lib : Library) (item : MsgItem) where
  pub welcome_lem :
      (nick : Bytes) (w : World lib)
      → length nick < 900
      → Ends (welcome lib item nick w) (λ _ v. v.dbf ≡ log_on lib item.netmask nick w.now w.dbf)
  unfolding welcome
  welcome_lem nick w h =
      rw
        (
          send_msg-sent item (codes "Nice to meet you." ∷ []) (omega arith),
          send_msg-sent item (codes "Your account is " ∷ nick ∷ codes "." ∷ []) (omega arith),
          send_msg-sent item (codes "You're now identified." ∷ []) (omega arith),
        )
        refl

  welcome_if-access :
      (nick : Option Bytes) (w : World lib)
      → length (shown nick) < 900
      → Ends (welcome_if lib item nick w) (λ _ v. v.dbf access_db ≡ w.dbf access_db)
  welcome_if-access none w h = refl
  welcome_if-access (some nick) w h =
      Ends-weaken (λ _ v. v.dbf ≡ log_on lib item.netmask nick w.now w.dbf)
        (λ _ v. v.dbf access_db ≡ w.dbf access_db) (welcome lib item nick w) (welcome_lem nick w h)
        (λ _ v f.
          ap (λ d. d access_db) f ∙ log_on-lasting lib access_db refl item.netmask nick w.now w.dbf)

  create_account-access :
      (added : Bool) (w : World lib)
      → length (shown item.calling_nick) < 900
      → Ends (create_account lib item added w) (λ _ v. v.dbf access_db ≡ w.dbf access_db)
  unfolding create_account
  create_account-access false w h =
      rw
        (send_msg-sent item
          (codes "The account " ∷ shown item.calling_nick ∷ codes " is already exists." ∷ [])
          (omega arith))
        refl
  create_account-access true w h = welcome_if-access item.calling_nick w h

  -- When the user database lists an account, hello ends, for a nick name below 900 bytes, and leaves
  -- the database of the rights as it is, whether or not the sender has an account.
  pub hello-later :
      (w : World lib)
      → length (shown item.calling_nick) < 900
      → is_nil (list_db lib user_db w.dbf) ≡ false
      → Ends (hello lib item w) (λ _ v. v.dbf access_db ≡ w.dbf access_db)
  unfolding hello
  hello-later w h n =
      let ran = add_db lib user_db item.calling_nick (some []) w.dbf in
      let next = record w { dbf = ran.1 } in
      elim (Bool-cases (ltb 1 (rank item.user_level))) [
        | inl e ↦
            rw (e, send_msg-sent item (codes "You're already identified." ∷ []) (omega arith)) refl
        | inr e ↦
            rw (e, n)
              (go_on-Ends (λ _ v. v.dbf access_db ≡ w.dbf access_db) (λ _. pure tt)
                (create_account lib item ran.0 next)
                (Ends-weaken (λ _ v. v.dbf access_db ≡ next.dbf access_db)
                  (λ _ v. v.dbf access_db ≡ w.dbf access_db) (create_account lib item ran.0 next)
                  (create_account-access ran.0 next h)
                  (λ _ v f.
                    f ∙ add_db-other lib access_db user_db item.calling_nick (some []) w.dbf refl)))
      ]
