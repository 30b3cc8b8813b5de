-- ===== src/Command/Accounts/Removed.antt =====
-- `rmaccount` of src/command.c asks for the netmask of an account after it has removed it.
use ebotula.Prelude.{◌≡◌, refl, true, [], ◌∷◌, ◌++◌, some, arith}
use ebotula.CString.{Bytes, codes, strtok_cut}
use ebotula.CString.Outcome.{done}
use ebotula.Database.Backend.{Library, IsGdbm}
use ebotula.Database.{user_db, exist_db}
use ebotula.Account.{rm_account}
use ebotula.Account.Removal.{rm_account-session}
use ebotula.Bot.{MsgItem, World, parameters}
use ebotula.Bot.Runs.{send_msg-sent}
use ebotula.Command.Settings.Stored.{sent_to}
use ebotula.Command.Accounts.{remove_account, rmaccount}

module _ (lib : Library) (gdbm : IsGdbm lib) where
  -- rmaccount of an account that exists, over a library that does what gdbm documents: the account
  -- is removed as by rmAccount, and the one line that is sent is the answer. The commands that are
  -- to take the modes of the user away are never sent, also when the user is logged in, since the
  -- session is gone before it is looked up.
  pub rmaccount-silent :
      (item : MsgItem) (line login : Bytes) (w : World lib)
      → parameters item ≡ some line
      → strtok_cut b' ' line ≡ login
      → exist_db lib user_db (some login) w.dbf ≡ true
      → rmaccount lib item w
        ≡ done (
          tt,
          record w {
            dbf = rm_account lib login w.dbf;
            sent = w.sent ++ sent_to item (codes "The account is removed" ∷ []);
          },
        )
  unfolding rmaccount remove_account
  rmaccount-silent item line login w hp hk he =
      rw
        (
          hp,
          hk,
          he,
          rm_account-session lib gdbm login w.dbf,
          send_msg-sent item (codes "The account is removed" ∷ []) (omega arith),
        )
        refl
