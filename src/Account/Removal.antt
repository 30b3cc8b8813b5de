-- ===== src/Account/Removal.antt =====
-- The removal of accounts in src/account.c.
use ebotula.Prelude.{
  ℕ, ◌+◌, ◌-◌, ◌<◌, ◌≤◌, ◌≡◌, ◌∙◌, ap, refl, sym, inl, inr, true, false, List, [], ◌∷◌, ◌++◌,
  Option, none, some, ltb, ◌==◌, arith, length, take-all, length-append, All, Option-cases,
  Bool-cases,
}
use ebotula.CString.{Bytes}
use ebotula.CString.Laws.{streq_refl}
use ebotula.Utilities.{str_to_lower}
use ebotula.Queue.Memory.{QueueData}
use ebotula.Database.Backend.{Library, IsGdbm}
use ebotula.Database.{
  user_db, channel_db, access_db, usertonick_db, timelog_db, nicktouser_db, max_db, datum, put,
  Databases, exist_db, del_db, get_db, list_db,
}
use ebotula.Database.View.{del_db-Updated}
use ebotula.Account.Sessions.{get_db-log_out}
use ebotula.Account.{
  none_level, text_of, access_key, log_out, remove_rights, rm_access_rights, rm_account,
  get_user_level,
}

All-map :
    {A : Type 0} {P Q : A → Type 0} → ((a : A) → P a → Q a) → (xs : List A) → All P xs → All Q xs
All-map f [] h = tt
All-map f (x ∷ xs) (h, hs) = (f x h, All-map f xs hs)

module _ (lib : Library) where
  list_db-put :
      (db other : ℕ) (store : lib.Store) (dbf : Databases lib)
      → (db == other) ≡ false
      → list_db lib db (put dbf other store) ≡ list_db lib db dbf
  unfolding list_db
  list_db-put db other store dbf h = rw h refl

  list_db-del_db :
      (db other : ℕ) (key : Bytes) (dbf : Databases lib)
      → (db == other) ≡ false
      → list_db lib db (del_db lib other (some key) dbf).1 ≡ list_db lib db dbf
  unfolding del_db
  list_db-del_db db other key dbf h =
      let store = (lib.delete (datum (str_to_lower key)) (dbf other)).1 in
      elim (Bool-cases (exist_db lib other (some key) dbf)) [
        | inr e ↦ rw e refl
        | inl e ↦ elim (Bool-cases (ltb other max_db)) [
          | inr k ↦ rw (e, k) refl
          | inl k ↦ rw (e, k) (list_db-put db other store dbf h)
        ]
      ]

  list_db-log_out :
      (login : Bytes) (dbf : Databases lib)
      → list_db lib channel_db (log_out lib login dbf) ≡ list_db lib channel_db dbf
  unfolding log_out
  list_db-log_out login dbf = elim (Option-cases (get_db lib usertonick_db (some login) dbf)) [
    | inl e ↦ rw e refl
    | inr (m, e) ↦
        let freed = (del_db lib nicktouser_db (some m) dbf).1 in
        rw e (
          list_db-del_db channel_db usertonick_db login freed refl
          ∙ list_db-del_db channel_db nicktouser_db m dbf refl)
  ]

module _ (lib : Library) (gdbm : IsGdbm lib) where
  del_db-none :
      (db : ℕ) (k : Bytes) (other : ℕ) (key : Bytes) (dbf : Databases lib)
      → other < max_db
      → get_db lib db (some k) dbf ≡ none
      → get_db lib db (some k) (del_db lib other (some key) dbf).1 ≡ none
  del_db-none db k other key dbf n e =
      ground (arith, (del_db-Updated lib gdbm other key dbf n).1 db k, e)

  del_db-gone :
      (db : ℕ) (k : Bytes) (dbf : Databases lib)
      → db < max_db
      → get_db lib db (some k) (del_db lib db (some k) dbf).1 ≡ none
  del_db-gone db k dbf n =
      let self : (db == db) ≡ true = ground arith in
      rw ((del_db-Updated lib gdbm db k dbf n).1 db k, self, streq_refl (str_to_lower k)) refl

  remove_rights-none :
      (login : Bytes) (channels : List QueueData) (db : ℕ) (k : Bytes) (dbf : Databases lib)
      → get_db lib db (some k) dbf ≡ none
      → get_db lib db (some k) (remove_rights lib login channels dbf) ≡ none
  unfolding remove_rights
  remove_rights-none login [] db k dbf e = e
  remove_rights-none login (item ∷ rest) db k dbf e =
      let key = access_key lib login item in
      remove_rights-none login rest db k (del_db lib access_db (some key) dbf).1
        (del_db-none db k access_db key dbf (omega arith) e)

  -- the size of a queue item counts its text at least
  access_key-whole :
      (login : Bytes) (item : QueueData)
      → length (text_of item) ≤ item.t_size
      → access_key lib login item ≡ login ++ text_of item
  access_key-whole login item h =
      take-all (item.t_size + length login + 1 - 1) (login ++ text_of item)
        (omega (arith, length-append login (text_of item)))

  remove_rights-All :
      (login : Bytes) (channels : List QueueData) (dbf : Databases lib)
      → All (λ item. length (text_of item) ≤ item.t_size) channels
      → All
          (λ item.
            get_db lib access_db
              (some (login ++ text_of item))
              (remove_rights lib login channels dbf)
            ≡ none)
          channels
  unfolding remove_rights
  remove_rights-All login [] dbf h = tt
  remove_rights-All login (item ∷ rest) dbf (h, hs) =
      let key = access_key lib login item in
      let after = (del_db lib access_db (some key) dbf).1 in
      (
        ap (λ k. get_db lib access_db (some k) (remove_rights lib login rest after))
              (sym (access_key-whole login item h))
            ∙ remove_rights-none login rest access_db key after
                (del_db-gone access_db key dbf (omega arith)),
        remove_rights-All login rest after hs,
      )

  rm_access_rights-none :
      (login : Bytes) (db : ℕ) (k : Bytes) (dbf : Databases lib)
      → get_db lib db (some k) dbf ≡ none
      → get_db lib db (some k) (rm_access_rights lib login dbf) ≡ none
  unfolding rm_access_rights
  rm_access_rights-none login db k dbf e =
      let bare = (del_db lib access_db (some login) dbf).1 in
      remove_rights-none login (list_db lib channel_db bare) db k bare
        (del_db-none db k access_db login dbf (omega arith) e)

  rm_access_rights-All :
      (login : Bytes) (dbf : Databases lib)
      → All (λ item. length (text_of item) ≤ item.t_size) (list_db lib channel_db dbf)
      → (get_db lib access_db (some login) (rm_access_rights lib login dbf) ≡ none)
        × All
            (λ item.
              get_db lib access_db (some (login ++ text_of item)) (rm_access_rights lib login dbf)
              ≡ none)
            (list_db lib channel_db dbf)
  unfolding rm_access_rights
  rm_access_rights-All login dbf h =
      let bare = (del_db lib access_db (some login) dbf).1 in
      let channels = list_db lib channel_db dbf in
      rw (list_db-del_db lib channel_db access_db login dbf refl) (
        remove_rights-none login channels access_db login bare
            (del_db-gone access_db login dbf (omega arith)),
        remove_rights-All login channels bare h,
      )

  -- what is missing stays missing at the end of rmAccount
  finish-none :
      (login : Bytes) (db : ℕ) (k : Bytes) (dbf : Databases lib)
      → get_db lib db (some k) dbf ≡ none
      → get_db lib db
          (some k)
          (del_db lib timelog_db (some login) (del_db lib user_db (some login) dbf).1).1
        ≡ none
  finish-none login db k dbf e =
      del_db-none db k timelog_db login (del_db lib user_db (some login) dbf).1 (omega arith)
        (del_db-none db k user_db login dbf (omega arith) e)

  pub rm_account-session :
      (login : Bytes) (dbf : Databases lib)
      → get_db lib usertonick_db (some login) (rm_account lib login dbf) ≡ none
  unfolding rm_account
  rm_account-session login dbf =
      let out = log_out lib login dbf in
      let session = get_db-log_out lib gdbm login dbf usertonick_db login in
      let ended : get_db lib usertonick_db (some login) out ≡ none =
        rw (session, streq_refl (str_to_lower login)) refl in
      finish-none login usertonick_db login (rm_access_rights lib login out)
        (rm_access_rights-none login usertonick_db login out ended)

  -- Over a library that does what gdbm documents, rmAccount of a login, when the size of every
  -- listed channel counts its text: afterwards there is no account, no login time and no session
  -- of it, and no access right, neither as master nor in any channel that the channel database
  -- lists.
  pub rm_account-gone :
      (login : Bytes) (dbf : Databases lib)
      → All (λ item. length (text_of item) ≤ item.t_size) (list_db lib channel_db dbf)
      → let after = rm_account lib login dbf in
        (get_db lib user_db (some login) after ≡ none)
        × (get_db lib timelog_db (some login) after ≡ none)
        × (get_db lib usertonick_db (some login) after ≡ none)
        × (get_db lib access_db (some login) after ≡ none)
        × All
            (λ item. get_db lib access_db (some (login ++ text_of item)) after ≡ none)
            (list_db lib channel_db dbf)
  unfolding rm_account
  rm_account-gone login dbf h =
      let out = log_out lib login dbf in
      let free = rm_access_rights lib login out in
      let same = list_db-log_out lib login dbf in
      let (master, rights) = rm_access_rights-All login out (rw same h) in
      (
        del_db-none user_db login timelog_db login (del_db lib user_db (some login) free).1
            (omega arith) (del_db-gone user_db login free (omega arith)),
        del_db-gone timelog_db login (del_db lib user_db (some login) free).1 (omega arith),
        rm_account-session login dbf,
        finish-none login access_db login free master,
        All-map (λ item e. finish-none login access_db (login ++ text_of item) free e)
            (list_db lib channel_db dbf) (rw (sym same) rights),
      )

  -- Over a library that does what gdbm documents, rmAccount of a login that has a netmask leaves
  -- that netmask without any level, in or out of a channel.
  pub rm_account-none_level :
      (login netmask : Bytes) (channel : Option Bytes) (dbf : Databases lib)
      → get_db lib usertonick_db (some login) dbf ≡ some netmask
      → get_user_level lib channel (some netmask) (rm_account lib login dbf) ≡ none_level
  unfolding rm_account get_user_level
  rm_account-none_level login netmask channel dbf e =
      let out = log_out lib login dbf in
      let seen = get_db-log_out lib gdbm login dbf nicktouser_db netmask in
      let ended : get_db lib nicktouser_db (some netmask) out ≡ none =
        rw (seen, e, streq_refl (str_to_lower netmask)) refl in
      let kept = rm_access_rights-none login nicktouser_db netmask out ended in
      rw (finish-none login nicktouser_db netmask (rm_access_rights lib login out) kept) refl
