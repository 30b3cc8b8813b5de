-- ===== src/Account/LogOn.antt =====
-- `log_on` of src/account.c keeps the sessions consistent.
use ebotula.Prelude.{
  ◌≡◌, refl, sym, ◌∙◌, inl, inr, true, false, Option, none, some, if◌then◌else◌, arith,
  Option-cases, Bool-cases,
}
use ebotula.CString.{Bytes}
use ebotula.CString.Laws.{lacks, streq_refl}
use ebotula.Utilities.{str_to_lower}
use ebotula.Database.Backend.{Library, IsGdbm}
use ebotula.Database.{usertonick_db, nicktouser_db, Databases, add_db, del_db, get_db}
use ebotula.Database.View.{
  same_key, exist_db-get_db, add_db-Updated, replace_db-Updated, del_db-Updated,
}
use ebotula.Account.{bind_session, stamp, log_on}
use ebotula.Account.Sessions.{
  Held, Consistent, held, is_netmask, same_key_sym, get_db-same_key, distinct_netmasks,
  stamp-Updated,
}

module _ (lib : Library) (gdbm : IsGdbm lib) (netmask login : Bytes) (dbf : Databases lib)
    (hm : lacks 0 netmask ≡ true) (hl : lacks 0 login ≡ true)
    (free : get_db lib nicktouser_db (some netmask) dbf ≡ none) where
  bind_session-owner :
      (k : Bytes)
      → get_db lib nicktouser_db (some k) (bind_session lib (some netmask) login dbf) ≡ (
          if same_key k netmask
          then some login
          else if is_netmask (get_db lib usertonick_db (some login) dbf) k
          then none
          else get_db lib nicktouser_db (some k) dbf)
  unfolding bind_session
  bind_session-owner k =
      let found = exist_db-get_db lib gdbm usertonick_db (some login) dbf in
      elim (Option-cases (get_db lib usertonick_db (some login) dbf)) [
        | inl e ↦
            let bound = (add_db lib nicktouser_db (some netmask) (some login) dbf).1 in
            let first =
              (add_db-Updated lib gdbm nicktouser_db netmask login dbf (omega arith) hl).1 in
            let second =
              (add_db-Updated lib gdbm usertonick_db login netmask bound (omega arith) hm).1 in
            rw (found, e) (rw (second nicktouser_db k, first nicktouser_db k, free) refl)
        | inr (old, e) ↦
            let freed = (del_db lib nicktouser_db (some old) dbf).1 in
            let bound = (add_db lib nicktouser_db (some netmask) (some login) freed).1 in
            let zeroth = (del_db-Updated lib gdbm nicktouser_db old dbf (omega arith)).1 in
            let first =
              (add_db-Updated lib gdbm nicktouser_db netmask login freed (omega arith) hl).1 in
            let second =
              (replace_db-Updated lib gdbm usertonick_db login netmask bound (omega arith) hm).1 in
            let none_there : get_db lib nicktouser_db (some netmask) freed ≡ none =
              ground (arith, zeroth nicktouser_db netmask, free) in
            rw (found, e)
              (rw
                (second nicktouser_db k, first nicktouser_db k, none_there, zeroth nicktouser_db k)
                refl)
      ]

  bind_session-netmask :
      (k : Bytes)
      → get_db lib usertonick_db (some k) (bind_session lib (some netmask) login dbf)
        ≡ (if same_key k login then some netmask else get_db lib usertonick_db (some k) dbf)
  unfolding bind_session
  bind_session-netmask k =
      let found = exist_db-get_db lib gdbm usertonick_db (some login) dbf in
      elim (Option-cases (get_db lib usertonick_db (some login) dbf)) [
        | inl e ↦
            let bound = (add_db lib nicktouser_db (some netmask) (some login) dbf).1 in
            let first =
              (add_db-Updated lib gdbm nicktouser_db netmask login dbf (omega arith) hl).1 in
            let second =
              (add_db-Updated lib gdbm usertonick_db login netmask bound (omega arith) hm).1 in
            rw (found, e)
              (rw (second usertonick_db k, first usertonick_db login, first usertonick_db k, e)
                refl)
        | inr (old, e) ↦
            let freed = (del_db lib nicktouser_db (some old) dbf).1 in
            let bound = (add_db lib nicktouser_db (some netmask) (some login) freed).1 in
            let zeroth = (del_db-Updated lib gdbm nicktouser_db old dbf (omega arith)).1 in
            let first =
              (add_db-Updated lib gdbm nicktouser_db netmask login freed (omega arith) hl).1 in
            let second =
              (replace_db-Updated lib gdbm usertonick_db login netmask bound (omega arith) hm).1 in
            rw (found, e)
              (rw
                (
                  second usertonick_db k,
                  first usertonick_db login,
                  first usertonick_db k,
                  zeroth usertonick_db login,
                  zeroth usertonick_db k,
                  e,
                )
                refl)
      ]

  bind_session-Held :
      Consistent lib dbf
      → (other : Bytes)
      → Held lib
          (bind_session lib (some netmask) login dbf)
          other
          (get_db lib usertonick_db (some other) (bind_session lib (some netmask) login dbf))
  bind_session-Held c other = elim (Bool-cases (same_key other login)) [
    | inl hit ↦
        rw (bind_session-netmask other, hit)
          (
            login,
            rw (bind_session-owner netmask, streq_refl (str_to_lower netmask)) refl,
            same_key_sym other login hit,
          )
    | inr miss ↦
        rw (bind_session-netmask other, miss)
          (elim (Option-cases (get_db lib usertonick_db (some other) dbf)) [
            | inl e ↦ rw e tt
            | inr (m, e) ↦
                let (owner, o, s) = held lib dbf other m c e in
                let apart = distinct_netmasks lib gdbm login other m owner dbf c o s miss in
                let new : same_key m netmask ≡ false = elim (Bool-cases (same_key m netmask)) [
                  | inr f ↦ f
                  | inl t ↦ absurd (
                      ground
                        (arith, sym o ∙ (get_db-same_key lib nicktouser_db m netmask dbf t ∙ free)))
                ] in
                rw e (owner, rw (bind_session-owner m, new, apart, o) refl, s)
          ])
  ]

  stamp-Held :
      (time : Bytes) (d : Databases lib) (other : Bytes) (o : Option Bytes)
      → lacks 0 time ≡ true
      → Held lib d other o
      → Held lib (stamp lib login time d) other o
  stamp-Held time d other none ht h = tt
  stamp-Held time d other (some m) ht (owner, e, s) =
      (owner, rw (stamp-Updated lib gdbm login time d ht nicktouser_db m) e, s)

  pub log_on-Consistent :
      (time : Bytes)
      → lacks 0 time ≡ true
      → Consistent lib dbf
      → Consistent lib (log_on lib (some netmask) login time dbf)
  unfolding log_on
  log_on-Consistent time ht c other =
      let bound = bind_session lib (some netmask) login dbf in
      rw (stamp-Updated lib gdbm login time bound ht usertonick_db other) (
        stamp-Held time bound other (get_db lib usertonick_db (some other) bound) ht
          (bind_session-Held c other))

  -- whose a netmask is after log_on
  pub log_on-owner :
      (time : Bytes)
      → lacks 0 time ≡ true
      → (k : Bytes)
      → get_db lib nicktouser_db (some k) (log_on lib (some netmask) login time dbf) ≡ (
          if same_key k netmask
          then some login
          else if is_netmask (get_db lib usertonick_db (some login) dbf) k
          then none
          else get_db lib nicktouser_db (some k) dbf)
  unfolding log_on
  log_on-owner time ht k =
      stamp-Updated lib gdbm login time (bind_session lib (some netmask) login dbf) ht nicktouser_db
        k
      ∙ bind_session-owner k
