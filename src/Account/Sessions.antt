-- ===== src/Account/Sessions.antt =====
-- The sessions of src/account.c: `log_on` and `log_out` on the two session databases.
use ebotula.Prelude.{
  ℕ, ◌≡◌, refl, subst, inl, inr, Bool, true, false, ◌&&◌, Option, none, some, ◌==◌, if◌then◌else◌,
  arith, Option-cases, Bool-cases,
}
use ebotula.CString.{Bytes}
use ebotula.CString.Laws.{lacks, streq→eq, streq_refl}
use ebotula.Utilities.{str_to_lower}
use ebotula.Database.Backend.{Library, IsGdbm}
use ebotula.Database.{usertonick_db, timelog_db, nicktouser_db, Databases, add_db, del_db, get_db}
use ebotula.Database.View.{
  same_key, keeps, Updated, exist_db-get_db, add_db-Updated, replace_db-Updated, del_db-Updated,
}
use ebotula.Account.{bind_session, stamp, log_on, log_out}

pub same_key_sym : (a b : Bytes) → same_key a b ≡ true → same_key b a ≡ true
same_key_sym a b h = rw (streq→eq (str_to_lower a) (str_to_lower b) h) (streq_refl (str_to_lower b))

same_key_trans : (a b c : Bytes) → same_key a b ≡ true → same_key b c ≡ true → same_key a c ≡ true
same_key_trans a b c h g = rw (streq→eq (str_to_lower a) (str_to_lower b) h) g

-- a netmask that has a login in one database has it in the other
abbrev pub Held : (lib : Library) → Databases lib → Bytes → Option Bytes → Type 0
Held lib dbf login none = Unit
Held lib dbf login (some netmask) =
    (owner : Bytes) × (get_db lib nicktouser_db (some netmask) dbf ≡ some owner)
    × (same_key owner login ≡ true)

-- What the sessions say: whenever a login has a netmask, the netmask has that login.
abbrev pub Consistent : (lib : Library) → Databases lib → Type 0
Consistent lib dbf =
    (login : Bytes) → Held lib dbf login (get_db lib usertonick_db (some login) dbf)

pub held :
    (lib : Library) (dbf : Databases lib) (login netmask : Bytes)
    → Consistent lib dbf
    → get_db lib usertonick_db (some login) dbf ≡ some netmask
    → Held lib dbf login (some netmask)
held lib dbf login netmask c e = subst (Held lib dbf login) e (c login)

-- whether the key is that netmask
abbrev pub is_netmask : Option Bytes → Bytes → Bool
is_netmask none k = false
is_netmask (some m) k = same_key k m

pub get_db-same_key :
    (lib : Library) (db : ℕ) (a b : Bytes) (dbf : Databases lib)
    → same_key a b ≡ true
    → get_db lib db (some a) dbf ≡ get_db lib db (some b) dbf
unfolding get_db
get_db-same_key lib db a b dbf h = rw (streq→eq (str_to_lower a) (str_to_lower b) h) refl

module _ (lib : Library) (gdbm : IsGdbm lib) where
  -- log_out takes the login out of one session database and its netmask out of the other; no other
  -- entry of any database changes.
  pub get_db-log_out :
      (login : Bytes) (dbf : Databases lib) (db : ℕ) (k : Bytes)
      → get_db lib db (some k) (log_out lib login dbf) ≡ (
          if db == usertonick_db && same_key k login
          then none
          else if db == nicktouser_db && is_netmask (get_db lib usertonick_db (some login) dbf) k
          then none
          else get_db lib db (some k) dbf)
  unfolding log_out
  get_db-log_out login dbf db k = elim (Option-cases (get_db lib usertonick_db (some login) dbf)) [
    | inl e ↦
        let kept = keeps lib gdbm usertonick_db login dbf e db k in rw e (ground (arith, kept))
    | inr (m, e) ↦
        let freed = (del_db lib nicktouser_db (some m) dbf).1 in
        let first = (del_db-Updated lib gdbm nicktouser_db m dbf (omega arith)).1 db k in
        let second = (del_db-Updated lib gdbm usertonick_db login freed (omega arith)).1 db k in
        rw (e, second, first) refl
  ]

  pub distinct_netmasks :
      (login other netmask owner : Bytes) (dbf : Databases lib)
      → Consistent lib dbf
      → get_db lib nicktouser_db (some netmask) dbf ≡ some owner
      → same_key owner other ≡ true
      → same_key other login ≡ false
      → is_netmask (get_db lib usertonick_db (some login) dbf) netmask ≡ false
  distinct_netmasks login other netmask owner dbf c o s apart =
      elim (Option-cases (get_db lib usertonick_db (some login) dbf)) [
        | inl e ↦ rw e refl
        | inr (m, e) ↦ rw e (elim (Bool-cases (same_key netmask m)) [
          | inr miss ↦ miss
          | inl hit ↦
              let (owner2, o2, s2) = held lib dbf login m c e in
              let same = get_db-same_key lib nicktouser_db netmask m dbf hit in
              let one : owner ≡ owner2 = cc (o, o2, same) in
              let t = same_key_trans other owner login (same_key_sym owner other s) (rw one s2) in
              ground (arith, t, apart)
        ])
      ]

  log_out-Held :
      (login other netmask : Bytes) (dbf : Databases lib)
      → Consistent lib dbf
      → get_db lib usertonick_db (some other) (log_out lib login dbf) ≡ some netmask
      → Held lib (log_out lib login dbf) other (some netmask)
  log_out-Held login other netmask dbf c e =
      let seen = get_db-log_out login dbf usertonick_db other in
      elim (Bool-cases (same_key other login)) [
        | inl hit ↦ absurd (ground (arith, seen, hit))
        | inr miss ↦
            let was : get_db lib usertonick_db (some other) dbf ≡ some netmask =
              ground (arith, seen, miss) in
            let (owner, o, s) = held lib dbf other netmask c was in
            let free = distinct_netmasks login other netmask owner dbf c o s miss in
            (owner, rw (get_db-log_out login dbf nicktouser_db netmask, free, o) refl, s)
      ]

  -- Over a library that does what gdbm documents, log_out keeps the sessions consistent: whenever
  -- a login has a netmask, the netmask has that login, up to upper and lower case.
  pub log_out-Consistent :
      (login : Bytes) (dbf : Databases lib)
      → Consistent lib dbf
      → Consistent lib (log_out lib login dbf)
  log_out-Consistent login dbf c other =
      elim (Option-cases (get_db lib usertonick_db (some other) (log_out lib login dbf))) [
        | inl e ↦ rw e tt
        | inr (m, e) ↦ rw e (log_out-Held login other m dbf c e)
      ]

  -- log_out of a login that has a session, over a library that does what gdbm documents and from
  -- consistent sessions: the login then has no netmask and the netmask no login, upper and lower
  -- case alike; every other login keeps its netmask or keeps having none, and every other netmask
  -- its login; and the sessions are consistent again.
  pub log_out-ended :
      (login netmask key : Bytes) (dbf : Databases lib)
      → Consistent lib dbf
      → get_db lib usertonick_db (some login) dbf ≡ some netmask
      → let after = log_out lib login dbf in
        (get_db lib usertonick_db (some key) after
          ≡ (if same_key key login then none else get_db lib usertonick_db (some key) dbf))
        × (get_db lib nicktouser_db (some key) after
            ≡ (if same_key key netmask then none else get_db lib nicktouser_db (some key) dbf))
        × Consistent lib after
  log_out-ended login netmask key dbf c e = (
    get_db-log_out login dbf usertonick_db key,
    rw (get_db-log_out login dbf nicktouser_db key, e) refl,
    log_out-Consistent login dbf c,
  )

  pub stamp-Updated :
      (login time : Bytes) (dbf : Databases lib)
      → lacks 0 time ≡ true
      → Updated lib dbf (stamp lib login time dbf) timelog_db login (some time)
  unfolding stamp
  stamp-Updated login time dbf h db k =
      let found = exist_db-get_db lib gdbm timelog_db (some login) dbf in
      elim (Option-cases (get_db lib timelog_db (some login) dbf)) [
        | inl e ↦
            rw
              (
                found,
                e,
                (add_db-Updated lib gdbm timelog_db login time dbf (omega arith) h).1 db k,
                e,
              )
              refl
        | inr (old, e) ↦
            rw
              (
                found,
                e,
                (replace_db-Updated lib gdbm timelog_db login time dbf (omega arith) h).1 db k,
                e,
              )
              refl
      ]

  bind_session-both :
      (netmask login : Bytes) (dbf : Databases lib)
      → lacks 0 netmask ≡ true
      → lacks 0 login ≡ true
      → get_db lib nicktouser_db (some netmask) dbf ≡ none
      → (get_db lib nicktouser_db (some netmask) (bind_session lib (some netmask) login dbf)
          ≡ some login)
        × (get_db lib usertonick_db (some login) (bind_session lib (some netmask) login dbf)
            ≡ some netmask)
  unfolding bind_session
  bind_session-both netmask login dbf hm hl free =
      let found = exist_db-get_db lib gdbm usertonick_db (some login) dbf in
      let self = streq_refl (str_to_lower netmask) in
      let same = streq_refl (str_to_lower login) in
      elim (Option-cases (get_db lib usertonick_db (some login) dbf)) [
        | inl e ↦
            let bound = (add_db lib nicktouser_db (some netmask) (some login) dbf).1 in
            let first =
              (add_db-Updated lib gdbm nicktouser_db netmask login dbf (omega arith) hl).1 in
            let second =
              (add_db-Updated lib gdbm usertonick_db login netmask bound (omega arith) hm).1 in
            rw (found, e)
              (
                rw (second nicktouser_db netmask, first nicktouser_db netmask, self, free) refl,
                rw (second usertonick_db login, same, first usertonick_db login, e) refl,
              )
        | inr (old, e) ↦
            let freed = (del_db lib nicktouser_db (some old) dbf).1 in
            let bound = (add_db lib nicktouser_db (some netmask) (some login) freed).1 in
            let zeroth = (del_db-Updated lib gdbm nicktouser_db old dbf (omega arith)).1 in
            let first =
              (add_db-Updated lib gdbm nicktouser_db netmask login freed (omega arith) hl).1 in
            let second =
              (replace_db-Updated lib gdbm usertonick_db login netmask bound (omega arith) hm).1 in
            let none_there : get_db lib nicktouser_db (some netmask) freed ≡ none =
              ground (arith, zeroth nicktouser_db netmask, free) in
            rw (found, e)
              (
                rw (second nicktouser_db netmask, first nicktouser_db netmask, self, none_there)
                    refl,
                rw
                    (
                      second usertonick_db login,
                      same,
                      first usertonick_db login,
                      zeroth usertonick_db login,
                      e,
                    )
                    refl,
              )
      ]

  -- Over a library that does what gdbm documents, log_on of a netmask that belongs to no login, by
  -- a new or a logged in login, with texts free of NUL bytes: the netmask then has the login, the
  -- login the netmask, and the time log the time.
  pub log_on-session :
      (netmask login time : Bytes) (dbf : Databases lib)
      → lacks 0 netmask ≡ true
      → lacks 0 login ≡ true
      → lacks 0 time ≡ true
      → get_db lib nicktouser_db (some netmask) dbf ≡ none
      → let after = log_on lib (some netmask) login time dbf in
        (get_db lib nicktouser_db (some netmask) after ≡ some login)
        × (get_db lib usertonick_db (some login) after ≡ some netmask)
        × (get_db lib timelog_db (some login) after ≡ some time)
  unfolding log_on
  log_on-session netmask login time dbf hm hl ht free =
      let bound = bind_session lib (some netmask) login dbf in
      let stamped = stamp-Updated login time bound ht in
      let (a, b) = bind_session-both netmask login dbf hm hl free in
      (
        rw (stamped nicktouser_db netmask, a) refl,
        rw (stamped usertonick_db login, b) refl,
        rw (stamped timelog_db login, streq_refl (str_to_lower login)) refl,
      )
