-- ===== src/Extract/Identity.antt =====
-- The sender of a line, by getNetmask and getNickname of src/extract.c.
use ebotula.Prelude.{
  ℕ, ◌≡◌, refl, ap, ◌∙◌, true, false, [], ◌∷◌, ◌++◌, Option, some, arith, ◌==◌, all, and_parts,
}
use ebotula.CString.{Bytes, strchr}
use ebotula.CString.Laws.{lacks, strchr-append, strchr-here, strtok_cut-append}
use ebotula.CString.Outcome.{Outcome, done, ◌>>=◌}
use ebotula.Utilities.Names.{is_nick_char, nick_string_check_lem}
use ebotula.Extract.{netmask_of, get_netmask, nick_of, get_nickname}
use ebotula.Extract.Banmask.{mask, IsMask, get_netmask-mask}

module _ {c : ℕ} {nick user host : Bytes} (m : IsMask c nick user host) where
  mask-lacks_space : (c == b' ') ≡ false → lacks b' ' (mask c nick user host) ≡ true
  mask-lacks_space h = rw h m.space

  strchr-mask-line :
      (x : ℕ) → strchr b'!' (mask c nick user host) ≡ some (b'!' ∷ (user ++ (b'@' ∷ host)))
  strchr-mask-line x =
      strchr-append b'!' (c ∷ nick) (b'!' ∷ (user ++ (b'@' ∷ host))) m.bang
      ∙ strchr-here b'!' (user ++ (b'@' ∷ host))

  -- A line that starts with `:nick!user@host ` names that netmask as its sender.
  get_netmask-line :
      (rest : Bytes)
      → (c == b' ') ≡ false
      → get_netmask (some (b':' ∷ (mask c nick user host ++ b' ' ∷ rest)))
        ≡ done (some (mask c nick user host))
  unfolding get_netmask netmask_of
  get_netmask-line rest h =
      rw
        (strtok_cut-append b' ' c (nick ++ (b'!' ∷ (user ++ (b'@' ∷ host)))) rest
          (mask-lacks_space h))
        (let found : strchr b'!' (b':' ∷ mask c nick user host)
              ≡ some (b'!' ∷ (user ++ (b'@' ∷ host))) =
            strchr-append b'!' (b':' ∷ []) (mask c nick user host) refl ∙ strchr-mask-line c in
          rw found)

  nick_char_not_bang : is_nick_char c ≡ true → (c == b'!') ≡ false
  nick_char_not_bang h = ground arith

  nick_of-mask :
      all is_nick_char (c ∷ nick) ≡ true → nick_of (some (mask c nick user host)) ≡ some (c ∷ nick)
  unfolding nick_of
  nick_of-mask h =
      let (here, _) = and_parts (is_nick_char c) (all is_nick_char nick) h in
      let accepted = (nick_string_check_lem (c ∷ nick)).1 ∙ h in
      rw (nick_char_not_bang here)
        (rw (strtok_cut-append b'!' c nick (user ++ (b'@' ∷ host)) m.bang) (rw accepted))

  nick_char_not_space : is_nick_char c ≡ true → (c == b' ') ≡ false
  nick_char_not_space h = ground arith

  -- For a nick of nick characters, a line `:nick!user@host rest` has the sender `nick!user@host`
  -- and the nick `nick`, and the netmask read as a line of its own has the same nick.
  pub sender_of_line :
      (rest : Bytes)
      → all is_nick_char (c ∷ nick) ≡ true
      → (get_netmask (some (b':' ∷ (mask c nick user host ++ b' ' ∷ rest)))
          ≡ done (some (mask c nick user host)))
        × (get_nickname (some (b':' ∷ (mask c nick user host ++ b' ' ∷ rest)))
            ≡ done (some (c ∷ nick)))
        × (get_nickname (some (mask c nick user host)) ≡ done (some (c ∷ nick)))
  unfolding get_nickname
  sender_of_line rest h =
      let (here, _) = and_parts (is_nick_char c) (all is_nick_char nick) h in
      let line = get_netmask-line rest (nick_char_not_space here) in
      (
        line,
        ap (λ (r : Outcome (Option Bytes)). r >>= λ x. done (nick_of x)) line
            ∙ ap done (nick_of-mask h),
        ap (λ (r : Outcome (Option Bytes)). r >>= λ x. done (nick_of x)) (get_netmask-mask m)
            ∙ ap done (nick_of-mask h),
      )
