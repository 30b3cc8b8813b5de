-- ===== src/Network/LogOn.antt =====
-- ConnectToIrc of src/network.c: how often it asks, for which names, and that it ends.
use ebotula.Prelude.{
  ℕ, zero, suc, ◌+◌, ◌<◌, ◌≡◌, refl, List, [], ◌∷◌, some, ltb, if◌then◌else◌, length, arith,
  Bool-cases, inl, inr,
}
use ebotula.CString.{Bytes}
use ebotula.Network.{max_nicks, in_use, log_on_loop, connect_to_irc}

-- how many answers in a row say that the name is in use, `n` at most
abbrev pub refusals : ℕ → List Bytes → ℕ
refusals zero answers = 0
refusals (suc n) [] = 0
refusals (suc n) (answer ∷ answers) =
    let rest = refusals n answers in if in_use answer then suc rest else 0

-- the name behind `n` underlines
abbrev pub underlined : ℕ → Bytes → Bytes
underlined zero name = name
underlined (suc n) name = underlined n (b'_' ∷ name)

-- the name, and the names with one more underline each, `n` names in all
abbrev pub attempts : ℕ → Bytes → List Bytes
attempts zero name = []
attempts (suc n) name = name ∷ attempts n (b'_' ∷ name)

-- ConnectToIrc ends with at most four answers of the server. It asks for the name of the bot and,
-- for each answer that the name is in use, for the name with one more underline in front. When
-- one of the first three answers is another, the bot keeps the name it asked for last and the
-- result is true. Else it has asked for four names, and the result is false whatever the last
-- answer was; the name of the bot has then an underline more when that answer was a refusal too.
pub connect_to_irc-refusals :
    (name : Bytes) (answers : List Bytes)
    → max_nicks < length answers
    → connect_to_irc name answers
      ≡ some (
        ltb (refusals 3 answers) 3,
        underlined (refusals 4 answers) name,
        attempts (refusals 3 answers + 1) name,
      )
unfolding connect_to_irc log_on_loop
connect_to_irc-refusals name [] h = absurd (omega (arith, h))
connect_to_irc-refusals name (a ∷ []) h = absurd (omega (arith, h))
connect_to_irc-refusals name (a ∷ b ∷ []) h = absurd (omega (arith, h))
connect_to_irc-refusals name (a ∷ b ∷ c ∷ []) h = absurd (omega (arith, h))
connect_to_irc-refusals name (a ∷ b ∷ c ∷ d ∷ rest) h = elim (Bool-cases (in_use a)) [
  | inr e ↦ rw e refl
  | inl e ↦ elim (Bool-cases (in_use b)) [
    | inr f ↦ rw (e, f) refl
    | inl f ↦ elim (Bool-cases (in_use c)) [
      | inr g ↦ rw (e, f, g) refl
      | inl g ↦ elim (Bool-cases (in_use d)) [
        | inr i ↦ rw (e, f, g, i) refl
        | inl i ↦ rw (e, f, g, i) refl
      ]
    ]
  ]
]
