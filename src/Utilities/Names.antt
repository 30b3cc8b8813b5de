-- ===== src/Utilities/Names.antt =====
-- The checks of nick and channel names, and the folding of database keys, of src/utilities.c.
use ebotula.Prelude.{
  ℕ, ◌≡◌, ◌∙◌, if◌then◌else◌, refl, ap, Bool, true, false, not, ◌&&◌, ◌||◌, [], ◌∷◌, none, some,
  arith, all, Bool-cases, inl, inr, and_parts, ◌++◌,
}
use ebotula.CString.{Bytes, mem, strpbrk, isalnum}
use ebotula.Utilities.{
  str_to_lower, user_allow_char, fold_char, common_not_allow_char, nick_loop, nick_string_check,
}

-- letters, digits and the marks of USER_ALLOW_CHAR
abbrev pub is_nick_char : ℕ → Bool
is_nick_char c = isalnum c || mem c user_allow_char

nick_step : (a m x : Bool) → (if not a then (if not m then false else x) else x) ≡ ((a || m) && x)
nick_step a m x = ground arith

nick_loop-all : (s : Bytes) → nick_loop s ≡ all is_nick_char s
unfolding nick_loop
nick_loop-all [] = refl
nick_loop-all (c ∷ cs) =
    nick_step (isalnum c) (mem c user_allow_char) (nick_loop cs)
    ∙ ap (λ r. is_nick_char c && r) (nick_loop-all cs)

nick_char_allowed : (c : ℕ) → is_nick_char c ≡ true → mem c common_not_allow_char ≡ false
nick_char_allowed c h = ground arith

strpbrk-nick : (s : Bytes) → all is_nick_char s ≡ true → strpbrk s common_not_allow_char ≡ false
unfolding strpbrk
strpbrk-nick [] h = refl
strpbrk-nick (c ∷ cs) h =
    let (here, rest) = and_parts (is_nick_char c) (all is_nick_char cs) h in
    cc (nick_char_allowed c here, strpbrk-nick cs rest)

-- A nick name is accepted exactly when all its bytes are letters, digits or marks of
-- USER_ALLOW_CHAR; NULL is refused, and the empty string is accepted.
pub nick_string_check_lem :
    (s : Bytes)
    → (nick_string_check none ≡ false) × (nick_string_check (some s) ≡ all is_nick_char s)
unfolding nick_string_check
nick_string_check_lem s = elim (Bool-cases (all is_nick_char s)) [
  | inl good ↦ (refl, rw (strpbrk-nick s good, nick_loop-all s))
  | inr bad ↦ (refl, rw (nick_loop-all s, bad) (ground arith))
]

lower_char_idem : (c : ℕ) → fold_char (fold_char c) ≡ fold_char c
lower_char_idem c = ground arith

-- Folding is idempotent and keeps the length: two keys that differ only in case are one key.
pub str_to_lower_idem : (s : Bytes) → str_to_lower (str_to_lower s) ≡ str_to_lower s
unfolding str_to_lower
str_to_lower_idem [] = refl
str_to_lower_idem (c ∷ cs) = cc (lower_char_idem c, str_to_lower_idem cs)

pub str_to_lower-append : (s t : Bytes) → str_to_lower (s ++ t) ≡ str_to_lower s ++ str_to_lower t
unfolding str_to_lower
str_to_lower-append [] t = refl
str_to_lower-append (c ∷ s) t = ap (◌∷◌ (fold_char c)) (str_to_lower-append s t)
