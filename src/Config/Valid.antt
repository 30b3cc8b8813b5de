-- ===== src/Config/Valid.antt =====
-- The checks of src/configparser.c against what they let through.
use ebotula.Prelude.{
  ℕ, ◌<◌, ◌%◌, ◌≡◌, refl, true, false, Option, none, some, ltb, arith, Bool-cases, inl, inr,
}
use ebotula.CString.{Bytes, strpbrk}
use ebotula.Utilities.{nick_string_check}
use ebotula.Config.Numbers.{ℤ, pos, negsuc, atoi, wrap_short}
use ebotula.Config.{
  accepted, edom, below_int, above_int, key_int_checker, key_server_checker, key_nick_checker,
  server_not_allow_char, Checker, unchecked, server_checker, nick_checker, int_checker, check_param,
  Input, param_short, param_int, param_string, Setting, text, number, new_setting,
}

-- a row whose type can hold what its check lets through
abbrev pub Fits : Input → Checker → Type 0
Fits param_short (int_checker low (some high)) = high < 32768
Fits param_int (int_checker low high) = Unit
Fits param_string checker = Unit
Fits _ _ = ⊥

abbrev pub InRange : ℕ → Option ℕ → ℤ → Type 0
InRange low high z = (below_int z low ≡ false) × (above_int z high ≡ false)

-- what the check of a row says of a setting
abbrev pub Holds : Checker → Setting → Type 0
Holds unchecked setting = Unit
Holds server_checker (text s) = strpbrk s server_not_allow_char ≡ false
Holds nick_checker (text s) = nick_string_check (some s) ≡ true
Holds (int_checker low high) (text s) = InRange low high (atoi s)
Holds (int_checker low high) (number z) = InRange low high z
Holds _ _ = ⊥

key_int_checker-accepted :
    (value : Bytes) (low : ℕ) (high : Option ℕ)
    → key_int_checker value low high ≡ accepted
    → InRange low high (atoi value)
unfolding key_int_checker
key_int_checker-accepted value low high h = elim (Bool-cases (below_int (atoi value) low)) [
  | inl e ↦ absurd (edom_ne (rw e at h))
  | inr e ↦ elim (Bool-cases (above_int (atoi value) high)) [
    | inl f ↦ absurd (edom_ne (rw (e, f) at h))
    | inr f ↦ (e, f)
  ]
]
  where
    edom_ne : edom ≡ accepted → ⊥
    edom_ne e = cc

wrap_short-small : (n : ℕ) → n < 32768 → wrap_short (pos n) ≡ pos n
wrap_short-small n h =
    let same : n % 65536 ≡ n = omega (arith, h) in
    let small : ltb n 32768 ≡ true = ground arith in rw (same, small) refl

short-InRange :
    (z : ℤ) (low high : ℕ)
    → high < 32768
    → InRange low (some high) z
    → InRange low (some high) (wrap_short z)
short-InRange (negsuc n) low high h r = absurd cc
short-InRange (pos n) low high h (a, b) = rw (wrap_short-small n (ground arith)) (a, b)

server-accepted :
    (v : Bytes) → key_server_checker v ≡ accepted → strpbrk v server_not_allow_char ≡ false
unfolding key_server_checker
server-accepted v h = elim (Bool-cases (strpbrk v server_not_allow_char)) [
  | inl e ↦ let g = rw e at h in absurd cc
  | inr e ↦ e
]

nick-accepted : (v : Bytes) → key_nick_checker v ≡ accepted → nick_string_check (some v) ≡ true
unfolding key_nick_checker
nick-accepted v h = elim (Bool-cases (nick_string_check (some v))) [
  | inl e ↦ e
  | inr e ↦ let g = rw e at h in absurd cc
]

pub new_setting-Holds :
    (t : Input) (c : Checker) (v : Bytes)
    → Fits t c
    → check_param c v ≡ accepted
    → Holds c (new_setting t v)
new_setting-Holds param_string unchecked v f h = tt
new_setting-Holds param_string server_checker v f h = server-accepted v h
new_setting-Holds param_string nick_checker v f h = nick-accepted v h
new_setting-Holds param_string (int_checker low high) v f h = key_int_checker-accepted v low high h
new_setting-Holds param_int (int_checker low high) v f h = key_int_checker-accepted v low high h
new_setting-Holds param_short (int_checker low (some high)) v f h =
    short-InRange (atoi v) low high f (key_int_checker-accepted v low (some high) h)
new_setting-Holds param_short (int_checker low none) v f h = absurd f
new_setting-Holds param_short unchecked v f h = absurd f
new_setting-Holds param_short server_checker v f h = absurd f
new_setting-Holds param_short nick_checker v f h = absurd f
new_setting-Holds param_int unchecked v f h = absurd f
new_setting-Holds param_int server_checker v f h = absurd f
new_setting-Holds param_int nick_checker v f h = absurd f
