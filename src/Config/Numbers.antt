-- ===== src/Config/Numbers.antt =====
-- `atoi` and the conversions between integers of C, as src/configparser.c uses them.
use ebotula.Prelude.{
  ℕ, zero, suc, ◌+◌, ◌-◌, ◌*◌, ◌%◌, ◌^◌, Bool, ◌||◌, [], ◌∷◌, ltb, leb, ◌==◌, ◌&&◌, if◌then◌else◌,
}
use ebotula.CString.{Bytes, is_digit}

-- `negsuc n` is -(n + 1)
pub data ℤ : Type 0 where
  pos negsuc : ℕ → ℤ

-- the residue modulo 2 ^ w of a number
abbrev pub residue : ℕ → ℤ → ℕ
residue w (pos n) = n % 2 ^ w
residue w (negsuc n) = 2 ^ w - 1 - n % 2 ^ w

-- the signed integer of w bits with a residue
abbrev pub signed : ℕ → ℕ → ℤ
signed w r = if ltb r (2 ^ (w - 1)) then pos r else negsuc (2 ^ w - 1 - r)

abbrev pub wrap_short : ℤ → ℤ
wrap_short z = signed 16 (residue 16 z)

abbrev pub as_unsigned : ℤ → ℕ
as_unsigned z = residue 32 z

abbrev pub is_space : ℕ → Bool
is_space c = c == b' ' || leb 9 c && leb c 13

abbrev pub skip_space : Bytes → Bytes
skip_space [] = []
skip_space (c ∷ cs) = let rest = skip_space cs in if is_space c then rest else c ∷ cs

-- the value of the digits in front, behind those that make `n`
abbrev pub digits : ℕ → Bytes → ℕ
digits n [] = n
digits n (c ∷ cs) = let more = digits (n * 10 + (c - b'0')) cs in if is_digit c then more else n

abbrev pub negate : ℕ → ℤ
negate zero = pos 0
negate (suc n) = negsuc n

abbrev pub read_sign : Bytes → ℤ
read_sign [] = pos 0
read_sign (c ∷ cs) =
    if c == b'-' then negate (digits 0 cs) else pos (digits 0 (if c == b'+' then cs else c ∷ cs))

-- A number out of the range of an int is taken modulo 2 ^ 32; C leaves it open.
abbrev pub atoi : Bytes → ℤ
atoi s = signed 32 (residue 32 (read_sign (skip_space s)))
