-- ===== src/CString.antt =====
-- The functions of <string.h> and <ctype.h> that the program calls. A C string is the list of its
-- bytes in front of the NUL, so a list holds no zero; a pointer that may be NULL is an `Option`.
-- The classes of <ctype.h> are those of the C locale (and of UTF-8 locales on single bytes).
mod Codes
pub mod Outcome
pub mod Laws
pub use Codes.*
use ebotula.Prelude.{
  ℕ, ◌+◌, Bool, true, false, not, ◌&&◌, ◌||◌, List, [], ◌∷◌, ◌++◌, Option, none, some, leb, ◌==◌,
  if◌then◌else◌,
}

abbrev pub Bytes : Type 0
Bytes = List ℕ

-- the part of `s` in front of the first byte that `p` stops at, and the part from there on
unfoldable pub take_until : (ℕ → Bool) → Bytes → Bytes
take_until p [] = []
take_until p (c ∷ cs) = if p c then [] else c ∷ take_until p cs

unfoldable pub drop_until : (ℕ → Bool) → Bytes → Bytes
drop_until p [] = []
drop_until p (c ∷ cs) = if p c then c ∷ cs else drop_until p cs

-- strchr: the suffix that starts at the first `c`
unfoldable pub strchr : ℕ → Bytes → Option Bytes
strchr c [] = none
strchr c (x ∷ xs) = if x == c then some (x ∷ xs) else strchr c xs

-- strrchr: the suffix that starts at the last `c`
unfoldable pub strrchr : ℕ → Bytes → Option Bytes
strrchr c [] = none
strrchr c (x ∷ xs) = elim (strrchr c xs) [
  | some s ↦ some s
  | none ↦ if x == c then some (x ∷ xs) else none
]

abbrev pub mem : ℕ → Bytes → Bool
mem c [] = false
mem c (x ∷ xs) = x == c || mem c xs

-- whether strpbrk finds a byte of `set`
unfoldable pub strpbrk : Bytes → Bytes → Bool
strpbrk [] set = false
strpbrk (c ∷ cs) set = mem c set || strpbrk cs set

-- `!strncmp(s, p, strlen(p))`
unfoldable pub starts_with : Bytes → Bytes → Bool
starts_with [] s = true
starts_with (p ∷ ps) [] = false
starts_with (p ∷ ps) (c ∷ cs) = p == c && starts_with ps cs

-- strstr: the suffix that starts at the first occurrence of `p`
unfoldable pub strstr : Bytes → Bytes → Option Bytes
unfolding starts_with
strstr p [] = if starts_with p [] then some [] else none
strstr p (c ∷ cs) = if starts_with p (c ∷ cs) then some (c ∷ cs) else strstr p cs

-- the part of the string in front of that occurrence, or all of it
unfoldable pub strstr_before : Bytes → Bytes → Bytes
unfolding starts_with
strstr_before p [] = []
strstr_before p (c ∷ cs) = if starts_with p (c ∷ cs) then [] else c ∷ strstr_before p cs

-- `!strcmp(a, b)`
unfoldable pub streq : Bytes → Bytes → Bool
streq [] [] = true
streq (x ∷ xs) (y ∷ ys) = x == y && streq xs ys
streq _ _ = false

-- What a first call `strtok(s, d)` leaves in the buffer: leading delimiters stay, the token behind
-- them is cut at its end.
unfoldable pub strtok_cut : ℕ → Bytes → Bytes
unfolding take_until
strtok_cut d [] = []
strtok_cut d (c ∷ cs) = if c == d then c ∷ strtok_cut d cs else take_until (λ x. x == d) (c ∷ cs)

abbrev pub is_upper : ℕ → Bool
is_upper c = leb b'A' c && leb c b'Z'

abbrev pub is_lower : ℕ → Bool
is_lower c = leb b'a' c && leb c b'z'

abbrev pub is_digit : ℕ → Bool
is_digit c = leb b'0' c && leb c b'9'

abbrev pub isalpha : ℕ → Bool
isalpha c = is_upper c || is_lower c

abbrev pub isalnum : ℕ → Bool
isalnum c = isalpha c || is_digit c

abbrev pub tolower : ℕ → ℕ
tolower c = if is_upper c then c + 32 else c
