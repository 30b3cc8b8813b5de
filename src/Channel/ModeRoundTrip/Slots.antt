-- ===== src/Channel/ModeRoundTrip/Slots.antt =====
-- The loop over the mode letters fills the twelve slots again.
use ebotula.Prelude.{
  ℕ, suc, ◌+◌, ◌≡◌, refl, ap, sym, ◌∙◌, true, false, not, [], ◌∷◌, ◌++◌, List, Option, none, some,
  arith, ◌==◌, length, length-append, set, ◌⊎◌, inl, inr, all, All, append_assoc,
}
use native.Mathlib.Numerals.{add-one}
use ebotula.CString.{Bytes, codes}
use ebotula.CString.Outcome.{done}
use ebotula.Utilities.Quotes.{without_spaces, has_no}
use ebotula.Utilities.TrimShape.{is_blank}
use ebotula.Channel.{ChannelMode, plain_slot, part_at, mode_loop}

abbrev pub spaces : Bytes → Bytes
spaces [] = []
spaces (_ ∷ s) = b' ' ∷ spaces s

abbrev pub mode_of : Bytes → Option Bytes → Option Bytes → ChannelMode
mode_of slots keyword limit = record { mode_str = slots; keyword = keyword; limit = limit }

-- each slot, from number `i` on, is off or holds its letter
abbrev pub PlainFrom : ℕ → Bytes → Type 0
PlainFrom i [] = Unit
PlainFrom i (c ∷ cs) = ((c ≡ b' ') ⊎ (plain_slot c ≡ some i)) × PlainFrom (suc i) cs

set-append : (s t : Bytes) (b c : ℕ) → set (s ++ b ∷ t) (length s) c ≡ s ++ c ∷ t
set-append [] t b c = refl
set-append (x ∷ s) t b c = ap (◌∷◌ x) (set-append s t b c)

plain_letter :
    (c i : ℕ)
    → plain_slot c ≡ some i
    → ((c == b' ') ≡ false)
      × ((c == b'k') ≡ false)
      × ((c == b'l') ≡ false)
      × (not (c == b'\"') ≡ true)
      × (is_blank c ≡ false)
unfolding plain_slot
plain_letter c i h = ground arith

module _ (parts : List (Option Bytes)) (j : ℕ) (keyword limit : Option Bytes) where
  plain_step :
      (front : Bytes) (c : ℕ) (rest later : Bytes)
      → (c ≡ b' ') ⊎ (plain_slot c ≡ some (length front))
      → mode_loop parts
          (without_spaces (c ∷ rest))
          j
          (mode_of (front ++ b' ' ∷ later) keyword limit)
        ≡ mode_loop parts (without_spaces rest) j (mode_of (front ++ c ∷ later) keyword limit)
  unfolding mode_loop
  plain_step front c rest later (inl e) = rw e
  plain_step front c rest later (inr e) =
      let (space, k, l, _, _) = plain_letter c (length front) e in
      rw (space, k, l, e)
        (ap (λ s. mode_loop parts (without_spaces rest) j (mode_of s keyword limit))
          (set-append front later b' ' c))

  pub plain_slots :
      (front rest : Bytes)
      → PlainFrom (length front) rest
      → mode_loop parts (without_spaces rest) j (mode_of (front ++ spaces rest) keyword limit)
        ≡ done (mode_of (front ++ rest) keyword limit)
  unfolding mode_loop
  plain_slots front [] p = refl
  plain_slots front (c ∷ rest) (p, ps) =
      plain_step front c rest (spaces rest) p
      ∙ ap (λ s. mode_loop parts (without_spaces rest) j (mode_of s keyword limit))
          (sym (append_assoc front (c ∷ []) (spaces rest)))
      ∙ plain_slots (front ++ c ∷ []) rest (rw (length-append front (c ∷ []), add-one) ps)
      ∙ ap (λ s. done (mode_of s keyword limit)) (append_assoc front (c ∷ []) rest)

-- the slot of a mode with a parameter
abbrev pub Keyed : ℕ → ℕ → Option Bytes → Type 0
Keyed letter c none = c ≡ b' '
Keyed letter c (some _) = c ≡ letter

abbrev pub Given : List (Option Bytes) → ℕ → Option Bytes → Type 0
Given parts j none = Unit
Given parts j (some p) = part_at parts j ≡ done p

abbrev pub next : ℕ → Option Bytes → ℕ
next j none = j
next j (some _) = j + 1

module _ (parts : List (Option Bytes)) (j : ℕ) where
  keyword_step :
      (a k : ℕ) (keyword : Option Bytes) (rest later : Bytes)
      → Keyed b'k' k keyword
      → Given parts j keyword
      → mode_loop parts (without_spaces (k ∷ rest)) j (mode_of (a ∷ b' ' ∷ later) none none)
        ≡ mode_loop parts
            (without_spaces rest)
            (next j keyword)
            (mode_of (a ∷ k ∷ later) keyword none)
  unfolding mode_loop
  keyword_step a k none rest later e g = rw e
  keyword_step a k (some w) rest later e g = rw e (rw g)

  limit_step :
      (a k l : ℕ) (keyword limit : Option Bytes) (rest later : Bytes)
      → Keyed b'l' l limit
      → Given parts j limit
      → mode_loop parts (without_spaces (l ∷ rest)) j (mode_of (a ∷ k ∷ b' ' ∷ later) keyword none)
        ≡ mode_loop parts
            (without_spaces rest)
            (next j limit)
            (mode_of (a ∷ k ∷ l ∷ later) keyword limit)
  unfolding mode_loop
  limit_step a k l keyword none rest later e g = rw e
  limit_step a k l keyword (some w) rest later e g = rw e (rw g)

-- All slots: the sign, the two modes with parameters, and the plain modes.
pub all_slots :
    (parts : List (Option Bytes)) (a k l : ℕ) (rest : Bytes) (keyword limit : Option Bytes)
    → (a ≡ b' ') ⊎ (plain_slot a ≡ some 0)
    → Keyed b'k' k keyword
    → Given parts 1 keyword
    → Keyed b'l' l limit
    → Given parts (next 1 keyword) limit
    → PlainFrom 3 rest
    → mode_loop parts
        (without_spaces (a ∷ k ∷ l ∷ rest))
        1
        (mode_of (b' ' ∷ b' ' ∷ b' ' ∷ spaces rest) none none)
      ≡ done (mode_of (a ∷ k ∷ l ∷ rest) keyword limit)
all_slots parts a k l rest keyword limit sign key keyed lim limited plain =
    plain_step parts 1 none none [] a (k ∷ l ∷ rest) (b' ' ∷ b' ' ∷ spaces rest) sign
    ∙ keyword_step parts 1 a k keyword (l ∷ rest) (b' ' ∷ spaces rest) key keyed
    ∙ limit_step parts (next 1 keyword) a k l keyword limit rest (spaces rest) lim limited
    ∙ plain_slots parts (next (next 1 keyword) limit) keyword limit (a ∷ k ∷ l ∷ []) rest plain

-- a slot is no quotation mark, and is blank only as a space
abbrev Quiet : ℕ → Type 0
Quiet c = (not (c == b'\"') ≡ true) × ((c ≡ b' ') ⊎ (not (is_blank c) ≡ true))

Quiet-slot : (c i : ℕ) → (c ≡ b' ') ⊎ (plain_slot c ≡ some i) → Quiet c
Quiet-slot c i (inl e) = (ground arith, inl e)
Quiet-slot c i (inr e) = let (_, _, _, quote, blank) = plain_letter c i e in (quote, inr (rw blank))

Quiet-Keyed :
    (letter c : ℕ) (p : Option Bytes)
    → (letter ≡ b'k') ⊎ (letter ≡ b'l')
    → Keyed letter c p
    → Quiet c
Quiet-Keyed letter c none h e = (ground arith, inl e)
Quiet-Keyed letter c (some p) h e = (ground arith, inr (ground arith))

Quiet-rest : (i : ℕ) (s : Bytes) → PlainFrom i s → All Quiet s
Quiet-rest i [] p = tt
Quiet-rest i (c ∷ s) (p, ps) = (Quiet-slot c i p, Quiet-rest (suc i) s ps)

Quiet-letters :
    (s : Bytes)
    → All Quiet s
    → (has_no s ≡ true) × (all (λ c. not (is_blank c)) (without_spaces s) ≡ true)
Quiet-letters [] p = (refl, refl)
Quiet-letters (c ∷ s) ((q, inl e), ps) = let (qs, bs) = Quiet-letters s ps in (rw (q, qs), rw e bs)
Quiet-letters (c ∷ s) ((q, inr b), ps) =
    let (qs, bs) = Quiet-letters s ps in
    let space : (c == b' ') ≡ false = ground arith in (rw (q, qs), rw space (rw (b, bs)))

-- the slots have no quotation mark, and the letters that are on no blank
pub slots_quiet :
    (a k l : ℕ) (rest : Bytes) (keyword limit : Option Bytes)
    → (a ≡ b' ') ⊎ (plain_slot a ≡ some 0)
    → Keyed b'k' k keyword
    → Keyed b'l' l limit
    → PlainFrom 3 rest
    → (has_no (a ∷ k ∷ l ∷ rest) ≡ true)
      × (all (λ c. not (is_blank c)) (without_spaces (a ∷ k ∷ l ∷ rest)) ≡ true)
slots_quiet a k l rest keyword limit sign key lim plain = Quiet-letters (a ∷ k ∷ l ∷ rest) (
  Quiet-slot a 0 sign,
  (
    Quiet-Keyed b'k' k keyword (inl refl) key,
    (Quiet-Keyed b'l' l limit (inr refl) lim, Quiet-rest 3 rest plain),
  ),
)

-- each slot is off, or holds the letter that stands at its place in the list
abbrev pub Own : Bytes → Bytes → Type 0
Own [] [] = Unit
Own (x ∷ xs) (c ∷ cs) = ((c ≡ b' ') ⊎ (c ≡ x)) × Own xs cs
Own _ _ = ⊥

abbrev Numbered : ℕ → Bytes → Type 0
Numbered i [] = Unit
Numbered i (x ∷ xs) = (plain_slot x ≡ some i) × Numbered (suc i) xs

Own-PlainFrom :
    (i : ℕ) (xs cs : Bytes) → Numbered i xs → Own xs cs → PlainFrom i cs × (spaces cs ≡ spaces xs)
Own-PlainFrom i [] [] n o = (tt, refl)
Own-PlainFrom i [] (c ∷ cs) n o = absurd o
Own-PlainFrom i (x ∷ xs) [] n o = absurd o
Own-PlainFrom i (x ∷ xs) (c ∷ cs) (n, ns) (inl e, os) =
    let (p, q) = Own-PlainFrom (suc i) xs cs ns os in ((inl e, p), ap (◌∷◌ b' ') q)
Own-PlainFrom i (x ∷ xs) (c ∷ cs) (n, ns) (inr e, os) =
    let (p, q) = Own-PlainFrom (suc i) xs cs ns os in
    ((inr (ap plain_slot e ∙ n), p), ap (◌∷◌ b' ') q)

-- the letters of MOD_TOPIC to MOD_INVITE
abbrev pub plain_letters_in_order : Bytes
plain_letters_in_order = codes "tnmpsaqri"

pub Own-plain :
    (cs : Bytes) → Own plain_letters_in_order cs → PlainFrom 3 cs × (spaces cs ≡ codes "         ")
unfolding plain_slot
Own-plain cs o =
    Own-PlainFrom 3 plain_letters_in_order cs
      (refl, (refl, (refl, (refl, (refl, (refl, (refl, (refl, (refl, tt))))))))) o

pub sign_slot : (c : ℕ) → (c ≡ b'+') ⊎ (c ≡ b'-') → plain_slot c ≡ some 0
unfolding plain_slot
sign_slot c h = ground arith

pub sign-cases :
    (c : ℕ) → (c ≡ b' ') ⊎ (c ≡ b'+') ⊎ (c ≡ b'-') → (c ≡ b' ') ⊎ (plain_slot c ≡ some 0)
sign-cases c (inl e) = inl e
sign-cases c (inr e) = inr (sign_slot c e)
