-- ===== src/Utilities/TrimShape.antt =====
-- What `trim` of src/utilities.c leaves in its buffer.
use ebotula.Prelude.{
  ℕ, ◌≤◌, ◌≡◌, refl, ap, ◌∙◌, Bool, true, false, not, ◌&&◌, ◌||◌, [], ◌∷◌, arith, ◌==◌,
  if◌then◌else◌, length,
}
use ebotula.CString.{Bytes}
use ebotula.Utilities.{trim_loop, drop_last_space, trim}

abbrev pub is_blank : ℕ → Bool
is_blank c = c == b' ' || c == b'\n' || c == b'\r' || c == b'\t'

-- A single space may follow a byte that is not blank, and nothing else is blank. The flag says
-- whether such a byte stands in front.
abbrev pub is_spaced : Bool → Bytes → Bool
is_spaced after [] = true
is_spaced after (c ∷ cs) =
    if c == b' ' then after && is_spaced false cs else not (is_blank c) && is_spaced true cs

abbrev pub ends_in_space : Bytes → Bool
ends_in_space [] = false
ends_in_space (c ∷ []) = c == b' '
ends_in_space (c ∷ d ∷ cs) = ends_in_space (d ∷ cs)

-- words divided by single spaces, with none at either end and no line break or tab
abbrev pub IsTrimmed : Bytes → Type 0
IsTrimmed s = (is_spaced false s ≡ true) × (ends_in_space s ≡ false)

abbrev pub letters : Bytes → Bytes
letters [] = []
letters (c ∷ cs) = if is_blank c then letters cs else c ∷ letters cs

trim_loop-spaced : (b : Bool) (s : Bytes) → is_spaced b (trim_loop b s) ≡ true
unfolding trim_loop
trim_loop-spaced b [] = refl
trim_loop-spaced b (c ∷ cs) =
    ground (arith, trim_loop-spaced true cs, trim_loop-spaced false cs, trim_loop-spaced b cs)

drop_last_space-spaced :
    (b : Bool) (s : Bytes) → is_spaced b s ≡ true → is_spaced b (drop_last_space s) ≡ true
unfolding drop_last_space
drop_last_space-spaced b [] h = refl
drop_last_space-spaced b (c ∷ []) h = ground arith
drop_last_space-spaced b (c ∷ d ∷ cs) h =
    ground (arith, drop_last_space-spaced true (d ∷ cs), drop_last_space-spaced false (d ∷ cs))

drop_last_space-ends :
    (b : Bool) (s : Bytes) → is_spaced b s ≡ true → ends_in_space (drop_last_space s) ≡ false
unfolding drop_last_space
drop_last_space-ends b [] h = refl
drop_last_space-ends b (c ∷ []) h = ground arith
drop_last_space-ends b (c ∷ d ∷ []) h = ground arith
drop_last_space-ends b (c ∷ d ∷ e ∷ cs) h =
    ground (arith, drop_last_space-ends true (d ∷ e ∷ cs), drop_last_space-ends false (d ∷ e ∷ cs))

trim_loop-fix : (b : Bool) (s : Bytes) → is_spaced b s ≡ true → trim_loop b s ≡ s
unfolding trim_loop
trim_loop-fix b [] h = refl
trim_loop-fix b (c ∷ cs) h = ground (arith, trim_loop-fix true cs, trim_loop-fix false cs)

drop_last_space-fix : (s : Bytes) → ends_in_space s ≡ false → drop_last_space s ≡ s
unfolding drop_last_space
drop_last_space-fix [] h = refl
drop_last_space-fix (c ∷ []) h = ground arith
drop_last_space-fix (c ∷ d ∷ cs) h = ap (◌∷◌ c) (drop_last_space-fix (d ∷ cs) h)

letters-trim_loop : (b : Bool) (s : Bytes) → letters (trim_loop b s) ≡ letters s
unfolding trim_loop
letters-trim_loop b [] = refl
letters-trim_loop b (c ∷ cs) =
    ground (arith, letters-trim_loop true cs, letters-trim_loop false cs, letters-trim_loop b cs)

letters-drop_last_space : (s : Bytes) → letters (drop_last_space s) ≡ letters s
unfolding drop_last_space
letters-drop_last_space [] = refl
letters-drop_last_space (c ∷ []) = ground arith
letters-drop_last_space (c ∷ d ∷ cs) = ground (arith, letters-drop_last_space (d ∷ cs))

length-trim_loop : (b : Bool) (s : Bytes) → length (trim_loop b s) ≤ length s
unfolding trim_loop
length-trim_loop b [] = omega arith
length-trim_loop b (c ∷ cs) =
    ground (arith, length-trim_loop true cs, length-trim_loop false cs, length-trim_loop b cs)

length-drop_last_space : (s : Bytes) → length (drop_last_space s) ≤ length s
unfolding drop_last_space
length-drop_last_space [] = omega arith
length-drop_last_space (c ∷ []) = ground arith
length-drop_last_space (c ∷ d ∷ cs) = omega (arith, length-drop_last_space (d ∷ cs))

-- For every string, `trim` leaves words divided by single spaces (no blank at either end, no two
-- spaces in a row, no line break or tab), keeps every byte that is not blank in its order, and
-- writes no more bytes than the buffer held.
pub trim_lem :
    (s : Bytes) → IsTrimmed (trim s) × (letters (trim s) ≡ letters s) × (length (trim s) ≤ length s)
unfolding trim
trim_lem s =
    let spaced = trim_loop-spaced false s in
    (
      (
        drop_last_space-spaced false (trim_loop false s) spaced,
        drop_last_space-ends false (trim_loop false s) spaced,
      ),
      letters-drop_last_space (trim_loop false s) ∙ letters-trim_loop false s,
      omega (arith, length-drop_last_space (trim_loop false s), length-trim_loop false s),
    )

-- A string that has the shape already is left as it is.
pub trim-fix : (s : Bytes) → IsTrimmed s → trim s ≡ s
unfolding trim
trim-fix s (spaced, ends) =
    ap drop_last_space (trim_loop-fix false s spaced) ∙ drop_last_space-fix s ends

pub trim_idem : (s : Bytes) → trim (trim s) ≡ trim s
trim_idem s = trim-fix (trim s) (trim_lem s).0
