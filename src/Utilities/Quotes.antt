-- ===== src/Utilities/Quotes.antt =====
-- What `clearspace` of src/utilities.c removes: the quotation marks, and the spaces outside them.
use ebotula.Prelude.{
  ap, sym, ◌∙◌, append-nil, length, ◌≤◌, ◌≡◌, refl, Bool, true, false, not, [], ◌∷◌, ◌++◌, arith,
  ◌==◌, all, if◌then◌else◌,
}
use ebotula.CString.{Bytes}
use ebotula.Utilities.{clearspace_loop, clearspace}

abbrev pub has_no : Bytes → Bool
has_no s = all (λ c. not (c == b'\"')) s

abbrev pub without_spaces : Bytes → Bytes
without_spaces [] = []
without_spaces (c ∷ cs) = if c == b' ' then without_spaces cs else c ∷ without_spaces cs

has_no-clearspace_loop : (b : Bool) (s : Bytes) → has_no (clearspace_loop b s) ≡ true
unfolding clearspace_loop
has_no-clearspace_loop b [] = refl
has_no-clearspace_loop b (c ∷ cs) =
    ground (arith, has_no-clearspace_loop b cs, has_no-clearspace_loop (not b) cs)

-- an open quotation keeps its spaces
clearspace_loop-inside :
    (s rest : Bytes)
    → has_no s ≡ true
    → clearspace_loop true (s ++ b'\"' ∷ rest) ≡ s ++ clearspace_loop false rest
unfolding clearspace_loop
clearspace_loop-inside [] rest h = refl
clearspace_loop-inside (c ∷ s) rest h = ground (arith, clearspace_loop-inside s rest)

clearspace_loop-outside :
    (s rest : Bytes)
    → has_no s ≡ true
    → clearspace_loop false (s ++ rest) ≡ without_spaces s ++ clearspace_loop false rest
unfolding clearspace_loop
clearspace_loop-outside [] rest h = refl
clearspace_loop-outside (c ∷ s) rest h = ground (arith, clearspace_loop-outside s rest)

-- The result holds no quotation mark, whatever the input.
pub clearspace-no_quote : (s : Bytes) → has_no (clearspace s) ≡ true
unfolding clearspace
clearspace-no_quote s = has_no-clearspace_loop false s

-- A line of an unquoted part, a quoted part and a rest: the unquoted part loses its spaces, the
-- quoted part loses its marks and keeps its spaces, and the rest is treated as a line of its own.
pub clearspace-quoted :
    (key value rest : Bytes)
    → has_no key ≡ true
    → has_no value ≡ true
    → clearspace (key ++ (b'\"' ∷ (value ++ b'\"' ∷ rest)))
      ≡ without_spaces key ++ (value ++ clearspace rest)
unfolding clearspace clearspace_loop
clearspace-quoted key value rest h k = ground (
  arith,
  clearspace_loop-outside key (b'\"' ∷ (value ++ b'\"' ∷ rest)),
  clearspace_loop-inside value rest,
)

length-clearspace_loop : (b : Bool) (s : Bytes) → length (clearspace_loop b s) ≤ length s
unfolding clearspace_loop
length-clearspace_loop b [] = omega arith
length-clearspace_loop b (c ∷ cs) =
    ground (arith, length-clearspace_loop b cs, length-clearspace_loop (not b) cs)

-- the loop writes no more than it has read
pub length-clearspace : (s : Bytes) → length (clearspace s) ≤ length s
unfolding clearspace
length-clearspace s = length-clearspace_loop false s

-- without quotation marks just the spaces go
pub clearspace-plain : (s : Bytes) → has_no s ≡ true → clearspace s ≡ without_spaces s
unfolding clearspace clearspace_loop
clearspace-plain s h =
    ap (clearspace_loop false) (sym (append-nil s))
    ∙ clearspace_loop-outside s [] h
    ∙ append-nil (without_spaces s)
