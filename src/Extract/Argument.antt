-- ===== src/Extract/Argument.antt =====
-- getArgument of src/extract.c: what it finds, and that its write into the line is stable.
use ebotula.Prelude.{
  ℕ, ◌≡◌, refl, ap, sym, ◌∙◌, true, false, not, [], ◌∷◌, ◌++◌, Option, none, some, arith, ◌==◌,
  if◌then◌else◌, is_nil, Bool-cases, Option-cases, ◌≢◌, inl, inr, and_parts,
}
use ebotula.CString.{Bytes, starts_with, strstr, strstr_before}
use ebotula.CString.Laws.{lacks, strstr-here, strstr-skip, starts_with-append}
use ebotula.Utilities.{trim}
use ebotula.Utilities.TrimShape.{IsTrimmed, letters, trim_lem, trim_idem}
use ebotula.Extract.{argument_loop, command_mark, skip_mark, get_argument}

letters-nil : (s : Bytes) → IsTrimmed s → letters s ≡ [] → is_nil s ≡ true
letters-nil [] t h = refl
letters-nil (c ∷ s) t h = ground arith

argument_loop-blank : (s : Bytes) → letters s ≡ [] → (argument_loop s).1 ≡ none
unfolding argument_loop
argument_loop-blank [] h = refl
argument_loop-blank (c ∷ []) h = refl
argument_loop-blank (c ∷ d ∷ s) h =
    let blank : letters (d ∷ s) ≡ [] = ground arith in
    let same : letters (trim (d ∷ s)) ≡ [] = (trim_lem (d ∷ s)).1 ∙ blank in
    let empty = letters-nil (trim (d ∷ s)) (trim_lem (d ∷ s)).0 same in
    ground (arith, argument_loop-blank s, argument_loop-blank (d ∷ s))

letters-tail : (x : ℕ) (t : Bytes) → letters (x ∷ t) ≡ [] → letters t ≡ []
letters-tail x t h = ground arith

nil_of : (t : Bytes) → is_nil t ≡ true → t ≡ []
nil_of [] e = refl
nil_of (c ∷ t) e = cc

trim-nil-letters : (s : Bytes) → is_nil (trim s) ≡ true → letters s ≡ []
trim-nil-letters s h = sym (trim_lem s).1 ∙ ap letters (nil_of (trim s) h)

-- the second run, on a line whose argument is trimmed already
loop_kept :
    (c : ℕ) (r : Bytes)
    → (c == b' ') ≡ true
    → is_nil r ≡ false
    → trim r ≡ r
    → argument_loop (c ∷ r) ≡ (c ∷ r, some r)
unfolding argument_loop
loop_kept c [] e n h = cc
loop_kept c (d ∷ r) e n h = rw (e, h)

loop_skipped :
    (c : ℕ) (r : Bytes)
    → (c == b' ') ≡ false
    → argument_loop (c ∷ r) ≡ (c ∷ (argument_loop r).0, (argument_loop r).1)
unfolding argument_loop
loop_skipped c [] e = refl
loop_skipped c (d ∷ r) e = rw e

argument_loop_idem : (s : Bytes) → argument_loop (argument_loop s).0 ≡ argument_loop s
unfolding argument_loop
argument_loop_idem [] = refl
argument_loop_idem (c ∷ []) = refl
argument_loop_idem (c ∷ d ∷ s) = elim (Bool-cases (c == b' ')) [
  | inl e ↦ elim (Bool-cases (is_nil (trim (d ∷ s)))) [
    | inl n ↦
        let blank : letters s ≡ [] = letters-tail d s (trim-nil-letters (d ∷ s) n) in
        rw (e, n) (ap (λ r. (c ∷ [], r)) (sym (argument_loop-blank s blank)))
    | inr n ↦ rw (e, n) (loop_kept c (trim (d ∷ s)) e n (trim_idem (d ∷ s)))
  ]
  | inr e ↦ rw e (
      loop_skipped c (argument_loop (d ∷ s)).0 e
      ∙ ap (λ (r : Bytes × Option Bytes). (c ∷ r.0, r.1)) (argument_loop_idem (d ∷ s)))
]

starts_with-mark : (s : Bytes) → starts_with command_mark s ≡ true → s ≡ command_mark ++ skip_mark s
unfolding starts_with
starts_with-mark [] h = cc
starts_with-mark (a ∷ []) h = ground arith
starts_with-mark (a ∷ b ∷ []) h = ground arith
starts_with-mark (a ∷ b ∷ c ∷ s) h = ground arith

-- only the three bytes behind a position decide whether the mark starts there
no_mark_before :
    (c : ℕ) (b s t : Bytes)
    → starts_with command_mark (c ∷ (b ++ (command_mark ++ s))) ≡ false
    → starts_with command_mark (c ∷ (b ++ (command_mark ++ t))) ≡ false
unfolding starts_with
no_mark_before c [] s t h = ground arith
no_mark_before c (x ∷ []) s t h = ground arith
no_mark_before c (x ∷ y ∷ b) s t h = h

strstr_nil : {s : Bytes} → strstr command_mark [] ≢ some s
unfolding strstr starts_with
strstr_nil h = cc

-- where the mark is, in parts of the line
strstr-mark :
    (line s : Bytes)
    → strstr command_mark line ≡ some s
    → (line ≡ strstr_before command_mark line ++ s) × (s ≡ command_mark ++ skip_mark s)
strstr-mark [] s h = absurd (strstr_nil h)
strstr-mark (c ∷ cs) s h = elim (Bool-cases (starts_with command_mark (c ∷ cs))) [
  | inl e ↦
      let (found, front) = strstr-here command_mark c cs e in
      let same : c ∷ cs ≡ s = cc in (rw front same, rw (← same) (starts_with-mark (c ∷ cs) e))
  | inr e ↦
      let (found, front) = strstr-skip command_mark c cs e in
      let (split, mark) = strstr-mark cs s (sym found ∙ h) in (rw front (ap (◌∷◌ c) split), mark)
]

-- the mark stays where it is when the text behind it changes
mark_stays :
    (line s t : Bytes)
    → strstr command_mark line ≡ some s
    → (strstr command_mark (strstr_before command_mark line ++ (command_mark ++ t))
        ≡ some (command_mark ++ t))
      × (strstr_before command_mark (strstr_before command_mark line ++ (command_mark ++ t))
          ≡ strstr_before command_mark line)
mark_stays [] s t h = absurd (strstr_nil h)
mark_stays (c ∷ cs) s t h = elim (Bool-cases (starts_with command_mark (c ∷ cs))) [
  | inl e ↦
      rw (strstr-here command_mark c cs e).1
        (strstr-here command_mark b' ' (b':' ∷ b'!' ∷ t) (starts_with-append command_mark t))
  | inr e ↦
      let (found, front) = strstr-skip command_mark c cs e in
      let (split, mark) = strstr-mark cs s (sym found ∙ h) in
      let b = strstr_before command_mark cs in
      let e' =
        no_mark_before c b (skip_mark s) t
          (sym (ap (λ r. starts_with command_mark (c ∷ r)) (split ∙ ap (λ r. b ++ r) mark)) ∙ e) in
      let (found', front') = strstr-skip command_mark c (b ++ (command_mark ++ t)) e' in
      let (found'', front'') = mark_stays cs s t (sym found ∙ h) in
      rw front (found' ∙ found'', front' ∙ ap (◌∷◌ c) front'')
]

get_argument-mark :
    (line s : Bytes)
    → strstr command_mark line ≡ some s
    → get_argument line ≡ (
      strstr_before command_mark line ++ (command_mark ++ (argument_loop (skip_mark s)).0),
      (argument_loop (skip_mark s)).1,
    )
unfolding get_argument
get_argument-mark line s h = rw (h, get_argument)

get_argument-plain :
    (line : Bytes) → strstr command_mark line ≡ none → get_argument line ≡ (line, none)
unfolding get_argument
get_argument-plain line h = rw (h, get_argument)

-- Run again on the line that it has changed, getArgument changes nothing more and finds the same
-- argument, for every line. So the calls that each extract a field of one line agree.
pub get_argument_idem : (line : Bytes) → get_argument (get_argument line).0 ≡ get_argument line
get_argument_idem line = elim (Option-cases (strstr command_mark line)) [
  | inl plain ↦ ap (λ (r : Bytes × Option Bytes). get_argument r.0) (get_argument-plain line plain)
  | inr (s, h) ↦
      let r = argument_loop (skip_mark s) in
      let (found, front) = mark_stays line s r.0 h in
      rw (get_argument-mark line s h) (
        get_argument-mark (strstr_before command_mark line ++ (command_mark ++ r.0))
          (command_mark ++ r.0) found
        ∙ rw (front, argument_loop_idem (skip_mark s)))
]

argument_loop-word :
    (word rest : Bytes)
    → lacks b' ' word ≡ true
    → argument_loop (word ++ b' ' ∷ rest)
      ≡ (word ++ b' ' ∷ trim rest, if is_nil (trim rest) then none else some (trim rest))
unfolding argument_loop
argument_loop-word [] [] h = refl
argument_loop-word [] (d ∷ rest) h = elim (Bool-cases (is_nil (trim (d ∷ rest)))) [
  | inl n ↦
      let blank = argument_loop-blank rest (letters-tail d rest (trim-nil-letters (d ∷ rest) n)) in
      rw n (cc (blank, nil_of (trim (d ∷ rest)) n))
  | inr n ↦ rw n
]
argument_loop-word (c ∷ word) rest h =
    let (here, plain) = and_parts (not (c == b' ')) (lacks b' ' word) h in
    loop_skipped c (word ++ b' ' ∷ rest) (ground arith)
    ∙ ap (λ (r : Bytes × Option Bytes). (c ∷ r.0, r.1)) (argument_loop-word word rest plain)

-- In a line whose first ` :!` is followed by a word, a space and a rest, getArgument trims the rest
-- in place and returns it; it returns NULL when the rest is blank.
pub get_argument_lem :
    (line word rest : Bytes)
    → strstr command_mark line ≡ some (command_mark ++ (word ++ b' ' ∷ rest))
    → lacks b' ' word ≡ true
    → get_argument line ≡ (
      strstr_before command_mark line ++ (command_mark ++ (word ++ b' ' ∷ trim rest)),
      if is_nil (trim rest) then none else some (trim rest),
    )
get_argument_lem line word rest h plain =
    get_argument-mark line (command_mark ++ (word ++ b' ' ∷ rest)) h
    ∙ ap
        (λ (r : Bytes × Option Bytes).
          (strstr_before command_mark line ++ (command_mark ++ r.0), r.1))
        (argument_loop-word word rest plain)
