-- ===== src/Channel/ModeRoundTrip/Params.antt =====
-- The letters and the parameters of a mode line, which stand apart by single spaces.
use ebotula.Prelude.{
  ℕ, suc, ◌≡◌, refl, ap, sym, ◌∙◌, Bool, true, false, not, [], ◌∷◌, ◌++◌, List, Option, none, some,
  arith, ◌==◌, all, is_nil, append_assoc, append-nil,
}
use mathlib.Core.Bool.{false≢true}
use ebotula.CString.{Bytes, mem}
use ebotula.CString.Laws.{
  lacks, take_until-append, take_until-fix, strchr-append, strchr-here, strchr-none, strchr-mem,
  mem-append,
}
use ebotula.Utilities.{trim}
use ebotula.Utilities.Quotes.{without_spaces}
use ebotula.Utilities.TrimShape.{is_blank, is_spaced, ends_in_space, IsTrimmed, trim-fix}
use ebotula.Channel.{split_parts, add_parameter}

-- one word: not empty, and without blanks
abbrev pub no_blank : Bytes → Bool
no_blank s = all (λ c. not (is_blank c)) s

abbrev pub IsWord : Bytes → Type 0
IsWord s = (is_nil s ≡ false) × (no_blank s ≡ true)

abbrev pub MaybeWord : Option Bytes → Type 0
MaybeWord none = Unit
MaybeWord (some s) = IsWord s

no_blank-lacks : (s : Bytes) → no_blank s ≡ true → lacks b' ' s ≡ true
no_blank-lacks [] h = refl
no_blank-lacks (c ∷ s) h = ground (arith, no_blank-lacks s)

spaced_word : (b : Bool) (s t : Bytes) → IsWord s → is_spaced b (s ++ t) ≡ is_spaced true t
spaced_word b [] t h = absurd (false≢true (sym h.0))
spaced_word b (c ∷ []) t h = ground arith
spaced_word b (c ∷ d ∷ s) t h = ground (arith, spaced_word true (d ∷ s) t)

ends_word : (s : Bytes) → no_blank s ≡ true → ends_in_space s ≡ false
ends_word [] h = refl
ends_word (c ∷ []) h = ground arith
ends_word (c ∷ d ∷ s) h = ground (arith, ends_word (d ∷ s))

ends-append : (s : Bytes) (c : ℕ) (t : Bytes) → ends_in_space (s ++ c ∷ t) ≡ ends_in_space (c ∷ t)
ends-append [] c t = refl
ends-append (x ∷ []) c t = refl
ends-append (x ∷ y ∷ s) c t = ends-append (y ∷ s) c t

ends_behind : (s t : Bytes) → IsWord t → ends_in_space (s ++ b' ' ∷ t) ≡ false
ends_behind s [] h = absurd (false≢true (sym h.0))
ends_behind s (c ∷ t) h = ends-append s b' ' (c ∷ t) ∙ ends_word (c ∷ t) h.1

spaced_one : (b : Bool) (s : Bytes) → IsWord s → is_spaced b s ≡ true
spaced_one b s h = ap (is_spaced b) (sym (append-nil s)) ∙ spaced_word b s [] h

-- a line of words as a list of parts
abbrev pub join : Bytes → Option Bytes → Option Bytes → Bytes
join s none none = s
join s none (some q) = s ++ b' ' ∷ q
join s (some p) none = s ++ b' ' ∷ p
join s (some p) (some q) = s ++ b' ' ∷ (p ++ b' ' ∷ q)

abbrev pub parts_of : Bytes → Option Bytes → Option Bytes → List (Option Bytes)
parts_of s none none = some s ∷ none ∷ none ∷ []
parts_of s none (some q) = some s ∷ some q ∷ none ∷ []
parts_of s (some p) none = some s ∷ some p ∷ none ∷ []
parts_of s (some p) (some q) = some s ∷ some p ∷ some q ∷ []

split_last :
    (n : ℕ) (s : Bytes)
    → lacks b' ' s ≡ true
    → split_parts (suc n) (some s) ≡ some s ∷ split_parts n none
unfolding split_parts
split_last n s h = rw (take_until-fix b' ' s h, strchr-none b' ' s h)

split_more :
    (n : ℕ) (s t : Bytes)
    → lacks b' ' s ≡ true
    → split_parts (suc n) (some (s ++ b' ' ∷ t)) ≡ some s ∷ split_parts n (some t)
unfolding split_parts
split_more n s t h =
    rw (take_until-append b' ' s t h, strchr-append b' ' s (b' ' ∷ t) h, strchr-here b' ' t)

-- the line that the letters `s` and the parameters make: each parameter has its letter
abbrev pub Named : ℕ → Option Bytes → Bytes → Type 0
Named c none s = Unit
Named c (some _) s = mem c s ≡ true

not_nil : (c : ℕ) (s : Bytes) → mem c s ≡ true → is_nil s ≡ false
not_nil c [] h = absurd (false≢true h)
not_nil c (x ∷ s) h = refl

pub split-join :
    (s : Bytes) (p q : Option Bytes)
    → no_blank s ≡ true
    → MaybeWord p
    → MaybeWord q
    → split_parts 3 (some (join s p q)) ≡ parts_of s p q
unfolding split_parts
split-join s none none h wp wq = split_last 2 s (no_blank-lacks s h)
split-join s none (some q) h wp wq =
    split_more 2 s q (no_blank-lacks s h)
    ∙ ap (λ r. some s ∷ r) (split_last 1 q (no_blank-lacks q wq.1))
split-join s (some p) none h wp wq =
    split_more 2 s p (no_blank-lacks s h)
    ∙ ap (λ r. some s ∷ r) (split_last 1 p (no_blank-lacks p wp.1))
split-join s (some p) (some q) h wp wq =
    split_more 2 s (p ++ b' ' ∷ q) (no_blank-lacks s h)
    ∙ ap (λ r. some s ∷ r)
        (split_more 1 p q (no_blank-lacks p wp.1)
          ∙ ap (λ r. some p ∷ r) (split_last 0 q (no_blank-lacks q wq.1)))

join-IsTrimmed :
    (s : Bytes) (p q : Option Bytes)
    → no_blank s ≡ true
    → Named b'k' p s
    → Named b'l' q s
    → MaybeWord p
    → MaybeWord q
    → IsTrimmed (join s p q)
join-IsTrimmed [] none none h np nq wp wq = (refl, refl)
join-IsTrimmed (c ∷ s) none none h np nq wp wq =
    (spaced_one false (c ∷ s) (refl, h), ends_word (c ∷ s) h)
join-IsTrimmed s none (some q) h np nq wp wq = (
  spaced_word false s (b' ' ∷ q) (not_nil b'l' s nq, h) ∙ spaced_one false q wq,
  ends_behind s q wq,
)
join-IsTrimmed s (some p) none h np nq wp wq = (
  spaced_word false s (b' ' ∷ p) (not_nil b'k' s np, h) ∙ spaced_one false p wp,
  ends_behind s p wp,
)
join-IsTrimmed s (some p) (some q) h np nq wp wq = (
  spaced_word false s (b' ' ∷ (p ++ b' ' ∷ q)) (not_nil b'k' s np, h)
      ∙ spaced_word false p (b' ' ∷ q) wp
      ∙ spaced_one false q wq,
  ap ends_in_space (sym (append_assoc s (b' ' ∷ p) (b' ' ∷ q))) ∙ ends_behind (s ++ b' ' ∷ p) q wq,
)

added : (c : ℕ) (s p : Bytes) → mem c s ≡ true → add_parameter c (some p) s ≡ s ++ b' ' ∷ p
unfolding add_parameter
added c s p h = rw (strchr-mem c s, h)

pub buffer-join :
    (s : Bytes) (p q : Option Bytes)
    → Named b'k' p s
    → Named b'l' q s
    → add_parameter b'l' q (add_parameter b'k' p s) ≡ join s p q
unfolding add_parameter
buffer-join s none none np nq = refl
buffer-join s none (some q) np nq = added b'l' s q nq
buffer-join s (some p) none np nq = added b'k' s p np
buffer-join s (some p) (some q) np nq =
    ap (add_parameter b'l' (some q)) (added b'k' s p np)
    ∙ added b'l' (s ++ b' ' ∷ p) q (rw (mem-append b'l' s (b' ' ∷ p), nq))
    ∙ append_assoc s (b' ' ∷ p) (b' ' ∷ q)

-- what `trim` leaves of the line, and how it splits
pub trim-join :
    (s : Bytes) (p q : Option Bytes)
    → no_blank s ≡ true
    → Named b'k' p s
    → Named b'l' q s
    → MaybeWord p
    → MaybeWord q
    → trim (join s p q) ≡ join s p q
trim-join s p q h np nq wp wq = trim-fix (join s p q) (join-IsTrimmed s p q h np nq wp wq)

pub mem-without_spaces :
    (c : ℕ) (s : Bytes) → (c == b' ') ≡ false → mem c (without_spaces s) ≡ mem c s
mem-without_spaces c [] h = refl
mem-without_spaces c (x ∷ s) h = ground (arith, mem-without_spaces c s)
