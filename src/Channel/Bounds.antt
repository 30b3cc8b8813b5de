-- ===== src/Channel/Bounds.antt =====
-- The buffers of ChannelModeToStr and StrToChannelMode of src/utilities.c.
use ebotula.Prelude.{
  ℕ, ◌+◌, ◌≤◌, ◌≡◌, refl, ◌∙◌, ap, Bool, true, false, ◌||◌, [], ◌∷◌, List, Option, none, some,
  arith, ◌==◌, if◌then◌else◌, length, length-append, length-set, get_or, Bool-cases, inl, inr,
}
use ebotula.CString.{Bytes, mem}
use ebotula.CString.Laws.{lacks, take_until-fix, strchr-none}
use ebotula.CString.Outcome.{Outcome, done, fault, ◌>>=◌}
use mathlib.Core.Path.{subst}
use ebotula.Utilities.{clearspace}
use ebotula.Utilities.Quotes.{length-clearspace}
use ebotula.Channel.{
  ChannelMode, add_parameter, mode_buffer, mode_buffer_size, split_parts, plain_slot, set_slot,
  with_keyword, with_limit, part_at, mode_loop, str_to_channel_mode, blank_modes, length_or_zero,
  letters_of,
}

length-add_parameter :
    (c : ℕ) (p : Option Bytes) (s : Bytes)
    → length (add_parameter c p s) ≤ length s + 1 + length_or_zero p
unfolding add_parameter
length-add_parameter c none s = omega arith
length-add_parameter c (some p) s = ground (arith, length-append s (b' ' ∷ p))

length-set_slot :
    (m : ChannelMode) (o : Option ℕ) (c : ℕ) → length (set_slot m o c).mode_str ≡ length m.mode_str
length-set_slot m none c = refl
length-set_slot m (some i) c = length-set m.mode_str i c

-- what a finished parse has
abbrev HasLength : ℕ → Outcome ChannelMode → Type 0
HasLength n (done m) = length m.mode_str ≡ n
HasLength n fault = Unit

module _ (n : ℕ) where
  HasLength-bind :
      (o : Outcome Bytes) (f : Bytes → Outcome ChannelMode)
      → ((p : Bytes) → HasLength n (f p))
      → HasLength n (o >>= f)
  HasLength-bind (done p) f h = h p
  HasLength-bind fault f h = tt

  HasLength-if :
      (b : Bool) (x y : Outcome ChannelMode)
      → HasLength n x
      → HasLength n y
      → HasLength n (if b then x else y)
  HasLength-if true x y h k = h
  HasLength-if false x y h k = k

  mode_loop-length :
      (parts : List (Option Bytes)) (s : Bytes) (j : ℕ) (m : ChannelMode)
      → length m.mode_str ≡ n
      → HasLength n (mode_loop parts s j m)
  unfolding mode_loop
  mode_loop-length parts [] j m e = e
  mode_loop-length parts (c ∷ cs) j m e =
      HasLength-if (c == b'k') _ _
        (HasLength-bind (part_at parts j) _ λ p.
          mode_loop-length parts cs (j + 1) (with_keyword m p) (length-set m.mode_str 1 b'k' ∙ e))
        (HasLength-if (c == b'l') _ _
          (HasLength-bind (part_at parts j) _ λ p.
            mode_loop-length parts cs (j + 1) (with_limit m p) (length-set m.mode_str 2 b'l' ∙ e))
          (mode_loop-length parts cs j (set_slot m (plain_slot c) c)
            (length-set_slot m (plain_slot c) c ∙ e)))

str_to_channel_mode-length : (s : Option Bytes) → HasLength 12 (str_to_channel_mode s)
unfolding str_to_channel_mode
str_to_channel_mode-length s =
    mode_loop-length 12 (split_parts 3 s) (letters_of (get_or (split_parts 3 s) 0 none)) 1
      blank_modes refl

-- Whatever mode line is parsed, the slots of the result are the twelve of the structure, and the
-- string that ChannelModeToStr then builds, with its NUL, fits the buffer that it allocates.
pub modes_fit :
    (s : Option Bytes) (m : ChannelMode)
    → str_to_channel_mode s ≡ done m
    → (length m.mode_str ≡ 12) × (length (mode_buffer m) + 1 ≤ mode_buffer_size m)
unfolding mode_buffer mode_buffer_size
modes_fit s m h =
    let slots : length m.mode_str ≡ 12 = subst (HasLength 12) h (str_to_channel_mode-length s) in
    (
      slots,
      omega (
        arith,
        length-add_parameter b'l' m.limit (add_parameter b'k' m.keyword (clearspace m.mode_str)),
        length-add_parameter b'k' m.keyword (clearspace m.mode_str),
        length-clearspace m.mode_str,
      ),
    )

mode_loop-fault :
    (parts : List (Option Bytes)) (s : Bytes) (m : ChannelMode)
    → part_at parts 1 ≡ fault
    → (mem b'k' s || mem b'l' s) ≡ true
    → mode_loop parts s 1 m ≡ fault
unfolding mode_loop
mode_loop-fault parts [] m none_there h = cc
mode_loop-fault parts (c ∷ cs) m none_there h = elim (Bool-cases (c == b'k')) [
  | inl k ↦ rw k (rw none_there)
  | inr k ↦ elim (Bool-cases (c == b'l')) [
    | inl l ↦ rw (k, l) (rw none_there)
    | inr l ↦
        rw (k, l)
          (mode_loop-fault parts cs (set_slot m (plain_slot c) c) none_there (rw (k, l) at h))
  ]
]

-- A mode line without a space that names the keyword or the limit makes StrToChannelMode read a
-- parameter that is not there, also where the line removes the mode.
pub missing_parameter :
    (s : Bytes)
    → lacks b' ' s ≡ true
    → (mem b'k' s || mem b'l' s) ≡ true
    → str_to_channel_mode (some s) ≡ fault
unfolding str_to_channel_mode
missing_parameter s plain named =
    let parts : split_parts 3 (some s) ≡ some s ∷ none ∷ none ∷ [] =
      rw (strchr-none b' ' s plain, take_until-fix b' ' s plain) in
    ap (λ ps. mode_loop ps (letters_of (get_or ps 0 none)) 1 blank_modes) parts
    ∙ mode_loop-fault (some s ∷ none ∷ none ∷ []) s blank_modes refl named
