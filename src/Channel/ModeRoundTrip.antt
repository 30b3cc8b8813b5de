-- ===== src/Channel/ModeRoundTrip.antt =====
-- StrToChannelMode reads back what ChannelModeToStr writes, of src/utilities.c.
mod Params
mod Slots
use ebotula.Prelude.{
  ℕ, ◌≡◌, refl, ap, sym, ◌∙◌, Bool, true, false, not, ◌&&◌, ◌||◌, [], ◌∷◌, ◌++◌, List, Option, none,
  some, arith, ◌==◌, length, get_or, ◌⊎◌, inl, inr,
}
use ebotula.CString.{Bytes, mem, codes}
use ebotula.CString.Laws.{lacks, lacks-append}
use ebotula.CString.Outcome.{done}
use ebotula.Utilities.{trim, clearspace}
use ebotula.Utilities.Quotes.{without_spaces, has_no, clearspace-plain}
use ebotula.Channel.{
  ChannelMode, plain_slot, mode_buffer, add_parameter, channel_mode_to_str, split_parts, mode_loop,
  letters_of, blank_modes, str_to_channel_mode,
}
use Params.{
  no_blank, IsWord, MaybeWord, join, parts_of, Named, split-join, buffer-join, trim-join,
  mem-without_spaces,
}
use Slots.{
  mode_of, PlainFrom, Keyed, Given, next, spaces, all_slots, slots_quiet, Own, Own-plain,
  plain_letters_in_order, sign-cases,
}

-- The sign, the keyword's slot, the limit's slot, then the nine plain modes, each off or with its
-- own letter. The keyword and the limit are there exactly when their slots are on, and are words.
pub data IsModes : ChannelMode → Type 0 where
  modes :
      (a k l : ℕ) (rest : Bytes) (keyword limit : Option Bytes)
      → (a ≡ b' ') ⊎ (a ≡ b'+') ⊎ (a ≡ b'-')
      → Keyed b'k' k keyword
      → MaybeWord keyword
      → Keyed b'l' l limit
      → MaybeWord limit
      → Own plain_letters_in_order rest
      → IsModes (mode_of (a ∷ k ∷ l ∷ rest) keyword limit)

keyword-Named :
    (a k : ℕ) (s : Bytes) (keyword : Option Bytes)
    → Keyed b'k' k keyword
    → Named b'k' keyword (without_spaces (a ∷ k ∷ s))
keyword-Named a k s none e = tt
keyword-Named a k s (some p) e = mem-without_spaces b'k' (a ∷ k ∷ s) refl ∙ ground arith

limit-Named :
    (a k l : ℕ) (s : Bytes) (limit : Option Bytes)
    → Keyed b'l' l limit
    → Named b'l' limit (without_spaces (a ∷ k ∷ l ∷ s))
limit-Named a k l s none e = tt
limit-Named a k l s (some p) e = mem-without_spaces b'l' (a ∷ k ∷ l ∷ s) refl ∙ ground arith

Given-keyword :
    (s : Bytes) (keyword limit : Option Bytes) → Given (parts_of s keyword limit) 1 keyword
Given-keyword s none limit = tt
Given-keyword s (some p) none = refl
Given-keyword s (some p) (some q) = refl

Given-limit :
    (s : Bytes) (keyword limit : Option Bytes)
    → Given (parts_of s keyword limit) (next 1 keyword) limit
Given-limit s none none = tt
Given-limit s (some p) none = tt
Given-limit s none (some q) = refl
Given-limit s (some p) (some q) = refl

first_part :
    (s : Bytes) (keyword limit : Option Bytes)
    → letters_of (get_or (parts_of s keyword limit) 0 none) ≡ s
first_part s none none = refl
first_part s none (some q) = refl
first_part s (some p) none = refl
first_part s (some p) (some q) = refl

-- what ChannelModeToStr writes: the letters that are on, then the keyword, then the limit
pub channel_mode_to_str-join :
    {m : ChannelMode}
    → IsModes m
    → channel_mode_to_str m ≡ join (without_spaces m.mode_str) m.keyword m.limit
unfolding channel_mode_to_str
channel_mode_to_str-join (modes a k l rest keyword limit sign key wk lim wl own) =
    let plain = (Own-plain rest own).0 in
    let line = without_spaces (a ∷ k ∷ l ∷ rest) in
    let (quotes, words) = slots_quiet a k l rest keyword limit (sign-cases a sign) key lim plain in
    let nk = keyword-Named a k (l ∷ rest) keyword key in
    let nl = limit-Named a k l rest limit lim in
    ap (λ s. trim (add_parameter b'l' limit (add_parameter b'k' keyword s)))
      (clearspace-plain (a ∷ k ∷ l ∷ rest) quotes)
    ∙ ap trim (buffer-join line keyword limit nk nl)
    ∙ trim-join line keyword limit words nk nl wk wl

-- For well-formed modes, StrToChannelMode reads back what ChannelModeToStr has written.
pub str_to_channel_mode-channel_mode_to_str :
    {m : ChannelMode} → IsModes m → str_to_channel_mode (some (channel_mode_to_str m)) ≡ done m
unfolding str_to_channel_mode
str_to_channel_mode-channel_mode_to_str (modes a k l rest keyword limit sign key wk lim wl own) =
    let (plain, blank) = Own-plain rest own in
    let line = without_spaces (a ∷ k ∷ l ∷ rest) in
    let is = modes a k l rest keyword limit sign key wk lim wl own in
    let (quotes, words) = slots_quiet a k l rest keyword limit (sign-cases a sign) key lim plain in
    let parts =
      ap (λ s. split_parts 3 (some s)) (channel_mode_to_str-join is)
      ∙ split-join line keyword limit words wk wl in
    ap (λ ps. mode_loop ps (letters_of (get_or ps 0 none)) 1 blank_modes) parts
    ∙ ap (λ s. mode_loop (parts_of line keyword limit) s 1 blank_modes)
        (first_part line keyword limit)
    ∙ ap
        (λ s.
          mode_loop (parts_of line keyword limit) line 1
            (mode_of (b' ' ∷ b' ' ∷ b' ' ∷ s) none none))
        (sym blank)
    ∙ all_slots (parts_of line keyword limit) a k l rest keyword limit (sign-cases a sign) key
        (Given-keyword line keyword limit) lim (Given-limit line keyword limit) plain

no_blank-tab : (s : Bytes) → no_blank s ≡ true → lacks b'\t' s ≡ true
no_blank-tab [] h = refl
no_blank-tab (c ∷ s) h = ground (arith, no_blank-tab s)

join-tab :
    (s : Bytes) (p q : Option Bytes)
    → no_blank s ≡ true
    → MaybeWord p
    → MaybeWord q
    → lacks b'\t' (join s p q) ≡ true
join-tab s none none h wp wq = no_blank-tab s h
join-tab s none (some q) h wp wq =
    rw (lacks-append b'\t' s (b' ' ∷ q), no_blank-tab s h, no_blank-tab q wq.1)
join-tab s (some p) none h wp wq =
    rw (lacks-append b'\t' s (b' ' ∷ p), no_blank-tab s h, no_blank-tab p wp.1)
join-tab s (some p) (some q) h wp wq = rw (
  lacks-append b'\t' s (b' ' ∷ (p ++ b' ' ∷ q)),
  lacks-append b'\t' p (b' ' ∷ q),
  no_blank-tab s h,
  no_blank-tab p wp.1,
  no_blank-tab q wq.1,
)

-- the line of the modes never holds the tab that ends it in a channel's entry
pub channel_mode_to_str-tab :
    {m : ChannelMode} → IsModes m → lacks b'\t' (channel_mode_to_str m) ≡ true
channel_mode_to_str-tab (modes a k l rest keyword limit sign key wk lim wl own) =
    let is = modes a k l rest keyword limit sign key wk lim wl own in
    let plain = (Own-plain rest own).0 in
    let (quotes, words) = slots_quiet a k l rest keyword limit (sign-cases a sign) key lim plain in
    ap (lacks b'\t') (channel_mode_to_str-join is)
    ∙ join-tab (without_spaces (a ∷ k ∷ l ∷ rest)) keyword limit words wk wl
