-- ===== src/Channel/RoundTrip.antt =====
-- A channel's database entry: StrToChannelData reads back what ChannelDataToStr writes, of
-- src/utilities.c, by getTopic, getGreeting and getChannelMode of src/extract.c.
use ebotula.Prelude.{
  ◌≡◌, refl, ap, sym, ◌∙◌, true, false, [], ◌∷◌, ◌++◌, Option, none, some, is_nil, if◌then◌else◌,
  append_assoc,
}
use ebotula.CString.{Bytes, strchr, strrchr}
use ebotula.CString.Laws.{lacks, take_until-append, strchr-append, strchr-here, strrchr-append}
use ebotula.CString.Outcome.{done}
use ebotula.Extract.{get_topic, get_greeting, get_channel_mode}
use ebotula.Channel.{
  ChannelData, or_empty, channel_mode_to_str, str_to_channel_data, channel_data_to_str,
}
use ebotula.Channel.ModeRoundTrip.{
  IsModes, str_to_channel_mode-channel_mode_to_str, channel_mode_to_str-tab,
}

-- a text that is there, and so not empty, and that has no tab
abbrev pub IsText : Option Bytes → Type 0
IsText none = Unit
IsText (some s) = (is_nil s ≡ false) × (lacks b'\t' s ≡ true)

pub record IsData (d : ChannelData) : Type 0 where
  pub has_modes : IsModes d.modes
  pub has_topic : IsText d.topic
  pub has_greeting : IsText d.greeting

lacks-or_empty : (o : Option Bytes) → IsText o → lacks b'\t' (or_empty o) ≡ true
lacks-or_empty none h = refl
lacks-or_empty (some s) h = h.1

abbrev some_unless_nil : Bytes → Option Bytes
some_unless_nil [] = none
some_unless_nil (c ∷ s) = some (c ∷ s)

some-or_empty : (o : Option Bytes) → IsText o → some_unless_nil (or_empty o) ≡ o
some-or_empty none h = refl
some-or_empty (some []) h = cc
some-or_empty (some (c ∷ s)) h = refl

unless_nil : (s : Bytes) → (if is_nil s then none else some s) ≡ some_unless_nil s
unless_nil [] = refl
unless_nil (c ∷ s) = refl

module _ (m t g : Bytes) (hm : lacks b'\t' m ≡ true) where
  abbrev entry : Bytes
  entry = m ++ (b'\t' ∷ (t ++ (b'\t' ∷ g)))

  first_tab : strchr b'\t' entry ≡ some (b'\t' ∷ (t ++ (b'\t' ∷ g)))
  first_tab =
      strchr-append b'\t' m (b'\t' ∷ (t ++ (b'\t' ∷ g))) hm ∙ strchr-here b'\t' (t ++ (b'\t' ∷ g))

  mode-entry : get_channel_mode entry ≡ m
  unfolding get_channel_mode
  mode-entry = rw (first_tab, get_channel_mode) (take_until-append b'\t' m (t ++ (b'\t' ∷ g)) hm)

  module _ (ht : lacks b'\t' t ≡ true) where
    second_tab : strchr b'\t' (t ++ (b'\t' ∷ g)) ≡ some (b'\t' ∷ g)
    second_tab = strchr-append b'\t' t (b'\t' ∷ g) ht ∙ strchr-here b'\t' g

    topic-entry : get_topic entry ≡ some_unless_nil t
    unfolding get_topic
    topic-entry =
        rw (first_tab, get_topic) (rw (second_tab, take_until-append b'\t' t g ht) (unless_nil t))

    last_tab : lacks b'\t' g ≡ true → strrchr b'\t' entry ≡ some (b'\t' ∷ g)
    last_tab hg =
        ap (strrchr b'\t') (sym (append_assoc m (b'\t' ∷ t) (b'\t' ∷ g)))
        ∙ strrchr-append b'\t' (m ++ (b'\t' ∷ t)) g hg

    greeting-entry : lacks b'\t' g ≡ true → get_greeting entry ≡ some_unless_nil g
    unfolding get_greeting
    greeting-entry hg = rw (last_tab hg, get_greeting) (unless_nil g)

-- For well-formed modes, and a topic and a greeting that are absent or texts without tabs,
-- StrToChannelData reads back what ChannelDataToStr has written: all three parts, and no fault.
pub str_to_channel_data-channel_data_to_str :
    {d : ChannelData} → IsData d → str_to_channel_data (channel_data_to_str d) ≡ done d
unfolding str_to_channel_data channel_data_to_str
str_to_channel_data-channel_data_to_str {d} is =
    let m = channel_mode_to_str d.modes in
    let hm = channel_mode_to_str-tab is.has_modes in
    let ht = lacks-or_empty d.topic is.has_topic in
    let hg = lacks-or_empty d.greeting is.has_greeting in
    rw (
      mode-entry m (or_empty d.topic) (or_empty d.greeting) hm,
      str_to_channel_mode-channel_mode_to_str is.has_modes,
      topic-entry m (or_empty d.topic) (or_empty d.greeting) hm ht,
      greeting-entry m (or_empty d.topic) (or_empty d.greeting) hm ht hg,
      some-or_empty d.topic is.has_topic,
      some-or_empty d.greeting is.has_greeting,
    )
