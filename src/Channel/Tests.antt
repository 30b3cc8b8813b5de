-- ===== src/Channel/Tests.antt =====
-- Channel entries as the database keeps them.
use ebotula.Prelude.{◌+◌, ◌≤◌, inl, inr, length}
use ebotula.Channel.ModeRoundTrip.{IsModes, modes}
use ebotula.Channel.RoundTrip.{str_to_channel_data-channel_data_to_str}
use ebotula.Channel.Bounds.{modes_fit}
use ebotula.Channel.{ChannelData, channel_data_to_str, mode_buffer, mode_buffer_size}
use ebotula.Prelude.{◌≡◌, refl, some, none}
use ebotula.CString.{codes}
use ebotula.CString.Outcome.{done, fault}
use ebotula.CString.{strchr, take_until}
use ebotula.Utilities.{trim, clearspace}
use ebotula.Extract.{get_topic, get_greeting, get_channel_mode}
use ebotula.Channel.{
  add_parameter, ChannelMode, channel_mode_to_str, str_to_channel_mode, str_to_channel_data,
  blank_modes,
}

abbrev keyed : ChannelMode
keyed = record {
  mode_str = codes "+kltn       ";
  keyword = some (codes "secret");
  limit = some (codes "10");
}

keyed_str : channel_mode_to_str keyed ≡ codes "+kltn secret 10"
unfolding channel_mode_to_str add_parameter trim clearspace strchr
keyed_str = refl

keyed_parsed : str_to_channel_mode (some (codes "+kltn secret 10")) ≡ done keyed
unfolding str_to_channel_mode strchr take_until
keyed_parsed = refl

keyword_missing : str_to_channel_mode (some (codes "+k")) ≡ fault
unfolding str_to_channel_mode strchr take_until
keyword_missing = refl

data_parsed :
    str_to_channel_data (codes "\t\t")
    ≡ done (record { modes = blank_modes; topic = none; greeting = none })
unfolding str_to_channel_data str_to_channel_mode get_topic get_greeting get_channel_mode
data_parsed = refl

-- `+k` with a keyword, and the modes t and n
abbrev with_key : ChannelMode
with_key = record { mode_str = codes "+k tn       "; keyword = some (codes "secret"); limit = none }

with_key-IsModes : IsModes with_key
with_key-IsModes =
    modes b'+' b'k' b' ' (codes "tn       ") (some (codes "secret")) none (inr (inl refl)) refl
      (refl, refl) refl tt
      (
        inr refl,
        (
          inr refl,
          (inl refl, (inl refl, (inl refl, (inl refl, (inl refl, (inl refl, (inl refl, tt))))))),
        ),
      )

abbrev entry_data : ChannelData
entry_data = record { modes = with_key; topic = some (codes "news"); greeting = none }

str_to_channel_data-channel_data_to_str_example :
    str_to_channel_data (channel_data_to_str entry_data) ≡ done entry_data
str_to_channel_data-channel_data_to_str_example =
    str_to_channel_data-channel_data_to_str
      (record { has_modes = with_key-IsModes; has_topic = (refl, refl); has_greeting = tt })

modes_fit_example :
    (length keyed.mode_str ≡ 12) × (length (mode_buffer keyed) + 1 ≤ mode_buffer_size keyed)
modes_fit_example = modes_fit (some (codes "+kltn secret 10")) keyed keyed_parsed
