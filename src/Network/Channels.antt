-- ===== src/Network/Channels.antt =====
-- JoinAllChannelsThread of src/network.c.
use ebotula.Prelude.{◌≡◌, ◌∙◌, refl, true, List, [], ◌∷◌, ◌++◌, append-nil, append_assoc}
use ebotula.CString.{Bytes}
use ebotula.CString.Outcome.{done}
use ebotula.Irc.{join}
use ebotula.Irc.Lines.{join_call, line_of, message_of, run_call-message_of}
use ebotula.Queue.Memory.{QueueData}
use ebotula.Database.Backend.{Library}
use ebotula.Database.{channel_db, list_db}
use ebotula.Bot.{World, lines, emit, for_each}
use ebotula.Network.{join_all_channels_thread}

-- the lines that join the channels of these items, in their order
abbrev pub join_lines : List QueueData → List Bytes
join_lines [] = []
join_lines (item ∷ rest) = lines (line_of (message_of (join_call item.bytes))) ++ join_lines rest

for_each-join :
    (lib : Library) (items : List QueueData) (w : World lib)
    → for_each items (λ item. emit (join true item.bytes)) w
      ≡ done (tt, record w { sent = w.sent ++ join_lines items })
unfolding for_each
for_each-join lib [] w = rw (append-nil w.sent) refl
for_each-join lib (item ∷ rest) w =
    let line = lines (line_of (message_of (join_call item.bytes))) in
    rw (run_call-message_of (join_call item.bytes)) (
      for_each-join lib rest (record w { sent = w.sent ++ line })
      ∙ rw (append_assoc w.sent line (join_lines rest)) refl)

-- JoinAllChannelsThread sends one JOIN for each channel that the channel database lists, in the
-- order of the list, changes nothing else, and ends.
pub join_all_channels_thread-lines :
    (lib : Library) (w : World lib)
    → join_all_channels_thread lib w
      ≡ done (tt, record w { sent = w.sent ++ join_lines (list_db lib channel_db w.dbf) })
unfolding join_all_channels_thread
join_all_channels_thread-lines lib w = for_each-join lib (list_db lib channel_db w.dbf) w
