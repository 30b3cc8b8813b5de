-- ===== src/Event/Tests.antt =====
-- Runs of the event handlers of src/handles.c over a library in memory.
use ebotula.Prelude.{
  List, ◌≡◌, refl, inr, false, [], ◌∷◌, ◌++◌, none, some, ◌==◌, if◌then◌else◌, arith,
}
use ebotula.CString.{Bytes, codes, strchr, strrchr, strtok_cut, streq}
use ebotula.CString.Outcome.{done}
use ebotula.Utilities.{str_to_lower}
use ebotula.Extract.{prv_msg_mode, get_nickname}
use ebotula.Irc.Lines.{message_of, line_of, whois_call}
use ebotula.Database.InMemory.{in_memory, in_memory-IsGdbm, no_entries}
use ebotula.Database.{Databases, access_db, usertonick_db, nicktouser_db, datum, get_db}
use ebotula.Account.{logged_level, log_on}
use ebotula.Account.Sessions.{Consistent, log_on-session}
use ebotula.Account.LogOn.{log_on-Consistent, log_on-owner}
use ebotula.Bot.{MsgItem, World, CallbackItem, lines, kick_cb}
use ebotula.Bot.Runs.{Ends}
use ebotula.Callback.{run_callback}
use ebotula.Event.{take_callback, h_nick_change}
use ebotula.Event.Modes.{user_mode}
use ebotula.Event.Sessions.{Moved, h_nick_change-Moved}
use ebotula.Event.Undo.{reset_item, letterless, mode_reset-stranger}
use ebotula.Event.Waiting.{Served, take_callback-Served}

abbrev world : Databases in_memory → World in_memory
world dbf = record {
  dbf = dbf;
  sent = [];
  callbacks = [];
  bot_name = codes "bot";
  now = codes "1000";
  stop = false;
  again = false;
}

-- the session of `bob`, who has the right `+o` in the channel `#c`
abbrev session : Databases in_memory
session = λ db.
    if db == usertonick_db
    then ((λ k. if streq k (datum (codes "bob")) then some (datum (codes "bob!u@h")) else none), [])
    else if db == nicktouser_db
    then ((λ k. if streq k (datum (codes "bob!u@h")) then some (datum (codes "bob")) else none), [])
    else if db == access_db
    then ((λ k. if streq k (datum (codes "bob#c")) then some (datum (codes "+o")) else none), [])
    else ((λ _. none), [])

mode_reset-stranger_example :
    (user_mode in_memory (some (codes "#c")) (some b'+') b'o' (codes "eve") (world no_entries)
      ≡ done (
        tt,
        record (world no_entries) {
          callbacks = [] ++ (reset_item (codes "#c") b'+' b'o' (codes "eve") ∷ []);
          sent = [] ++ lines (line_of (message_of (whois_call (some (codes "eve")))));
        },
      ))
    × (run_callback in_memory
          (reset_item (codes "#c") b'+' b'o' (codes "eve"))
          (codes "eve!e@h")
          (world no_entries)
        ≡ done
            (tt, record (world no_entries) { sent = [] ++ letterless (codes "#c") (codes "eve") }))
unfolding get_db get_nickname streq str_to_lower
mode_reset-stranger_example =
    mode_reset-stranger in_memory (codes "#c") (codes "eve!e@h") (codes "eve") b'o'
      (world no_entries) refl refl refl refl

abbrev item_for : Bytes → CallbackItem
item_for nick = record { nickname = nick; callback_fkt = kick_cb; text = codes "x #c" }

abbrev waiting_items : List CallbackItem
waiting_items =
    item_for (codes "eve")
    ∷ item_for (codes "bob")
    ∷ item_for (codes "amy")
    ∷ item_for (codes "Bob")
    ∷ []

take_callback-Served_example :
    Served (codes "BOB") waiting_items (take_callback (codes "BOB") waiting_items)
take_callback-Served_example = take_callback-Served (codes "BOB") waiting_items

-- a bot on which only `bob` has logged in
abbrev logged : Databases in_memory
logged = log_on in_memory (some (codes "bob!u@h")) (codes "bob") (codes "1000") no_entries

abbrev renamed : MsgItem
renamed = record {
  user_level = logged_level;
  answer_mode = prv_msg_mode;
  access_channel = none;
  calling_nick = some (codes "bob");
  netmask = some (codes "bob!u@h");
  raw_line = codes ":bob!u@h NICK :rob";
  interactive_mode = false;
  parameter = none;
}

new_netmask_free : get_db in_memory nicktouser_db (some (codes "rob!u@h")) logged ≡ none
unfolding get_db streq str_to_lower
new_netmask_free =
    log_on-owner in_memory in_memory-IsGdbm (codes "bob!u@h") (codes "bob") no_entries refl refl
      refl (codes "1000") refl (codes "rob!u@h")

logged-Consistent : Consistent in_memory logged
unfolding get_db
logged-Consistent =
    log_on-Consistent in_memory in_memory-IsGdbm (codes "bob!u@h") (codes "bob") no_entries refl
      refl refl (codes "1000") refl (λ login. tt)

bob_session :
    (get_db in_memory nicktouser_db (some (codes "bob!u@h")) logged ≡ some (codes "bob"))
    × (get_db in_memory usertonick_db (some (codes "bob")) logged ≡ some (codes "bob!u@h"))
unfolding get_db
bob_session =
    let s =
      log_on-session in_memory in_memory-IsGdbm (codes "bob!u@h") (codes "bob") (codes "1000")
        no_entries refl refl refl refl in
    (s.0, s.1)

h_nick_change-Moved_example :
    Ends
      (h_nick_change in_memory renamed (world logged))
      (λ _ v. Moved in_memory (codes "bob") (codes "bob!u@h") (codes "rob!u@h") v.dbf)
unfolding strrchr strtok_cut strchr
h_nick_change-Moved_example =
    h_nick_change-Moved in_memory in_memory-IsGdbm renamed (codes "bob!u@h") (codes "bob")
      (codes " :rob") (codes "!u@h") (codes "rob!u@h") (world logged) refl refl refl
      logged-Consistent bob_session.0 bob_session.1 refl (omega arith) refl refl
      (inr new_netmask_free)
