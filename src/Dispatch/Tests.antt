-- ===== src/Dispatch/Tests.antt =====
-- Runs of the command loop of src/parser.c over a library in memory.
use ebotula.Prelude.{◌≡◌, refl, false, [], some, arith}
use ebotula.CString.{codes}
use ebotula.CString.Outcome.{done}
use ebotula.Extract.{get_netmask, get_nickname, get_access_channel}
use ebotula.Irc.Lines.{message_of, line_of, notice_call}
use ebotula.Database.InMemory.{in_memory, no_entries}
use ebotula.Database.{get_db}
use ebotula.Account.{get_user_level}
use ebotula.Parser.Table.{cmd_die}
use ebotula.Bot.Steps.{failed}
use ebotula.Bot.{World, handed}
use ebotula.Dispatch.{handlers, command_handler, execute}
use ebotula.Dispatch.Admission.{execute-needed}

abbrev quiet : World in_memory
quiet = record {
  dbf = no_entries;
  sent = [];
  callbacks = [];
  bot_name = codes "bot";
  now = codes "1000";
  stop = false;
  again = false;
}

-- a stranger who tells the bot to die
execute-needed_example :
    execute in_memory
      (command_handler in_memory (λ _ _. failed) (handlers in_memory))
      cmd_die
      (codes ":bob!u@h PRIVMSG bot :!die")
      quiet
    ≡ handed quiet (
        done
          (line_of (message_of (notice_call (some (codes "bob")) (some (codes "Access denied"))))))
unfolding get_user_level get_db get_access_channel get_netmask get_nickname
execute-needed_example =
    execute-needed in_memory (command_handler in_memory (λ _ _. failed) (handlers in_memory))
      cmd_die (codes ":bob!u@h PRIVMSG bot :!die") quiet (some (codes "bob!u@h"))
      (some (codes "bob")) (omega arith) (omega arith) refl refl
