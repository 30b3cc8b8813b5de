-- ===== src/Parser/Tests.antt =====
-- Lines read by src/parser.c.
use ebotula.Prelude.{◌≡◌, refl, true, [], get_or, arith}
use ebotula.CString.{Bytes, codes, strstr, strchr, starts_with, strtok_cut}
use ebotula.CString.Outcome.{done}
use ebotula.Extract.{get_command}
use ebotula.Parser.Table.{CmdHandle, cmd_none}
use ebotula.Parser.{Parsed, message_command, pre_parser}
use ebotula.Parser.Commands.{bot_commands, message_command-bot_commands}
use ebotula.Parser.Recognise.{IsMessage, pre_parser-IsMessage}

abbrev help_row : CmdHandle
help_row = get_or bot_commands 1 (record { cmd_id = cmd_none; cmd_string = []; is_command = true })

abbrev help_line : Bytes
help_line = codes ":b!u@h PRIVMSG #c :!help ban"

message_command-bot_commands_example : message_command help_line ≡ help_row.cmd_id
unfolding strstr
message_command-bot_commands_example =
    message_command-bot_commands 1
      (record { cmd_id = cmd_none; cmd_string = []; is_command = true }) help_line (codes " ban")
      (omega arith) refl

pre_parser-IsMessage_example :
    (p : Parsed) × (pre_parser true help_line ≡ done p) × IsMessage help_line p
unfolding get_command strtok_cut strchr starts_with
pre_parser-IsMessage_example = pre_parser-IsMessage help_line refl
