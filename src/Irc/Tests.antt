-- ===== src/Irc/Tests.antt =====
-- Lines of src/irc.c on given arguments.
use ebotula.Irc.Lines.{Call, kick_call, run_call, message_of, line_of, run_call-message_of}
use ebotula.Prelude.{◌≡◌, refl, some, true}
use ebotula.CString.{codes}
use ebotula.CString.Outcome.{done}
use ebotula.Irc.{snprintf_line, sprintf_line, invite, invite_to, kick}

invite_test :
    invite true (some (codes "#c")) (some (codes "bob")) ≡ done (some (codes "INVITE bob #c\r\n"))
unfolding invite invite_to snprintf_line
invite_test = refl

kick_test :
    kick true (some (codes "#c")) (some (codes "bob")) (some (codes "bye"))
    ≡ done (some (codes "KICK #c bob :bye\r\n"))
unfolding kick sprintf_line
kick_test = refl

abbrev a_kick : Call
a_kick = kick_call (some (codes "#c")) (some (codes "bob")) (some (codes "bye"))

run_call-message_of_example : run_call true a_kick ≡ done (line_of (message_of a_kick))
run_call-message_of_example = run_call-message_of a_kick
