-- ===== src/Parser/Recognise.antt =====
-- What preParser of src/parser.c hands to the threads.
use ebotula.Prelude.{
  all, and_parts, is_some, ◌&&◌, ℕ, ◌<◌, ◌≡◌, refl, Bool, true, false, not, List, [], ◌∷◌, ◌++◌,
  Option, none, some, ◌==◌, ltb, if◌then◌else◌, arith, Option-cases, inl, inr, Bool-cases,
}
use ebotula.CString.{Bytes, codes, starts_with, strchr, strstr}
use ebotula.CString.Outcome.{done}
use ebotula.Extract.{get_command}
use ebotula.Irc.Lines.{render, pong_call, run_call-message_of}
use ebotula.Parser.Table.{CmdHandle, cmd_none, cmd_first, cmd_count, cmd_handle_field}
use ebotula.Parser.{
  find_command, rows_from, ctcp_command, message_command, behind, event_of, Parsed, parsed,
  parse_at, parse_behind, parse_preamble, pre_parser,
}

find_command-bound :
    (s : Bytes) (rs : List CmdHandle) (n : ℕ)
    → 0 < n
    → all (λ r. ltb r.cmd_id n) rs ≡ true
    → find_command s rs < n
unfolding find_command
find_command-bound s [] n h a = h
find_command-bound s (r ∷ rs) n h a =
    let (b, c) = and_parts (ltb r.cmd_id n) (all (λ r. ltb r.cmd_id n) rs) a in
    ground (arith, find_command-bound s rs n h c)

ctcp_command-bound : (found : Option Bytes) → ctcp_command found < cmd_count
unfolding ctcp_command
ctcp_command-bound none = omega arith
ctcp_command-bound (some found) = ground arith

message_command-bound : (line : Bytes) → message_command line < cmd_count
unfolding message_command
message_command-bound line = elim (Option-cases (strstr (codes " :!") line)) [
  | inl e ↦ rw e (ctcp_command-bound (strstr (codes " :" ++ (1 ∷ [])) line))
  | inr (s, e) ↦
      let hit : find_command (behind 3 s) (rows_from cmd_first cmd_handle_field) < cmd_count =
        find_command-bound (behind 3 s) (rows_from cmd_first cmd_handle_field) cmd_count
          (omega arith) refl in
      rw e (ground (arith, hit))
]

event_of-bound : (pos line : Bytes) → event_of pos line < cmd_count
unfolding event_of
event_of-bound pos line = ground (arith, message_command-bound line)

-- what the threads may rely on in a message
abbrev pub IsMessage : Bytes → Parsed → Type 0
IsMessage line p =
    (p.identify < cmd_count) × (p.msg_line ≡ (if p.identify == cmd_none then none else some line))

parsed-IsMessage : (id : ℕ) (line : Bytes) → id < cmd_count → IsMessage line (parsed id line)
parsed-IsMessage id line h = (h, refl)

-- PING without a parameter
abbrev pub bare_ping : Bytes → Bool
bare_ping pos = starts_with (codes "PING") pos && not (is_some (strstr (codes " ") pos))

abbrev pub is_bare_ping : Option Bytes → Bool
is_bare_ping none = false
is_bare_ping (some pos) = bare_ping pos

parse_at-IsMessage :
    (pos line : Bytes)
    → bare_ping pos ≡ false
    → (p : Parsed) × (parse_at true pos line ≡ done p) × IsMessage line p
parse_at-IsMessage pos line h = elim (Bool-cases (starts_with (codes "PING") pos)) [
  | inr e ↦ (
    parsed (event_of pos line) line,
    rw e refl,
    parsed-IsMessage (event_of pos line) line (event_of-bound pos line),
  )
  | inl e ↦ elim (Option-cases (strstr (codes " ") pos)) [
    | inl f ↦ absurd (ground (arith, e, f))
    | inr (s, f) ↦
        let sent =
          render (record { command = codes "PONG"; middle = behind 1 s ∷ []; trailing = none }) in
        (
          record { identify = cmd_none; msg_line = none; answer = some sent },
          rw (e, f, run_call-message_of (pong_call (behind 1 s))) refl,
          (omega arith, refl),
        )
  ]
]

abbrev pub behind_space : Option Bytes → Option Bytes
behind_space none = none
behind_space (some s) = some (behind 1 s)

parse_behind-IsMessage :
    (line : Bytes) (found : Option Bytes)
    → is_bare_ping (behind_space found) ≡ false
    → (p : Parsed) × (parse_behind true found line ≡ done p) × IsMessage line p
parse_behind-IsMessage line none h =
    (parsed cmd_none line, refl, parsed-IsMessage cmd_none line (omega arith))
parse_behind-IsMessage line (some s) h = parse_at-IsMessage (behind 1 s) line h

-- where the command word of a line is: behind the preamble, when there is one
abbrev pub command_position : Bytes → Option Bytes → Option Bytes
command_position line none = some line
command_position line (some preamble) = behind_space (strchr b' ' preamble)

parse_preamble-IsMessage :
    (line : Bytes) (preamble : Option Bytes)
    → is_bare_ping (command_position line preamble) ≡ false
    → (p : Parsed) × (parse_preamble true preamble line ≡ done p) × IsMessage line p
parse_preamble-IsMessage line none h = parse_at-IsMessage line line h
parse_preamble-IsMessage line (some preamble) h =
    parse_behind-IsMessage line (strchr b' ' preamble) h

-- preParser of a line whose command word is no PING without a parameter, while malloc succeeds,
-- ends with a message whose id is below CMD_COUNT, and which holds a copy of the line exactly when
-- the id is not CMD_NONE.
pub pre_parser-IsMessage :
    (line : Bytes)
    → is_bare_ping (command_position line (get_command line)) ≡ false
    → (p : Parsed) × (pre_parser true line ≡ done p) × IsMessage line p
unfolding pre_parser
pre_parser-IsMessage line h = parse_preamble-IsMessage line (get_command line) h
