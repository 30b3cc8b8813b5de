-- ===== src/Parser/Table.antt =====
-- The command ids of src/include/cmdtypes.h and the table of src/cmdlist.c.
use ebotula.Prelude.{ℕ, Bool, true, false, List, [], ◌∷◌, ◌++◌, get_or}
use ebotula.CString.{Bytes, codes}

-- the ids of Cmd_t
abbrev pub cmd_none : ℕ
cmd_none = 0

abbrev pub cmd_onping : ℕ
cmd_onping = 1

abbrev pub cmd_onquit : ℕ
cmd_onquit = 2

abbrev pub cmd_onnickchg : ℕ
cmd_onnickchg = 3

abbrev pub cmd_onmode : ℕ
cmd_onmode = 4

abbrev pub cmd_onkick : ℕ
cmd_onkick = 5

abbrev pub cmd_onjoin : ℕ
cmd_onjoin = 6

abbrev pub cmd_onnames : ℕ
cmd_onnames = 7

abbrev pub cmd_ontopic : ℕ
cmd_ontopic = 8

abbrev pub cmd_onwhois : ℕ
cmd_onwhois = 9

abbrev pub cmd_onnonick : ℕ
cmd_onnonick = 10

abbrev pub cmd_ctcpping : ℕ
cmd_ctcpping = 11

abbrev pub cmd_ctcpversion : ℕ
cmd_ctcpversion = 12

abbrev pub cmd_ctcptime : ℕ
cmd_ctcptime = 13

abbrev pub cmd_viewgreat : ℕ
cmd_viewgreat = 14

abbrev pub cmd_help : ℕ
cmd_help = 15

abbrev pub cmd_version : ℕ
cmd_version = 16

abbrev pub cmd_hello : ℕ
cmd_hello = 17

abbrev pub cmd_ident : ℕ
cmd_ident = 18

abbrev pub cmd_logoff : ℕ
cmd_logoff = 19

abbrev pub cmd_pass : ℕ
cmd_pass = 20

abbrev pub cmd_invite : ℕ
cmd_invite = 21

abbrev pub cmd_chanmode : ℕ
cmd_chanmode = 22

abbrev pub cmd_accountlist : ℕ
cmd_accountlist = 23

abbrev pub cmd_accountmode : ℕ
cmd_accountmode = 24

abbrev pub cmd_say : ℕ
cmd_say = 25

abbrev pub cmd_kick : ℕ
cmd_kick = 26

abbrev pub cmd_set_topic : ℕ
cmd_set_topic = 27

abbrev pub cmd_set_greating : ℕ
cmd_set_greating = 28

abbrev pub cmd_ban : ℕ
cmd_ban = 29

abbrev pub cmd_deban : ℕ
cmd_deban = 30

abbrev pub cmd_restart : ℕ
cmd_restart = 31

abbrev pub cmd_allsay : ℕ
cmd_allsay = 32

abbrev pub cmd_rmuser : ℕ
cmd_rmuser = 33

abbrev pub cmd_nick : ℕ
cmd_nick = 34

abbrev pub cmd_die : ℕ
cmd_die = 35

abbrev pub cmd_channels : ℕ
cmd_channels = 36

abbrev pub cmd_rmchannel : ℕ
cmd_rmchannel = 37

abbrev pub cmd_addchannel : ℕ
cmd_addchannel = 38

abbrev pub cmd_join : ℕ
cmd_join = 39

abbrev pub cmd_part : ℕ
cmd_part = 40

abbrev pub cmd_count : ℕ
cmd_count = 41

abbrev pub cmd_master : ℕ
cmd_master = cmd_restart

abbrev pub cmd_owner : ℕ
cmd_owner = cmd_chanmode

abbrev pub cmd_friend : ℕ
cmd_friend = cmd_invite

abbrev pub cmd_logged : ℕ
cmd_logged = cmd_logoff

abbrev pub cmd_event : ℕ
cmd_event = cmd_onping

abbrev pub cmd_others : ℕ
cmd_others = cmd_viewgreat

abbrev pub cmd_first : ℕ
cmd_first = cmd_others

-- a row of CmdHandleField, less the handler
pub record CmdHandle : Type 0 where
  pub cmd_id : ℕ
  pub cmd_string : Bytes
  pub is_command : Bool

abbrev row : ℕ → Bytes → Bool → CmdHandle
row i s b = record { cmd_id = i; cmd_string = s; is_command = b }

abbrev pub cmd_handle_field : List CmdHandle
cmd_handle_field =
    row cmd_none [] false
    ∷ row cmd_onping (codes "PING") false
    ∷ row cmd_onquit (codes "QUIT") false
    ∷ row cmd_onnickchg (codes "NICK") false
    ∷ row cmd_onmode (codes "MODE") false
    ∷ row cmd_onkick (codes "KICK") false
    ∷ row cmd_onjoin (codes "JOIN") false
    ∷ row cmd_onnames (codes "353") false
    ∷ row cmd_ontopic (codes "TOPIC") false
    ∷ row cmd_onwhois (codes "311") false
    ∷ row cmd_onnonick (codes "401") false
    ∷ row cmd_ctcpping (1 ∷ codes "PING") false
    ∷ row cmd_ctcpversion (1 ∷ codes "VERSION" ++ (1 ∷ [])) false
    ∷ row cmd_ctcptime (1 ∷ codes "TIME" ++ (1 ∷ [])) false
    ∷ row cmd_viewgreat (codes "viewgreet") true
    ∷ row cmd_help (codes "help") true
    ∷ row cmd_version (codes "version") true
    ∷ row cmd_hello (codes "hello") true
    ∷ row cmd_ident (codes "ident") true
    ∷ row cmd_logoff (codes "logoff") true
    ∷ row cmd_pass (codes "pass") true
    ∷ row cmd_invite (codes "invite") true
    ∷ row cmd_chanmode (codes "chanmode") true
    ∷ row cmd_accountlist (codes "accountlist") true
    ∷ row cmd_accountmode (codes "accountmode") true
    ∷ row cmd_say (codes "say") true
    ∷ row cmd_kick (codes "kick") true
    ∷ row cmd_set_topic (codes "topic") true
    ∷ row cmd_set_greating (codes "greeting") true
    ∷ row cmd_ban (codes "ban") true
    ∷ row cmd_deban (codes "deban") true
    ∷ row cmd_restart (codes "restart") true
    ∷ row cmd_allsay (codes "allsay") true
    ∷ row cmd_rmuser (codes "rmaccount") true
    ∷ row cmd_nick (codes "nick") true
    ∷ row cmd_die (codes "die") true
    ∷ row cmd_channels (codes "chanlist") true
    ∷ row cmd_rmchannel (codes "rmchannel") true
    ∷ row cmd_addchannel (codes "addchannel") true
    ∷ row cmd_join (codes "join") true
    ∷ row cmd_part (codes "part") true
    ∷ []

abbrev pub cmd_string : ℕ → Bytes
cmd_string i = (get_or cmd_handle_field i (row cmd_none [] false)).cmd_string
