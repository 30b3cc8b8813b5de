-- ===== src/Parser/Access.antt =====
-- Who may run which command: AccessRight of src/parser.c.
use ebotula.Prelude.{ℕ, ◌≡◌, not, ◌&&◌, ◌||◌, ltb, leb, ◌==◌, if◌then◌else◌, arith}
use ebotula.Account.{UserLevel, none_level, logged_level, friend_level, owner_level, master_level}
use ebotula.Account.Levels.{rank}
use ebotula.Parser.{access_right}
use ebotula.Parser.Table.{
  cmd_none, cmd_onnickchg, cmd_onquit, cmd_logged, cmd_friend, cmd_owner, cmd_master,
}

-- the least level that a command asks for
abbrev pub needed : ℕ → UserLevel
needed id =
    if id == cmd_onnickchg || id == cmd_onquit
    then logged_level
    else if ltb id cmd_logged
    then none_level
    else if ltb id cmd_friend
    then logged_level
    else if ltb id cmd_owner
    then friend_level
    else if ltb id cmd_master
    then owner_level
    else master_level

-- AccessRight admits an event or command exactly for the users whose level is at least the one that
-- its place in Cmd_t asks for, and never admits CMD_NONE.
pub access_right-needed :
    (level : UserLevel) (id : ℕ)
    → access_right level id ≡ (not (id == cmd_none) && leb (rank (needed id)) (rank level))
unfolding access_right
access_right-needed level id = ground arith
