-- ===== src/Dispatch/Admission.antt =====
-- Who is admitted to a handler by CommandExecutionThread of src/parser.c.
use ebotula.Prelude.{
  ℕ, ◌<◌, ◌≡◌, refl, inl, inr, true, false, ◌==◌, Option, some, ltb, leb, if◌then◌else◌, Bool-cases,
  arith,
}
use ebotula.CString.{Bytes, codes}
use ebotula.CString.Outcome.{done}
use ebotula.Extract.{get_netmask, get_nickname, get_access_channel}
use ebotula.Irc.Lines.{run_call-message_of, message_of, line_of, notice_call}
use ebotula.Database.Backend.{Library}
use ebotula.Account.{get_user_level}
use ebotula.Account.Levels.{rank}
use ebotula.Parser.Access.{needed, access_right-needed}
use ebotula.Parser.Table.{cmd_none, cmd_count, cmd_handle_field}
use ebotula.Bot.{MsgItem, World, Handler, handed}
use ebotula.Dispatch.{is_command_id, filled, route, execute}

module _ (lib : Library) where
  route_lem :
      (handler : ℕ → MsgItem → Handler lib) (id : ℕ) (item : MsgItem) (w : World lib)
      → 0 < id
      → id < cmd_count
      → route lib handler id item w ≡ (
          if leb (rank (needed id)) (rank item.user_level)
          then handler id (record item { interactive_mode = is_command_id id cmd_handle_field }) w
          else handed w (
              done (
                line_of
                  (message_of (notice_call item.calling_nick (some (codes "Access denied")))))))
  unfolding route
  route_lem handler id item w h n =
      let named : (id == cmd_none) ≡ false = ground arith in
      let low : ltb cmd_none id ≡ true = ground arith in
      let high : ltb id cmd_count ≡ true = ground arith in
      let said =
        run_call-message_of (notice_call item.calling_nick (some (codes "Access denied"))) in
      elim (Bool-cases (leb (rank (needed id)) (rank item.user_level))) [
        | inl e ↦ rw (access_right-needed item.user_level id, named, e, low, high) refl
        | inr e ↦ rw (access_right-needed item.user_level id, named, e, said) refl
      ]

  -- One turn of the command loop, on a line whose netmask and nick name can be read and with the id
  -- of an event or command: when the level of the sender, in the channel that the line is about, is
  -- at least the one that the id asks for, the handler runs on the state as it is, with that level;
  -- otherwise no handler runs, and all that happens is that the sender is told so.
  pub execute-needed :
      (handler : ℕ → MsgItem → Handler lib) (id : ℕ) (line : Bytes) (w : World lib)
      (netmask nick : Option Bytes)
      → 0 < id
      → id < cmd_count
      → get_netmask (some line) ≡ done netmask
      → get_nickname (some (get_access_channel line).0) ≡ done nick
      → let (rest, channel) = get_access_channel line in
        let item = filled lib rest netmask channel nick w.dbf in
        execute lib handler id line w ≡ (
          if leb (rank (needed id)) (rank (get_user_level lib channel netmask w.dbf))
          then handler id (record item { interactive_mode = is_command_id id cmd_handle_field }) w
          else handed w
              (done (line_of (message_of (notice_call nick (some (codes "Access denied")))))))
  unfolding execute
  execute-needed handler id line w netmask nick h n hm hn =
      let (rest, channel) = get_access_channel line in
      rw (hm, hn) (route_lem handler id (filled lib rest netmask channel nick w.dbf) w h n)
