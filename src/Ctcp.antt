-- ===== src/Ctcp.antt =====
-- src/ctcp.c: the answers to CTCP requests. The texts that uname and strftime give are parameters.
use ebotula.Prelude.{ℕ, ◌-◌, true, [], ◌∷◌, ◌++◌, Option, none, some, concat, take}
use ebotula.CString.{Bytes, codes, strstr}
use ebotula.Extract.{drop_head}
use ebotula.Irc.{notice}
use ebotula.Database.Backend.{Library}
use ebotula.Bot.Steps.{pure}
use ebotula.Bot.{MsgItem, Handler, emit}

module _ (lib : Library) where
  -- snprintf of the text in a buffer of `size` bytes, and the notice to the caller
  abbrev reply : MsgItem → ℕ → Bytes → Handler lib
  reply item size text = emit (notice true item.calling_nick (some (take (size - 1) text)))

  abbrev pong_back : MsgItem → Option Bytes → Handler lib
  pong_back item none = pure tt
  pong_back item (some ping) = reply item 64 (drop_head (drop_head ping))

  unfoldable pub ctcpping : MsgItem → Handler lib
  ctcpping item = pong_back item (strstr (codes " :" ++ (1 ∷ [])) item.raw_line)

  -- the name and version of the package, and what uname tells
  unfoldable pub ctcpversion :
      (package_name version sysname release machine : Bytes) → MsgItem → Handler lib
  ctcpversion package_name version sysname release machine item = reply item 256 (
      concat (
        (1 ∷ codes "VERSION ")
        ∷ package_name
        ∷ codes ":v"
        ∷ version
        ∷ codes ":"
        ∷ sysname
        ∷ codes " "
        ∷ release
        ∷ codes " "
        ∷ machine
        ∷ (1 ∷ [])
        ∷ []))

  -- `time` is the text of strftime, which the bound of 63 bytes leaves below the buffer
  unfoldable pub ctcptime : Bytes → MsgItem → Handler lib
  ctcptime time item = emit (notice true item.calling_nick (some time))
