-- ===== src/Extract/Tests.antt =====
-- Lines of the protocol, read by the functions of src/extract.c.
use ebotula.Prelude.{◌∷◌, ◌++◌, ◌≡◌, refl}
use ebotula.CString.{Bytes}
use ebotula.Extract.Banmask.{mask, IsMask}
use ebotula.Prelude.{◌≡◌, refl, some}
use ebotula.CString.{codes}
use ebotula.CString.Outcome.{done, fault}
use ebotula.Extract.{
  get_netmask, get_nickname, get_argument, get_access_channel, get_parameters, get_banmask,
}

netmask_test :
    get_netmask (some (codes ":nick!user@host.org PRIVMSG #chan :!help"))
    ≡ done (some (codes "nick!user@host.org"))
unfolding get_netmask
netmask_test = refl

nickname_test :
    get_nickname (some (codes ":nick!user@host.org PRIVMSG #chan :!help"))
    ≡ done (some (codes "nick"))
unfolding get_nickname
nickname_test = refl

argument_test :
    get_argument (codes ":n!u@h PRIVMSG #c :!topic  #x   new topic \r\n")
    ≡ (codes ":n!u@h PRIVMSG #c :!topic #x new topic", some (codes "#x new topic"))
unfolding get_argument
argument_test = refl

access_test :
    get_access_channel (codes ":n!u@h PRIVMSG #c :!topic #x new")
    ≡ (codes ":n!u@h PRIVMSG #c :!topic #x new", some (codes "#x"))
unfolding get_access_channel
access_test = refl

parameters_test :
    get_parameters (codes ":n!u@h PRIVMSG #c :!topic #x new")
    ≡ (codes ":n!u@h PRIVMSG #c :!topic #x new", some (codes "new"))
unfolding get_parameters
parameters_test = refl

banmask_test :
    get_banmask (some (codes "nick!user@host.example.org"))
    ≡ done (some (codes "*!user@*.example.org"))
unfolding get_banmask
banmask_test = refl

banmask_dot : get_banmask (some (codes "nick!us.er@host.org")) ≡ fault
unfolding get_banmask
banmask_dot = refl

abbrev plain_mask : IsMask b'b' (codes "ob") (codes "user") (codes "host.org")
plain_mask = record { colon = refl; bang = refl; at = refl; space = refl }

abbrev dotted_mask : IsMask b'b' (codes "ob") (codes "a" ++ (b'.' ∷ codes "b")) (codes "host.org")
dotted_mask = record { colon = refl; bang = refl; at = refl; space = refl }

abbrev bob : Bytes
bob = mask b'b' (codes "ob") (codes "user") (codes "host.org")

abbrev topic_line : Bytes
topic_line = codes ":b!u@h PRIVMSG #c :!topic  a  b"
