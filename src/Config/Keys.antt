-- ===== src/Config/Keys.antt =====
-- The table `vsInputConfig` of src/configparser.c with the keys of src/include/ircbot.h, in front
-- of the first line; the settings are those that the program has then.
use ebotula.Prelude.{ℕ, false, List, [], ◌∷◌, none, some}
use ebotula.CString.{Bytes, codes}
use ebotula.Config.{
  Checker, unchecked, server_checker, nick_checker, int_checker, Input, param_short, param_int,
  param_string, Setting, InputValue,
}

abbrev row : Bytes → Input → Checker → Setting → InputValue
row name type checker setting = record {
  param_name = name;
  param_type = type;
  param = setting;
  is_found = false;
  checker = checker;
}

-- `setup` gives the settings by their index in `enum Values_e` of src/include/type.h.
abbrev pub vs_input_config : (ℕ → Setting) → List InputValue
vs_input_config setup =
    row (codes "botname") param_string nick_checker (setup 0)
    ∷ row (codes "realname") param_string unchecked (setup 1)
    ∷ row (codes "user") param_string unchecked (setup 2)
    ∷ row (codes "group") param_string unchecked (setup 3)
    ∷ row (codes "threadlimit") param_short (int_checker 1 (some 25)) (setup 4)
    ∷ row (codes "hostname") param_string server_checker (setup 5)
    ∷ row (codes "port") param_string (int_checker 1 (some 65536)) (setup 6)
    ∷ row (codes "databasepath") param_string unchecked (setup 7)
    ∷ row (codes "fastsenddelay") param_int (int_checker 0 none) (setup 8)
    ∷ row (codes "slowsenddelay") param_int (int_checker 0 none) (setup 9)
    ∷ row (codes "fastsendlimit") param_int (int_checker 0 none) (setup 10)
    ∷ row (codes "initdelay") param_int (int_checker 0 none) (setup 11)
    ∷ row (codes "accountlivetime") param_int (int_checker 0 none) (setup 12)
    ∷ row (codes "autologoff") param_int (int_checker 1 none) (setup 13)
    ∷ row (codes "pingtimeout") param_int (int_checker 1 none) (setup 14)
    ∷ row (codes "loglevel") param_int (int_checker 0 (some 7)) (setup 15)
    ∷ row (codes "nickserv_ident") param_string unchecked (setup 16)
    ∷ row (codes "enable_nickserv_ident") param_int (int_checker 0 (some 1)) (setup 17)
    ∷ row (codes "nickserv_ident_timeout") param_int (int_checker 0 none) (setup 18)
    ∷ []
