-- ===== src/Utilities/Tests.antt =====
-- Strings treated by the helpers of src/utilities.c.
use ebotula.Prelude.{◌≡◌, refl, some, none, false, all}
use ebotula.CString.{codes}
use ebotula.Utilities.{trim, nick_string_check}
use ebotula.Utilities.Names.{is_nick_char, nick_string_check_lem}

trim_test : trim (codes "  two\t words \r\n") ≡ codes "two words"
unfolding trim
trim_test = refl

nick_string_check_lem_example :
    (nick_string_check none ≡ false)
    × (nick_string_check (some (codes "Bob^2")) ≡ all is_nick_char (codes "Bob^2"))
nick_string_check_lem_example = nick_string_check_lem (codes "Bob^2")
