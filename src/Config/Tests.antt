-- ===== src/Config/Tests.antt =====
-- The table of src/configparser.c is in order; runs over lines; and the witnesses of the theorems.
use ebotula.Prelude.{List, ℕ, ◌≡◌, refl, Bool, true, false, [], ◌∷◌, none, arith, inl, inr}
use ebotula.CString.{Bytes, codes, streq, strchr, strtok_cut}
use ebotula.CString.Outcome.{Outcome, done, fault}
use ebotula.Utilities.{trim, clearspace}
use ebotula.Config.Numbers.{pos, negsuc, atoi}
use ebotula.Config.Keys.{vs_input_config}
use ebotula.Config.Invariant.{IsTable, ReadTo, config_file_parser-ReadTo}
use ebotula.Config.Errors.{Safe, config_file_parser-unknown, config_file_parser-Safe}
use ebotula.Config.{
  Setting, text, assign, Parsing, Line, exit, next, edom, accepted, parse_line, config_file_parser,
  key_int_checker, key_uint_checker,
}

vs_input_config-IsTable : (setup : ℕ → Setting) → IsTable (vs_input_config setup)
vs_input_config-IsTable setup = (
  tt,
  unset,
  (
    tt,
    unset,
    (
      tt,
      unset,
      (
        tt,
        unset,
        (
          omega arith,
          unset,
          (
            tt,
            unset,
            (
              tt,
              unset,
              (
                tt,
                unset,
                (
                  tt,
                  unset,
                  (
                    tt,
                    unset,
                    (
                      tt,
                      unset,
                      (
                        tt,
                        unset,
                        (
                          tt,
                          unset,
                          (
                            tt,
                            unset,
                            (tt, unset, (tt, unset, (tt, unset, (tt, unset, (tt, unset, tt))))),
                          ),
                        ),
                      ),
                    ),
                  ),
                ),
              ),
            ),
          ),
        ),
      ),
    ),
  ),
)
  where
    unset : {A : Type 0} → false ≡ true → A
    unset e = absurd cc

abbrev empty : Setting
empty = text []

abbrev start : Parsing
start = record { rows = vs_input_config (λ _. empty); elem_found = false }

start-IsTable : IsTable start.rows
start-IsTable = vs_input_config-IsTable (λ _. empty)

atoi_test :
    (atoi (codes " -12x") ≡ negsuc 11)
    × (atoi (codes "+7") ≡ pos 7)
    × (atoi (codes "4294967297") ≡ pos 1)
atoi_test = (refl, refl, refl)

checker_test :
    (key_int_checker (codes "-1") 0 none ≡ edom) × (key_uint_checker (codes "-1") 0 none ≡ accepted)
unfolding key_int_checker key_uint_checker
checker_test = (refl, refl)

abbrev level : Bytes
level = codes " loglevel = 5\n"

abbrev typo : Bytes
typo = codes "loglevl=5\n"

abbrev is_fault : Outcome Line → Bool
is_fault fault = true
is_fault (done line) = false

abbrev is_exit : Outcome Line → Bool
is_exit fault = false
is_exit (done (next s)) = false
is_exit (done (exit why)) = true

file_test :
    (is_fault (config_file_parser (typo ∷ level ∷ []) start) ≡ false)
    × (is_fault (config_file_parser (level ∷ typo ∷ []) start) ≡ true)
    × (is_fault (config_file_parser (codes "nothing" ∷ []) start) ≡ true)
    × (is_fault (config_file_parser (codes "=x" ∷ []) start) ≡ true)
    × (is_exit (config_file_parser (codes "loglevel=9" ∷ []) start) ≡ true)
    × (is_exit (config_file_parser (level ∷ codes "loglevel=9" ∷ []) start) ≡ false)
unfolding config_file_parser parse_line clearspace trim strchr strtok_cut assign streq
    key_int_checker
file_test = (refl, refl, refl, refl, refl, refl)

abbrev first_wins : List Bytes
first_wins = level ∷ codes "loglevel=7" ∷ codes "# the end" ∷ []

first_wins_test :
    (is_fault (config_file_parser first_wins start) ≡ false)
    × (is_exit (config_file_parser first_wins start) ≡ false)
unfolding config_file_parser parse_line clearspace trim strchr strtok_cut assign streq
    key_int_checker
first_wins_test = (refl, refl)

config_file_parser-ReadTo_example : ReadTo start.rows (config_file_parser first_wins start)
config_file_parser-ReadTo_example = config_file_parser-ReadTo first_wins start start-IsTable

config_file_parser-Safe_example : Safe (config_file_parser (codes "# a comment" ∷ level ∷ []) start)
unfolding trim clearspace streq
config_file_parser-Safe_example =
    config_file_parser-Safe (codes "# a comment" ∷ level ∷ []) start start-IsTable (
      inl refl,
      (
        inr (b'l', codes "oglevel", codes "5", (refl, refl, λ e. absurd (omega (arith, e))), refl),
        tt,
      ),
    )

config_file_parser-unknown_example :
    (config_file_parser (level ∷ typo ∷ []) start ≡ fault)
    × (config_file_parser (typo ∷ []) start ≡ config_file_parser [] start)
unfolding trim clearspace assign streq key_int_checker
config_file_parser-unknown_example =
    config_file_parser-unknown start level typo [] b'l' (codes "oglevel") (codes "5") _ b'l'
      (codes "oglevl") (codes "5") start-IsTable refl (refl, refl, λ e. absurd (omega (arith, e)))
      refl (refl, refl, λ e. absurd (omega (arith, e))) refl
