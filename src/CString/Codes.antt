-- ===== src/CString/Codes.antt =====
-- Literals of the source as lists of bytes.
use Prim.Native.Char.{code}
use Prim.Native.String.{String}
use ebotula.Prelude.{ℕ, List, [], ◌∷◌}

-- the code points of a text, which are its bytes when it is ASCII
abbrev pub codes : String → List ℕ
codes String.[] = []
codes (String.◌∷◌ c s) = code c ∷ codes s
