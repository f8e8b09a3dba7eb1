-- ===== src/Base/Text.antt =====
-- The strings of the source as bytes.
use Prim.Native.Nat.{ℕ}
use Prim.Native.Char.{code}
use Prim.Native.String.{String}
use mathlib.Core.List.{List, [], ◌∷◌}

-- A string literal in memory.
unfoldable pub c_string : String → List ℕ
c_string String.[] = 0 ∷ []
c_string (String.◌∷◌ c s) = code c ∷ c_string s

-- Its characters, without the terminator.
unfoldable pub bytes : String → List ℕ
bytes String.[] = []
bytes (String.◌∷◌ c s) = code c ∷ bytes s
