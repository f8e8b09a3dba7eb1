-- ===== src/Strings/Examples.antt =====
-- Runs of the string functions.
use ocean_os.Base.{ℕ, List, [], ◌∷◌, arith}
use ocean_os.Strings.{IsText}

-- "ab" and "ac".
abbrev ab : List ℕ
ab = b'a' ∷ b'b' ∷ []

abbrev ac : List ℕ
ac = b'a' ∷ b'c' ∷ []

ab-IsText : IsText ab
ab-IsText = (omega arith, (omega arith, tt))

ac-IsText : IsText ac
ac-IsText = (omega arith, (omega arith, tt))
