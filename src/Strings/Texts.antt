-- ===== src/Strings/Texts.antt =====
-- The texts of the C strings that src/string.c and its callers work on.
use ocean_os.Base.{ℕ, ◌≡◌, refl, ap, ap₂, some, List, [], ◌∷◌, ◌++◌, length, get_elem?, take}
use ocean_os.Strings.{IsText}

-- An object that starts with a text and its terminator has no other text.
pub text_unique :
    (cs ds rest rest' : List ℕ) → IsText cs → IsText ds → cs ++ 0 ∷ rest ≡ ds ++ 0 ∷ rest' → cs ≡ ds
text_unique [] [] rest rest' text text' e = refl
text_unique [] (d ∷ ds) rest rest' text text' e = absurd (text'.0 (cc))
text_unique (c ∷ cs) [] rest rest' text text' e = absurd (text.0 (cc))
text_unique (c ∷ cs) (d ∷ ds) rest rest' text text' e =
    ap₂ ◌∷◌ (cc) (text_unique cs ds rest rest' text.1 text'.1 (cc))

-- What an object starts with, when its first bytes and the terminator behind them are known.
pub text_of_take :
    (xs cs : List ℕ)
    → take (length cs) xs ≡ cs
    → get_elem? xs (length cs) ≡ some 0
    → (rest : List ℕ) × (xs ≡ cs ++ 0 ∷ rest)
text_of_take [] cs starts ends = cc
text_of_take (x ∷ xs) [] starts ends = (xs, ap (λ y. y ∷ xs) (cc))
text_of_take (x ∷ xs) (c ∷ cs) starts ends =
    let (rest, e) = text_of_take xs cs (cc) ends in (rest, ap₂ ◌∷◌ (cc) e)
