-- ===== src/Strings.antt =====
-- src/string.c. A pointer into an object is the list of the object's bytes from there to its end,
-- so an access behind the end faults; a function that writes returns the new bytes. Source and
-- destination are separate objects. A `char` is a byte, and `int` and `unsigned int` counters do
-- not wrap within an object.
pub mod Texts
pub mod Copy
pub mod Compare
pub mod Search
pub mod Examples
use ocean_os.Base.{
  ℕ, zero, suc, ◌+◌, ◌%◌, ◌≢◌, Option, none, some, List, [], ◌∷◌, ◌==◌, if◌then◌else◌, All, Result,
  ok, fault, ◌>>=◌,
}
use ocean_os.Base.Int.{ℤ, pos, sub_ℕ}

unfoldable pub memcpy : List ℕ → List ℕ → ℕ → Result (List ℕ)
memcpy dest src zero = ok dest
memcpy [] src (suc n) = fault
memcpy (d ∷ dest) [] (suc n) = fault
memcpy (d ∷ dest) (s ∷ src) (suc n) = memcpy dest src n >>= λ r. ok (s ∷ r)

unfoldable pub memset : List ℕ → ℕ → ℕ → Result (List ℕ)
memset dest val zero = ok dest
memset [] val (suc n) = fault
memset (d ∷ dest) val (suc n) = memset dest val n >>= λ r. ok (val ∷ r)

-- The object is its 16-bit words here.
unfoldable pub memsetw : List ℕ → ℕ → ℕ → Result (List ℕ)
memsetw dest val zero = ok dest
memsetw [] val (suc n) = fault
memsetw (d ∷ dest) val (suc n) = memsetw dest val n >>= λ r. ok (val ∷ r)

unfoldable pub strlen : List ℕ → Result ℕ
strlen [] = fault
strlen (c ∷ str) = if c == 0 then ok 0 else (strlen str >>= λ n. ok (suc n))

-- The loop of `strnlen` with the rounds for which `sp <= str + len` holds.
unfoldable pub strnlen_loop : List ℕ → ℕ → Result ℕ
strnlen_loop [] n = fault
strnlen_loop (c ∷ str) zero = ok 0
strnlen_loop (c ∷ str) (suc n) = if c == 0 then ok 0 else (strnlen_loop str n >>= λ m. ok (suc m))

unfoldable pub strnlen : List ℕ → ℕ → Result ℕ
strnlen str len = strnlen_loop str (len + 1)

unfoldable pub strcpy : List ℕ → List ℕ → Result (List ℕ)
strcpy [] src = fault
strcpy (d ∷ dst) [] = fault
strcpy (d ∷ dst) (c ∷ src) = if c == 0 then ok (0 ∷ dst) else (strcpy dst src >>= λ r. ok (c ∷ r))

-- `while (--cnt) *dst++ = '\0';` for `cnt` one above `n`.
unfoldable pub zero_fill : List ℕ → ℕ → Result (List ℕ)
zero_fill dst zero = ok dst
zero_fill [] (suc n) = fault
zero_fill (d ∷ dst) (suc n) = zero_fill dst n >>= λ r. ok (0 ∷ r)

unfoldable pub strncpy : List ℕ → List ℕ → ℕ → Result (List ℕ)
strncpy dst src zero = ok dst
strncpy [] src (suc n) = fault
strncpy (d ∷ dst) [] (suc n) = fault
strncpy (d ∷ dst) (c ∷ src) (suc n) =
    if c == 0
    then (zero_fill dst n >>= λ r. ok (0 ∷ r))
    else (strncpy dst src n >>= λ r. ok (c ∷ r))

-- The result is NULL, or the pointer as the bytes from there on.
unfoldable pub strchr : List ℕ → ℕ → Result (Option (List ℕ))
strchr [] c = fault
strchr (x ∷ str) c =
    if x == 0
    then (if c % 256 == x then ok (some (x ∷ str)) else ok none)
    else if x == c % 256
    then ok (some (x ∷ str))
    else strchr str c

-- The loop of `strrchr`: the value of `ret` behind it.
unfoldable pub strrchr_loop : List ℕ → List ℕ → ℕ → Result (List ℕ)
strrchr_loop [] ret c = fault
strrchr_loop (x ∷ tmp) ret c =
    if x == 0 then ok ret else strrchr_loop tmp (if x == c % 256 then x ∷ tmp else ret) c

-- `tmp` and `ret` are read before they are set, so what they point to is an argument. `str` is not
-- used.
unfoldable pub strrchr : List ℕ → List ℕ → List ℕ → ℕ → Result (Option (List ℕ))
strrchr tmp ret str c = strrchr_loop tmp ret c >>= λ ret'. elim ret' [
  | [] ↦ fault
  | x ∷ rest ↦ if x == c % 256 then ok (some (x ∷ rest)) else ok none
]

unfoldable pub strcmp : List ℕ → List ℕ → Result ℤ
strcmp [] s2 = fault
strcmp (a ∷ s1) [] = fault
strcmp (a ∷ s1) (b ∷ s2) =
    if a == b then (if a == 0 then ok (pos 0) else strcmp s1 s2) else ok (sub_ℕ a b)

unfoldable pub strncmp : List ℕ → List ℕ → ℕ → Result ℤ
strncmp s1 s2 zero = ok (pos 0)
strncmp [] s2 (suc n) = fault
strncmp (a ∷ s1) [] (suc n) = fault
strncmp (a ∷ s1) (b ∷ s2) (suc n) =
    if a == b then (if a == 0 then ok (pos 0) else strncmp s1 s2 n) else ok (sub_ℕ a b)

-- The text of a C string: no character is the terminator.
abbrev pub IsText : List ℕ → Type 0
IsText cs = All (λ c. c ≢ 0) cs
