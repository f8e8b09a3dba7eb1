-- ===== src/Strings/Copy.antt =====
-- What the copying functions of src/string.c write.
use ocean_os.Base.{
  ℕ, zero, suc, ◌≤◌, ◌<◌, ◌≡◌, refl, ◌⊎◌, inl, inr, false, List, [], ◌∷◌, ◌++◌, arith, ◌==◌, length,
  take, drop, replicate, ok, fault,
}
use ocean_os.Strings.{memcpy, memset, strlen, strcpy, zero_fill, strncpy, IsText}

-- `memcpy` within both objects copies the first `n` bytes and keeps the rest of the destination;
-- with a longer count than either object it faults.
pub memcpy-take :
    (dest src : List ℕ) (n : ℕ)
    → ((n ≤ length dest) × (n ≤ length src) × (memcpy dest src n ≡ ok (take n src ++ drop n dest)))
      ⊎ (((length dest < n) ⊎ (length src < n)) × (memcpy dest src n ≡ fault))
unfolding memcpy
memcpy-take dest src zero = inl (omega arith, omega arith, refl)
memcpy-take [] src (suc n) = inr (inl (omega arith), refl)
memcpy-take (d ∷ dest) [] (suc n) = inr (inr (omega arith), refl)
memcpy-take (d ∷ dest) (s ∷ src) (suc n) = elim (memcpy-take dest src n) [
  | inl (h, k, e) ↦ inl (omega arith, omega arith, rw e)
  | inr (short, e) ↦ inr (omega arith, rw e)
]

-- `memset` within the object sets its first `n` bytes and keeps the rest; otherwise it faults.
pub memset-replicate :
    (dest : List ℕ) (val n : ℕ)
    → ((n ≤ length dest) × (memset dest val n ≡ ok (replicate n val ++ drop n dest)))
      ⊎ ((length dest < n) × (memset dest val n ≡ fault))
unfolding memset
memset-replicate dest val zero = inl (omega arith, refl)
memset-replicate [] val (suc n) = inr (omega arith, refl)
memset-replicate (d ∷ dest) val (suc n) = elim (memset-replicate dest val n) [
  | inl (h, e) ↦ inl (omega arith, rw e)
  | inr (short, e) ↦ inr (omega arith, rw e)
]

-- `strlen` of a string is the number of characters before the terminator.
pub strlen-length : (cs rest : List ℕ) → IsText cs → strlen (cs ++ 0 ∷ rest) ≡ ok (length cs)
unfolding strlen
strlen-length [] rest text = refl
strlen-length (c ∷ cs) rest text = ground (arith, strlen-length cs rest text.1)

-- `strcpy` writes the string with its terminator, and keeps what is behind it, when the
-- destination has room for both; otherwise it writes behind the end of the destination.
pub strcpy-append :
    (dst cs rest : List ℕ)
    → IsText cs
    → ((length cs < length dst)
        × (strcpy dst (cs ++ 0 ∷ rest) ≡ ok (cs ++ 0 ∷ drop (suc (length cs)) dst)))
      ⊎ ((length dst ≤ length cs) × (strcpy dst (cs ++ 0 ∷ rest) ≡ fault))
unfolding strcpy
strcpy-append [] [] rest text = inr (omega arith, refl)
strcpy-append [] (c ∷ cs) rest text = inr (omega arith, refl)
strcpy-append (d ∷ dst) [] rest text = inl (omega arith, refl)
strcpy-append (d ∷ dst) (c ∷ cs) rest text =
    let nonzero : (c == 0) ≡ false = ground arith in
    elim (strcpy-append dst cs rest text.1) [
      | inl (room, e) ↦ inl (omega arith, rw (nonzero, e))
      | inr (short, e) ↦ inr (omega arith, rw (nonzero, e))
    ]

-- The first `n` of the characters of a string with terminators behind it.
unfoldable pub padded : ℕ → List ℕ → List ℕ
padded zero cs = []
padded (suc n) [] = 0 ∷ padded n []
padded (suc n) (c ∷ cs) = c ∷ padded n cs

zero_fill-padded :
    (dst : List ℕ) (n : ℕ) → n ≤ length dst → zero_fill dst n ≡ ok (padded n [] ++ drop n dst)
unfolding zero_fill padded
zero_fill-padded dst zero h = refl
zero_fill-padded [] (suc n) h = absurd (omega arith)
zero_fill-padded (d ∷ dst) (suc n) h = rw (zero_fill-padded dst n (omega arith))

-- `strncpy` into a destination of at least `n` bytes writes exactly `n` of them and keeps the
-- rest: the string, cut off at `n`, and then terminators up to `n`.
strncpy-padded :
    (dst cs rest : List ℕ) (n : ℕ)
    → IsText cs
    → n ≤ length dst
    → strncpy dst (cs ++ 0 ∷ rest) n ≡ ok (padded n cs ++ drop n dst)
unfolding strncpy padded
strncpy-padded dst cs rest zero text h = refl
strncpy-padded [] cs rest (suc n) text h = absurd (omega arith)
strncpy-padded (d ∷ dst) [] rest (suc n) text h = rw (zero_fill-padded dst n (omega arith))
strncpy-padded (d ∷ dst) (c ∷ cs) rest (suc n) text h =
    let nonzero : (c == 0) ≡ false = ground arith in
    rw (nonzero, strncpy-padded dst cs rest n text.1 (omega arith))
