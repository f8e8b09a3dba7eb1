-- ===== src/FileTable/Match.antt =====
-- The first entry that matches.
use native.Mathlib.Decide.{ℕ_discrete}
use ocean_os.Base.{
  ℕ, zero, suc, ◌+◌, ◌-◌, ◌≤◌, ◌<◌, ◌≡◌, refl, sym, ap, ◌∙◌, subst, ◌↔◌, ◌⊎◌, inl, inr, Bool, true,
  false, ◌&&◌, some, List, ◌∷◌, ◌++◌, arith, ◌==◌, Bool-cases, length, get_elem?, take, Result, ok,
}
use ocean_os.Base.Int.{ℤ, pos, negsuc}
use ocean_os.Strings.Texts.{text_unique}
use ocean_os.Strings.{IsText}
use ocean_os.Strings.Copy.{strlen-length}
use ocean_os.Strings.Compare.{strcmp-Compares, strncmp-prefix}
use ocean_os.FileTable.{
  File, FileSystem, f_t_file, f_t_dir, is_zero, dir_matches, file_matches, match_from, fs_match_dir,
  fs_match_file,
}

-- The name of an entry, without its terminator.
abbrev pub IsNamed : File → List ℕ → Type 0
IsNamed f cs = (rest : List ℕ) × (f.name ≡ cs ++ 0 ∷ rest) × IsText cs

-- Every entry that is in use has a terminated name.
abbrev pub Named : FileSystem → Type 0
Named fs =
    (i : ℕ)
    → i < fs.file_id
    → (f : File) × (cs : List ℕ) × (get_elem? fs.file_list i ≡ some f) × IsNamed f cs

-- The first index from `lo` on and below `hi` with the property, or -1.
abbrev pub First : (File → Type 0) → List File → ℕ → ℕ → ℤ → Type 0
First P files lo hi r =
    ((r ≡ negsuc 0) × ((j : ℕ) (f : File) → lo ≤ j → j < hi → get_elem? files j ≡ some f → ¬ P f))
    ⊎ ((i : ℕ) × (f : File) × (r ≡ pos i)
        × (lo ≤ i)
        × (i < hi)
        × (get_elem? files i ≡ some f)
        × P f
        × ((j : ℕ) (g : File) → lo ≤ j → j < i → get_elem? files j ≡ some g → ¬ P g))

-- A test that decides the property of an entry.
abbrev Decides : (File → Type 0) → File → Result Bool → Type 0
Decides P f r = ((r ≡ ok true) × P f) ⊎ ((r ≡ ok false) × (¬ P f))

some_inj : {f g : File} → some f ≡ some g → f ≡ g
some_inj e = cc

-- An entry that lacks the property is not the first one.
other_lack :
    (P : File → Type 0) (files : List File) (i j : ℕ) (f g : File)
    → get_elem? files i ≡ some f
    → ¬ P f
    → j ≡ i
    → get_elem? files j ≡ some g
    → ¬ P g
other_lack P files i j f g at lacks e at' =
    let same : some f ≡ some g = sym at ∙ ap (get_elem? files) (sym e) ∙ at' in
    subst (λ h. ¬ P h) (some_inj same) lacks

First-later :
    (P : File → Type 0) (files : List File) (i hi : ℕ) (r : ℤ) (f : File)
    → get_elem? files i ≡ some f
    → ¬ P f
    → First P files (i + 1) hi r
    → First P files i hi r
First-later P files i hi r f at lacks (inl (e, none_later)) = inl (
  e,
  λ j g low high at'. elim (ℕ_discrete j i) [
    | yes here ↦ other_lack P files i j f g at lacks here at'
    | no later ↦ none_later j g (omega arith) high at'
  ],
)
First-later P files i hi r f at lacks (inr (k, h, e, low, high, at'', holds, earlier)) = inr (
  k,
  h,
  e,
  omega arith,
  high,
  at'',
  holds,
  λ j g low' high' at'. elim (ℕ_discrete j i) [
    | yes here ↦ other_lack P files i j f g at lacks here at'
    | no later ↦ earlier j g (omega arith) high' at'
  ],
)

match_from-First :
    (P : File → Type 0) (test : File → Result Bool) (files : List File) (n i hi : ℕ)
    → i + n ≡ hi
    → ((j : ℕ) → i ≤ j → j < hi → (f : File) × (get_elem? files j ≡ some f) × Decides P f (test f))
    → (r : ℤ) × (match_from test files n i ≡ ok r) × First P files i hi r
unfolding match_from
match_from-First P test files zero i hi e decided =
    (negsuc 0, refl, inl (refl, λ j f low high. absurd (omega arith)))
match_from-First P test files (suc n) i hi e decided =
    let (f, at, d) = decided i (omega arith) (omega arith) in
    elim d [
      | inl (passes, holds) ↦ (
        pos i,
        rw (at, match_from, passes),
        inr (i, f, refl, omega arith, omega arith, at, holds, λ j g low high. absurd (omega arith)),
      )
      | inr (fails, lacks) ↦
          let (r, found, first) =
            match_from-First P test files n (i + 1) hi (omega arith)
              (λ j low high. decided j (omega arith) high) in
          (r, rw (at, match_from, fails) found, First-later P files i hi r f at lacks first)
    ]

is_zero_iff : (z : ℤ) → (is_zero z ≡ true) ↔ (z ≡ pos 0)
is_zero_iff (pos n) = ground arith
is_zero_iff (negsuc n) = (λ e. cc, λ e. cc)

fits_eq : (a b c d : ℕ) → ((a == b) && (c == d)) ≡ true → (a ≡ b) × (c ≡ d)
fits_eq a b c d e = ground arith

fits_ne : (a b c d : ℕ) → ((a == b) && (c == d)) ≡ false → a ≡ b → c ≡ d → ⊥
fits_ne a b c d e h k = ground arith

true_ne_false : {b : Bool} → b ≡ true → b ≡ false → ⊥
true_ne_false h k = cc

-- A file of the father with the name, and a directory of the father whose name the path begins with.
abbrev pub FileNamed : ℕ → List ℕ → File → Type 0
FileNamed father cs f = (f.type ≡ f_t_file) × (f.father ≡ father) × IsNamed f cs

abbrev pub DirPrefix : ℕ → List ℕ → File → Type 0
DirPrefix father cs f =
    (f.type ≡ f_t_dir)
    × (f.father ≡ father)
    × ((ds : List ℕ) × IsNamed f ds × (take (length ds) cs ≡ ds))

file_matches-Decides :
    (father : ℕ) (cs ds rest : List ℕ) (f : File)
    → IsText cs
    → IsNamed f ds
    → Decides (FileNamed father cs) f (file_matches father (cs ++ 0 ∷ rest) f)
unfolding file_matches
file_matches-Decides father cs ds rest f text (behind, stored, text') =
    elim (Bool-cases ((f.type == f_t_file) && (f.father == father))) [
      | inr other ↦ inr (rw other, λ h. fits_ne f.type f_t_file f.father father other h.0 h.1)
      | inl fits ↦
          let (z, run, _, both) = strcmp-Compares cs ds rest behind text text' in
          elim (Bool-cases (is_zero z)) [
            | inl zero_ans ↦ inl (
              rw (fits, stored, run, zero_ans),
              (
                (fits_eq f.type f_t_file f.father father fits).0,
                (fits_eq f.type f_t_file f.father father fits).1,
                (
                  behind,
                  stored ∙ ap (λ t. t ++ 0 ∷ behind) (sym (both.0 ((is_zero_iff z).0 zero_ans))),
                  text,
                ),
              ),
            )
            | inr nonzero ↦ inr (
              rw (fits, stored, run, nonzero),
              λ h.
                  let same = text_unique cs ds h.2.0 behind text text' (sym h.2.1 ∙ stored) in
                  true_ne_false ((is_zero_iff z).1 (both.1 same)) nonzero,
            )
          ]
    ]

dir_matches-Decides :
    (father : ℕ) (cs ds rest : List ℕ) (f : File)
    → IsText cs
    → IsNamed f ds
    → Decides (DirPrefix father cs) f (dir_matches father (cs ++ 0 ∷ rest) f)
unfolding dir_matches
dir_matches-Decides father cs ds rest f text (behind, stored, text') =
    elim (Bool-cases ((f.type == f_t_dir) && (f.father == father))) [
      | inr other ↦ inr (rw other, λ h. fits_ne f.type f_t_dir f.father father other h.0 h.1)
      | inl fits ↦
          let (z, run, both) = strncmp-prefix cs ds rest behind text text' in
          let len = strlen-length ds behind text' in
          elim (Bool-cases (is_zero z)) [
            | inl zero_ans ↦ inl (
              rw (fits, stored, len, run, zero_ans),
              (
                (fits_eq f.type f_t_dir f.father father fits).0,
                (fits_eq f.type f_t_dir f.father father fits).1,
                (ds, (behind, stored, text'), both.0 ((is_zero_iff z).0 zero_ans)),
              ),
            )
            | inr nonzero ↦ inr (
              rw (fits, stored, len, run, nonzero),
              λ h.
                  let (es, (r, e, text''), prefix) = h.2 in
                  let same = text_unique es ds r behind text'' text' (sym e ∙ stored) in
                  true_ne_false
                    ((is_zero_iff z).1 (both.1 (subst (λ t. take (length t) cs ≡ t) same prefix)))
                    nonzero,
            )
          ]
    ]

module _ (father : ℕ) (cs rest : List ℕ) (fs : FileSystem) (text : IsText cs)
    (named : Named fs) where
  -- When every entry in use has a terminated name, `fs_match_file` returns the first index from 1
  -- on whose entry is a file of the father with exactly the name, and -1 when there is none.
  pub fs_match_file-First :
      (r : ℤ) × (fs_match_file father (cs ++ 0 ∷ rest) fs ≡ ok r)
      × First (FileNamed father cs) fs.file_list 1 (1 + (fs.file_id - 1)) r
  unfolding fs_match_file
  fs_match_file-First =
      match_from-First (FileNamed father cs) (file_matches father (cs ++ 0 ∷ rest)) fs.file_list
        (fs.file_id - 1) 1 (1 + (fs.file_id - 1)) refl
        λ j low high.
          let (f, ds, at, name) = named j (omega arith) in
          (f, at, file_matches-Decides father cs ds rest f text name)

  -- When every entry in use has a terminated name, `fs_match_dir` returns the first index from 1
  -- on whose entry is a directory of the father with a name that the path begins with, and -1 when
  -- there is none.
  fs_match_dir-First :
      (r : ℤ) × (fs_match_dir father (cs ++ 0 ∷ rest) fs ≡ ok r)
      × First (DirPrefix father cs) fs.file_list 1 (1 + (fs.file_id - 1)) r
  unfolding fs_match_dir
  fs_match_dir-First =
      match_from-First (DirPrefix father cs) (dir_matches father (cs ++ 0 ∷ rest)) fs.file_list
        (fs.file_id - 1) 1 (1 + (fs.file_id - 1)) refl
        λ j low high.
          let (f, ds, at, name) = named j (omega arith) in
          (f, at, dir_matches-Decides father cs ds rest f text name)
