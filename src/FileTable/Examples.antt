-- ===== src/FileTable/Examples.antt =====
-- Runs of the file table.
use ocean_os.Base.{
  ℕ, zero, suc, ◌≡◌, refl, ap, true, some, List, [], ◌∷◌, ◌++◌, arith, length, get_elem?, replicate,
  ok, ◌>>=◌, get_elem?-replicate,
}
use ocean_os.Base.Int.{ℤ, pos}
use ocean_os.Strings.{IsText, strcpy, strlen, strncmp}
use ocean_os.FileTable.{
  File, FileSystem, f_t_file, max_file, max_task, max_name, fs_add_file, fs_add_dir, fs_match_file,
  fs_match_dir, init_fs, dir_matches, match_from, finish_add, entry_of,
}
use ocean_os.FileTable.Match.{First, FileNamed, Named, fs_match_file-First}
use ocean_os.FileTable.Table.{IsTable}
use ocean_os.FileTable.Add.{Adds, fs_add_file-Adds}

abbrev blank_file : File
blank_file = record {
  type = f_t_file;
  father = 0;
  time = 0;
  base = 0;
  size = 0;
  pos_of = replicate max_task 0;
  f_op = 0;
  f_req = 0;
  name = replicate max_name 0;
}

-- The entries 0 and 1 are in use.
abbrev two_files : FileSystem
two_files = record { file_list = replicate max_file blank_file; file_id = 2; interrupts = true }

abbrev boot_name : List ℕ
boot_name = b'b' ∷ b'o' ∷ b'o' ∷ b't' ∷ []

boot_name-IsText : IsText boot_name
boot_name-IsText = (omega arith, (omega arith, (omega arith, (omega arith, tt))))

replicate-value : (n i : ℕ) (a f : File) → get_elem? (replicate n a) i ≡ some f → f ≡ a
replicate-value zero i a f e = cc
replicate-value (suc n) zero a f e = cc
replicate-value (suc n) (suc i) a f e = replicate-value n i a f e

two_files-Named : Named two_files
two_files-Named i h = (
  blank_file,
  [],
  get_elem?-replicate max_file i blank_file (omega arith),
  (replicate 19 0, refl, tt),
)

two_files-IsTable : IsTable two_files
two_files-IsTable = record {
  count = refl;
  used = omega arith;
  sizes = λ i f e. ap (λ g. length g.name) (replicate-value max_file i blank_file f e);
  named = two_files-Named;
}

fs_add_file-Adds_example :
    Adds two_files
      (λ old. record {
        type = f_t_file;
        father = 1;
        time = 9;
        base = 0x1000;
        size = 5;
        pos_of = replicate max_task 0;
        f_op = 0;
        f_req = 0;
        name = old.name;
      })
      boot_name
      (fs_add_file 1 9 0x1000 5 0 0 (boot_name ++ 0 ∷ []) two_files)
fs_add_file-Adds_example =
    fs_add_file-Adds 1 9 0x1000 5 0 0 boot_name [] two_files (omega arith) two_files-IsTable
      boot_name-IsText

fs_match_file-First_example :
    (r : ℤ) × (fs_match_file 0 (boot_name ++ 0 ∷ []) two_files ≡ ok r)
    × First (FileNamed 0 boot_name) two_files.file_list 1 2 r
fs_match_file-First_example =
    fs_match_file-First 0 boot_name [] two_files boot_name-IsText two_files-Named

-- After `init_fs`, "dev/" is the third entry.
init_fs_test :
    (init_fs two_files >>= fs_match_dir 1 (b'd' ∷ b'e' ∷ b'v' ∷ b'/' ∷ b'x' ∷ 0 ∷ [])) ≡ ok (pos 2)
unfolding init_fs fs_match_dir fs_add_dir finish_add entry_of strcpy strlen strncmp dir_matches
    match_from
init_fs_test = refl
