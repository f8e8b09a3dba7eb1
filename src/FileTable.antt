-- ===== src/FileTable.antt =====
-- The kernel's file table, src/file.c with include/file.h. A pointer to operations or to a request
-- is its address. `_local_irq_save` and `_local_irq_restore` act on the interrupt flag. An index
-- outside of `file_list` and a name that does not fit its 20 bytes fault.
pub mod Table
pub mod Add
pub mod Match
pub mod Examples
use ocean_os.Base.{
  ℕ, zero, suc, ◌+◌, ◌-◌, ◌%◌, ◌^◌, Bool, false, ◌&&◌, none, some, List, [], ◌∷◌, ltb, ◌==◌,
  if◌then◌else◌, get_elem?, set, replicate, Result, ok, fault, ◌>>=◌,
}
use ocean_os.Base.Int.{ℤ, pos, negsuc}
use ocean_os.Strings.{strcpy, strlen, strcmp, strncmp}

abbrev pub f_t_file : ℕ
f_t_file = 0

abbrev pub f_t_dir : ℕ
f_t_dir = 1

abbrev pub max_task : ℕ
max_task = 32

abbrev pub max_file : ℕ
max_file = 128

abbrev pub max_name : ℕ
max_name = 20

pub record File : Type 0 where
  pub type : ℕ
  pub father : ℕ
  pub time : ℕ
  pub base : ℕ
  pub size : ℕ
  pub pos_of : List ℕ
  pub f_op : ℕ
  pub f_req : ℕ
  pub name : List ℕ

pub record FileSystem : Type 0 where
  pub file_list : List File
  pub file_id : ℕ
  pub interrupts : Bool

unfoldable pub entry_of : FileSystem → ℕ → Result File
entry_of fs i = elim (get_elem? fs.file_list i) [ none ↦ fault | some f ↦ ok f ]

-- `strcpy` of the name into a new entry, the father's count, and the next free index.
unfoldable pub finish_add : FileSystem → File → List ℕ → Result (ℤ × FileSystem)
unfolding entry_of
finish_add fs new name = strcpy new.name name >>= λ copied.
    let stored = record fs {
      file_list = set fs.file_list fs.file_id (record new { name = copied });
    } in
    entry_of stored new.father >>= λ f. ok (
      pos fs.file_id,
      record stored {
        file_list = set stored.file_list new.father (record f { size = (f.size + 1) % 2 ^ 32 });
        file_id = fs.file_id + 1;
      },
    )

-- What stands between `_local_irq_save` and `_local_irq_restore`.
abbrev pub with_irq_off :
    (FileSystem → Result (ℤ × FileSystem)) → FileSystem → Result (ℤ × FileSystem)
with_irq_off body fs = body (record fs { interrupts = false }) >>= λ (r, fs').
    ok (r, record fs' { interrupts = fs.interrupts })

unfoldable pub fs_add_dir : ℕ → ℕ → List ℕ → FileSystem → Result (ℤ × FileSystem)
unfolding finish_add
fs_add_dir father ftime name = with_irq_off λ fs.
    if ltb fs.file_id max_file
    then (entry_of fs fs.file_id >>= λ old.
        finish_add fs
          (record old {
            type = f_t_dir;
            father = father;
            time = ftime;
            base = 0;
            size = 0;
            f_op = 0;
            f_req = 0;
          })
          name)
    else ok (negsuc 0, fs)

unfoldable pub fs_add_file : ℕ → ℕ → ℕ → ℕ → ℕ → ℕ → List ℕ → FileSystem → Result (ℤ × FileSystem)
unfolding finish_add
fs_add_file father ftime base size f_op f_req name = with_irq_off λ fs.
    if ltb fs.file_id max_file
    then (entry_of fs fs.file_id >>= λ old.
        finish_add fs
          (record old {
            type = f_t_file;
            father = father;
            time = ftime;
            base = base;
            size = size;
            f_op = f_op;
            f_req = f_req;
            pos_of = replicate max_task 0;
          })
          name)
    else ok (negsuc 0, fs)

abbrev pub is_zero : ℤ → Bool
is_zero (pos n) = n == 0
is_zero (negsuc n) = false

-- The conditions of the two loops, from left to right.
unfoldable pub dir_matches : ℕ → List ℕ → File → Result Bool
dir_matches father path f =
    if (f.type == f_t_dir) && (f.father == father)
    then (strlen f.name >>= λ n. strncmp path f.name n >>= λ z. ok (is_zero z))
    else ok false

unfoldable pub file_matches : ℕ → List ℕ → File → Result Bool
file_matches father name f =
    if (f.type == f_t_file) && (f.father == father)
    then (strcmp name f.name >>= λ z. ok (is_zero z))
    else ok false

-- The loop with its rounds left and its variable `i`.
unfoldable pub match_from : (File → Result Bool) → List File → ℕ → ℕ → Result ℤ
match_from test files zero i = ok (negsuc 0)
match_from test files (suc n) i =
    let rest = match_from test files n (i + 1) in
    elim (get_elem? files i) [
      | none ↦ fault
      | some f ↦ test f >>= λ b. if b then ok (pos i) else rest
    ]

unfoldable pub fs_match_dir : ℕ → List ℕ → FileSystem → Result ℤ
fs_match_dir father path fs = match_from (dir_matches father path) fs.file_list (fs.file_id - 1) 1

unfoldable pub fs_match_file : ℕ → List ℕ → FileSystem → Result ℤ
fs_match_file father name fs = match_from (file_matches father name) fs.file_list (fs.file_id - 1) 1

-- "*", "/", "dev/" and "sys/".
unfoldable pub init_fs : FileSystem → Result FileSystem
init_fs fs = fs_add_dir 0 0 (b'*' ∷ 0 ∷ []) (record fs { file_id = 0 }) >>= λ (_, fs).
    fs_add_dir 0 0 (b'/' ∷ 0 ∷ []) fs >>= λ (_, fs).
    fs_add_dir 1 0 (b'd' ∷ b'e' ∷ b'v' ∷ b'/' ∷ 0 ∷ []) fs >>= λ (_, fs).
    fs_add_dir 1 0 (b's' ∷ b'y' ∷ b's' ∷ b'/' ∷ 0 ∷ []) fs >>= λ (_, fs). ok fs
