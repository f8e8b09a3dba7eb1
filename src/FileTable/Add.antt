-- ===== src/FileTable/Add.antt =====
-- What the two functions that add to the table do to it.
use ocean_os.Base.{
  ℕ, suc, ◌≤◌, ◌<◌, ◌≡◌, refl, sym, ap, ◌∙◌, subst, ◌⊎◌, inl, inr, false, some, List, ◌∷◌, ◌++◌,
  arith, ltb, if◌then◌else◌, Bool-cases, length, get_elem?, drop, replicate, get_elem?_lt, Result,
  ok, fault, ◌>>=◌,
}
use ocean_os.Base.Int.{ℤ, pos, negsuc}
use ocean_os.Strings.{IsText}
use ocean_os.FileTable.{
  File, FileSystem, max_file, max_name, max_task, f_t_file, f_t_dir, entry_of, finish_add,
  fs_add_dir, fs_add_file,
}
use ocean_os.FileTable.Table.{
  IsTable, Added, named_copy, finish_add-Added, Added-IsTable, length-named_copy,
}

-- What adding an entry with the name `cs` and the other fields of `new old` can do, where `old`
-- is what its slot held.
abbrev pub Adds : FileSystem → (File → File) → List ℕ → Result (ℤ × FileSystem) → Type 0
Adds fs new cs r =
    ((fs.file_id < max_file)
      × (length cs < max_name)
      × ((old : File) × (fs' : FileSystem) × (get_elem? fs.file_list fs.file_id ≡ some old)
          × (r ≡ ok (pos fs.file_id, fs'))
          × Added fs (named_copy (new old) cs) fs'
          × IsTable fs'))
    ⊎ ((fs.file_id < max_file) × (max_name ≤ length cs) × (r ≡ fault))
    ⊎ ((fs.file_id ≡ max_file) × (r ≡ ok (negsuc 0, fs)))

entry_of-at :
    (fs : FileSystem) (i : ℕ) (f : File) → get_elem? fs.file_list i ≡ some f → entry_of fs i ≡ ok f
unfolding entry_of
entry_of-at fs i f at = rw (at, entry_of)

-- The body that both functions share, with interrupts off.
abbrev add_body : (File → File) → List ℕ → FileSystem → Result (ℤ × FileSystem)
add_body new name fs =
    if ltb fs.file_id max_file
    then (entry_of fs fs.file_id >>= λ old. finish_add fs (new old) name)
    else ok (negsuc 0, fs)

module _ (new : File → File) (father : ℕ) (fs : FileSystem) (cs rest : List ℕ)
    (same_name : (old : File) → (new old).name ≡ old.name)
    (same_father : (old : File) → (new old).father ≡ father) (in_table : father < max_file)
    (table : IsTable fs) (text : IsText cs) where
  abbrev quiet : FileSystem
  quiet = record fs { interrupts = false }

  quiet-IsTable : IsTable quiet
  quiet-IsTable = record {
    count = table.count;
    used = table.used;
    sizes = table.sizes;
    named = table.named;
  }

  with_irq_off-Adds : Adds fs new cs (
      add_body new (cs ++ 0 ∷ rest) quiet >>= λ (r, fs').
      ok (r, record fs' { interrupts = fs.interrupts }))
  with_irq_off-Adds = elim (Bool-cases (ltb fs.file_id max_file)) [
    | inr full ↦ inr (inr (ground (arith, table.used), rw full))
    | inl room ↦
        let lt : fs.file_id < max_file = ground arith in
        let (old, at) = get_elem?_lt fs.file_list fs.file_id (omega (arith, table.count)) in
        let size : length (new old).name ≡ max_name =
          ap length (same_name old) ∙ table.sizes fs.file_id old at in
        let own : (new old).father < max_file =
          subst (λ t. t < max_file) (sym (same_father old)) in_table in
        elim (finish_add-Added quiet (new old) cs rest quiet-IsTable text lt size own) [
          | inr (long, e) ↦ inr (inl (lt, long, rw (room, entry_of-at quiet fs.file_id old at, e)))
          | inl (short, (fs', e, added)) ↦
              let fs'' = record fs' { interrupts = fs.interrupts } in
              let added' : Added fs (named_copy (new old) cs) fs'' = record {
                next = added.next;
                kept = added.kept;
                flag = refl;
                entries = added.entries;
              } in
              inl (
                lt,
                short,
                (
                  old,
                  fs'',
                  at,
                  rw (room, entry_of-at quiet fs.file_id old at, e),
                  added',
                  Added-IsTable fs fs'' (named_copy (new old) cs) cs table lt
                      (length-named_copy (new old) cs (omega arith) ∙ size)
                      (drop (suc (length cs)) (new old).name, refl, text) added',
                ),
              )
        ]
  ]

-- In a table with 128 entries of 20 name bytes, with a father inside of it: `fs_add_file` of a
-- name of less than 20 characters, when an entry is free, returns the first free index, puts the
-- new file there, adds one to the count of the father, leaves all else as it was, keeps the table
-- well-formed and restores the interrupt flag. With a longer name it writes behind the entry's
-- name. With no entry free it returns -1 and changes nothing, the interrupt flag included.
pub fs_add_file-Adds :
    (father ftime base size f_op f_req : ℕ) (cs rest : List ℕ) (fs : FileSystem)
    → father < max_file
    → IsTable fs
    → IsText cs
    → Adds fs
        (λ old. record {
          type = f_t_file;
          father = father;
          time = ftime;
          base = base;
          size = size;
          pos_of = replicate max_task 0;
          f_op = f_op;
          f_req = f_req;
          name = old.name;
        })
        cs
        (fs_add_file father ftime base size f_op f_req (cs ++ 0 ∷ rest) fs)
unfolding fs_add_file
fs_add_file-Adds father ftime base size f_op f_req cs rest fs in_table table text =
    with_irq_off-Adds _ father fs cs rest (λ old. refl) (λ old. refl) in_table table text

-- `fs_add_dir` does the same for a directory, which has no size, base, operations or request, and
-- keeps the positions that its entry held.
fs_add_dir-Adds :
    (father ftime : ℕ) (cs rest : List ℕ) (fs : FileSystem)
    → father < max_file
    → IsTable fs
    → IsText cs
    → Adds fs
        (λ old. record {
          type = f_t_dir;
          father = father;
          time = ftime;
          base = 0;
          size = 0;
          pos_of = old.pos_of;
          f_op = 0;
          f_req = 0;
          name = old.name;
        })
        cs
        (fs_add_dir father ftime (cs ++ 0 ∷ rest) fs)
unfolding fs_add_dir
fs_add_dir-Adds father ftime cs rest fs in_table table text =
    with_irq_off-Adds _ father fs cs rest (λ old. refl) (λ old. refl) in_table table text
