-- ===== src/FileTable/Table.antt =====
-- The file table as src/file.c keeps it, and the table with an entry more.
use native.Mathlib.Decide.{ℕ_discrete}
use mathlib.Core.Option
use ocean_os.Base.{
  ℕ, zero, suc, ◌+◌, ◌%◌, ◌^◌, ◌≤◌, ◌<◌, ◌≡◌, refl, ap, ◌∙◌, ◌≢◌, ◌⊎◌, inl, inr, Option, none, some,
  List, [], ◌∷◌, ◌++◌, arith, ◌==◌, if◌then◌else◌, length, get_elem?, set, drop, length-append,
  length-set, get_elem?_lt, ok, fault, get_elem?-set,
}
use ocean_os.Base.Int.{pos}
use ocean_os.Strings.{IsText}
use ocean_os.Strings.Copy.{strcpy-append}
use ocean_os.FileTable.{File, FileSystem, max_file, max_name, entry_of, finish_add}
use ocean_os.FileTable.Match.{IsNamed, Named}

-- The table as the functions keep it: 128 entries with 20 bytes for a name, those in use named.
pub record IsTable (fs : FileSystem) : Type 0 where
  pub count : length fs.file_list ≡ max_file
  pub used : fs.file_id ≤ max_file
  pub sizes : (i : ℕ) (f : File) → get_elem? fs.file_list i ≡ some f → length f.name ≡ max_name
  pub named : Named fs

abbrev pub bump : File → File
bump f = record f { size = (f.size + 1) % 2 ^ 32 }

-- The table after an entry was added: the new one at the first free index, and one more in the
-- count of the father, which may be the new entry itself.
pub record Added (fs : FileSystem) (new : File) (fs' : FileSystem) : Type 0 where
  pub next : fs'.file_id ≡ fs.file_id + 1
  pub kept : length fs'.file_list ≡ length fs.file_list
  pub flag : fs'.interrupts ≡ fs.interrupts
  pub entries :
      (j : ℕ)
      → get_elem? fs'.file_list j ≡ (
          if j == new.father
          then (if j == fs.file_id
              then some (bump new)
              else Option.map bump (get_elem? fs.file_list j))
          else if j == fs.file_id
          then some new
          else get_elem? fs.file_list j)

abbrev pub named_copy : File → List ℕ → File
named_copy new cs = record new { name = cs ++ 0 ∷ drop (suc (length cs)) new.name }

module _ (fs : FileSystem) (new : File) (cs rest : List ℕ) (table : IsTable fs) (text : IsText cs)
    (room : fs.file_id < max_file) (size : length new.name ≡ max_name)
    (father : new.father < max_file) where
  abbrev made : File
  made = named_copy new cs

  abbrev placed : List File
  placed = set fs.file_list fs.file_id made

  placed-at :
      (j : ℕ)
      → get_elem? placed j ≡ (if j == fs.file_id then some made else get_elem? fs.file_list j)
  placed-at j = get_elem?-set fs.file_list fs.file_id j made (omega (arith, table.count))

  length-placed : length placed ≡ max_file
  length-placed = length-set fs.file_list fs.file_id made ∙ table.count

  entries-Added :
      (f : File)
      → get_elem? placed new.father ≡ some f
      → (j : ℕ)
      → get_elem? (set placed new.father (bump f)) j ≡ (
          if j == new.father
          then (if j == fs.file_id
              then some (bump made)
              else Option.map bump (get_elem? fs.file_list j))
          else if j == fs.file_id
          then some made
          else get_elem? fs.file_list j)
  entries-Added f at j =
      let set_at = get_elem?-set placed new.father j (bump f) (omega (arith, length-placed)) in
      elim (ℕ_discrete j new.father) [
        | no other ↦ ground (arith, set_at, placed-at j)
        | yes here ↦ elim (ℕ_discrete j fs.file_id) [
          | yes new_one ↦ ground (arith, set_at, rw here at (placed-at j), at)
          | no old_one ↦
              let old : get_elem? fs.file_list j ≡ some f =
                ground (arith, placed-at j, rw (← here) at at) in
              ground (arith, set_at, placed-at j, old)
        ]
      ]

  pub finish_add-Added :
      ((length cs < max_name)
        × ((fs' : FileSystem) × (finish_add fs new (cs ++ 0 ∷ rest) ≡ ok (pos fs.file_id, fs'))
            × Added fs made fs'))
      ⊎ ((max_name ≤ length cs) × (finish_add fs new (cs ++ 0 ∷ rest) ≡ fault))
  unfolding finish_add entry_of
  finish_add-Added = elim (strcpy-append new.name cs rest text) [
    | inr (long, e) ↦ inr (omega arith, rw e)
    | inl (short, e) ↦
        let (f, at) = get_elem?_lt placed new.father (omega (arith, length-placed)) in
        inl (
          omega arith,
          (
            record {
              file_list = set placed new.father (bump f);
              file_id = fs.file_id + 1;
              interrupts = fs.interrupts;
            },
            rw (e, finish_add, at, entry_of),
            record {
              next = refl;
              kept =
                  length-set placed new.father (bump f) ∙ length-set fs.file_list fs.file_id made;
              flag = refl;
              entries = entries-Added f at;
            },
          ),
        )
  ]

-- Where an entry of the new table comes from.
Added-source :
    (fs fs' : FileSystem) (new : File)
    → Added fs new fs'
    → (j : ℕ) (f : File) → get_elem? fs'.file_list j ≡ some f
    → ((j ≡ fs.file_id) × (f.name ≡ new.name))
      ⊎ ((g : File) × (j ≢ fs.file_id) × (get_elem? fs.file_list j ≡ some g) × (f.name ≡ g.name))
Added-source fs fs' new added j f at = elim (ℕ_discrete j fs.file_id) [
  | yes here ↦ inl (here, ground (arith, added.entries j, at))
  | no other ↦ inr (older (get_elem? fs.file_list j) other refl)
]
  where
    older :
        (o : Option File)
        → j ≢ fs.file_id
        → get_elem? fs.file_list j ≡ o
        → (g : File) × (j ≢ fs.file_id) × (get_elem? fs.file_list j ≡ some g) × (f.name ≡ g.name)
    older none other e = absurd (ground (arith, added.entries j))
    older (some g) other e = (g, other, e, ground (arith, added.entries j))

-- Where an entry of the old table goes.
Added-target :
    (fs fs' : FileSystem) (new : File)
    → Added fs new fs'
    → (j : ℕ) (g : File) → j ≢ fs.file_id
    → get_elem? fs.file_list j ≡ some g
    → (f : File) × (get_elem? fs'.file_list j ≡ some f) × (f.name ≡ g.name)
Added-target fs fs' new added j g other at = elim (ℕ_discrete j new.father) [
  | yes here ↦ (bump g, ground (arith, added.entries j, at), refl)
  | no there ↦ (g, ground (arith, added.entries j, at), refl)
]

Added-own :
    (fs fs' : FileSystem) (new : File)
    → Added fs new fs'
    → (f : File) × (get_elem? fs'.file_list fs.file_id ≡ some f) × (f.name ≡ new.name)
Added-own fs fs' new added = elim (ℕ_discrete fs.file_id new.father) [
  | yes here ↦ (bump new, ground (arith, added.entries fs.file_id), refl)
  | no there ↦ (new, ground (arith, added.entries fs.file_id), refl)
]

pub Added-IsTable :
    (fs fs' : FileSystem) (new : File) (cs : List ℕ)
    → IsTable fs
    → fs.file_id < max_file
    → length new.name ≡ max_name
    → IsNamed new cs
    → Added fs new fs'
    → IsTable fs'
Added-IsTable fs fs' new cs table room size name added = record {
  count = added.kept ∙ table.count;
  used = omega (arith, added.next);
  sizes = λ j f at. elim (Added-source fs fs' new added j f at) [
    | inl (_, e) ↦ ap length e ∙ size
    | inr (g, _, old, e) ↦ ap length e ∙ table.sizes j g old
  ];
  named = λ j h. elim (ℕ_discrete j fs.file_id) [
    | yes here ↦
        let (f, at, e) = Added-own fs fs' new added in
        (f, cs, ap (get_elem? fs'.file_list) here ∙ at, (name.0, e ∙ name.1, name.2))
    | no other ↦
        let (g, ds, old, (rest, stored, text)) = table.named j (omega (arith, added.next)) in
        let (f, at, e) = Added-target fs fs' new added j g other old in
        (f, ds, at, (rest, e ∙ stored, text))
  ];
}

length-drop_lt :
    (xs : List ℕ) (n : ℕ) → n < length xs → length (drop (suc n) xs) + suc n ≡ length xs
length-drop_lt [] n h = elim h [ ]
length-drop_lt (x ∷ xs) zero h = omega arith
length-drop_lt (x ∷ xs) (suc n) h = omega (arith, length-drop_lt xs n (omega arith))

pub length-named_copy :
    (new : File) (cs : List ℕ)
    → length cs < length new.name
    → length (named_copy new cs).name ≡ length new.name
length-named_copy new cs h = omega (
  arith,
  length-append cs (0 ∷ drop (suc (length cs)) new.name),
  length-drop_lt new.name (length cs) h,
)
