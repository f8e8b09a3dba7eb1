-- ===== src/Paging/Link.antt =====
-- A page table that `map` adds, cleared, and the write into it.
use native.Mathlib.Decide.{ℕ_discrete}
use ocean_os.Base.{ℕ, ◌-◌, ◌^◌, ◌<◌, bit_or, ◌≡◌, ap, ◌≢◌, ◌&&◌, arith, ◌==◌, if◌then◌else◌}
use ocean_os.Base.Bits.{bit_or-three}
use ocean_os.Pages.{update}
use ocean_os.Paging.{Vm, page_present, page_write, word_at, to_virtual, clear_page, table_of, table}
use ocean_os.Paging.Tables.{IsFrame, IsWf, entry_at, to_virtual_lem, table_of-linked}
use ocean_os.Paging.Write.{dir_word, frame_word}

module _ (pgd : ℕ) (vm : Vm) (wf : IsWf pgd vm) (d t v : ℕ) (hd : d < 1024) (ht : t < 1024)
    (absent : table pgd vm.mem d ≡ 0) (free : 0 < vm.pages.top) where
  abbrev pub fresh : ℕ
  fresh = vm.pages.slots vm.pages.top

  abbrev pub linked : ℕ → ℕ
  linked = update vm.mem (word_at pgd d) (bit_or (bit_or fresh page_present) page_write)

  abbrev pub cleared : ℕ → ℕ
  cleared = clear_page (to_virtual fresh) linked

  abbrev pub link_written : ℕ → ℕ
  link_written = update cleared (word_at (to_virtual fresh) t) v

  fresh-IsFrame : IsFrame pgd fresh
  fresh-IsFrame = wf.free vm.pages.top free (omega arith)

  dir-linked :
      (i : ℕ)
      → i < 1024
      → link_written (word_at pgd i)
        ≡ (if i == d then bit_or (bit_or fresh page_present) page_write else vm.mem (word_at pgd i))
  unfolding clear_page
  dir-linked i h =
      let f = fresh-IsFrame in
      let a = wf.dir_aligned in
      ground (
        arith,
        dir_word pgd vm wf i h,
        dir_word pgd vm wf d hd,
        to_virtual_lem fresh f.low,
        frame_word pgd vm wf fresh t f ht,
      )

  pub table-linked :
      (i : ℕ) → i < 1024 → table pgd link_written i ≡ (if i == d then fresh else table pgd vm.mem i)
  unfolding table
  table-linked i h =
      let f = fresh-IsFrame in
      ground (arith, ap table_of (dir-linked i h), table_of-linked fresh f.aligned f.low)

  -- In the new table.
  word-linked :
      (t' : ℕ)
      → t' < 1024
      → link_written (word_at (to_virtual fresh) t') ≡ (if t' == t then v else 0)
  unfolding clear_page
  word-linked t' h' =
      let f = fresh-IsFrame in
      ground (
        arith,
        to_virtual_lem fresh f.low,
        frame_word pgd vm wf fresh t f ht,
        frame_word pgd vm wf fresh t' f h',
      )

  -- In a table that was there.
  word-kept :
      (d' t' : ℕ)
      → d' < 1024
      → t' < 1024
      → table pgd vm.mem d' ≢ 0
      → link_written (word_at (to_virtual (table pgd vm.mem d')) t')
        ≡ vm.mem (word_at (to_virtual (table pgd vm.mem d')) t')
  unfolding clear_page
  word-kept d' t' h h' there =
      let f = fresh-IsFrame in
      let f' = wf.frames d' h there in
      let a = wf.dir_aligned in
      ground (
        arith,
        to_virtual_lem fresh f.low,
        wf.free_unused vm.pages.top d' free (omega arith) h,
        dir_word pgd vm wf d hd,
        frame_word pgd vm wf fresh t f ht,
        frame_word pgd vm wf (table pgd vm.mem d') t' f' h',
      )

  pub entry_at-linked :
      (d' t' : ℕ)
      → d' < 1024
      → t' < 1024
      → entry_at pgd link_written d' t'
        ≡ (if (d' == d) && (t' == t) then v else entry_at pgd vm.mem d' t')
  unfolding entry_at
  entry_at-linked d' t' h h' =
      let f = fresh-IsFrame in
      let new = table-linked d' h in
      elim (ℕ_discrete d' d) [
        | yes same ↦
            let now : table pgd link_written d' ≡ fresh = ground arith in
            let old : table pgd vm.mem d' ≡ 0 = rw same absent in
            ground (arith, f.ne_zero, rw (← now) at (word-linked t' h'))
        | no other ↦
            let now : table pgd link_written d' ≡ table pgd vm.mem d' = ground arith in
            elim (ℕ_discrete (table pgd vm.mem d') 0) [
              | yes none_there ↦ ground arith
              | no there ↦ rw now (ground (arith, word-kept d' t' h h' there))
            ]
      ]

  words-linked : v < 2 ^ 32 → (a : ℕ) → link_written a < 2 ^ 32
  unfolding clear_page
  words-linked small a =
      let f = fresh-IsFrame in
      ground (arith, wf.words a, bit_or-three fresh (omega (arith, f.aligned)), f.low)

  pub IsWf-linked :
      v < 2 ^ 32
      → IsWf pgd (record { pages = record vm.pages { top = vm.pages.top - 1 }; mem = link_written })
  IsWf-linked small = record {
    dir_aligned = wf.dir_aligned;
    dir_end = wf.dir_end;
    words = words-linked small;
    frames = λ i h there. let f = fresh-IsFrame in ground (arith, table-linked i h, wf.frames i h);
    unshared = λ i j h k ne there. ground (
      arith,
      table-linked i h,
      table-linked j k,
      wf.unshared i j h k ne,
      wf.free_unused vm.pages.top i free (omega arith) h,
      wf.free_unused vm.pages.top j free (omega arith) k,
    );
    top_le = omega (arith, wf.top_le);
    free = λ k pos le. wf.free k pos (omega arith);
    free_unused = λ k i pos le h. ground (
      arith,
      table-linked i h,
      wf.free_unused k i pos (omega arith) h,
      wf.free_once k vm.pages.top pos (omega arith) (omega arith),
    );
    free_once = λ k l pos lt le. wf.free_once k l pos lt (omega arith);
  }
