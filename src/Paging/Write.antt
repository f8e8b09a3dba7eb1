-- ===== src/Paging/Write.antt =====
-- A write into a page table that is there.
use native.Mathlib.Decide.{ℕ_discrete}
use ocean_os.Base.{ℕ, ◌+◌, ◌*◌, ◌^◌, ◌<◌, ◌≡◌, ap, ◌∙◌, ◌≢◌, ◌&&◌, arith, ◌==◌, if◌then◌else◌}
use ocean_os.Pages.{update}
use ocean_os.Paging.{Vm, page_offset, word_at, to_virtual, table_of, table}
use ocean_os.Paging.Tables.{IsFrame, IsWf, entry_at, word_at_lem, to_virtual_lem}

module _ (pgd : ℕ) (vm : Vm) (wf : IsWf pgd vm) where
  -- The address of a word of the directory, and of a word of a table.
  pub dir_word : (i : ℕ) → i < 1024 → word_at pgd i ≡ pgd + 4 * i
  dir_word i h = word_at_lem pgd i wf.dir_end h

  pub frame_word :
      (p i : ℕ) → IsFrame pgd p → i < 1024 → word_at (to_virtual p) i ≡ p + page_offset + 4 * i
  frame_word p i f h =
      ap (λ b. word_at b i) (to_virtual_lem p f.low)
      ∙ word_at_lem (p + page_offset) i (omega (arith, f.low, f.aligned)) h

module _ (pgd : ℕ) (vm : Vm) (wf : IsWf pgd vm) (d t v : ℕ) (hd : d < 1024) (ht : t < 1024)
    (present : table pgd vm.mem d ≢ 0) where
  abbrev pub written : ℕ → ℕ
  written = update vm.mem (word_at (to_virtual (table pgd vm.mem d)) t) v

  dir-written : (i : ℕ) → i < 1024 → written (word_at pgd i) ≡ vm.mem (word_at pgd i)
  dir-written i h =
      let f = wf.frames d hd present in
      let a = wf.dir_aligned in
      let g = table pgd vm.mem d in
      ground (arith, dir_word pgd vm wf i h, frame_word pgd vm wf g t f ht)

  pub table-written : (i : ℕ) → i < 1024 → table pgd written i ≡ table pgd vm.mem i
  unfolding table
  table-written i h = ap table_of (dir-written i h)

  pub entry_at-written :
      (d' t' : ℕ)
      → d' < 1024
      → t' < 1024
      → entry_at pgd written d' t'
        ≡ (if (d' == d) && (t' == t) then v else entry_at pgd vm.mem d' t')
  unfolding entry_at
  entry_at-written d' t' h h' = elim (ℕ_discrete (table pgd vm.mem d') 0) [
    | yes absent ↦ ground (arith, table-written d' h)
    | no there ↦
        let f = wf.frames d hd present in
        let f' = wf.frames d' h there in
        ground (
          arith,
          table-written d' h,
          wf.unshared d d' hd h,
          frame_word pgd vm wf (table pgd vm.mem d) t f ht,
          frame_word pgd vm wf (table pgd vm.mem d') t' f' h',
        )
  ]

  pub IsWf-written : v < 2 ^ 32 → IsWf pgd (record vm { mem = written })
  IsWf-written small = record {
    dir_aligned = wf.dir_aligned;
    dir_end = wf.dir_end;
    words = λ a. ground (arith, wf.words a);
    frames = λ i h. rw (table-written i h) (wf.frames i h);
    unshared = λ i j h k. rw (table-written i h, table-written j k) (wf.unshared i j h k);
    top_le = wf.top_le;
    free = wf.free;
    free_unused = λ k i pos le h. rw (table-written i h) (wf.free_unused k i pos le h);
    free_once = wf.free_once;
  }
