-- ===== src/Monitor/Scroll.antt =====
-- The loops over the video memory in closed form.
use ocean_os.Base.{
  ℕ, zero, suc, ◌+◌, ◌≤◌, ◌<◌, ◌≡◌, refl, ◌∙◌, ◌⊎◌, inl, inr, ◌&&◌, arith, ltb, leb, if◌then◌else◌,
  Bool-cases,
}
use ocean_os.Pages.{update}
use ocean_os.Monitor.{Monitor, blank, copy_rows, fill_blank, screen_scroll, monitor_clear}

fill_blank_lem :
    (n i : ℕ) (v : ℕ → ℕ) (a : ℕ)
    → fill_blank n i v a ≡ (if leb i a && ltb a (i + n) then blank else v a)
unfolding fill_blank
fill_blank_lem zero i v a = ground arith
fill_blank_lem (suc n) i v a = ground (arith, fill_blank_lem n (i + 1) (update v i blank) a)

copy_rows_lem :
    (n i : ℕ) (v : ℕ → ℕ) (a : ℕ)
    → copy_rows n i v a ≡ (if leb i a && ltb a (i + n) then v (a + 80) else v a)
unfolding copy_rows
copy_rows_lem zero i v a = ground arith
copy_rows_lem (suc n) i v a = ground (arith, copy_rows_lem n (i + 1) (update v i (v (i + 80))) a)

-- With the cursor below the last row, `screen_scroll` moves every row up by one, blanks the last
-- one, leaves the memory behind the screen alone and puts the cursor into the last row. With the
-- cursor on the screen it changes nothing.
pub screen_scroll-rows :
    (m : Monitor)
    → ((25 ≤ m.cursor_y)
        × ((screen_scroll m).cursor_y ≡ 24)
        × ((screen_scroll m).cursor_x ≡ m.cursor_x)
        × ((a : ℕ)
            → (screen_scroll m).video_memory a ≡ (
                if ltb a 1920
                then m.video_memory (a + 80)
                else if ltb a 2000
                then blank
                else m.video_memory a)))
      ⊎ ((m.cursor_y < 25) × (screen_scroll m ≡ m))
unfolding screen_scroll
screen_scroll-rows m = elim (Bool-cases (leb 25 m.cursor_y)) [
  | inr on ↦ inr (ground arith, ground arith)
  | inl below ↦ inl (
    ground arith,
    ground arith,
    ground arith,
    λ a. rw below (
        fill_blank_lem 80 1920 (copy_rows 1920 0 m.video_memory) a
        ∙ ground (arith, copy_rows_lem 1920 0 m.video_memory a)),
  )
]

-- `monitor_clear` blanks exactly the cells of the screen and puts the cursor into its corner.
pub monitor_clear-blank :
    (m : Monitor)
    → let m' = (monitor_clear m).0 in
      (m'.cursor_x ≡ 0)
      × (m'.cursor_y ≡ 0)
      × ((a : ℕ) → m'.video_memory a ≡ (if ltb a 2000 then blank else m.video_memory a))
unfolding monitor_clear
monitor_clear-blank m = (refl, refl, λ a. fill_blank_lem 2000 0 m.video_memory a ∙ ground arith)
