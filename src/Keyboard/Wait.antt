-- ===== src/Keyboard/Wait.antt =====
-- The loop of `kbd_wait` of src/keyboard.c.
use ocean_os.Base.{
  ℕ, bit_and, ◌≡◌, refl, true, false, List, [], ◌∷◌, ◌++◌, ◌==◌, All, ok, out_of_fuel,
}
use ocean_os.Keyboard.{wait_status}

-- The input buffer of the controller is full.
abbrev pub IsFull : ℕ → Type 0
IsFull status = (bit_and status 0x2 == 0) ≡ false

-- The loop ends at the first reading without the bit, wherever that comes.
pub wait_status-first :
    (busy : List ℕ) (status : ℕ) (readings : List ℕ)
    → All IsFull busy
    → (bit_and status 0x2 == 0) ≡ true
    → wait_status (busy ++ status ∷ readings) ≡ ok readings
unfolding wait_status
wait_status-first [] status readings full free = rw free refl
wait_status-first (b ∷ busy) status readings (full, others) free =
    rw full (wait_status-first busy status readings others free)

-- As long as the buffer is full, it goes on.
pub wait_status-full : (busy : List ℕ) → All IsFull busy → wait_status busy ≡ out_of_fuel
unfolding wait_status
wait_status-full [] full = refl
wait_status-full (b ∷ busy) (full, others) = rw full (wait_status-full busy others)
