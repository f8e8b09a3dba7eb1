-- ===== src/Interrupts/Rows.antt =====
-- The blocks of a heap that holds threads only, and the addresses of these.
use ocean_os.Base.{
  ℕ, zero, suc, ◌+◌, ◌*◌, ◌≡◌, refl, ap, true, false, [], ◌∷◌, ◌++◌, arith, All, length,
}
use ocean_os.Heap.{header_size}
use ocean_os.Heap.Chain.{end_of, can_hold}
use ocean_os.Interrupts.Machine.{stack_blocks, thread_row}

pub end_of-stack_blocks : (n a : ℕ) → end_of a (stack_blocks n) ≡ a + n * (8192 + header_size)
end_of-stack_blocks zero a = omega arith
end_of-stack_blocks (suc n) a = omega (arith, end_of-stack_blocks n (a + (8192 + header_size)))

pub stack_blocks-suc :
    (n : ℕ) → stack_blocks n ++ (true, 8192 + header_size) ∷ [] ≡ stack_blocks (suc n)
stack_blocks-suc zero = refl
stack_blocks-suc (suc n) = ap (λ bs. (true, 8192 + header_size) ∷ bs) (stack_blocks-suc n)

pub thread_row-suc :
    (n a : ℕ)
    → thread_row a n ++ (end_of a (stack_blocks n) + header_size) ∷ [] ≡ thread_row a (suc n)
thread_row-suc zero a = refl
thread_row-suc (suc n) a =
    ap (λ ps. (a + header_size) ∷ ps) (thread_row-suc n (a + (8192 + header_size)))

pub stack_blocks-full :
    (n : ℕ) → All (λ b. can_hold (8192 + header_size) b ≡ false) (stack_blocks n)
stack_blocks-full zero = tt
stack_blocks-full (suc n) = (refl, stack_blocks-full n)

pub length-stack_blocks : (n : ℕ) → length (stack_blocks n) ≡ n
length-stack_blocks zero = refl
length-stack_blocks (suc n) = ap suc (length-stack_blocks n)

pub length-thread_row : (n a : ℕ) → length (thread_row a n) ≡ n
length-thread_row zero a = refl
length-thread_row (suc n) a = ap suc (length-thread_row n (a + (8192 + header_size)))
