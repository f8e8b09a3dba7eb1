-- ===== src/Base/Int.antt =====
-- `int`: the integers over the native numbers, under the library's names.
use Prim.Native.Nat.{ℕ, suc, ◌-◌}
use ocean_os.Base.Tests.{leb, if◌then◌else◌}

-- `negsuc n` is -(n + 1).
pub data ℤ : Type 0 where
  pos : ℕ → ℤ
  negsuc : ℕ → ℤ

-- a - b, as an integer.
abbrev pub sub_ℕ : ℕ → ℕ → ℤ
sub_ℕ a b = if leb b a then pos (a - b) else negsuc (b - a - 1)

abbrev pub neg : ℤ → ℤ
neg (pos n) = sub_ℕ 0 n
neg (negsuc n) = pos (suc n)
