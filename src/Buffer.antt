-- ===== src/Buffer.antt =====
-- The line buffer between the keyboard and `scanf`: src/buffer.c. A write outside of its
-- MAX_LENGTH bytes faults.
pub mod Lines
pub mod Examples
use ocean_os.Base.{
  ℕ, ◌+◌, ◌-◌, none, some, List, [], ◌∷◌, ltb, ◌==◌, if◌then◌else◌, length, get_elem?, set, Result,
  ok, fault, ◌>>=◌,
}

abbrev pub max_length : ℕ
max_length = 512

pub record Buffer : Type 0 where
  pub temp : List ℕ
  pub p : ℕ

unfoldable pub store : List ℕ → ℕ → ℕ → Result (List ℕ)
store temp i c = if ltb i (length temp) then ok (set temp i c) else fault

unfoldable pub init_buffer : Buffer → Result Buffer
init_buffer b = store b.temp b.p 0 >>= λ temp. ok (record { temp = temp; p = 0 })

unfoldable pub put_buffer : ℕ → Buffer → Result Buffer
put_buffer c b = store b.temp b.p c >>= λ written.
    store written (b.p + 1) 0 >>= λ temp. ok (record { temp = temp; p = b.p + 1 })

-- `empty_literal` is the low byte of the address of the literal that the source returns for an
-- empty buffer.
unfoldable pub get_last : ℕ → Buffer → Result ℕ
get_last empty_literal b =
    if b.p == 0
    then ok empty_literal
    else elim (get_elem? b.temp (b.p - 1)) [ none ↦ fault | some c ↦ ok c ]

unfoldable pub getline : Buffer → List ℕ
getline b = b.temp

-- The characters that the keyboard puts, one after the other.
unfoldable pub put_all : List ℕ → Buffer → Result Buffer
put_all [] b = ok b
put_all (c ∷ cs) b = put_buffer c b >>= put_all cs
