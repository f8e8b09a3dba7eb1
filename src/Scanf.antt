-- ===== src/Scanf.antt =====
-- `scanf` of src/scanf.c: it waits for a line, shows it, and hands it to `_doscan`, the scanner of
-- MINIX, which is an argument.
pub mod Waiting
pub mod Reads
use ocean_os.Base.{
  ℕ, ◌+◌, ◌-◌, ◌^◌, List, [], ◌∷◌, ◌==◌, if◌then◌else◌, Result, ok, out_of_fuel, ◌>>=◌,
}
use ocean_os.Base.Text.{c_string}
use ocean_os.Buffer.{Buffer, init_buffer, get_last, getline, put_all}
use ocean_os.Monitor.{Monitor, PortWrites}
use ocean_os.Printf.Format.{printf}
use ocean_os.Strings.{strlen}

-- The fields of the FILE that `scanf` sets, with 32-bit words for ints. A pointer is the bytes from
-- there on.
pub record Stream : Type 0 where
  pub count : ℕ
  pub fd : ℕ
  pub flags : ℕ
  pub buf : List ℕ
  pub ptr : List ℕ

abbrev pub ioread : ℕ
ioread = 0x001

abbrev pub ionbf : ℕ
ionbf = 0x004

abbrev pub ioreading : ℕ
ioreading = 0x080

-- The loop around `getLast`. Interrupts put characters between its tests: `keys` has those behind
-- the first test, those behind the second, and so on.
unfoldable pub wait_line : ℕ → List (List ℕ) → Buffer → Result Buffer
wait_line empty_literal [] b =
    get_last empty_literal b >>= λ c. if c == b'\n' then ok b else out_of_fuel
wait_line empty_literal (cs ∷ keys) b =
    let rest = put_all cs b >>= wait_line empty_literal keys in
    get_last empty_literal b >>= λ c. if c == b'\n' then ok b else rest

abbrev pub stream_of : List ℕ → ℕ → Stream
stream_of buff count = record {
  count = count;
  fd = 2 ^ 32 - 1;
  flags = ioread + ionbf + ioreading;
  buf = buff;
  ptr = buff;
}

-- The result is the buffer, the screen with the writes to its ports, and what `_doscan` makes of
-- the stream, the format and the arguments.
unfoldable pub scanf {ℓ} :
    {Scanned : Type ℓ}
    → (Stream → List ℕ → List ℕ → Scanned)
    → ℕ
    → List (List ℕ)
    → List ℕ
    → List ℕ
    → Buffer
    → Monitor
    → Result (Buffer × Monitor × PortWrites × Scanned)
scanf doscan empty_literal keys format args b m = init_buffer b >>= λ reset.
    wait_line empty_literal keys reset >>= λ b'.
    let buff = getline b' in
    printf (λ address. buff) (c_string "%s") (0 ∷ []) m >>= λ (m', writes, stores).
    strlen buff >>= λ count. ok (b', m', writes, doscan (stream_of buff count) format args)
