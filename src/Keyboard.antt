-- ===== src/Keyboard.antt =====
-- The keyboard driver, src/keyboard.c: the state of the modifier keys, the lights and the prefix
-- flag, the table of handlers and the handlers. What a handler does to the outside is a list of
-- effects in order: writes to I/O ports, the character that goes to the screen and to the line
-- buffer, the test programs of src/test.c that a function key starts. A read of a table outside of
-- its entries faults.
pub mod Tables
pub mod Machine
pub mod Modifiers
pub mod Letters
pub mod Lights
pub mod Wait
pub mod Reads
pub mod Start
pub mod Examples
use ocean_os.Base.{
  ℕ, ◌+◌, ◌-◌, ◌*◌, ◌%◌, ◌^◌, bit_and, bit_or, bit_xor, Bool, ◌&&◌, ◌||◌, not, Option, none, some,
  List, [], ◌∷◌, ◌++◌, ltb, leb, ◌==◌, if◌then◌else◌, get_elem?, get_or, Result, ok, fault,
  out_of_fuel, ◌>>=◌,
}
use ocean_os.Trap.{Trap, register_interrupt_handler}
use Tables.{
  Action, none_key, do_self_key, ctrl_key, lshift_key, minus_key, rshift_key, alt_key, caps_key,
  func_key, num_key, screen_scroll_key, cursor_key, unctrl_key, unlshift_key, unrshift_key,
  unalt_key, uncaps_key, key_tab, shift_map, key_map, alt_map, number_tab, cursos_tab,
}

pub record Keyboard : Type 0 where
  pub mode : ℕ
  pub leds : ℕ
  pub e0 : ℕ

pub data Effect : Type 0 where
  outb : ℕ → ℕ → Effect
  -- `kbd_wait`, which is `wait_status` below.
  kbd_wait : Effect
  -- `printf("%c", ch)` and `put_buffer(ch)`.
  echo put_buffer : ℕ → Effect
  -- `printf("func :%d\n", i)`, and the test programs.
  print_func : ℕ → Effect
  test_malloc test_process : Effect

-- `kbd_wait` over what port 0x64 reads, one reading after the other, with those that are left.
unfoldable pub wait_status : List ℕ → Result (List ℕ)
wait_status [] = out_of_fuel
wait_status (status ∷ readings) =
    let later = wait_status readings in if bit_and status 0x2 == 0 then ok readings else later

abbrev pub Step : Type 0
Step = Result (Keyboard × List Effect)

-- `mode & mask` as a condition.
abbrev pub has : ℕ → ℕ → Bool
has x mask = not (bit_and x mask == 0)

unfoldable pub map_of : ℕ → List ℕ
map_of mode = if has mode 0x20 then alt_map else if has mode 0x3 then shift_map else key_map

-- The letter of a key under caps lock and control.
unfoldable pub shift_case : ℕ → ℕ → ℕ
shift_case mode ch =
    if (bit_and mode 0x41 == 0x41) || (bit_and mode 0x42 == 0x42) || (bit_and mode 0x43 == 0x43)
    then (if leb ch b'Z' && leb b'A' ch then (ch + 0x20) % 256 else ch)
    else (if leb ch b'z' && leb b'a' ch then ch - 0x20 else ch)

unfoldable pub modify : ℕ → ℕ → ℕ
unfolding shift_case
modify mode ch =
    let cased = if has mode 0x4c then shift_case mode ch else ch in
    let controlled = if has mode 0x4c && has mode 0xc then (cased + 256 - 0x40) % 256 else cased in
    let flagged = if has mode 0x10 then bit_or controlled 0x80 else controlled in
    bit_and flagged 0xff

unfoldable pub do_self : ℕ → Keyboard → Step
do_self scan_code k = elim (get_elem? (map_of k.mode) (bit_and scan_code 0xff)) [
  | none ↦ fault
  | some ch ↦
      if ch == 0
      then ok (k, [])
      else (let c = modify k.mode ch in ok (k, echo c ∷ put_buffer c ∷ []))
]

abbrev pub set_mode : Keyboard → ℕ → Step
set_mode k m = ok (record k { mode = m }, [])

unfoldable pub alt : Keyboard → Step
alt k = set_mode k (if k.e0 == 0 then bit_or k.mode 0x10 else bit_or k.mode 0x20)

unfoldable pub unalt : Keyboard → Step
unalt k = set_mode k (if k.e0 == 0 then bit_and k.mode 0xef else bit_and k.mode 0xdf)

unfoldable pub ctrl : Keyboard → Step
ctrl k = set_mode k (if k.e0 == 0 then bit_or k.mode 0x4 else bit_or k.mode 0x8)

unfoldable pub unctrl : Keyboard → Step
unctrl k = set_mode k (if k.e0 == 0 then bit_and k.mode 0xFB else bit_and k.mode 0xF7)

unfoldable pub lshift : Keyboard → Step
lshift k = set_mode k (bit_or k.mode 0x1)

unfoldable pub unlshift : Keyboard → Step
unlshift k = set_mode k (bit_and k.mode 0xfe)

unfoldable pub rshift : Keyboard → Step
rshift k = set_mode k (bit_or k.mode 0x2)

unfoldable pub unrshift : Keyboard → Step
unrshift k = set_mode k (bit_and k.mode 0xfd)

unfoldable pub setleds : Keyboard → Step
setleds k = ok (k, kbd_wait ∷ outb 0x60 0xed ∷ kbd_wait ∷ outb 0x60 k.leds ∷ [])

unfoldable pub caps : Keyboard → Step
unfolding setleds
caps k =
    if has k.mode 0x80
    then ok (k, [])
    else setleds (record k { leds = bit_xor k.leds 0x4; mode = bit_or (bit_xor k.mode 0x40) 0x80 })

unfoldable pub uncaps : Keyboard → Step
uncaps k = set_mode k (bit_and k.mode 0x7f)

unfoldable pub screen_scroll : Keyboard → Step
unfolding setleds
screen_scroll k = setleds (record k { leds = bit_xor k.leds 0x1 })

unfoldable pub num : Keyboard → Step
unfolding setleds
num k = setleds (record k { leds = bit_xor k.leds 0x2 })

unfoldable pub func : ℕ → Keyboard → Step
func scan_code k =
    let i = (scan_code + 256 - 58) % 256 in
    ok (
      k,
      print_func i
          ∷ (if i == 1 then test_malloc ∷ [] else if i == 2 then test_process ∷ [] else []),
    )

unfoldable pub minus : ℕ → Keyboard → Step
unfolding do_self
minus scan_code k = if k.e0 == 1 then ok (k, []) else do_self scan_code k

-- The character that `cursor` works out for a key of the number pad, in a byte.
unfoldable pub cursor_char : ℕ → Keyboard → Option ℕ
cursor_char scan_code k =
    let i = (scan_code + 256 - 0x47) % 256 in
    if ltb 12 i
    then none
    else if (k.e0 == 1) || (bit_and k.leds 0x2 == 0) || has k.mode 0x3
    then (let ch = get_or cursos_tab i 0 in
        some (bit_or ((if leb ch b'9' then b'~' else ch) * 2 ^ 16) 0x5b1b % 256))
    else some (get_or number_tab i 0)

-- `cursor` drops that character.
unfoldable pub cursor : ℕ → Keyboard → Step
cursor scan_code k = let dropped = cursor_char scan_code k in ok (k, [])

unfoldable pub dispatch : Action → ℕ → Keyboard → Step
dispatch none_key scan_code k = ok (k, [])
dispatch do_self_key scan_code k = do_self scan_code k
dispatch ctrl_key scan_code k = ctrl k
dispatch lshift_key scan_code k = lshift k
dispatch minus_key scan_code k = minus scan_code k
dispatch rshift_key scan_code k = rshift k
dispatch alt_key scan_code k = alt k
dispatch caps_key scan_code k = caps k
dispatch func_key scan_code k = func scan_code k
dispatch num_key scan_code k = num k
dispatch screen_scroll_key scan_code k = screen_scroll k
dispatch cursor_key scan_code k = cursor scan_code k
dispatch unctrl_key scan_code k = unctrl k
dispatch unlshift_key scan_code k = unlshift k
dispatch unrshift_key scan_code k = unrshift k
dispatch unalt_key scan_code k = unalt k
dispatch uncaps_key scan_code k = uncaps k

-- The writes that acknowledge the scan code; `r` and `r'` are what port 0x61 reads.
abbrev pub acknowledge : ℕ → ℕ → List Effect
acknowledge r r' = outb 0x61 (bit_or r 0x80) ∷ outb 0x61 (bit_and r' 0x7f) ∷ []

-- A prefix is remembered; any other code is handed to its handler, and ends the prefix.
unfoldable pub take_code : ℕ → Keyboard → Step
take_code scan_code k =
    if scan_code == 0xE0
    then ok (record k { e0 = 1 }, [])
    else if scan_code == 0xE1
    then ok (record k { e0 = 2 }, [])
    else (dispatch (get_or key_tab scan_code none_key) scan_code k >>= λ (k', es).
        ok (record k' { e0 = 0 }, es))

-- The handler of IRQ 1; `scan_code` is what port 0x60 reads.
unfoldable pub keyboard_handler : ℕ → ℕ → ℕ → Keyboard → Step
keyboard_handler r r' scan_code k =
    let reset =
      if (scan_code == 0x53) && has k.mode 4 && has k.mode 16 then outb 0x64 0xFE ∷ [] else [] in
    take_code scan_code k >>= λ (k', es). ok (k', reset ++ (es ++ acknowledge r r'))

unfoldable pub init_kbd : Keyboard → Step
unfolding setleds
init_kbd k = setleds (record k { mode = 0; leds = 2 })

-- The vector of the keyboard's line.
abbrev pub irq1 : ℕ
irq1 = 33

-- `handler` is the address of `keyboard_handler`.
unfoldable pub init_keyboard {ℓ} :
    {Handler : Type ℓ}
    → Handler
    → Keyboard
    → Trap Handler
    → Result ((Keyboard × List Effect) × Trap Handler)
init_keyboard handler k s =
    init_kbd k >>= λ done. ok (done, register_interrupt_handler irq1 handler s)
