-- ===== src/Interrupts/Fits.antt =====
-- What a key prints, by the handlers of src/keyboard.c.
use ocean_os.Base.{
  ℕ, suc, ◌+◌, ◌-◌, ◌%◌, ◌≤◌, ◌<◌, bit_and, ◌≡◌, refl, ◌≢◌, inl, inr, Bool, true, false, ◌&&◌, none,
  some, List, [], ◌∷◌, ◌++◌, arith, ◌==◌, if◌then◌else◌, Bool-cases, All, get_elem?, get_or, ok,
  panic, fault, out_of_fuel, ◌>>=◌, All-append,
}
use ocean_os.Base.Bits.{bit_and-ff}
use ocean_os.Interrupts.{Interrupt, wait_all}
use ocean_os.Keyboard.{
  wait_status, Effect, Step, outb, kbd_wait, echo, put_buffer, print_func, test_malloc,
  test_process, Keyboard, modify, map_of, do_self, alt, unalt, ctrl, unctrl, lshift, unlshift,
  rshift, unrshift, caps, uncaps, screen_scroll, num, func, minus, cursor, dispatch, take_code,
  keyboard_handler, has, acknowledge,
}
use ocean_os.Keyboard.Tables.{
  Action, none_key, do_self_key, minus_key, caps_key, func_key, num_key, screen_scroll_key, key_tab,
}

-- The characters that the effects put into the line buffer.
abbrev pub puts : List Effect → List ℕ
puts [] = []
puts (put_buffer c ∷ es) = c ∷ puts es
puts (outb p b ∷ es) = puts es
puts (kbd_wait ∷ es) = puts es
puts (echo c ∷ es) = puts es
puts (print_func i ∷ es) = puts es
puts (test_malloc ∷ es) = puts es
puts (test_process ∷ es) = puts es

-- How often `kbd_wait` is called.
abbrev pub waits : List Effect → ℕ
waits [] = 0
waits (kbd_wait ∷ es) = suc (waits es)
waits (put_buffer c ∷ es) = waits es
waits (outb p b ∷ es) = waits es
waits (echo c ∷ es) = waits es
waits (print_func i ∷ es) = waits es
waits (test_malloc ∷ es) = waits es
waits (test_process ∷ es) = waits es

-- What is printed is a byte, and no test program starts.
abbrev pub Fits : Effect → Type 0
Fits (echo c) = c < 256
Fits (print_func i) = i < 256
Fits test_malloc = ⊥
Fits test_process = ⊥
Fits e = Unit

-- The effects of a step that returns, with two calls of `kbd_wait` at most.
abbrev pub FitAll : Step → Type 0
FitAll (ok (k, es)) = All Fits es × (waits es ≤ 2)
FitAll (panic p) = Unit
FitAll fault = Unit
FitAll out_of_fuel = Unit

modify_lt : (mode ch : ℕ) → modify mode ch < 256
unfolding modify
modify_lt mode ch = omega (arith, bit_and-ff _)

do_self-FitAll : (scan_code : ℕ) (k : Keyboard) → FitAll (do_self scan_code k)
unfolding do_self
do_self-FitAll scan_code k =
    elim (get_elem? (map_of k.mode) (bit_and scan_code 0xff))
      as (λ o. FitAll (elim o [
        | none ↦ fault
        | some ch ↦
            if ch == 0
            then ok (k, [])
            else ok (k, echo (modify k.mode ch) ∷ put_buffer (modify k.mode ch) ∷ [])
      ])) [
        | none ↦ tt
        | some ch ↦ elim (Bool-cases (ch == 0)) [
          | inl unused ↦ rw unused (tt, omega arith)
          | inr used ↦ rw used ((modify_lt k.mode ch, (tt, tt)), omega arith)
        ]
      ]

-- The keys f1 and f2.
abbrev pub StartsNone : ℕ → Type 0
StartsNone scan_code = (scan_code < 256) × (scan_code ≢ 0x3B) × (scan_code ≢ 0x3C)

func-FitAll : (scan_code : ℕ) (k : Keyboard) → StartsNone scan_code → FitAll (func scan_code k)
unfolding func
func-FitAll scan_code k (byte, no_malloc, no_process) =
    let i = (scan_code + 256 - 58) % 256 in
    let first : (i == 1) ≡ false = ground arith in
    let second : (i == 2) ≡ false = ground arith in
    rw (first, second) ((omega arith, tt), omega arith)

caps-FitAll : (k : Keyboard) → FitAll (caps k)
unfolding caps
caps-FitAll k = elim (Bool-cases (has k.mode 0x80)) [
  | inl down ↦ rw down (tt, omega arith)
  | inr up ↦ rw up ((tt, (tt, (tt, (tt, tt)))), omega arith)
]

dispatch-FitAll :
    (a : Action) (scan_code : ℕ) (k : Keyboard)
    → StartsNone scan_code
    → FitAll (dispatch a scan_code k)
unfolding dispatch alt unalt ctrl unctrl lshift unlshift rshift unrshift uncaps screen_scroll num
    minus cursor
dispatch-FitAll do_self_key scan_code k calm = do_self-FitAll scan_code k
dispatch-FitAll minus_key scan_code k calm = elim (Bool-cases (k.e0 == 1)) [
  | inl right ↦ rw right (tt, omega arith)
  | inr main ↦ rw main (do_self-FitAll scan_code k)
]
dispatch-FitAll caps_key scan_code k calm = caps-FitAll k
dispatch-FitAll func_key scan_code k calm = func-FitAll scan_code k calm
dispatch-FitAll none_key scan_code k calm = (tt, omega arith)
dispatch-FitAll num_key scan_code k calm = ((tt, (tt, (tt, (tt, tt)))), omega arith)
dispatch-FitAll screen_scroll_key scan_code k calm = ((tt, (tt, (tt, (tt, tt)))), omega arith)
dispatch-FitAll _ scan_code k calm = (tt, omega arith)

take_code-FitAll :
    (scan_code : ℕ) (k : Keyboard) → StartsNone scan_code → FitAll (take_code scan_code k)
unfolding take_code
take_code-FitAll scan_code k calm = elim (Bool-cases (scan_code == 0xE0)) [
  | inl first ↦ rw first (tt, omega arith)
  | inr other ↦ elim (Bool-cases (scan_code == 0xE1)) [
    | inl second ↦ rw (other, second) (tt, omega arith)
    | inr third ↦
        rw (other, third)
          (kept (dispatch (get_or key_tab scan_code none_key) scan_code k)
            (dispatch-FitAll (get_or key_tab scan_code none_key) scan_code k calm))
  ]
]
  where
    kept : (s : Step) → FitAll s → FitAll (s >>= λ (k', es). ok (record k' { e0 = 0 }, es))
    kept (ok (k', es)) h = h
    kept (panic p) h = tt
    kept fault h = tt
    kept out_of_fuel h = tt

waits-append : (es fs : List Effect) → waits (es ++ fs) ≡ waits es + waits fs
waits-append [] fs = omega arith
waits-append (kbd_wait ∷ es) fs = omega (arith, waits-append es fs)
waits-append (put_buffer c ∷ es) fs = waits-append es fs
waits-append (outb p b ∷ es) fs = waits-append es fs
waits-append (echo c ∷ es) fs = waits-append es fs
waits-append (print_func i ∷ es) fs = waits-append es fs
waits-append (test_malloc ∷ es) fs = waits-append es fs
waits-append (test_process ∷ es) fs = waits-append es fs

-- What a key prints is a byte, and it waits twice at most.
pub keyboard_handler-FitAll :
    (r r' scan_code : ℕ) (k : Keyboard)
    → StartsNone scan_code
    → FitAll (keyboard_handler r r' scan_code k)
unfolding keyboard_handler
keyboard_handler-FitAll r r' scan_code k calm =
    finish (take_code scan_code k) (take_code-FitAll scan_code k calm)
  where
    reset-Fits :
        (b : Bool)
        → let es : List Effect = if b then outb 0x64 0xFE ∷ [] else [] in
          All Fits es × (waits es ≡ 0)
    reset-Fits true = ((tt, tt), refl)
    reset-Fits false = (tt, refl)

    finish :
        (s : Step)
        → FitAll s
        → FitAll (
            s >>= λ (k', es). ok (
              k',
              (if (scan_code == 0x53) && has k.mode 4 && has k.mode 16
                    then outb 0x64 0xFE ∷ []
                    else [])
                  ++ (es ++ acknowledge r r'),
            ))
    finish (ok (k', es)) (fits, few) =
        let (calm', none_yet) = reset-Fits ((scan_code == 0x53) && has k.mode 4 && has k.mode 16) in
        (
          All-append Fits _ _ calm' (All-append Fits es _ fits (tt, (tt, tt))),
          omega (
            arith,
            waits-append
                (if (scan_code == 0x53) && has k.mode 4 && has k.mode 16
                  then outb 0x64 0xFE ∷ []
                  else [])
                (es ++ acknowledge r r'),
            waits-append es (acknowledge r r'),
            none_yet,
          ),
        )
    finish (panic p) h = tt
    finish fault h = tt
    finish out_of_fuel h = tt

-- The readings that say that the controller takes a command.
abbrev pub ready_count : List ℕ → ℕ
ready_count [] = 0
ready_count (status ∷ readings) =
    if bit_and status 0x2 == 0 then suc (ready_count readings) else ready_count readings

wait_status-ready :
    (status : List ℕ)
    → 0 < ready_count status
    → (left : List ℕ) × (wait_status status ≡ ok left) × (ready_count left + 1 ≡ ready_count status)
unfolding wait_status
wait_status-ready [] any = absurd (omega arith)
wait_status-ready (s ∷ status) any = elim (Bool-cases (bit_and s 0x2 == 0)) [
  | inl free ↦ rw free (status, refl, omega arith)
  | inr busy ↦ rw busy (wait_status-ready status (rw busy at any))
]

pub wait_all-ready :
    (es : List Effect) (status : List ℕ)
    → waits es ≤ ready_count status
    → (left : List ℕ) × (wait_all es status ≡ ok left)
unfolding wait_all
wait_all-ready [] status enough = (status, refl)
wait_all-ready (kbd_wait ∷ es) status enough =
    let (left, ran, fewer) = wait_status-ready status (omega arith) in
    let (left', ran') = wait_all-ready es left (omega (arith, fewer)) in (left', rw ran ran')
wait_all-ready (put_buffer c ∷ es) status enough = wait_all-ready es status enough
wait_all-ready (outb p b ∷ es) status enough = wait_all-ready es status enough
wait_all-ready (echo c ∷ es) status enough = wait_all-ready es status enough
wait_all-ready (print_func i ∷ es) status enough = wait_all-ready es status enough
wait_all-ready (test_malloc ∷ es) status enough = wait_all-ready es status enough
wait_all-ready (test_process ∷ es) status enough = wait_all-ready es status enough

-- A key other than f1 and f2, and a controller that takes two commands.
abbrev pub IsFollowed : Interrupt → Type 0
IsFollowed i = StartsNone i.scan_code × (2 ≤ ready_count i.status)
