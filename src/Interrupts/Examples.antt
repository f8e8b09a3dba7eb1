-- ===== src/Interrupts/Examples.antt =====
-- Runs with interrupts.
use mathlib.Core.List.{flatten}
use ocean_os.Base.{
  ℕ, ◌≡◌, refl, inl, inr, Option, none, some, List, [], ◌∷◌, ◌++◌, arith, All, replicate, ok,
}
use ocean_os.Interrupts.{Desk, Running, Interrupt}
use ocean_os.Interrupts.Fits.{IsFollowed}
use ocean_os.Interrupts.Lines.{ticked, interrupt-tick}
use ocean_os.Interrupts.Keys.{IsPlainKey, key_char, typed_text}
use ocean_os.Interrupts.Sound.{Keeps, interrupt-IsSound}
use ocean_os.Interrupts.Machine.{
  Machine, Reach, here, next, interrupted, clears, with_monitor, with_running, started,
  start_machine,
}
use ocean_os.Interrupts.Reach.{Reach-IsSound}
use ocean_os.Interrupts.Safe.{IsSafe, started-IsSound}
use ocean_os.Interrupts.Many.{start_machine-makes}
use ocean_os.Interrupts.Runs.{Splits, run-Splits}
use ocean_os.Interrupts.Reading.{scanf_typed, scanf_typed-line}
use ocean_os.Monitor.{PortWrites, monitor_write, monitor_clear}
use ocean_os.Paging.Fresh.{length-push_run}
use ocean_os.Scanf.{Stream, stream_of}
use ocean_os.Start.{Kernel}
use ocean_os.Start.Boot.{IsBooted, init-IsBooted}
use ocean_os.Start.Examples.{image, cold, cold-IsLoaded}

-- The kernel after its start.
abbrev pub booted : Kernel
booted = (init-IsBooted image cold (λ i. []) (λ i. []) 2 cold-IsLoaded).0

pub booted-IsBooted : IsBooted image 2 booted
booted-IsBooted = (init-IsBooted image cold (λ i. []) (λ i. []) 2 cold-IsLoaded).2

abbrev line_of : ℕ → ℕ → Interrupt
line_of int_no scan_code = record {
  reg = record {
    ds = 16;
    edi = 0;
    esi = 0;
    ebp = 0;
    esp = 0;
    ebx = 0;
    edx = 0;
    ecx = 0;
    eax = 0;
    int_no = int_no;
    err_code = 0;
    eip = 0xC0100ABC;
    cs = 8;
    eflags = 0;
    useresp = 0;
    ss = 0;
  };
  control = 0;
  control' = 0x80;
  scan_code = scan_code;
  status = 0x1C ∷ 0x1E ∷ 0x1C ∷ [];
}

-- A tick, and the key `a` going down.
abbrev tick : Interrupt
tick = line_of 32 0

abbrev key_a : Interrupt
key_a = line_of 33 0x1E

key_a-IsFollowed : IsFollowed key_a
key_a-IsFollowed = ((omega arith, omega arith, omega arith), omega arith)

interrupt-IsSound_example : Keeps key_a [] [] (started booted)
interrupt-IsSound_example =
    interrupt-IsSound key_a [] [] (started booted) (started-IsSound image 2 booted booted-IsBooted)
      (omega arith) (omega arith) (λ at. key_a-IsFollowed)

-- The screen is clear, and one tick is over.
abbrev cleared : Running
cleared = with_monitor (monitor_clear booted.monitor).0 (started booted)

Reach-IsSound_example :
    (n : ℕ) × (line : List ℕ) × IsSafe 0xC0110000 n line
      (with_running (ticked cleared) (with_running cleared (start_machine booted)))
Reach-IsSound_example = Reach-IsSound image 2 booted booted-IsBooted (
    next (next here clears) (
      interrupted tick _ (omega arith) (omega arith) (λ at. absurd (omega arith))
        (interrupt-tick tick cleared booted-IsBooted.handlers refl)))

start_machine-makes_example :
    (m : Machine) × Reach 0xC0110000 (start_machine booted) m × IsSafe 0xC0110000 3 [] m
start_machine-makes_example =
    start_machine-makes image 2 booted 3 0xC0100100 7 0xC0100200 booted-IsBooted
      (omega (arith, length-push_run 32256 0x200000 []))

run-Splits_example : Splits (tick ∷ key_a ∷ tick ∷ []) (started booted)
run-Splits_example =
    run-Splits (tick ∷ key_a ∷ tick ∷ []) [] [] (started booted)
      (
        (omega arith, omega arith, λ at. absurd (omega arith)),
        (
          (omega arith, omega arith, λ at. key_a-IsFollowed),
          ((omega arith, omega arith, λ at. absurd (omega arith)), tt),
        ),
      )
      (started-IsSound image 2 booted booted-IsBooted)

abbrev desk : Desk
desk = record {
  keyboard = record { mode = 0; leds = 2; e0 = 0 };
  monitor = record { video_memory = λ a. 0; cursor_x = 0; cursor_y = 0 };
  buffer = record { temp = replicate 512 0; p = 0 };
}

-- A scanner that gives the first byte of the stream.
abbrev scanner : Stream → List ℕ → List ℕ → Option ℕ
scanner stream format args = elim stream.ptr [ [] ↦ none | c ∷ rest ↦ some c ]

-- The key `a` goes down before the second test, and it goes up, and the enter key down and up,
-- before the third.
abbrev keys : List (List Interrupt)
keys = (line_of 33 0x1E ∷ []) ∷ (line_of 33 0x9E ∷ line_of 33 0x1C ∷ line_of 33 0x9C ∷ []) ∷ []

plain_keys : All IsPlainKey (flatten keys)
unfolding flatten key_char
plain_keys = (inl refl, (inr refl, (inl refl, (inr refl, tt))))

typed_keys : typed_text (flatten keys) ≡ (b'a' ∷ []) ++ b'\n' ∷ []
unfolding flatten key_char
typed_keys = refl

scanf_typed-line_example :
    (d' : Desk) × (writes : PortWrites) × (rest : List ℕ) × (scanf_typed scanner 0 keys
        (b'%' ∷ b'c' ∷ 0 ∷ [])
        (0x1000 ∷ [])
        desk
      ≡ ok (
        d',
        scanner
            (stream_of ((b'a' ∷ b'\n' ∷ []) ++ 0 ∷ rest) 2)
            (b'%' ∷ b'c' ∷ 0 ∷ [])
            (0x1000 ∷ []),
      ))
    × (monitor_write (((b'a' ∷ b'\n' ∷ []) ++ (b'a' ∷ b'\n' ∷ [])) ++ 0 ∷ []) desk.monitor
        ≡ ok (d'.monitor, writes))
scanf_typed-line_example =
    scanf_typed-line scanner 0 keys (b'%' ∷ b'c' ∷ 0 ∷ []) (0x1000 ∷ []) desk (b'a' ∷ []) refl
      (omega arith) refl (omega arith) plain_keys typed_keys (omega arith, tt) (omega arith, tt)
      (omega arith)
