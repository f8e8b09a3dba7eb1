-- ===== src/Buffer/Examples.antt =====
-- Runs of the line buffer.
use ocean_os.Base.{◌≡◌, refl, [], ◌∷◌, replicate, ok}
use ocean_os.Buffer.{Buffer, init_buffer, getline}
use ocean_os.Buffer.Lines.{IsAt, init_buffer-stale}

-- The line "a".
abbrev one_letter : Buffer
one_letter = record { temp = b'a' ∷ replicate 511 0; p = 1 }

one_letter-IsAt : IsAt one_letter (b'a' ∷ [])
one_letter-IsAt = record { size = refl; position = refl; starts = refl }

init_buffer-stale_example :
    (b : Buffer) × (init_buffer one_letter ≡ ok b) × (getline b ≡ getline one_letter) × (b.p ≡ 0)
init_buffer-stale_example = init_buffer-stale one_letter refl
