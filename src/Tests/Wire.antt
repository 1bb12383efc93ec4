-- ===== src/Tests/Wire.antt =====
-- Examples of the frames on the serial line of the locks.
use poctamat_back.Common.{◌≡◌, refl, false, true, some, [], ◌∷◌, arith}
use poctamat_back.Locker.{Heard, build_open, annotate, xor}
use poctamat_back.Locker.Frames.{annotate-build_open, annotate-damaged}

annotate-build_open_example :
    annotate (0x8A ∷ 1 ∷ 7 ∷ 0x11 ∷ 0x9D ∷ [])
    ≡ some (record { addr = 1; lock = 7; cmd = 0x11; intact = true })
unfolding build_open xor
annotate-build_open_example = annotate-build_open 1 7 0x11 (0x8A ∷ 1 ∷ 7 ∷ 0x11 ∷ 0x9D ∷ []) refl

-- The lock of the frame has become 8 on the way.
abbrev misheard : Heard
misheard = record { addr = 1; lock = 8; cmd = 0x11; intact = false }

annotate-damaged_example : misheard.intact ≡ false
unfolding build_open annotate xor
annotate-damaged_example =
    annotate-damaged 1 7 0x11 2 8 7 (0x8A ∷ 1 ∷ 7 ∷ 0x11 ∷ 0x9D ∷ []) misheard refl refl
      (omega arith) refl
