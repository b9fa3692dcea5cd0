-- ===== src/Tests/Bitfiles.antt =====
-- A file of nine bits.
use veri_cross.Base.{◌-◌, ◌/◌, ◌≡◌, refl, arith, false, [], ◌∷◌, length}
use veri_cross.Bench.Bitfiles.{bfopen, bfread, bfwrite, bfclose}
use veri_cross.Bench.Bitfiles.Laws.{write_all, bfclose-length}

bfclose-length_example :
    length (bfclose (write_all (1 ∷ 0 ∷ 1 ∷ 1 ∷ 0 ∷ 0 ∷ 0 ∷ 1 ∷ 1 ∷ []) (bfopen [] 0 0)))
    ≡ (9 - 1) / 8
bfclose-length_example = bfclose-length (1 ∷ 0 ∷ 1 ∷ 1 ∷ 0 ∷ 0 ∷ 0 ∷ 1 ∷ 1 ∷ []) 0 0 (omega arith)

-- The byte that is written, and its second bit read back.
byte_written :
    (bfclose (write_all (1 ∷ 0 ∷ 1 ∷ 1 ∷ 0 ∷ 0 ∷ 0 ∷ 1 ∷ 1 ∷ []) (bfopen [] 0 0)) ≡ 0b10110001 ∷ [])
    × ((bfread (bfread (bfopen (0b10110001 ∷ []) 0 0)).0).1 ≡ false)
unfolding bfclose bfopen bfwrite bfread
byte_written = (refl, refl)
