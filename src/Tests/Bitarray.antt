-- ===== src/Tests/Bitarray.antt =====
-- Arrays of sixteen bits.
use veri_cross.Base.{◌≡◌, arith, false, not, ◌==◌, if◌then◌else◌, [], ◌∷◌}
use veri_cross.Bench.Bitarray.{getbit, setbit, flipbit}
use veri_cross.Bench.Bitarray.Laws.{getbit-setbit-flipbit}

getbit-setbit-flipbit_example :
    (getbit (setbit (5 ∷ 7 ∷ []) 9 false) 9 ≡ (if 9 == 9 then false else getbit (5 ∷ 7 ∷ []) 9))
    × (getbit (flipbit (5 ∷ 7 ∷ []) 9) 9
        ≡ (if 9 == 9 then not (getbit (5 ∷ 7 ∷ []) 9) else getbit (5 ∷ 7 ∷ []) 9))
getbit-setbit-flipbit_example =
    getbit-setbit-flipbit (5 ∷ 7 ∷ []) 9 9 false (omega arith, (omega arith, tt)) (omega arith)
