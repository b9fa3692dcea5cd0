-- ===== src/Tests/Bench.antt =====
-- The benchmark programs at concrete inputs.
use veri_cross.Base.{
  ltb, if◌then◌else◌, ℕ, ◌≡◌, ◌≢◌, ◌-◌, ◌^◌, refl, arith, none, List, [], ◌∷◌, ◌++◌,
}
use veri_cross.Bench.Crc32.{crc32buf, update_crc32, table_entry}
use veri_cross.Bench.Crc32.Laws.{divide, crc32buf-divide, crc32buf_detects}
use veri_cross.Bench.Bitcount.{count, overflow, bit_count, bitcount, ntbl_bitcnt, btbl_bitcnt}
use veri_cross.Bench.Bitcount.Population.{population}
use veri_cross.Bench.Bitcount.Laws.{bit_count-population, bitcount-population}
use veri_cross.Bench.Bitcount.Recursion.{recursive_counters-negative}

-- The characters of `123`.
abbrev digits : List ℕ
digits = 49 ∷ 50 ∷ 51 ∷ []

crc32buf-divide_example : crc32buf digits ≡ 2 ^ 32 - 1 - divide digits (2 ^ 32 - 1)
crc32buf-divide_example = crc32buf-divide digits (omega arith, (omega arith, (omega arith, tt)))

crc32buf_detects_example :
    crc32buf ((49 ∷ []) ++ 50 ∷ 51 ∷ []) ≢ crc32buf ((49 ∷ []) ++ 52 ∷ 51 ∷ [])
crc32buf_detects_example =
    crc32buf_detects (49 ∷ []) (51 ∷ []) 50 52 (omega arith, tt) (omega arith, tt) (omega arith)
      (omega arith) (omega arith)

bit_count-population_example :
    bit_count 33 0xc0000001
    ≡ (if ltb 0xc0000001 (2 ^ 31) then count (population 32 0xc0000001) else overflow)
bit_count-population_example = bit_count-population 0xc0000001 (omega arith)

bitcount-population_example : bitcount 0xc0000001 ≡ population 32 0xc0000001
bitcount-population_example = bitcount-population 0xc0000001 (omega arith)

recursive_counters-negative_example :
    (ntbl_bitcnt 9 0xfffffffe ≡ none) × (btbl_bitcnt 9 0xfffffffe ≡ none)
recursive_counters-negative_example =
    recursive_counters-negative 9 0xfffffffe (omega arith) (omega arith)

-- The check value of the CRC: that of the characters `123456789`.
check_value : crc32buf (49 ∷ 50 ∷ 51 ∷ 52 ∷ 53 ∷ 54 ∷ 55 ∷ 56 ∷ 57 ∷ []) ≡ 0xcbf43926
unfolding crc32buf table_entry update_crc32
check_value = refl
