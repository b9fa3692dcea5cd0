-- ===== src/Bench/Bitarray.antt =====
-- benchmark/source/bitcount/bitarray.c: an array of bits in an array of chars, which are kept as
-- their bit patterns. A bit's number is not negative.
pub mod Laws
use veri_cross.Base.{ℕ, ◌+◌, ◌-◌, ◌/◌, ◌%◌, ◌^◌, bit_and, bit_or, bit_xor, Bool, if◌then◌else◌}
use veri_cross.Base.{List, get_or, set, replicate}
use veri_cross.Sim.Common.{test}

abbrev pub char_bit : ℕ
char_bit = 8

-- `calloc` with success.
unfoldable pub alloc_bit_array : ℕ → List ℕ
alloc_bit_array bits = replicate ((bits + char_bit - 1) / char_bit) 0

unfoldable pub getbit : List ℕ → ℕ → Bool
getbit bytes number = test (bit_and (get_or bytes (number / char_bit) 0) (2 ^ (number % char_bit)))

-- `*set |= …` and `*set &= ~…` on the byte.
unfoldable pub put : Bool → ℕ → ℕ → ℕ
put value k b = if value then bit_or b (2 ^ k) else bit_and b (2 ^ 8 - 1 - 2 ^ k)

unfoldable pub setbit : List ℕ → ℕ → Bool → List ℕ
setbit bytes number value =
    let i = number / char_bit in set bytes i (put value (number % char_bit) (get_or bytes i 0))

unfoldable pub flipbit : List ℕ → ℕ → List ℕ
flipbit bytes number =
    let i = number / char_bit in set bytes i (bit_xor (get_or bytes i 0) (2 ^ (number % char_bit)))
