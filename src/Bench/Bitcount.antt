-- ===== src/Bench/Bitcount.antt =====
-- benchmark/source/bitcount: the bit counters of bitcnt_1.c to bitcnt_4.c and of bitcnts.c. A
-- `long` has 32 bits, as on the processors that run the benchmark, and is kept as its bit
-- pattern; `x >> n` on it copies the sign.
pub mod Population
mod Words
mod Steps
pub mod Laws
pub mod Recursion
use veri_cross.Base.{ℕ, zero, suc, ◌+◌, ◌-◌, ◌*◌, ◌/◌, ◌%◌, ◌^◌, bit_and, ltb, ◌==◌, if◌then◌else◌}
use veri_cross.Base.{Option, none, some, List, [], ◌∷◌, get_or}

abbrev pub shift_right : ℕ → ℕ → ℕ
shift_right x n = if ltb x (2 ^ 31) then x / 2 ^ n else 2 ^ 32 - 1 - (2 ^ 32 - 1 - x) / 2 ^ n

-- The outcome of `bit_count`: its result, a signed overflow, or no end within the fuel.
pub data Counted : Type 0 where
  count : ℕ → Counted
  overflow unfinished : Counted

-- The loop of `bit_count`. `x - 1` overflows for the least `long`.
pub count_loop : ℕ → ℕ → ℕ → Counted
count_loop zero x n = unfinished
count_loop (suc fuel) x n =
    let x' = bit_and x (x - 1) in
    let rest = count_loop fuel x' (n + 1) in
    if x == 2 ^ 31 then overflow else if x' == 0 then count (n + 1) else rest

unfoldable pub bit_count : ℕ → ℕ → Counted
bit_count fuel x = if x == 0 then count 0 else count_loop fuel x 0

-- A line of `bitcount`: the fields of `s` bits under each mask, added in pairs.
abbrev pub pairs : ℕ → ℕ → ℕ → ℕ → ℕ
pairs s high low i = (bit_and i high / 2 ^ s + bit_and i low) % 2 ^ 32

unfoldable pub bitcount : ℕ → ℕ
bitcount i = pairs 16 0xffff0000 0x0000ffff (
    pairs 8 0xff00ff00 0x00ff00ff (
      pairs 4 0xf0f0f0f0 0x0f0f0f0f
        (pairs 2 0xcccccccc 0x33333333 (pairs 1 0xaaaaaaaa 0x55555555 i))))

-- The table that bitcnt_3.c and bitcnt_4.c both have.
abbrev pub bits : List ℕ
bits =
    0 ∷ 1 ∷ 1 ∷ 2 ∷ 1 ∷ 2 ∷ 2 ∷ 3 ∷ 1 ∷ 2 ∷ 2 ∷ 3 ∷ 2 ∷ 3 ∷ 3 ∷ 4 ∷ 1 ∷ 2 ∷ 2 ∷ 3 ∷ 2 ∷ 3 ∷ 3 ∷ 4
    ∷ 2 ∷ 3 ∷ 3 ∷ 4 ∷ 3 ∷ 4 ∷ 4 ∷ 5 ∷ 1 ∷ 2 ∷ 2 ∷ 3 ∷ 2 ∷ 3 ∷ 3 ∷ 4 ∷ 2 ∷ 3 ∷ 3 ∷ 4 ∷ 3 ∷ 4 ∷ 4 ∷ 5
    ∷ 2 ∷ 3 ∷ 3 ∷ 4 ∷ 3 ∷ 4 ∷ 4 ∷ 5 ∷ 3 ∷ 4 ∷ 4 ∷ 5 ∷ 4 ∷ 5 ∷ 5 ∷ 6 ∷ 1 ∷ 2 ∷ 2 ∷ 3 ∷ 2 ∷ 3 ∷ 3 ∷ 4
    ∷ 2 ∷ 3 ∷ 3 ∷ 4 ∷ 3 ∷ 4 ∷ 4 ∷ 5 ∷ 2 ∷ 3 ∷ 3 ∷ 4 ∷ 3 ∷ 4 ∷ 4 ∷ 5 ∷ 3 ∷ 4 ∷ 4 ∷ 5 ∷ 4 ∷ 5 ∷ 5 ∷ 6
    ∷ 2 ∷ 3 ∷ 3 ∷ 4 ∷ 3 ∷ 4 ∷ 4 ∷ 5 ∷ 3 ∷ 4 ∷ 4 ∷ 5 ∷ 4 ∷ 5 ∷ 5 ∷ 6 ∷ 3 ∷ 4 ∷ 4 ∷ 5 ∷ 4 ∷ 5 ∷ 5 ∷ 6
    ∷ 4 ∷ 5 ∷ 5 ∷ 6 ∷ 5 ∷ 6 ∷ 6 ∷ 7 ∷ 1 ∷ 2 ∷ 2 ∷ 3 ∷ 2 ∷ 3 ∷ 3 ∷ 4 ∷ 2 ∷ 3 ∷ 3 ∷ 4 ∷ 3 ∷ 4 ∷ 4 ∷ 5
    ∷ 2 ∷ 3 ∷ 3 ∷ 4 ∷ 3 ∷ 4 ∷ 4 ∷ 5 ∷ 3 ∷ 4 ∷ 4 ∷ 5 ∷ 4 ∷ 5 ∷ 5 ∷ 6 ∷ 2 ∷ 3 ∷ 3 ∷ 4 ∷ 3 ∷ 4 ∷ 4 ∷ 5
    ∷ 3 ∷ 4 ∷ 4 ∷ 5 ∷ 4 ∷ 5 ∷ 5 ∷ 6 ∷ 3 ∷ 4 ∷ 4 ∷ 5 ∷ 4 ∷ 5 ∷ 5 ∷ 6 ∷ 4 ∷ 5 ∷ 5 ∷ 6 ∷ 5 ∷ 6 ∷ 6 ∷ 7
    ∷ 2 ∷ 3 ∷ 3 ∷ 4 ∷ 3 ∷ 4 ∷ 4 ∷ 5 ∷ 3 ∷ 4 ∷ 4 ∷ 5 ∷ 4 ∷ 5 ∷ 5 ∷ 6 ∷ 3 ∷ 4 ∷ 4 ∷ 5 ∷ 4 ∷ 5 ∷ 5 ∷ 6
    ∷ 4 ∷ 5 ∷ 5 ∷ 6 ∷ 5 ∷ 6 ∷ 6 ∷ 7 ∷ 3 ∷ 4 ∷ 4 ∷ 5 ∷ 4 ∷ 5 ∷ 5 ∷ 6 ∷ 4 ∷ 5 ∷ 5 ∷ 6 ∷ 5 ∷ 6 ∷ 6 ∷ 7
    ∷ 4 ∷ 5 ∷ 5 ∷ 6 ∷ 5 ∷ 6 ∷ 6 ∷ 7 ∷ 5 ∷ 6 ∷ 6 ∷ 7 ∷ 6 ∷ 7 ∷ 7 ∷ 8 ∷ []

unfoldable pub bits_entry : ℕ → ℕ
bits_entry i = get_or bits i 0

unfoldable pub ntbl_bitcount : ℕ → ℕ
ntbl_bitcount x =
    bits_entry (bit_and x 0x0000000f)
    + bits_entry (bit_and x 0x000000f0 / 2 ^ 4)
    + bits_entry (bit_and x 0x00000f00 / 2 ^ 8)
    + bits_entry (bit_and x 0x0000f000 / 2 ^ 12)
    + bits_entry (bit_and x 0x000f0000 / 2 ^ 16)
    + bits_entry (bit_and x 0x00f00000 / 2 ^ 20)
    + bits_entry (bit_and x 0x0f000000 / 2 ^ 24)
    + bits_entry (bit_and x 0xf0000000 / 2 ^ 28)

-- The bytes of the union of `BW_btbl_bitcount`, and those that the pointer of
-- `AR_btbl_bitcount` walks over.
abbrev pub ch : ℕ → ℕ → ℕ
ch x k = x / 2 ^ (8 * k) % 2 ^ 8

unfoldable pub bw_btbl_bitcount : ℕ → ℕ
bw_btbl_bitcount x =
    bits_entry (ch x 0) + bits_entry (ch x 1) + bits_entry (ch x 3) + bits_entry (ch x 2)

unfoldable pub ar_btbl_bitcount : ℕ → ℕ
ar_btbl_bitcount x =
    bits_entry (ch x 0) + bits_entry (ch x 1) + bits_entry (ch x 2) + bits_entry (ch x 3)

-- The recursive counters: none when the fuel, a bound on the depth, runs out.
unfoldable pub ntbl_bitcnt : ℕ → ℕ → Option ℕ
ntbl_bitcnt zero x = none
ntbl_bitcnt (suc fuel) x =
    let cnt = bits_entry (bit_and x 0x0000000f) in
    let x' = shift_right x 4 in
    let rest = ntbl_bitcnt fuel x' in
    if x' == 0 then some cnt else elim rest [ none ↦ none | some r ↦ some (cnt + r) ]

unfoldable pub btbl_bitcnt : ℕ → ℕ → Option ℕ
btbl_bitcnt zero x = none
btbl_bitcnt (suc fuel) x =
    let cnt = bits_entry (bit_and (ch x 0) 0xff) in
    let x' = shift_right x 8 in
    let rest = btbl_bitcnt fuel x' in
    if x' == 0 then some cnt else elim rest [ none ↦ none | some r ↦ some (cnt + r) ]

-- The loop of `bit_shifter`, with `left` rounds before `i` reaches the width.
pub shifter_loop : ℕ → ℕ → ℕ → ℕ
shifter_loop zero x n = n
shifter_loop (suc left) x n =
    let rest = shifter_loop left (shift_right x 1) (n + bit_and x 1) in if x == 0 then n else rest

unfoldable pub bit_shifter : ℕ → ℕ
bit_shifter x = shifter_loop 32 x 0
