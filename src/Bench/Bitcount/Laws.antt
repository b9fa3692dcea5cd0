-- ===== src/Bench/Bitcount/Laws.antt =====
-- The bit counters against the population of a word.
use veri_cross.Base.{
  ℕ, zero, suc, ◌+◌, ◌-◌, ◌*◌, ◌/◌, ◌%◌, ◌^◌, ◌<◌, ◌≤◌, ◌≡◌, sym, ap, subst, ◌∙◌, arith, bit_and,
}
use veri_cross.Base.{refl, ap₂, ltb, false, if◌then◌else◌, ◌==◌, true, Bool-cases, inl, inr}
use veri_cross.Bits.{bit_and-ones, bit_and-field, bit_and-lt, bit_and-split}
use veri_cross.Bits.Lanes.{lanes, byte, lanes-byte}
use veri_cross.Bench.Bitcount.{
  bits_entry, shift_right, count, overflow, count_loop, bit_count, pairs, bitcount, ntbl_bitcount,
  ch, bw_btbl_bitcount, ar_btbl_bitcount, shifter_loop, bit_shifter,
}
use veri_cross.Bench.Bitcount.Population.{population, population-lanes}
use veri_cross.Bench.Bitcount.Words.{
  exact_div, pairs_byte, Fits-ones, Fits-twos, Fits-fours, pairs-lanes, counted, counted-population,
  bytes_pairs, halves_pairs,
}
use veri_cross.Bench.Bitcount.Steps.{
  bit_and_self, nibble_step, byte_step, population-zero, population-drop, population-none,
  population-le, population-shift_right,
}

count_loop-population :
    (fuel x n : ℕ)
    → 0 < x
    → x < 2 ^ 31
    → population 32 x ≤ fuel
    → count_loop fuel x n ≡ count (n + population 32 x)
unfolding count_loop
count_loop-population zero x n p h f =
    absurd (omega (arith, population-none 32 x (omega arith) (omega arith)))
count_loop-population (suc fuel) x n p h f =
    let small : (x == 2 ^ 31) ≡ false = ground arith in
    let drop = population-drop 32 x p (omega arith) in
    elim (Bool-cases (bit_and x (x - 1) == 0)) [
      | inl e ↦
          rw (small, e)
            (ap count (omega (arith, drop, ap (population 32) (is_zero e), population-zero 32)))
      | inr e ↦
          rw (small, e)
            (count_loop-population fuel (bit_and x (x - 1)) (n + 1) (ground arith)
                (bit_and-lt 31 x (x - 1) h (omega arith)) (omega (arith, drop))
              ∙ ap count (omega (arith, drop)))
    ]
  where
    is_zero : (bit_and x (x - 1) == 0) ≡ true → bit_and x (x - 1) ≡ 0
    is_zero e = ground arith

-- A round on a negative word, by its 31 lowest bits.
negative_round :
    (y : ℕ)
    → 0 < y
    → y < 2 ^ 31
    → bit_and (2 ^ 31 + y) (2 ^ 31 + y - 1) ≡ 2 ^ 31 + bit_and y (y - 1)
negative_round y p h =
    ap₂ bit_and {y = 1 * 2 ^ 31 + y} {v = 1 * 2 ^ 31 + (y - 1)} (omega arith) (omega arith)
    ∙ bit_and-split 31 1 1 y (y - 1) h (omega arith)
    ∙ omega (arith, bit_and_self 1)

-- A negative word loses its ones until the least `long` is left.
count_loop-negative :
    (fuel y n : ℕ) → y < 2 ^ 31 → population 32 y < fuel → count_loop fuel (2 ^ 31 + y) n ≡ overflow
unfolding count_loop
count_loop-negative zero y n h f = absurd (omega arith)
count_loop-negative (suc fuel) y n h f = elim (Bool-cases (y == 0)) [
  | inl e ↦ let least : (2 ^ 31 + y == 2 ^ 31) ≡ true = ground arith in rw least refl
  | inr e ↦
      let more : (2 ^ 31 + y == 2 ^ 31) ≡ false = ground arith in
      let pos : 0 < y = ground arith in
      let left : (2 ^ 31 + bit_and y (y - 1) == 0) ≡ false = ground arith in
      rw (more, negative_round y pos h, left)
        (count_loop-negative fuel (bit_and y (y - 1)) (n + 1)
          (bit_and-lt 31 y (y - 1) h (omega arith))
          (omega (arith, population-drop 32 y pos (omega arith))))
]

-- For every 32-bit word, 33 rounds are enough for `bit_count`: for a number that is not negative it
-- returns the number of ones, and for a negative one it comes to a signed overflow.
pub bit_count-population :
    (x : ℕ)
    → x < 2 ^ 32
    → bit_count 33 x ≡ (if ltb x (2 ^ 31) then count (population 32 x) else overflow)
unfolding bit_count
bit_count-population x h = elim (Bool-cases (x == 0)) [
  | inl e ↦ rw (is_zero e) (ap count (sym (population-zero 32)))
  | inr e ↦ elim (Bool-cases (ltb x (2 ^ 31))) [
    | inl l ↦
        rw (e, l)
          (count_loop-population 33 x 0 (ground arith) (ground arith)
              (omega (arith, population-le 32 x))
            ∙ ap count (omega arith))
    | inr l ↦
        let whole : x ≡ 2 ^ 31 + (x - 2 ^ 31) = ground arith in
        rw (e, l)
          (ap (λ w. count_loop 33 w 0) whole
            ∙ count_loop-negative 33 (x - 2 ^ 31) 0 (omega arith)
                (omega (arith, population-le 32 (x - 2 ^ 31))))
  ]
]
  where
    is_zero : (x == 0) ≡ true → x ≡ 0
    is_zero e = ground arith

module _ (d c b a : ℕ) (ha : a < 256) (hb : b < 256) (hc : c < 256) (hd : d < 256) where
  abbrev ones : ℕ → ℕ
  ones = pairs_byte 1 0xaa 0x55

  abbrev twos : ℕ → ℕ
  twos x = pairs_byte 2 0xcc 0x33 (ones x)

  ones-lt : (x : ℕ) → x < 256 → ones x < 256
  ones-lt x h = (Fits-ones x h).1

  twos-lt : (x : ℕ) → x < 256 → twos x < 256
  twos-lt x h = (Fits-twos (ones x) (ones-lt x h)).1

  bitcount-lanes : bitcount (lanes d c b a) ≡ population 32 (lanes d c b a)
  unfolding bitcount
  bitcount-lanes =
      ap
        (λ (t : ℕ). pairs 16 0xffff0000 0x0000ffff (
          pairs 8 0xff00ff00 0x00ff00ff
            (pairs 4 0xf0f0f0f0 0x0f0f0f0f (pairs 2 0xcccccccc 0x33333333 t))))
        (pairs-lanes 1 0xaa 0x55 (omega arith) (omega arith) Fits-ones d c b a ha hb hc hd)
      ∙ ap
          (λ (t : ℕ).
            pairs 16 0xffff0000 0x0000ffff
              (pairs 8 0xff00ff00 0x00ff00ff (pairs 4 0xf0f0f0f0 0x0f0f0f0f t)))
          (pairs-lanes 2 0xcc 0x33 (omega arith) (omega arith) Fits-twos (ones d) (ones c) (ones b)
            (ones a) (ones-lt a ha) (ones-lt b hb) (ones-lt c hc) (ones-lt d hd))
      ∙ ap (λ (t : ℕ). pairs 16 0xffff0000 0x0000ffff (pairs 8 0xff00ff00 0x00ff00ff t))
          (pairs-lanes 4 0xf0 0x0f (omega arith) (omega arith) Fits-fours (twos d) (twos c) (twos b)
            (twos a) (twos-lt a ha) (twos-lt b hb) (twos-lt c hc) (twos-lt d hd))
      ∙ ap (pairs 16 0xffff0000 0x0000ffff) (
          bytes_pairs (counted d) (counted c) (counted b) (counted a) (counted-population a ha).1
            (counted-population b hb).1 (counted-population c hc).1 (counted-population d hd).1)
      ∙ halves_pairs (counted d + counted c) (counted b + counted a)
          (omega (arith, (counted-population d hd).1, (counted-population c hc).1))
          (omega (arith, (counted-population b hb).1, (counted-population a ha).1))
      ∙ omega (
        arith,
        (counted-population a ha).0,
        (counted-population b hb).0,
        (counted-population c hc).0,
        (counted-population d hd).0,
        population-lanes d c b a ha hb hc,
      )

-- For every 32-bit word, `bitcount` returns the number of ones.
pub bitcount-population : (x : ℕ) → x < 2 ^ 32 → bitcount x ≡ population 32 x
bitcount-population x h =
    subst (λ y. bitcount y ≡ population 32 y) (lanes-byte x h)
      (bitcount-lanes (byte x 3) (byte x 2) (byte x 1) (byte x 0) (omega arith) (omega arith)
        (omega arith) (omega arith))

module _ (x : ℕ) (h : x < 2 ^ 32) where
  nibble_at :
      (k k' : ℕ)
      → x / 2 ^ k < 2 ^ 32
      → x / 2 ^ k / 2 ^ 4 ≡ x / 2 ^ k'
      → population 32 (x / 2 ^ k)
        ≡ bits_entry (bit_and x (15 * 2 ^ k) / 2 ^ k) + population 32 (x / 2 ^ k')
  nibble_at k k' lt e =
      nibble_step (x / 2 ^ k) lt ∙ omega (arith, ap (population 32) e, ap bits_entry same)
    where
      same : bit_and x (15 * 2 ^ k) / 2 ^ k ≡ bit_and (x / 2 ^ k) 15
      same =
          ap (λ (t : ℕ). t / 2 ^ k) (bit_and-field k 4 x)
          ∙ exact_div k (x / 2 ^ k % 2 ^ 4)
          ∙ sym (bit_and-ones 4 (x / 2 ^ k))

  byte_at :
      (k k' : ℕ)
      → x / 2 ^ k < 2 ^ 32
      → x / 2 ^ k / 2 ^ 8 ≡ x / 2 ^ k'
      → population 32 (x / 2 ^ k) ≡ bits_entry (x / 2 ^ k % 2 ^ 8) + population 32 (x / 2 ^ k')
  byte_at k k' lt e = byte_step (x / 2 ^ k) lt ∙ omega (arith, ap (population 32) e)

  nothing_above : population 32 (x / 2 ^ 32) ≡ 0
  nothing_above = ap (population 32) {y = 0} (omega arith) ∙ population-zero 32

  whole : population 32 (x / 2 ^ 0) ≡ population 32 x
  whole = ap (population 32) (omega arith)

-- For every 32-bit word, the three counters that look up a table without a loop return the
-- number of ones.
table_counters-population :
    (x : ℕ)
    → x < 2 ^ 32
    → (ntbl_bitcount x ≡ population 32 x)
      × (bw_btbl_bitcount x ≡ population 32 x)
      × (ar_btbl_bitcount x ≡ population 32 x)
unfolding ntbl_bitcount bw_btbl_bitcount ar_btbl_bitcount
table_counters-population x h =
    let bytes : (population 32 x
        ≡ bits_entry (ch x 0) + bits_entry (ch x 1) + bits_entry (ch x 2) + bits_entry (ch x 3)) =
      omega (
        arith,
        whole x h,
        byte_at x h 0 8 (omega arith) (omega arith),
        byte_at x h 8 16 (omega arith) (omega arith),
        byte_at x h 16 24 (omega arith) (omega arith),
        byte_at x h 24 32 (omega arith) (omega arith),
        nothing_above x h,
      ) in
    (
      omega (
        arith,
        whole x h,
        nibble_at x h 0 4 (omega arith) (omega arith),
        nibble_at x h 4 8 (omega arith) (omega arith),
        nibble_at x h 8 12 (omega arith) (omega arith),
        nibble_at x h 12 16 (omega arith) (omega arith),
        nibble_at x h 16 20 (omega arith) (omega arith),
        nibble_at x h 20 24 (omega arith) (omega arith),
        nibble_at x h 24 28 (omega arith) (omega arith),
        nibble_at x h 28 32 (omega arith) (omega arith),
        nothing_above x h,
        ap bits_entry first_nibble,
      ),
      omega (arith, bytes),
      omega (arith, bytes),
    )
  where
    first_nibble : bit_and x 15 / 2 ^ 0 ≡ bit_and x 15
    first_nibble = omega arith

shifter_loop-population :
    (k x n : ℕ) → k ≤ 32 → x < 2 ^ 32 → shifter_loop k x n ≡ n + population k x
unfolding shifter_loop population
shifter_loop-population zero x n hk h = omega arith
shifter_loop-population (suc k) x n hk h = elim (Bool-cases (x == 0)) [
  | inl e ↦ rw e (omega (arith, empty e))
  | inr e ↦ rw e (
      shifter_loop-population k (shift_right x 1) (n + bit_and x 1) (omega arith) (ground arith)
      ∙ omega (arith, population-shift_right k x (omega arith) h, bit_and-ones 1 x))
]
  where
    empty : (x == 0) ≡ true → x % 2 + population k (x / 2) ≡ 0
    empty e = ground (arith, population-zero k, ap (population k) {x = x / 2} {y = 0})

-- For every 32-bit word, also a negative one, `bit_shifter` returns the number of ones.
bit_shifter-population : (x : ℕ) → x < 2 ^ 32 → bit_shifter x ≡ population 32 x
unfolding bit_shifter
bit_shifter-population x h = shifter_loop-population 32 x 0 (omega arith) h ∙ omega arith
