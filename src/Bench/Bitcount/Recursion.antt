-- ===== src/Bench/Bitcount/Recursion.antt =====
-- The recursive counters, on numbers that are not negative and on negative ones.
use native.Mathlib.Nat.{pow-suc}
use veri_cross.Base.{
  ℕ, zero, suc, ◌+◌, ◌/◌, ◌%◌, ◌^◌, ◌<◌, ◌≤◌, ◌≡◌, refl, sym, ap, ◌∙◌, arith, bit_and,
}
use veri_cross.Base.{◌==◌, false, Bool-cases, inl, inr, none, some}
use veri_cross.Bits.{bit_and-ones}
use veri_cross.Bench.Bitcount.{bits_entry, shift_right, ch, ntbl_bitcnt, btbl_bitcnt}
use veri_cross.Bench.Bitcount.Population.{population}
use veri_cross.Bench.Bitcount.Steps.{nibble_step, byte_step, population-zero}

shifted : (x n : ℕ) → x < 2 ^ 31 → shift_right x n ≡ x / 2 ^ n
shifted x n h = ground arith

nothing_left : (x : ℕ) → x ≡ 0 → population 32 x ≡ 0
nothing_left x e = ap (population 32) e ∙ population-zero 32

ntbl_bitcnt-deeper :
    (fuel x r : ℕ)
    → x < 2 ^ 31
    → (x / 2 ^ 4 == 0) ≡ false
    → ntbl_bitcnt fuel (x / 2 ^ 4) ≡ some r
    → ntbl_bitcnt (suc fuel) x ≡ some (bits_entry (bit_and x 0xf) + r)
unfolding ntbl_bitcnt
ntbl_bitcnt-deeper fuel x r h e q = rw (shifted x 4 h, e, q)

ntbl_bitcnt-population :
    (fuel x : ℕ)
    → x < 2 ^ 31
    → x < 16 ^ suc fuel
    → ntbl_bitcnt (suc fuel) x ≡ some (population 32 x)
unfolding ntbl_bitcnt
ntbl_bitcnt-population zero x h lt =
    rw (shifted x 4 h, small)
      (ap some (omega (arith, nibble_step x (omega arith), nothing_left (x / 2 ^ 4) small)))
  where
    small : x / 2 ^ 4 ≡ 0
    small = omega arith
ntbl_bitcnt-population (suc fuel) x h lt = elim (Bool-cases (x / 2 ^ 4 == 0)) [
  | inl e ↦
      rw (shifted x 4 h, e)
        (ap some
          (omega (arith, nibble_step x (omega arith), nothing_left (x / 2 ^ 4) (ground arith))))
  | inr e ↦
      ntbl_bitcnt-deeper (suc fuel) x (population 32 (x / 2 ^ 4)) h e (
        ntbl_bitcnt-population fuel (x / 2 ^ 4) (omega arith)
          (omega (arith, pow-suc 16 (suc fuel))))
      ∙ ap some (sym (nibble_step x (omega arith)))
]

byte_mask_step :
    (x : ℕ)
    → x < 2 ^ 32
    → population 32 x ≡ bits_entry (bit_and (ch x 0) 0xff) + population 32 (x / 2 ^ 8)
byte_mask_step x h = omega (arith, byte_step x h, ap bits_entry same)
  where
    same : bit_and (ch x 0) 0xff ≡ x % 2 ^ 8
    same = omega (arith, bit_and-ones 8 (ch x 0))

btbl_bitcnt-deeper :
    (fuel x r : ℕ)
    → x < 2 ^ 31
    → (x / 2 ^ 8 == 0) ≡ false
    → btbl_bitcnt fuel (x / 2 ^ 8) ≡ some r
    → btbl_bitcnt (suc fuel) x ≡ some (bits_entry (bit_and (ch x 0) 0xff) + r)
unfolding btbl_bitcnt
btbl_bitcnt-deeper fuel x r h e q = rw (shifted x 8 h, e, q)

btbl_bitcnt-population :
    (fuel x : ℕ)
    → x < 2 ^ 31
    → x < 256 ^ suc fuel
    → btbl_bitcnt (suc fuel) x ≡ some (population 32 x)
unfolding btbl_bitcnt
btbl_bitcnt-population zero x h lt =
    rw (shifted x 8 h, small)
      (ap some (omega (arith, byte_mask_step x (omega arith), nothing_left (x / 2 ^ 8) small)))
  where
    small : x / 2 ^ 8 ≡ 0
    small = omega arith
btbl_bitcnt-population (suc fuel) x h lt = elim (Bool-cases (x / 2 ^ 8 == 0)) [
  | inl e ↦
      rw (shifted x 8 h, e)
        (ap some
          (omega (arith, byte_mask_step x (omega arith), nothing_left (x / 2 ^ 8) (ground arith))))
  | inr e ↦
      btbl_bitcnt-deeper (suc fuel) x (population 32 (x / 2 ^ 8)) h e (
        btbl_bitcnt-population fuel (x / 2 ^ 8) (omega arith)
          (omega (arith, pow-suc 256 (suc fuel))))
      ∙ ap some (sym (byte_mask_step x (omega arith)))
]

-- For a number that is not negative, eight calls of `ntbl_bitcnt` and four of `btbl_bitcnt` are
-- enough, and both return the number of ones.
recursive_counters-population :
    (x : ℕ)
    → x < 2 ^ 31
    → (ntbl_bitcnt 8 x ≡ some (population 32 x)) × (btbl_bitcnt 4 x ≡ some (population 32 x))
recursive_counters-population x h =
    (ntbl_bitcnt-population 7 x h (omega arith), btbl_bitcnt-population 3 x h (omega arith))

-- For a negative number, `ntbl_bitcnt` and `btbl_bitcnt` return at no depth.
pub recursive_counters-negative :
    (fuel x : ℕ)
    → 2 ^ 31 ≤ x
    → x < 2 ^ 32
    → (ntbl_bitcnt fuel x ≡ none) × (btbl_bitcnt fuel x ≡ none)
unfolding ntbl_bitcnt btbl_bitcnt
recursive_counters-negative zero x l h = (refl, refl)
recursive_counters-negative (suc fuel) x l h =
    let n = (recursive_counters-negative fuel (shift_right x 4) (ground arith) (ground arith)).0 in
    let b = (recursive_counters-negative fuel (shift_right x 8) (ground arith) (ground arith)).1 in
    (ground (arith, n), ground (arith, b))
