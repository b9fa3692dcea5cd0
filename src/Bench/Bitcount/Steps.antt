-- ===== src/Bench/Bitcount/Steps.antt =====
-- What one round of each loop of the bit counters does to the number of ones that are left.
use native.Mathlib.Nat.{pow-suc, one-le-pow}
use veri_cross.Base.{
  ℕ, zero, suc, ◌+◌, ◌-◌, ◌*◌, ◌/◌, ◌%◌, ◌^◌, ◌<◌, ◌≤◌, ◌≡◌, refl, ap, ◌∙◌, arith, bit_and,
}
use veri_cross.Base.{
  ◌==◌, ==_iff, ltb, true, false, Bool-cases, inl, inr, all_below, all_below_sound,
}
use veri_cross.Bits.{bit_and-ones, and_digit}
use veri_cross.Bench.Bitcount.{bits_entry, shift_right}
use veri_cross.Bench.Bitcount.Population.{population, population-fields}

entry_table : all_below 256 (λ i. bits_entry i == population 8 i) ≡ true
unfolding all_below population bits_entry
entry_table = refl

nibble_table : all_below 16 (λ i. bits_entry i == population 4 i) ≡ true
unfolding all_below population bits_entry
nibble_table = refl

pub entry_of_byte : (i : ℕ) → i < 256 → bits_entry i ≡ population 8 i
entry_of_byte i h =
    (==_iff _ _).0 (all_below_sound 256 (λ i. bits_entry i == population 8 i) i entry_table h)

pub entry_of_nibble : (i : ℕ) → i < 16 → bits_entry i ≡ population 4 i
entry_of_nibble i h =
    (==_iff _ _).0 (all_below_sound 16 (λ i. bits_entry i == population 4 i) i nibble_table h)

-- The `k` lowest bits of a word are cut off, and `n` are left.
pub population-cut :
    (k n x : ℕ) → population (k + n) x ≡ population k (x % 2 ^ k) + population n (x / 2 ^ k)
population-cut k n x =
    ap (population (k + n)) {y = x / 2 ^ k * 2 ^ k + x % 2 ^ k} (omega arith)
    ∙ population-fields k n (x / 2 ^ k) (x % 2 ^ k) (omega (arith, one-le-pow k 2))

pub population-zero : (k : ℕ) → population k 0 ≡ 0
unfolding population
population-zero zero = refl
population-zero (suc k) = omega (arith, population-zero k)

-- Zeros on top do not count.
population-widen : (k n x : ℕ) → x < 2 ^ k → population (k + n) x ≡ population k x
population-widen k n x h =
    ap (population (k + n)) {y = 0 * 2 ^ k + x} (omega arith)
    ∙ population-fields k n 0 x h
    ∙ omega (arith, population-zero n)

pub nibble_step :
    (x : ℕ) → x < 2 ^ 32 → population 32 x ≡ bits_entry (bit_and x 0xf) + population 32 (x / 2 ^ 4)
nibble_step x h = omega (
  arith,
  population-cut 4 28 x,
  bit_and-ones 4 x,
  ap bits_entry (bit_and-ones 4 x),
  entry_of_nibble (x % 2 ^ 4) (omega arith),
  population-widen 28 4 (x / 2 ^ 4) (omega arith),
)

pub byte_step :
    (x : ℕ) → x < 2 ^ 32 → population 32 x ≡ bits_entry (x % 2 ^ 8) + population 32 (x / 2 ^ 8)
byte_step x h = omega (
  arith,
  population-cut 8 24 x,
  entry_of_byte (x % 2 ^ 8) (omega arith),
  population-widen 24 8 (x / 2 ^ 8) (omega arith),
)

self_below : (n a : ℕ) → a ≤ n → bit_and a a ≡ a
self_below zero zero h = refl
self_below zero (suc a) h = absurd (omega arith)
self_below (suc n) a h = omega (arith, and_digit a a, self_below n (a / 2) (omega arith))

pub bit_and_self : (a : ℕ) → bit_and a a ≡ a
bit_and_self a = self_below a a (omega arith)

-- `x & (x - 1)` has lost the lowest one.
pub population-drop :
    (k x : ℕ) → 0 < x → x < 2 ^ k → population k x ≡ suc (population k (bit_and x (x - 1)))
unfolding population
population-drop zero x p h = absurd (omega arith)
population-drop (suc k) x p h = elim (Bool-cases (x % 2 == 0)) [
  | inl e ↦ omega (
    arith,
    ap (population k) (even e),
    parity,
    population-drop k (x / 2) (ground arith) (omega (arith, pow-suc 2 k)),
    even_digit e,
  )
  | inr e ↦ omega (arith, ap (population k) (odd e), parity, odd_digit e)
]
  where
    parity : bit_and x (x - 1) % 2 ≡ 0
    parity = omega (arith, and_digit x (x - 1))

    even : (x % 2 == 0) ≡ true → bit_and x (x - 1) / 2 ≡ bit_and (x / 2) (x / 2 - 1)
    even e = ground (arith, and_digit x (x - 1), half)
      where
        half : x % 2 ≡ 0 → (x - 1) / 2 ≡ x / 2 - 1
        half e = omega arith

    odd : (x % 2 == 0) ≡ false → bit_and x (x - 1) / 2 ≡ x / 2
    odd e = ground (arith, and_digit x (x - 1), bit_and_self (x / 2))

    even_digit : (x % 2 == 0) ≡ true → x % 2 ≡ 0
    even_digit e = ground arith

    odd_digit : (x % 2 == 0) ≡ false → x % 2 ≡ 1
    odd_digit e = ground arith

-- Only zero has no ones.
pub population-none : (k x : ℕ) → x < 2 ^ k → population k x ≡ 0 → x ≡ 0
unfolding population
population-none zero x h e = omega arith
population-none (suc k) x h e =
    omega (arith, population-none k (x / 2) (omega (arith, pow-suc 2 k)) (omega arith))

pub population-le : (k x : ℕ) → population k x ≤ k
unfolding population
population-le zero x = omega arith
population-le (suc k) x = omega (arith, population-le k (x / 2))

-- A bit above those that are counted does not count.
population-above : (k e x : ℕ) → population k (x + 2 ^ (k + e)) ≡ population k x
unfolding population
population-above zero e x = refl
population-above (suc k) e x =
    omega (arith, doubled, ap (population k) half, population-above k e (x / 2))
  where
    doubled : 2 ^ (suc k + e) ≡ 2 ^ (k + e) * 2
    doubled = ap (λ (t : ℕ). 2 ^ t) {y = suc (k + e)} (omega arith) ∙ pow-suc 2 (k + e)

    half : (x + 2 ^ (suc k + e)) / 2 ≡ x / 2 + 2 ^ (k + e)
    half = omega (arith, doubled)

-- An arithmetic shift by one, seen in the 31 lowest bits.
pub population-shift_right :
    (k x : ℕ) → k ≤ 31 → x < 2 ^ 32 → population k (shift_right x 1) ≡ population k (x / 2)
population-shift_right k x hk h = elim (Bool-cases (ltb x (2 ^ 31))) [
  | inl e ↦ rw e
  | inr e ↦ rw e (ap (population k) (filled e) ∙ population-above k (31 - k) (x / 2))
]
  where
    filled :
        ltb x (2 ^ 31) ≡ false → 2 ^ 32 - 1 - (2 ^ 32 - 1 - x) / 2 ^ 1 ≡ x / 2 + 2 ^ (k + (31 - k))
    filled e = ground (arith, ap (λ (t : ℕ). 2 ^ t) width)
      where
        width : k + (31 - k) ≡ 31
        width = omega arith
