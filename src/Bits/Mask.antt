-- ===== src/Bits/Mask.antt =====
-- Masks of adjacent bits as remainders and quotients, and `|` of fields that do not overlap.
use mathlib.Core.WellFounded
use native.Mathlib.Nat.{pow-suc, one-le-pow}
use veri_cross.Base.{ℕ, zero, suc, ◌+◌, ◌-◌, ◌*◌, ◌/◌, ◌%◌, ◌^◌, ◌<◌, ◌≡◌, ap, refl, arith, lt_wf}
use veri_cross.Base.{bit_and, bit_or}
use veri_cross.Bits.Step.{and_digit, or_digit}
use veri_cross.Bits.Split.{bit_and-split, bit_or-split}

module _ (f : ℕ → ℕ) where
  -- A function of the binary digits that agrees with the identity digit by digit.
  digitwise_id : ((a : ℕ) → f a ≡ f (a / 2) * 2 + a % 2) → f 0 ≡ 0 → (a : ℕ) → f a ≡ a
  digitwise_id step f0 a = WellFounded.induction lt_wf {C = λ k. f k ≡ k} a go
    where
      go : (n : ℕ) → ((m : ℕ) → m < n → f m ≡ m) → f n ≡ n
      go zero ih = f0
      go (suc n) ih = omega (arith, step (suc n), ih (suc n / 2) (omega arith))

  digitwise_zero : ((a : ℕ) → f a ≡ f (a / 2) * 2) → f 0 ≡ 0 → (a : ℕ) → f a ≡ 0
  digitwise_zero step f0 a = WellFounded.induction lt_wf {C = λ k. f k ≡ 0} a go
    where
      go : (n : ℕ) → ((m : ℕ) → m < n → f m ≡ 0) → f n ≡ 0
      go zero ih = f0
      go (suc n) ih = omega (arith, step (suc n), ih (suc n / 2) (omega arith))

pub bit_or-zero : (a : ℕ) → bit_or a 0 ≡ a
bit_or-zero = digitwise_id (λ a. bit_or a 0) (λ a. omega (arith, or_digit a 0)) refl

pub zero-bit_or : (a : ℕ) → bit_or 0 a ≡ a
zero-bit_or = digitwise_id (λ a. bit_or 0 a) (λ a. omega (arith, or_digit 0 a)) refl

pub bit_and-zero : (a : ℕ) → bit_and a 0 ≡ 0
bit_and-zero = digitwise_zero (λ a. bit_and a 0) (λ a. omega (arith, and_digit a 0)) refl

pub zero-bit_and : (a : ℕ) → bit_and 0 a ≡ 0
zero-bit_and = digitwise_zero (λ a. bit_and 0 a) (λ a. omega (arith, and_digit 0 a)) refl

ones-of_lt : (k a : ℕ) → a < 2 ^ k → bit_and a (2 ^ k - 1) ≡ a
ones-of_lt zero a h = ground (arith, bit_and-zero a)
ones-of_lt (suc k) a h = omega (
  arith,
  pow-suc 2 k,
  one-le-pow k 2,
  and_digit a (2 ^ suc k - 1),
  ap (λ (t : ℕ). bit_and (a / 2) t) half,
  ones-of_lt k (a / 2) (omega (arith, pow-suc 2 k)),
)
  where
    half : (2 ^ suc k - 1) / 2 ≡ 2 ^ k - 1
    half = omega (arith, pow-suc 2 k, one-le-pow k 2)

-- `x & (2^k - 1)` is the remainder.
pub bit_and-ones : (k a : ℕ) → bit_and a (2 ^ k - 1) ≡ a % 2 ^ k
bit_and-ones k a = ground (
  arith,
  one-le-pow k 2,
  bit_and-split k (a / 2 ^ k) 0 (a % 2 ^ k) (2 ^ k - 1),
  bit_and-zero (a / 2 ^ k),
  ones-of_lt k (a % 2 ^ k),
)

-- `x & mask`, where the mask has `n` ones above `k` zeros, keeps those `n` bits in place.
pub bit_and-field : (k n a : ℕ) → bit_and a ((2 ^ n - 1) * 2 ^ k) ≡ a / 2 ^ k % 2 ^ n * 2 ^ k
bit_and-field k n a = ground (
  arith,
  one-le-pow k 2,
  bit_and-split k (a / 2 ^ k) (2 ^ n - 1) (a % 2 ^ k) 0,
  bit_and-zero (a % 2 ^ k),
  bit_and-ones n (a / 2 ^ k),
)

-- `(q << k) | r` is a sum when `r` fits the `k` low bits.
pub bit_or-disjoint : (k q r : ℕ) → r < 2 ^ k → bit_or (q * 2 ^ k) r ≡ q * 2 ^ k + r
bit_or-disjoint k q r h =
    ground (arith, one-le-pow k 2, bit_or-split k q 0 0 r, bit_or-zero q, zero-bit_or r)

pub disjoint-bit_or : (k q r : ℕ) → r < 2 ^ k → bit_or r (q * 2 ^ k) ≡ q * 2 ^ k + r
disjoint-bit_or k q r h =
    ground (arith, one-le-pow k 2, bit_or-split k 0 q r 0, zero-bit_or q, bit_or-zero r)
