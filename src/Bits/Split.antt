-- ===== src/Bits/Split.antt =====
-- A bitwise operation works on the high and the low field of a word separately, and stays
-- below any power of two that bounds both operands.
use native.Mathlib.Nat.{pow-suc}
use Prim.Native.Nat.{min, max, differ}
use veri_cross.Base.{ℕ, zero, suc, ◌+◌, ◌*◌, ◌/◌, ◌%◌, ◌^◌, ◌<◌, ◌≡◌, ap, arith}
use veri_cross.Base.{bit_and, bit_or, bit_xor}
use veri_cross.Bits.Step.{and_digit, or_digit, xor_digit}

double_field : (q k : ℕ) → q * 2 ^ suc k ≡ 2 * (q * 2 ^ k)
double_field q k = omega (arith, ap (λ (t : ℕ). q * t) (pow-suc 2 k))

module _ (op g : ℕ → ℕ → ℕ) (step : (a b : ℕ) → op a b ≡ g (a % 2) (b % 2) + 2 * op (a / 2) (b / 2))
    (small : (a b : ℕ) → a < 2 → b < 2 → g a b < 2) where
  op-zero : op 0 0 ≡ 0
  op-zero = omega (arith, step 0 0)

  op-split :
      (k p q r s : ℕ)
      → r < 2 ^ k
      → s < 2 ^ k
      → op (p * 2 ^ k + r) (q * 2 ^ k + s) ≡ op p q * 2 ^ k + op r s
  op-split zero p q r s hr hs = ground (arith, op-zero)
  op-split (suc k) p q r s hr hs = ground (
    arith,
    pow-suc 2 k,
    double_field p k,
    double_field q k,
    double_field (op p q) k,
    step (p * 2 ^ suc k + r) (q * 2 ^ suc k + s),
    step r s,
    op-split k p q (r / 2) (s / 2) (omega (arith, pow-suc 2 k)) (omega (arith, pow-suc 2 k)),
  )

  op-lt : (k a b : ℕ) → a < 2 ^ k → b < 2 ^ k → op a b < 2 ^ k
  op-lt zero a b ha hb = ground (arith, op-zero)
  op-lt (suc k) a b ha hb = omega (
    arith,
    pow-suc 2 k,
    step a b,
    small (a % 2) (b % 2) (omega arith) (omega arith),
    op-lt k (a / 2) (b / 2) (omega (arith, pow-suc 2 k)) (omega (arith, pow-suc 2 k)),
  )

differ-lt : (a b : ℕ) → a < 2 → b < 2 → differ a b < 2
differ-lt zero b ha hb = hb
differ-lt (suc a) zero ha hb = ha
differ-lt (suc zero) (suc b) ha hb = omega arith
differ-lt (suc (suc a)) (suc b) ha hb = absurd (omega arith)

pub bit_and-split :
    (k p q r s : ℕ)
    → r < 2 ^ k
    → s < 2 ^ k
    → bit_and (p * 2 ^ k + r) (q * 2 ^ k + s) ≡ bit_and p q * 2 ^ k + bit_and r s
bit_and-split = op-split bit_and min and_digit (λ a b ha hb. omega arith)

pub bit_or-split :
    (k p q r s : ℕ)
    → r < 2 ^ k
    → s < 2 ^ k
    → bit_or (p * 2 ^ k + r) (q * 2 ^ k + s) ≡ bit_or p q * 2 ^ k + bit_or r s
bit_or-split = op-split bit_or max or_digit (λ a b ha hb. omega arith)

pub bit_xor-split :
    (k p q r s : ℕ)
    → r < 2 ^ k
    → s < 2 ^ k
    → bit_xor (p * 2 ^ k + r) (q * 2 ^ k + s) ≡ bit_xor p q * 2 ^ k + bit_xor r s
bit_xor-split = op-split bit_xor differ xor_digit differ-lt

pub bit_and-lt : (k a b : ℕ) → a < 2 ^ k → b < 2 ^ k → bit_and a b < 2 ^ k
bit_and-lt = op-lt bit_and min and_digit (λ a b ha hb. omega arith)

pub bit_or-lt : (k a b : ℕ) → a < 2 ^ k → b < 2 ^ k → bit_or a b < 2 ^ k
bit_or-lt = op-lt bit_or max or_digit (λ a b ha hb. omega arith)

pub bit_xor-lt : (k a b : ℕ) → a < 2 ^ k → b < 2 ^ k → bit_xor a b < 2 ^ k
bit_xor-lt = op-lt bit_xor differ xor_digit differ-lt
