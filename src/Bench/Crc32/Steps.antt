-- ===== src/Bench/Crc32/Steps.antt =====
-- The division by the CRC polynomial one bit at a time, which the table does eight at a time.
use native.Mathlib.Nat.{pow-suc}
use Prim.Native.Nat.{differ}
use veri_cross.Base.{ℕ, zero, suc, ◌+◌, ◌*◌, ◌/◌, ◌%◌, ◌^◌, ◌<◌, ◌≡◌, ap, ◌∙◌, arith}
use veri_cross.Base.{bit_xor, ◌==◌, if◌then◌else◌, Bool-cases, inl, inr}
use veri_cross.Bits.{
  bit_xor_assoc, bit_xor-half, bit_xor-parity, bit_xor-split, bit_xor_cancel, bit_xor-lt,
  zero-bit_xor,
}

-- The polynomial, its highest term in the lowest bit.
abbrev pub polynomial : ℕ
polynomial = 0xedb88320

-- One shift of the feedback register.
abbrev pub shift_step : ℕ → ℕ
shift_step x = if x % 2 == 1 then bit_xor (x / 2) polynomial else x / 2

unfoldable pub shift_steps : ℕ → ℕ → ℕ
shift_steps zero x = x
shift_steps (suc n) x = shift_steps n (shift_step x)

shift_step-high :
    (k p x : ℕ) → shift_step (bit_xor (p * 2 ^ suc k) x) ≡ bit_xor (p * 2 ^ k) (shift_step x)
shift_step-high k p x = elim (Bool-cases (x % 2 == 1)) [
  | inl e ↦ rw (parity, half, e) (bit_xor_assoc (p * 2 ^ k) (x / 2) polynomial)
  | inr e ↦ rw (parity, half, e)
]
  where
    doubled : p * 2 ^ suc k ≡ p * 2 ^ k * 2
    doubled = omega (arith, ap (λ (t : ℕ). p * t) (pow-suc 2 k))

    half : bit_xor (p * 2 ^ suc k) x / 2 ≡ bit_xor (p * 2 ^ k) (x / 2)
    half =
        bit_xor-half (p * 2 ^ suc k) x
        ∙ ap (λ (t : ℕ). bit_xor t (x / 2)) {y = p * 2 ^ k} (omega (arith, doubled))

    parity : bit_xor (p * 2 ^ suc k) x % 2 ≡ x % 2
    parity =
        bit_xor-parity (p * 2 ^ suc k) x
        ∙ ap (λ (t : ℕ). differ t (x % 2)) {y = 0} (omega (arith, doubled))

-- The bits above the `n` that are shifted out arrive unchanged.
pub shift_steps-high :
    (n p x : ℕ) → shift_steps n (bit_xor (p * 2 ^ n) x) ≡ bit_xor p (shift_steps n x)
unfolding shift_steps
shift_steps-high zero p x = ap (λ (t : ℕ). bit_xor t x) (omega arith)
shift_steps-high (suc n) p x =
    ap (shift_steps n) (shift_step-high n p x) ∙ shift_steps-high n p (shift_step x)

pub shift_step-lt : (x : ℕ) → x < 2 ^ 32 → shift_step x < 2 ^ 32
shift_step-lt x h = ground (arith, bit_xor-lt 32 (x / 2) polynomial (omega arith) (omega arith))

pub shift_steps-lt : (n x : ℕ) → x < 2 ^ 32 → shift_steps n x < 2 ^ 32
unfolding shift_steps
shift_steps-lt zero x h = h
shift_steps-lt (suc n) x h = shift_steps-lt n (shift_step x) (shift_step-lt x h)

-- The top bit of the polynomial is set, so a step can be undone.
step_top : (y : ℕ) → y < 2 ^ 31 → 2 ^ 31 < bit_xor y polynomial + 1
step_top y h = omega (arith, cut, zero-bit_xor 1)
  where
    cut : bit_xor y polynomial ≡ bit_xor 0 1 * 2 ^ 31 + bit_xor y (polynomial % 2 ^ 31)
    cut =
        ap (λ (t : ℕ). bit_xor t polynomial) {x = y} (omega arith)
        ∙ bit_xor-split 31 0 1 y (polynomial % 2 ^ 31) h (omega arith)

pub shift_step_injective : (x y : ℕ) → x < 2 ^ 32 → y < 2 ^ 32 → shift_step x ≡ shift_step y → x ≡ y
shift_step_injective x y hx hy e = ground (
  arith,
  step_top (x / 2) (omega arith),
  step_top (y / 2) (omega arith),
  bit_xor_cancel (x / 2) polynomial,
  bit_xor_cancel (y / 2) polynomial,
)

pub shift_steps_injective :
    (n x y : ℕ) → x < 2 ^ 32 → y < 2 ^ 32 → shift_steps n x ≡ shift_steps n y → x ≡ y
unfolding shift_steps
shift_steps_injective zero x y hx hy e = e
shift_steps_injective (suc n) x y hx hy e = shift_step_injective x y hx hy (
    shift_steps_injective n (shift_step x) (shift_step y) (shift_step-lt x hx) (shift_step-lt y hy)
      e)
