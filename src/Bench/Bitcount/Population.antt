-- ===== src/Bench/Bitcount/Population.antt =====
-- The number of ones among the lowest bits of a word, and how it follows the fields of the word.
use native.Mathlib.Nat.{pow-suc}
use veri_cross.Base.{ℕ, zero, suc, ◌+◌, ◌*◌, ◌/◌, ◌%◌, ◌^◌, ◌<◌, ◌≡◌, ap, ap₂, ◌∙◌, arith}
use veri_cross.Bits.Lanes.{lanes}

unfoldable pub population : ℕ → ℕ → ℕ
population zero x = 0
population (suc k) x = x % 2 + population k (x / 2)

-- A low field of `k` bits and what is above it are counted apart.
pub population-fields :
    (k n p r : ℕ) → r < 2 ^ k → population (k + n) (p * 2 ^ k + r) ≡ population k r + population n p
unfolding population
population-fields zero n p r h =
    ap₂ population {y = n} {v = p} (omega arith) (omega arith) ∙ omega arith
population-fields (suc k) n p r h =
    ap (λ (t : ℕ). population t (p * 2 ^ suc k + r)) {y = suc (k + n)} (omega arith)
    ∙ ap₂ (λ (b w : ℕ). b + population (k + n) w) {y = r % 2} {v = p * 2 ^ k + r / 2}
        (omega (arith, doubled)) (omega (arith, doubled))
    ∙ omega (arith, population-fields k n p (r / 2) (omega (arith, pow-suc 2 k)))
  where
    doubled : p * 2 ^ suc k ≡ p * 2 ^ k * 2
    doubled = omega (arith, ap (λ (t : ℕ). p * t) (pow-suc 2 k))

pub population-lanes :
    (d c b a : ℕ)
    → a < 256
    → b < 256
    → c < 256
    → population 32 (lanes d c b a)
      ≡ population 8 a + population 8 b + population 8 c + population 8 d
population-lanes d c b a ha hb hc = omega (
  arith,
  population-fields 8 24 ((d * 2 ^ 8 + c) * 2 ^ 8 + b) a ha,
  population-fields 8 16 (d * 2 ^ 8 + c) b hb,
  population-fields 8 8 d c hc,
)
