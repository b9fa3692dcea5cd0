-- ===== src/Bits/Step.antt =====
-- The native operations stand for a recursion on binary digits with fuel. Here the fuel is
-- dropped: one equation for the lowest digit of each operation.
use Prim.Native.Nat.{min, max, differ, digits, bitwise}
use Prim.Native.Nat.{bit_and-bitwise, bit_or-bitwise, bit_xor-bitwise}
use veri_cross.Base.{ℕ, zero, suc, ◌+◌, ◌-◌, ◌*◌, ◌/◌, ◌%◌, ◌≤◌, ◌≡◌, refl, ap, ◌∙◌, arith}
use veri_cross.Base.{bit_and, bit_or, bit_xor}

module _ (rest : ℕ → ℕ) (op : ℕ → ℕ → ℕ) where
  -- One more unit of fuel than needed changes nothing, hence any surplus does not.
  spare_unit : (n x y : ℕ) → x ≤ n → digits rest op (suc n) x y ≡ digits rest op n x y
  spare_unit zero zero y h = refl
  spare_unit zero (suc x) y h = absurd (omega arith)
  spare_unit (suc n) zero y h = refl
  spare_unit (suc n) (suc x) y h = omega (arith, spare_unit n (suc x / 2) (y / 2) (omega arith))

  spare : (d n x y : ℕ) → x ≤ n → digits rest op (d + n) x y ≡ digits rest op n x y
  spare zero n x y h = ap (λ (k : ℕ). digits rest op k x y) {y = n} (omega arith)
  spare (suc d) n x y h =
      ap (λ (k : ℕ). digits rest op k x y) {y = suc (d + n)} (omega arith)
      ∙ spare_unit (d + n) x y (omega arith)
      ∙ spare d n x y h

  lowest_digit :
      (x y : ℕ)
      → bitwise rest op (suc x) y ≡ op (suc x % 2) (y % 2) + bitwise rest op (suc x / 2) (y / 2) * 2
  lowest_digit x y = omega (
    arith,
    ap (λ (k : ℕ). digits rest op k (suc x / 2) (y / 2)) whole,
    spare (x - suc x / 2) (suc x / 2) (suc x / 2) (y / 2) (omega arith),
  )
    where
      whole : x - suc x / 2 + suc x / 2 ≡ x
      whole = omega arith

pub and_digit : (x y : ℕ) → bit_and x y ≡ min (x % 2) (y % 2) + 2 * bit_and (x / 2) (y / 2)
and_digit zero y = simp bit_and-bitwise (omega arith)
and_digit (suc x) y = simp bit_and-bitwise (omega (arith, lowest_digit (λ _. 0) min x y))

pub or_digit : (x y : ℕ) → bit_or x y ≡ max (x % 2) (y % 2) + 2 * bit_or (x / 2) (y / 2)
or_digit zero y = simp bit_or-bitwise (omega arith)
or_digit (suc x) y = simp bit_or-bitwise (omega (arith, lowest_digit (λ v. v) max x y))

differ-zero : (y : ℕ) → y ≡ differ 0 (y % 2) + 2 * (y / 2)
differ-zero y = omega arith

pub xor_digit : (x y : ℕ) → bit_xor x y ≡ differ (x % 2) (y % 2) + 2 * bit_xor (x / 2) (y / 2)
xor_digit zero y = simp bit_xor-bitwise (differ-zero y)
xor_digit (suc x) y = simp bit_xor-bitwise (omega (arith, lowest_digit (λ v. v) differ x y))
