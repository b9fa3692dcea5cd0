-- ===== src/Bits/Xor.antt =====
-- `^` as a commutative group on unsigned words, and its action on the lowest bit and the rest.
use Prim.Native.Nat.{differ, bit_xor-bitwise}
use veri_cross.Base.{
  ℕ, zero, suc, ◌+◌, ◌*◌, ◌/◌, ◌%◌, ◌^◌, ◌≤◌, ◌<◌, ◌≡◌, refl, sym, ap, ◌∙◌, arith, bit_xor,
}
use veri_cross.Bits.Step.{xor_digit}
use veri_cross.Bits.Split.{bit_xor-split}

differ_small : (a b : ℕ) → a < 2 → b < 2 → differ a b < 2
differ_small zero b ha hb = hb
differ_small (suc a) zero ha hb = ha
differ_small (suc zero) (suc zero) ha hb = omega arith
differ_small (suc zero) (suc (suc b)) ha hb = absurd (omega arith)
differ_small (suc (suc a)) (suc b) ha hb = absurd (omega arith)

module _ (a b : ℕ) where
  pub bit_xor-half : bit_xor a b / 2 ≡ bit_xor (a / 2) (b / 2)
  bit_xor-half =
      omega (arith, xor_digit a b, differ_small (a % 2) (b % 2) (omega arith) (omega arith))

  pub bit_xor-parity : bit_xor a b % 2 ≡ differ (a % 2) (b % 2)
  bit_xor-parity =
      omega (arith, xor_digit a b, differ_small (a % 2) (b % 2) (omega arith) (omega arith))

differ_comm : (a b : ℕ) → a < 2 → b < 2 → differ a b ≡ differ b a
differ_comm zero zero ha hb = refl
differ_comm zero (suc b) ha hb = refl
differ_comm (suc a) zero ha hb = refl
differ_comm (suc zero) (suc zero) ha hb = refl
differ_comm (suc zero) (suc (suc b)) ha hb = absurd (omega arith)
differ_comm (suc (suc a)) (suc b) ha hb = absurd (omega arith)

differ_assoc : (a b c : ℕ) → a < 2 → b < 2 → c < 2 → differ (differ a b) c ≡ differ a (differ b c)
differ_assoc zero b c ha hb hc = refl
differ_assoc (suc zero) zero c ha hb hc = refl
differ_assoc (suc zero) (suc zero) zero ha hb hc = refl
differ_assoc (suc zero) (suc zero) (suc zero) ha hb hc = refl
differ_assoc (suc zero) (suc zero) (suc (suc c)) ha hb hc = absurd (omega arith)
differ_assoc (suc zero) (suc (suc b)) c ha hb hc = absurd (omega arith)
differ_assoc (suc (suc a)) b c ha hb hc = absurd (omega arith)

comm_below : (n a b : ℕ) → a ≤ n → b ≤ n → bit_xor a b ≡ bit_xor b a
comm_below zero zero zero p q = refl
comm_below zero (suc a) b p q = absurd (omega arith)
comm_below zero zero (suc b) p q = absurd (omega arith)
comm_below (suc n) a b p q = omega (
  arith,
  xor_digit a b,
  xor_digit b a,
  differ_comm (a % 2) (b % 2) (omega arith) (omega arith),
  comm_below n (a / 2) (b / 2) (omega arith) (omega arith),
)

pub bit_xor_comm : (a b : ℕ) → bit_xor a b ≡ bit_xor b a
bit_xor_comm a b = comm_below (a + b) a b (omega arith) (omega arith)

assoc_below :
    (n a b c : ℕ) → a ≤ n → b ≤ n → c ≤ n → bit_xor (bit_xor a b) c ≡ bit_xor a (bit_xor b c)
assoc_below zero zero zero zero p q r = refl
assoc_below zero (suc a) b c p q r = absurd (omega arith)
assoc_below zero zero (suc b) c p q r = absurd (omega arith)
assoc_below zero zero zero (suc c) p q r = absurd (omega arith)
assoc_below (suc n) a b c p q r =
    left
    ∙ omega (
      arith,
      differ_assoc (a % 2) (b % 2) (c % 2) (omega arith) (omega arith) (omega arith),
      assoc_below n (a / 2) (b / 2) (c / 2) (omega arith) (omega arith) (omega arith),
    )
    ∙ sym right
  where
    left :
        bit_xor (bit_xor a b) c
        ≡ differ (differ (a % 2) (b % 2)) (c % 2) + 2 * bit_xor (bit_xor (a / 2) (b / 2)) (c / 2)
    left = xor_digit (bit_xor a b) c ∙ rw (bit_xor-half a b, bit_xor-parity a b)

    right :
        bit_xor a (bit_xor b c)
        ≡ differ (a % 2) (differ (b % 2) (c % 2)) + 2 * bit_xor (a / 2) (bit_xor (b / 2) (c / 2))
    right = xor_digit a (bit_xor b c) ∙ rw (bit_xor-half b c, bit_xor-parity b c)

pub bit_xor_assoc : (a b c : ℕ) → bit_xor (bit_xor a b) c ≡ bit_xor a (bit_xor b c)
bit_xor_assoc a b c = assoc_below (a + b + c) a b c (omega arith) (omega arith) (omega arith)

differ_self : (a : ℕ) → a < 2 → differ a a ≡ 0
differ_self zero h = refl
differ_self (suc zero) h = refl
differ_self (suc (suc a)) h = absurd (omega arith)

self_below : (n a : ℕ) → a ≤ n → bit_xor a a ≡ 0
self_below zero zero p = refl
self_below zero (suc a) p = absurd (omega arith)
self_below (suc n) a p =
    omega
      (arith, xor_digit a a, differ_self (a % 2) (omega arith), self_below n (a / 2) (omega arith))

pub zero-bit_xor : (a : ℕ) → bit_xor 0 a ≡ a
zero-bit_xor a = bit_xor-bitwise 0 a

pub bit_xor-zero : (a : ℕ) → bit_xor a 0 ≡ a
bit_xor-zero a = bit_xor_comm a 0 ∙ zero-bit_xor a

-- `x ^ y ^ y` is `x`.
pub bit_xor_cancel : (a b : ℕ) → bit_xor (bit_xor a b) b ≡ a
bit_xor_cancel a b =
    bit_xor_assoc a b b ∙ ap (bit_xor a) (self_below b b (omega arith)) ∙ bit_xor-zero a

-- `(q << k) ^ r` is a sum when `r` fits the `k` low bits.
pub bit_xor-disjoint : (k q r : ℕ) → r < 2 ^ k → bit_xor (q * 2 ^ k) r ≡ q * 2 ^ k + r
bit_xor-disjoint k q r h = ground (arith, bit_xor-split k q 0 0 r, bit_xor-zero q, zero-bit_xor r)
