-- ===== src/Bench/Bitarray/Laws.antt =====
-- A bit that is set or flipped, and the other bits of the array.
use veri_cross.Base.{
  ℕ, zero, suc, ◌+◌, ◌-◌, ◌/◌, ◌%◌, ◌^◌, ◌<◌, ◌≡◌, ◌≢◌, refl, sym, ap, ◌∙◌, arith, bit_and, bit_or,
  bit_xor,
}
use veri_cross.Base.{
  Bool, true, false, not, ◌&&◌, ◌||◌, ◌==◌, ==_iff, ==-ne, Bool-cases, inl, inr, if◌then◌else◌,
}
use veri_cross.Base.{
  List, [], ◌∷◌, get_or, set, length, replicate, get_or-set_self, get_or-set_ne, all_below,
  all_below_sound,
}
use veri_cross.Bits.{zero-bit_and}
use veri_cross.Sim.Common.{test}
use veri_cross.Bench.Crc32.Laws.{IsBytes}
use veri_cross.Bench.Bitarray.{char_bit, alloc_bit_array, getbit, put, setbit, flipbit}

abbrev agree : Bool → Bool → Bool
agree true b = b
agree false b = not b

abbrev bit : ℕ → ℕ → Bool
bit b j = test (bit_and b (2 ^ j))

-- The three operations on a byte, for its bits `k` and `j`.
abbrev byte_ok : ℕ → ℕ → ℕ → Bool
byte_ok k j b =
    agree (bit (bit_or b (2 ^ k)) j) (k == j || bit b j)
    && agree (bit (bit_and b (2 ^ 8 - 1 - 2 ^ k)) j) (not (k == j) && bit b j)
    && agree (bit (bit_xor b (2 ^ k)) j) (if k == j then not (bit b j) else bit b j)

byte_table : all_below 8 (λ k. all_below 8 (λ j. all_below 256 (byte_ok k j))) ≡ true
unfolding all_below
byte_table = refl

parts :
    (o a x e t : Bool)
    → (agree o (e || t) && agree a (not e && t) && agree x (if e then not t else t)) ≡ true
    → (o ≡ (if e then true else t))
      × (a ≡ (if e then false else t))
      × (x ≡ (if e then not t else t))
parts o a x e t h = (ground arith, ground arith, ground arith)

IsBytes-at : (bytes : List ℕ) (i : ℕ) → IsBytes bytes → get_or bytes i 0 < 256
IsBytes-at [] i h = omega arith
IsBytes-at (b ∷ bs) zero h = h.0
IsBytes-at (b ∷ bs) (suc i) h = IsBytes-at bs i h.1

module _ (k j b : ℕ) (hk : k < 8) (hj : j < 8) (hb : b < 256) where
  byte_fact : byte_ok k j b ≡ true
  byte_fact =
      all_below_sound 256 (byte_ok k j) b
        (all_below_sound 8 (λ j. all_below 256 (byte_ok k j)) j
          (all_below_sound 8 (λ k. all_below 8 (λ j. all_below 256 (byte_ok k j))) k byte_table hk)
          hj)
        hb

  bit_parts :
      (bit (bit_or b (2 ^ k)) j ≡ (if k == j then true else bit b j))
      × (bit (bit_and b (2 ^ 8 - 1 - 2 ^ k)) j ≡ (if k == j then false else bit b j))
      × (bit (bit_xor b (2 ^ k)) j ≡ (if k == j then not (bit b j) else bit b j))
  bit_parts =
      parts (bit (bit_or b (2 ^ k)) j) (bit (bit_and b (2 ^ 8 - 1 - 2 ^ k)) j)
        (bit (bit_xor b (2 ^ k)) j) (k == j) (bit b j) byte_fact

  bit-put : (v : Bool) → bit (put v k b) j ≡ (if k == j then v else bit b j)
  unfolding put
  bit-put true = bit_parts.0
  bit-put false = bit_parts.1

-- The array after a change `f` of the byte that holds bit `n`.
module _ (bytes : List ℕ) (n m : ℕ) (f : ℕ → ℕ) (lt : n / 8 < length bytes) where
  getbit-same :
      n / 8 ≡ m / 8
      → getbit (set bytes (n / 8) (f (get_or bytes (n / 8) 0))) m
        ≡ bit (f (get_or bytes (n / 8) 0)) (m % 8)
  unfolding getbit
  getbit-same e =
      ap (λ (i : ℕ). bit (get_or (set bytes (n / 8) (f (get_or bytes (n / 8) 0))) i 0) (m % 8))
        (sym e)
      ∙ ap (λ (b : ℕ). bit b (m % 8))
          (get_or-set_self bytes (n / 8) (f (get_or bytes (n / 8) 0)) 0 lt)

  getbit-other :
      n / 8 ≢ m / 8 → getbit (set bytes (n / 8) (f (get_or bytes (n / 8) 0))) m ≡ getbit bytes m
  unfolding getbit
  getbit-other ne =
      ap (λ (b : ℕ). bit b (m % 8))
        (get_or-set_ne bytes (n / 8) (m / 8) (f (get_or bytes (n / 8) 0)) 0 ne)

  -- The bits that the change sees, from what it does to the bits of the byte.
  getbit-changed :
      (v : Bool)
      → (n / 8 ≡ m / 8
          → bit (f (get_or bytes (n / 8) 0)) (m % 8)
            ≡ (if n % 8 == m % 8 then v else bit (get_or bytes (n / 8) 0) (m % 8)))
      → getbit (set bytes (n / 8) (f (get_or bytes (n / 8) 0))) m
        ≡ (if n == m then v else getbit bytes m)
  unfolding getbit
  getbit-changed v h = elim (Bool-cases (n / 8 == m / 8)) [
    | inl e ↦ getbit-same ((==_iff _ _).0 e) ∙ h ((==_iff _ _).0 e) ∙ same_byte ((==_iff _ _).0 e)
    | inr e ↦ getbit-other (differs e) ∙ other_bit (differs e)
  ]
    where
      differs : (n / 8 == m / 8) ≡ false → n / 8 ≢ m / 8
      differs e = ground arith

      other_bit : n / 8 ≢ m / 8 → getbit bytes m ≡ (if n == m then v else getbit bytes m)
      other_bit ne = rw (==-ne n m (λ e. ne (ap (λ (k : ℕ). k / 8) e)))

      same_byte :
          n / 8 ≡ m / 8
          → (if n % 8 == m % 8 then v else bit (get_or bytes (n / 8) 0) (m % 8))
            ≡ (if n == m then v else getbit bytes m)
      same_byte e = elim (Bool-cases (n == m)) [
        | inl g ↦ rw (g, bits_same ((==_iff n m).0 g))
        | inr g ↦ rw (g, bits_differ e g) (ap (λ (i : ℕ). bit (get_or bytes i 0) (m % 8)) e)
      ]
        where
          bits_same : n ≡ m → (n % 8 == m % 8) ≡ true
          bits_same g = ground arith

          bits_differ : n / 8 ≡ m / 8 → (n == m) ≡ false → (n % 8 == m % 8) ≡ false
          bits_differ e g = ground arith

-- In an array of bytes that holds bit `n`, every bit other than `n` is as before after `setbit`
-- and `flipbit`, and bit `n` has the new value or the opposite one.
pub getbit-setbit-flipbit :
    (bytes : List ℕ) (n m : ℕ) (v : Bool)
    → IsBytes bytes
    → n / char_bit < length bytes
    → (getbit (setbit bytes n v) m ≡ (if n == m then v else getbit bytes m))
      × (getbit (flipbit bytes n) m ≡ (if n == m then not (getbit bytes m) else getbit bytes m))
unfolding setbit flipbit
getbit-setbit-flipbit bytes n m v h lt = (
  getbit-changed bytes n m (put v (n % 8)) lt v (λ e.
      bit-put (n % 8) (m % 8) (get_or bytes (n / 8) 0) (omega arith) (omega arith)
        (IsBytes-at bytes (n / 8) h) v),
  getbit-changed bytes n m (λ b. bit_xor b (2 ^ (n % 8))) lt (not (getbit bytes m))
      (λ e.
        (bit_parts (n % 8) (m % 8) (get_or bytes (n / 8) 0) (omega arith) (omega arith)
          (IsBytes-at bytes (n / 8) h)).2
        ∙ unfold getbit in
          ap
            (λ (i : ℕ).
              if n % 8 == m % 8
              then not (bit (get_or bytes i 0) (m % 8))
              else bit (get_or bytes (n / 8) 0) (m % 8))
            e),
)

length-replicate : (k : ℕ) → length {A = ℕ} (replicate k 0) ≡ k
length-replicate zero = refl
length-replicate (suc k) = ap suc (length-replicate k)

get_or-replicate : (k i : ℕ) → get_or {A = ℕ} (replicate k 0) i 0 ≡ 0
get_or-replicate zero i = refl
get_or-replicate (suc k) zero = refl
get_or-replicate (suc k) (suc i) = get_or-replicate k i

IsBytes-replicate : (k : ℕ) → IsBytes (replicate k 0)
IsBytes-replicate zero = tt
IsBytes-replicate (suc k) = (omega arith, IsBytes-replicate k)

-- A new array for `bits` bits is one of bytes, holds each bit below `bits`, and has it clear.
alloc_bit_array-getbit :
    (bits n : ℕ)
    → n < bits
    → (n / char_bit < length (alloc_bit_array bits))
      × (getbit (alloc_bit_array bits) n ≡ false)
      × IsBytes (alloc_bit_array bits)
unfolding alloc_bit_array getbit
alloc_bit_array-getbit bits n lt = (
  omega (arith, length-replicate ((bits + 8 - 1) / 8)),
  ap (λ (b : ℕ). bit b (n % 8)) (get_or-replicate ((bits + 8 - 1) / 8) (n / 8))
      ∙ ap test (zero-bit_and (2 ^ (n % 8))),
  IsBytes-replicate ((bits + 8 - 1) / 8),
)
