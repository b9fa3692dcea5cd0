-- ===== src/Sim/Memory/Merge.antt =====
-- The masked write of sim/memory.cpp, byte by byte: `(old & ~mask) | (data & mask)`.
use veri_cross.Base.{ℕ, zero, suc, ◌-◌, ◌^◌, ◌<◌, ◌≡◌, sym, ap, ap₂, ◌∙◌, arith}
use veri_cross.Base.{Bool, true, false, if◌then◌else◌, bit_and, bit_or}
use veri_cross.Bits.{bit_and-zero, bit_and-ones, bit_and-lt, bit_or-zero, zero-bit_or}
use veri_cross.Bits.Lanes.{lanes, byte, lanes-byte, bit_and-lanes, bit_or-lanes}
use veri_cross.Sim.Common.{test, not32, expand_wmask}
use veri_cross.Sim.Memory.{merge}

abbrev pub ones : Bool → ℕ
ones b = if b then 255 else 0

-- The mask with all the bits of the chosen bytes.
abbrev pub byte_mask : Bool → Bool → Bool → Bool → ℕ
byte_mask d c b a = lanes (ones d) (ones c) (ones b) (ones a)

expanded :
    (d c b a : Bool)
    → bit_or
        (bit_or
          (bit_or (if d then 0xff000000 else 0) (if c then 0x00ff0000 else 0))
          (if b then 0x0000ff00 else 0))
        (if a then 0x000000ff else 0)
      ≡ byte_mask d c b a
expanded d c b a = ground arith

pub expand_wmask-eq :
    (mask : ℕ)
    → expand_wmask mask
      ≡ byte_mask
          (test (bit_and mask 8))
          (test (bit_and mask 4))
          (test (bit_and mask 2))
          (test (bit_and mask 1))
unfolding expand_wmask
expand_wmask-eq mask =
    expanded (test (bit_and mask 8)) (test (bit_and mask 4)) (test (bit_and mask 2))
      (test (bit_and mask 1))

merge_byte :
    (t : Bool) (x y : ℕ)
    → x < 256
    → y < 256
    → bit_or (bit_and x (255 - ones t)) (bit_and y (ones t)) ≡ (if t then y else x)
merge_byte true x y hx hy = omega (
  arith,
  bit_and-zero x,
  bit_and-ones 8 y,
  ap (λ (z : ℕ). bit_or z (bit_and y 255)) (bit_and-zero x),
  zero-bit_or (bit_and y 255),
)
merge_byte false x y hx hy = omega (
  arith,
  bit_and-zero y,
  bit_and-ones 8 x,
  ap (λ (z : ℕ). bit_or (bit_and x 255) z) (bit_and-zero y),
  bit_or-zero (bit_and x 255),
)

not32-byte_mask :
    (d c b a : Bool)
    → not32 (byte_mask d c b a) ≡ lanes (255 - ones d) (255 - ones c) (255 - ones b) (255 - ones a)
not32-byte_mask d c b a = ground arith

ones-lt : (t : Bool) → ones t < 256
ones-lt true = omega arith
ones-lt false = omega arith

complement-lt : (t : Bool) → 255 - ones t < 256
complement-lt t = omega arith

module _ (o3 o2 o1 o0 v3 v2 v1 v0 : ℕ) (ho3 : o3 < 256) (ho2 : o2 < 256) (ho1 : o1 < 256)
    (ho0 : o0 < 256) (hv3 : v3 < 256) (hv2 : v2 < 256) (hv1 : v1 < 256) (hv0 : v0 < 256) where
  merge-lanes :
      (d c b a : Bool)
      → merge (lanes o3 o2 o1 o0) (lanes v3 v2 v1 v0) (byte_mask d c b a)
        ≡ lanes
            (if d then v3 else o3)
            (if c then v2 else o2)
            (if b then v1 else o1)
            (if a then v0 else o0)
  merge-lanes d c b a =
      ap₂ bit_or
        (ap (bit_and (lanes o3 o2 o1 o0)) (not32-byte_mask d c b a)
          ∙ bit_and-lanes o3 o2 o1 o0 (255 - ones d) (255 - ones c) (255 - ones b) (255 - ones a)
              ho0 ho1 ho2 (complement-lt a) (complement-lt b) (complement-lt c))
        (bit_and-lanes v3 v2 v1 v0 (ones d) (ones c) (ones b) (ones a) hv0 hv1 hv2 (ones-lt a)
          (ones-lt b) (ones-lt c))
      ∙ bit_or-lanes (bit_and o3 (255 - ones d)) (bit_and o2 (255 - ones c))
          (bit_and o1 (255 - ones b)) (bit_and o0 (255 - ones a)) (bit_and v3 (ones d))
          (bit_and v2 (ones c)) (bit_and v1 (ones b)) (bit_and v0 (ones a))
          (bit_and-lt 8 o0 (255 - ones a) ho0 (complement-lt a))
          (bit_and-lt 8 o1 (255 - ones b) ho1 (complement-lt b))
          (bit_and-lt 8 o2 (255 - ones c) ho2 (complement-lt c))
          (bit_and-lt 8 v0 (ones a) hv0 (ones-lt a)) (bit_and-lt 8 v1 (ones b) hv1 (ones-lt b))
          (bit_and-lt 8 v2 (ones c) hv2 (ones-lt c))
      ∙ rw (
        merge_byte d o3 v3 ho3 hv3,
        merge_byte c o2 v2 ho2 hv2,
        merge_byte b o1 v1 ho1 hv1,
        merge_byte a o0 v0 ho0 hv0,
      )

byte-lt : (w i : ℕ) → byte w i < 256
byte-lt w i = omega arith

-- Each byte comes from the new word if the mask has it, and from the old one if not.
pub merge-byte_mask :
    (old v : ℕ) (d c b a : Bool)
    → old < 2 ^ 32
    → v < 2 ^ 32
    → merge old v (byte_mask d c b a)
      ≡ lanes
          (if d then byte v 3 else byte old 3)
          (if c then byte v 2 else byte old 2)
          (if b then byte v 1 else byte old 1)
          (if a then byte v 0 else byte old 0)
merge-byte_mask old v d c b a ho hv =
    ap₂ (λ o n. merge o n (byte_mask d c b a)) (sym (lanes-byte old ho)) (sym (lanes-byte v hv))
    ∙ merge-lanes (byte old 3) (byte old 2) (byte old 1) (byte old 0) (byte v 3) (byte v 2)
        (byte v 1) (byte v 0) (byte-lt old 3) (byte-lt old 2) (byte-lt old 1) (byte-lt old 0)
        (byte-lt v 3) (byte-lt v 2) (byte-lt v 1) (byte-lt v 0) d c b a

module _ (old v : ℕ) (d c b a : Bool) (ho : old < 2 ^ 32) (hv : v < 2 ^ 32) where
  pub merge-lt : merge old v (byte_mask d c b a) < 2 ^ 32
  merge-lt = ground (arith, merge-byte_mask old v d c b a ho hv)

  pub byte-merge :
      (byte (merge old v (byte_mask d c b a)) 3 ≡ (if d then byte v 3 else byte old 3))
      × (byte (merge old v (byte_mask d c b a)) 2 ≡ (if c then byte v 2 else byte old 2))
      × (byte (merge old v (byte_mask d c b a)) 1 ≡ (if b then byte v 1 else byte old 1))
      × (byte (merge old v (byte_mask d c b a)) 0 ≡ (if a then byte v 0 else byte old 0))
  byte-merge = rw (merge-byte_mask old v d c b a ho hv) (ground arith)

-- The same at a byte given by its index.
pub byte-merge_at :
    (old v : ℕ) (p : ℕ → Bool) (i : ℕ)
    → old < 2 ^ 32
    → v < 2 ^ 32
    → i < 4
    → byte (merge old v (byte_mask (p 3) (p 2) (p 1) (p 0))) i
      ≡ (if p i then byte v i else byte old i)
byte-merge_at old v p zero ho hv h = (byte-merge old v (p 3) (p 2) (p 1) (p 0) ho hv).3
byte-merge_at old v p (suc zero) ho hv h = (byte-merge old v (p 3) (p 2) (p 1) (p 0) ho hv).2
byte-merge_at old v p (suc (suc zero)) ho hv h = (byte-merge old v (p 3) (p 2) (p 1) (p 0) ho hv).1
byte-merge_at old v p (suc (suc (suc zero))) ho hv h =
    (byte-merge old v (p 3) (p 2) (p 1) (p 0) ho hv).0
byte-merge_at old v p (suc (suc (suc (suc i)))) ho hv h = absurd (omega arith)
