-- ===== src/Bench/Bitcount/Words.antt =====
-- The lines of `bitcount` on the four bytes of a word.
use native.Mathlib.Nat.{one-le-pow}
use veri_cross.Base.{ℕ, ◌+◌, ◌*◌, ◌/◌, ◌^◌, ◌<◌, ◌≡◌, refl, ap, ◌∙◌, arith, bit_and}
use veri_cross.Base.{◌==◌, ◌&&◌, ltb, true, all_below, all_below_sound, Bool}
use veri_cross.Bits.{bit_and-ones, bit_and-zero}
use veri_cross.Bits.Lanes.{lanes, bit_and-lanes}
use veri_cross.Bench.Bitcount.{pairs}
use veri_cross.Bench.Bitcount.Population.{population}

-- The line on one byte, without the cut to the width of the word.
abbrev pub pairs_byte : ℕ → ℕ → ℕ → ℕ → ℕ
pairs_byte s high low x = bit_and x high / 2 ^ s + bit_and x low

-- The high fields of a byte stand clear of the low ones, and the sums fit the byte.
abbrev pub Fits : ℕ → ℕ → ℕ → ℕ → Type 0
Fits s high low x =
    (bit_and x high ≡ bit_and x high / 2 ^ s * 2 ^ s) × (pairs_byte s high low x < 256)

pub exact_div : (s q : ℕ) → q * 2 ^ s / 2 ^ s ≡ q
exact_div s q = grind (arith, one-le-pow s 2)

scaled_lanes : (m d c b a : ℕ) → lanes (d * m) (c * m) (b * m) (a * m) ≡ lanes d c b a * m
scaled_lanes m d c b a = omega arith

module _ (s high low : ℕ) (hh : high < 256) (hl : low < 256)
    (fit : (x : ℕ) → x < 256 → Fits s high low x) (d c b a : ℕ) (ha : a < 256) (hb : b < 256)
    (hc : c < 256) (hd : d < 256) where
  high_lanes :
      bit_and (lanes d c b a) (lanes high high high high) / 2 ^ s
      ≡ lanes
          (bit_and d high / 2 ^ s)
          (bit_and c high / 2 ^ s)
          (bit_and b high / 2 ^ s)
          (bit_and a high / 2 ^ s)
  high_lanes =
      ap (λ (t : ℕ). t / 2 ^ s)
        (bit_and-lanes d c b a high high high high ha hb hc hh hh hh
          ∙ omega (arith, (fit a ha).0, (fit b hb).0, (fit c hc).0, (fit d hd).0)
          ∙ scaled_lanes (2 ^ s) (bit_and d high / 2 ^ s) (bit_and c high / 2 ^ s)
              (bit_and b high / 2 ^ s) (bit_and a high / 2 ^ s))
      ∙ exact_div s (
          lanes (bit_and d high / 2 ^ s) (bit_and c high / 2 ^ s) (bit_and b high / 2 ^ s)
            (bit_and a high / 2 ^ s))

  pub pairs-lanes :
      pairs s (lanes high high high high) (lanes low low low low) (lanes d c b a)
      ≡ lanes
          (pairs_byte s high low d)
          (pairs_byte s high low c)
          (pairs_byte s high low b)
          (pairs_byte s high low a)
  pairs-lanes = omega (
    arith,
    high_lanes,
    bit_and-lanes d c b a low low low low ha hb hc hl hl hl,
    (fit a ha).1,
    (fit b hb).1,
    (fit c hc).1,
    (fit d hd).1,
  )

-- The test of `Fits` that can be run over all bytes.
abbrev fits : ℕ → ℕ → ℕ → ℕ → Bool
fits s high low x =
    bit_and x high == bit_and x high / 2 ^ s * 2 ^ s && ltb (pairs_byte s high low x) 256

fits_sound :
    (s high low : ℕ)
    → all_below 256 (fits s high low) ≡ true
    → (x : ℕ) → x < 256
    → Fits s high low x
fits_sound s high low h x hx =
    let p = all_below_sound 256 (fits s high low) x h hx in (ground arith, ground arith)

pub Fits-ones : (x : ℕ) → x < 256 → Fits 1 0xaa 0x55 x
unfolding all_below
Fits-ones = fits_sound 1 0xaa 0x55 refl

pub Fits-twos : (x : ℕ) → x < 256 → Fits 2 0xcc 0x33 x
unfolding all_below
Fits-twos = fits_sound 2 0xcc 0x33 refl

pub Fits-fours : (x : ℕ) → x < 256 → Fits 4 0xf0 0x0f x
unfolding all_below
Fits-fours = fits_sound 4 0xf0 0x0f refl

-- Three lines count the ones of each byte.
abbrev pub counted : ℕ → ℕ
counted x = pairs_byte 4 0xf0 0x0f (pairs_byte 2 0xcc 0x33 (pairs_byte 1 0xaa 0x55 x))

counted_table : all_below 256 (λ x. counted x == population 8 x && ltb (counted x) 9) ≡ true
unfolding all_below population
counted_table = refl

pub counted-population : (x : ℕ) → x < 256 → (counted x ≡ population 8 x) × (counted x < 9)
counted-population x h =
    let p =
      all_below_sound 256 (λ x. counted x == population 8 x && ltb (counted x) 9) x counted_table
        h in
    (ground arith, ground arith)

module _ (d c b a : ℕ) (ha : a < 9) (hb : b < 9) (hc : c < 9) (hd : d < 9) where
  pub bytes_pairs : pairs 8 0xff00ff00 0x00ff00ff (lanes d c b a) ≡ lanes 0 (d + c) 0 (b + a)
  bytes_pairs = omega (
    arith,
    bit_and-lanes d c b a 0xff 0 0xff 0 (omega arith) (omega arith) (omega arith) (omega arith)
        (omega arith) (omega arith),
    bit_and-lanes d c b a 0 0xff 0 0xff (omega arith) (omega arith) (omega arith) (omega arith)
        (omega arith) (omega arith),
    bit_and-ones 8 a,
    bit_and-ones 8 b,
    bit_and-ones 8 c,
    bit_and-ones 8 d,
    bit_and-zero a,
    bit_and-zero b,
    bit_and-zero c,
    bit_and-zero d,
  )

pub halves_pairs :
    (c a : ℕ) → c < 17 → a < 17 → pairs 16 0xffff0000 0x0000ffff (lanes 0 c 0 a) ≡ c + a
halves_pairs c a hc ha = omega (
  arith,
  bit_and-lanes 0 c 0 a 0xff 0xff 0 0 (omega arith) (omega arith) (omega arith) (omega arith)
      (omega arith) (omega arith),
  bit_and-lanes 0 c 0 a 0 0 0xff 0xff (omega arith) (omega arith) (omega arith) (omega arith)
      (omega arith) (omega arith),
  bit_and-ones 8 a,
  bit_and-ones 8 c,
  bit_and-zero a,
  bit_and-zero c,
)
