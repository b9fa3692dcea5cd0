-- ===== src/Bits/Lanes.antt =====
-- A 32-bit word as its four bytes.
use veri_cross.Base.{ℕ, ◌+◌, ◌*◌, ◌/◌, ◌%◌, ◌^◌, ◌<◌, ◌≡◌, arith}
use veri_cross.Base.{bit_and, bit_or}
use veri_cross.Bits.Split.{bit_and-split, bit_or-split}

abbrev pub lanes : ℕ → ℕ → ℕ → ℕ → ℕ
lanes d c b a = ((d * 2 ^ 8 + c) * 2 ^ 8 + b) * 2 ^ 8 + a

-- Byte `i` of a word.
abbrev pub byte : ℕ → ℕ → ℕ
byte w i = w / 256 ^ i % 256

pub lanes-byte : (w : ℕ) → w < 2 ^ 32 → lanes (byte w 3) (byte w 2) (byte w 1) (byte w 0) ≡ w
lanes-byte w h = omega arith

module _ (d c b a d' c' b' a' : ℕ) (ha : a < 256) (hb : b < 256) (hc : c < 256) (ha' : a' < 256)
    (hb' : b' < 256) (hc' : c' < 256) where
  pub bit_and-lanes :
      bit_and (lanes d c b a) (lanes d' c' b' a')
      ≡ lanes (bit_and d d') (bit_and c c') (bit_and b b') (bit_and a a')
  bit_and-lanes = omega (
    arith,
    bit_and-split 8 ((d * 2 ^ 8 + c) * 2 ^ 8 + b) ((d' * 2 ^ 8 + c') * 2 ^ 8 + b') a a' ha ha',
    bit_and-split 8 (d * 2 ^ 8 + c) (d' * 2 ^ 8 + c') b b' hb hb',
    bit_and-split 8 d d' c c' hc hc',
  )

  pub bit_or-lanes :
      bit_or (lanes d c b a) (lanes d' c' b' a')
      ≡ lanes (bit_or d d') (bit_or c c') (bit_or b b') (bit_or a a')
  bit_or-lanes = omega (
    arith,
    bit_or-split 8 ((d * 2 ^ 8 + c) * 2 ^ 8 + b) ((d' * 2 ^ 8 + c') * 2 ^ 8 + b') a a' ha ha',
    bit_or-split 8 (d * 2 ^ 8 + c) (d' * 2 ^ 8 + c') b b' hb hb',
    bit_or-split 8 d d' c c' hc hc',
  )
