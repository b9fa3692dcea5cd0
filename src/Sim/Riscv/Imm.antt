-- ===== src/Sim/Riscv/Imm.antt =====
-- `RiscVInstruction::get_imm` in sim/riscv.cpp, and the immediates of the instruction formats
-- described by their bit positions.
use veri_cross.Base.{ℕ, ◌+◌, ◌-◌, ◌*◌, ◌/◌, ◌%◌, ◌^◌, ◌<◌, ◌≡◌, arith, bit_and, bit_or}
use veri_cross.Base.{◌==◌, ltb, if◌then◌else◌}
use veri_cross.Bits.{bit_and-ones, bit_and-field, bit_or-disjoint, zero-bit_or}
use veri_cross.Sim.Common.{test, u32}
use veri_cross.Sim.Riscv.{fmt_mask, fmt_i, fmt_s, fmt_b, fmt_u, fmt_j}

abbrev sign : ℕ → ℕ → ℕ
sign ir ext = if test (bit_and ir 0x80000000) then ext else 0

pub imm_of_i : ℕ → ℕ
imm_of_i ir = bit_or (sign ir 0xfffff000) (bit_and (ir / 2 ^ 20) 0x00000fff)

pub imm_of_s : ℕ → ℕ
imm_of_s ir =
    bit_or (bit_or (sign ir 0xfffff000) (bit_and (ir / 2 ^ 20) 0x00000fe0))
      (bit_and (ir / 2 ^ 7) 0x0000001f)

pub imm_of_b : ℕ → ℕ
imm_of_b ir =
    bit_or
      (bit_or (bit_or (sign ir 0xfffff000) (bit_and (u32 (ir * 2 ^ 4)) 0x00000800))
        (bit_and (ir / 2 ^ 20) 0x000007e0))
      (bit_and (ir / 2 ^ 7) 0x0000001e)

pub imm_of_j : ℕ → ℕ
imm_of_j ir =
    bit_or
      (bit_or (bit_or (sign ir 0xfff00000) (bit_and ir 0x000ff000))
        (bit_and (ir / 2 ^ 9) 0x00000800))
      (bit_and (ir / 2 ^ 20) 0x000007fe)

unfoldable pub get_imm : ℕ → ℕ → ℕ
unfolding imm_of_i imm_of_s imm_of_b imm_of_j
get_imm attr ir =
    let fmt = bit_and attr fmt_mask in
    if fmt == fmt_i
    then imm_of_i ir
    else if fmt == fmt_s
    then imm_of_s ir
    else if fmt == fmt_b
    then imm_of_b ir
    else if fmt == fmt_u
    then bit_and ir 0xfffff000
    else if fmt == fmt_j
    then imm_of_j ir
    else 0

-- The `n`-bit two's complement number `v` in 32 bits.
abbrev pub sext : ℕ → ℕ → ℕ
sext n v = if ltb v (2 ^ (n - 1)) then v else v + 2 ^ 32 - 2 ^ n

-- The bits `lo` to `lo + n - 1` of a word.
abbrev pub bits : ℕ → ℕ → ℕ → ℕ
bits ir lo n = ir / 2 ^ lo % 2 ^ n

module _ (ir : ℕ) (h : ir < 2 ^ 32) where
  pub imm_of_i-eq : imm_of_i ir ≡ sext 12 (bits ir 20 12)
  unfolding imm_of_i
  imm_of_i-eq = ground (
    arith,
    bit_and-field 31 1 ir,
    bit_and-ones 12 (ir / 2 ^ 20),
    bit_or-disjoint 12 0xfffff (ir / 2 ^ 20 % 2 ^ 12),
    zero-bit_or (ir / 2 ^ 20 % 2 ^ 12),
  )

  pub imm_of_s-eq : imm_of_s ir ≡ sext 12 (bits ir 25 7 * 2 ^ 5 + bits ir 7 5)
  unfolding imm_of_s
  imm_of_s-eq = ground (
    arith,
    bit_and-field 31 1 ir,
    bit_and-field 5 7 (ir / 2 ^ 20),
    bit_and-ones 5 (ir / 2 ^ 7),
    bit_or-disjoint 12 0xfffff (ir / 2 ^ 20 / 2 ^ 5 % 2 ^ 7 * 2 ^ 5),
    zero-bit_or (ir / 2 ^ 20 / 2 ^ 5 % 2 ^ 7 * 2 ^ 5),
    bit_or-disjoint 5 (0xfffff * 2 ^ 7 + ir / 2 ^ 20 / 2 ^ 5 % 2 ^ 7) (ir / 2 ^ 7 % 2 ^ 5),
    bit_or-disjoint 5 (ir / 2 ^ 20 / 2 ^ 5 % 2 ^ 7) (ir / 2 ^ 7 % 2 ^ 5),
  )

  pub imm_of_b-eq :
      imm_of_b ir
      ≡ sext 13
          (bits ir 31 1 * 2 ^ 12 + bits ir 7 1 * 2 ^ 11 + bits ir 25 6 * 2 ^ 5 + bits ir 8 4 * 2)
  unfolding imm_of_b
  imm_of_b-eq = ground (
    arith,
    bit_and-field 31 1 ir,
    bit_and-field 11 1 (u32 (ir * 2 ^ 4)),
    bit_and-field 5 6 (ir / 2 ^ 20),
    bit_and-field 1 4 (ir / 2 ^ 7),
    bit_or-disjoint 12 0xfffff (bits ir 7 1 * 2 ^ 11),
    zero-bit_or (bits ir 7 1 * 2 ^ 11),
    bit_or-disjoint 11 (0xfffff * 2 + bits ir 7 1) (bits ir 25 6 * 2 ^ 5),
    bit_or-disjoint 11 (bits ir 7 1) (bits ir 25 6 * 2 ^ 5),
    bit_or-disjoint 5 ((0xfffff * 2 + bits ir 7 1) * 2 ^ 6 + bits ir 25 6) (bits ir 8 4 * 2),
    bit_or-disjoint 5 (bits ir 7 1 * 2 ^ 6 + bits ir 25 6) (bits ir 8 4 * 2),
  )

  pub imm_of_j-eq :
      imm_of_j ir
      ≡ sext 21 (
          bits ir 31 1 * 2 ^ 20 + bits ir 12 8 * 2 ^ 12 + bits ir 20 1 * 2 ^ 11 + bits ir 21 10 * 2)
  unfolding imm_of_j
  imm_of_j-eq = ground (
    arith,
    bit_and-field 31 1 ir,
    bit_and-field 12 8 ir,
    bit_and-field 11 1 (ir / 2 ^ 9),
    bit_and-field 1 10 (ir / 2 ^ 20),
    bit_or-disjoint 20 0xfff (bits ir 12 8 * 2 ^ 12),
    zero-bit_or (bits ir 12 8 * 2 ^ 12),
    bit_or-disjoint 12 (0xfff * 2 ^ 8 + bits ir 12 8) (bits ir 20 1 * 2 ^ 11),
    bit_or-disjoint 12 (bits ir 12 8) (bits ir 20 1 * 2 ^ 11),
    bit_or-disjoint 11 ((0xfff * 2 ^ 8 + bits ir 12 8) * 2 + bits ir 20 1) (bits ir 21 10 * 2),
    bit_or-disjoint 11 (bits ir 12 8 * 2 + bits ir 20 1) (bits ir 21 10 * 2),
  )

  pub imm_of_u-eq : bit_and ir 0xfffff000 ≡ bits ir 12 20 * 2 ^ 12
  imm_of_u-eq = bit_and-field 12 20 ir
