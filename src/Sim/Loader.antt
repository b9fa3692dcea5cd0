-- ===== src/Sim/Loader.antt =====
-- sim/loader.cpp: the instruction that the loader writes at the initial PC.
pub mod Files
pub mod Image
pub mod Boot
pub mod Start
use veri_cross.Base.{ℕ, ◌+◌, ◌*◌, ◌/◌, ◌%◌, ◌^◌, ◌<◌, ◌≡◌, refl, ap, ◌∙◌, arith}
use veri_cross.Base.{bit_and, bit_or}
use veri_cross.Bits.{bit_and-ones, bit_and-field, bit_or-disjoint, disjoint-bit_or}
use veri_cross.Sim.Common.{u32, add32, sub32, initial_pc}
use veri_cross.Sim.Riscv.{jal, reg_zero, fmt_j, log_rd, opr_rdnpc}
use veri_cross.Sim.Riscv.Imm.{bits, sext, get_imm, imm_of_j-eq}
use veri_cross.Sim.Riscv.Decode.{decode, identify, opcode, decode_op}

unfoldable pub make_jal : ℕ → ℕ
make_jal imm =
    bit_or
      (bit_or
        (bit_or
          (bit_or (bit_and (u32 (imm * 2 ^ 20)) 0x7fe00000)
            (bit_and (u32 (imm * 2 ^ 9)) 0x00100000))
          (bit_and imm 0x000ff000))
        (bit_and (u32 (imm * 2 ^ 11)) 0x80000000))
      0x0000006f

module _ (imm : ℕ) (h : imm < 2 ^ 32) where
  -- The word by its fields.
  make_jal-eq :
      make_jal imm
      ≡ bits imm 20 1 * 2 ^ 31
        + bits imm 1 10 * 2 ^ 21
        + bits imm 11 1 * 2 ^ 20
        + bits imm 12 8 * 2 ^ 12
        + 0x6f
  unfolding make_jal
  make_jal-eq = ground (
    arith,
    bit_and-field 21 10 (u32 (imm * 2 ^ 20)),
    bit_and-field 20 1 (u32 (imm * 2 ^ 9)),
    bit_and-field 12 8 imm,
    bit_and-field 31 1 (u32 (imm * 2 ^ 11)),
    bit_or-disjoint 21 (bits imm 1 10) (bits imm 11 1 * 2 ^ 20),
    bit_or-disjoint 20 (bits imm 1 10 * 2 + bits imm 11 1) (bits imm 12 8 * 2 ^ 12),
    disjoint-bit_or 31 (bits imm 20 1)
        (bits imm 1 10 * 2 ^ 21 + bits imm 11 1 * 2 ^ 20 + bits imm 12 8 * 2 ^ 12),
    bit_or-disjoint 12
        (bits imm 20 1 * 2 ^ 19 + bits imm 1 10 * 2 ^ 9 + bits imm 11 1 * 2 ^ 8 + bits imm 12 8)
        0x6f,
  )

  fields-make_jal :
      (make_jal imm < 2 ^ 32)
      × (opcode (make_jal imm) ≡ 0b11011)
      × (bit_and (make_jal imm) 0x3 ≡ 0x3)
      × (bit_and (make_jal imm / 2 ^ 7) 0x1f ≡ 0)
  fields-make_jal = omega (
    arith,
    make_jal-eq,
    bit_and-ones 5 (make_jal imm / 2 ^ 2),
    bit_and-ones 2 (make_jal imm),
    bit_and-ones 5 (make_jal imm / 2 ^ 7),
  )

  offset :
      (w : ℕ)
      → w < 2 ^ 32
      → get_imm (bit_or (bit_or fmt_j log_rd) opr_rdnpc) w
        ≡ sext 21
            (bits w 31 1 * 2 ^ 20 + bits w 12 8 * 2 ^ 12 + bits w 20 1 * 2 ^ 11 + bits w 21 10 * 2)
  unfolding get_imm
  offset w hw = imm_of_j-eq w hw

  jump_offset :
      get_imm (bit_or (bit_or fmt_j log_rd) opr_rdnpc) (make_jal imm)
      ≡ sext 21 (imm % 2 ^ 21 / 2 * 2)
  jump_offset = offset (make_jal imm) fields-make_jal.0 ∙ ap (sext 21) same_bits
    where
      same_bits :
          bits (make_jal imm) 31 1 * 2 ^ 20
            + bits (make_jal imm) 12 8 * 2 ^ 12
            + bits (make_jal imm) 20 1 * 2 ^ 11
            + bits (make_jal imm) 21 10 * 2
          ≡ imm % 2 ^ 21 / 2 * 2
      same_bits = omega (arith, make_jal-eq)

  -- The decoder reads the word as a jump that writes no register, by the offset's low 21 bits.
  pub decode-make_jal :
      (pc : ℕ)
      → ((decode pc (make_jal imm)).instr_id ≡ jal)
        × ((decode pc (make_jal imm)).rd ≡ reg_zero)
        × ((decode pc (make_jal imm)).npc ≡ add32 pc (sext 21 (imm % 2 ^ 21 / 2 * 2)))
  unfolding decode identify
  decode-make_jal pc = (
    rw (fields-make_jal.2, fields-make_jal.1) (unfold decode_op in refl),
    rw fields-make_jal.2 fields-make_jal.3,
    rw (fields-make_jal.2, fields-make_jal.1) (unfold decode_op in ap (add32 pc) jump_offset),
  )

-- For an even entry point less than a mebibyte above the initial PC, the word that `make_jal`
-- gives for its distance is decoded at the initial PC as `jal`, with register 0 as the destination
-- and the entry point as the target.
pub make_jal-start :
    (start : ℕ)
    → start < 2 ^ 32
    → start % 2 ≡ 0
    → start < initial_pc + 2 ^ 20
    → let inst = decode initial_pc (make_jal (sub32 start initial_pc)) in
      (inst.instr_id ≡ jal) × (inst.rd ≡ reg_zero) × (inst.npc ≡ start)
make_jal-start start h even near =
    let decoded = decode-make_jal (sub32 start initial_pc) (omega arith) initial_pc in
    (decoded.0, decoded.1, decoded.2 ∙ ground arith)
