-- ===== src/Sim/Riscv/Isa.antt =====
-- What the RV32I manual says of each instruction, for comparison with the decoder's tables: its
-- format, and whether it loads, stores or writes a register.
use veri_cross.Base.{ℕ, ◌+◌, ◌*◌, ◌^◌, Bool, true, false}
use veri_cross.Sim.Riscv.{
  Inst, unknown, lui, auipc, jal, beq, bne, blt, bge, bltu, bgeu, lb, lh, lw, lbu, lhu, sb, sh, sw,
  add, sub, sll, slt, sltu, xor, srl, sra, or, and, fence, fencei, ecall, ebreak, mret, wfi,
}
use veri_cross.Sim.Riscv.Imm.{bits, sext}

pub data Format : Type 0 where
  r i s b u j : Format

unfoldable pub format_of : Inst → Format
format_of lui = Format.u
format_of auipc = Format.u
format_of jal = Format.j
format_of beq = Format.b
format_of bne = Format.b
format_of blt = Format.b
format_of bge = Format.b
format_of bltu = Format.b
format_of bgeu = Format.b
format_of sb = Format.s
format_of sh = Format.s
format_of sw = Format.s
format_of add = Format.r
format_of sub = Format.r
format_of sll = Format.r
format_of slt = Format.r
format_of sltu = Format.r
format_of xor = Format.r
format_of srl = Format.r
format_of sra = Format.r
format_of or = Format.r
format_of and = Format.r
format_of _ = Format.i

-- The immediate of a word, by the position of its bits.
unfoldable pub immediate : Format → ℕ → ℕ
immediate Format.r ir = 0
immediate Format.i ir = sext 12 (bits ir 20 12)
immediate Format.s ir = sext 12 (bits ir 25 7 * 2 ^ 5 + bits ir 7 5)
immediate Format.b ir =
    sext 13 (bits ir 31 1 * 2 ^ 12 + bits ir 7 1 * 2 ^ 11 + bits ir 25 6 * 2 ^ 5 + bits ir 8 4 * 2)
immediate Format.u ir = bits ir 12 20 * 2 ^ 12
immediate Format.j ir =
    sext 21
      (bits ir 31 1 * 2 ^ 20 + bits ir 12 8 * 2 ^ 12 + bits ir 20 1 * 2 ^ 11 + bits ir 21 10 * 2)

abbrev pub is_known : Inst → Bool
is_known unknown = false
is_known _ = true

abbrev pub is_load : Inst → Bool
is_load lb = true
is_load lh = true
is_load lw = true
is_load lbu = true
is_load lhu = true
is_load _ = false

abbrev pub is_store : Inst → Bool
is_store sb = true
is_store sh = true
is_store sw = true
is_store _ = false

abbrev pub writes_rd : Inst → Bool
writes_rd unknown = false
writes_rd beq = false
writes_rd bne = false
writes_rd blt = false
writes_rd bge = false
writes_rd bltu = false
writes_rd bgeu = false
writes_rd sb = false
writes_rd sh = false
writes_rd sw = false
writes_rd fence = false
writes_rd fencei = false
writes_rd ecall = false
writes_rd ebreak = false
writes_rd mret = false
writes_rd wfi = false
writes_rd _ = true
