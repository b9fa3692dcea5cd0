-- ===== src/Sim/Riscv.antt =====
-- sim/riscv.hpp: the instruction identifiers, the attribute flags and the register names. An
-- `int32_t` operand is kept as its bit pattern.
pub mod Decode
pub mod Imm
pub mod Isa
pub mod Flags
pub mod Table
pub mod Log
use veri_cross.Base.{ℕ}

pub data Inst : Type 0 where
  unknown lui auipc jal jalr beq bne blt bge bltu bgeu : Inst
  lb lh lw lbu lhu sb sh sw : Inst
  addi slli slti sltiu xori srli srai ori andi : Inst
  add sub sll slt sltu xor srl sra or and : Inst
  fence fencei ecall ebreak mret wfi : Inst
  csrrw csrrs csrrc csrrwi csrrsi csrrci : Inst

-- `class RiscVInstruction`, less the name, which only the textual log uses.
pub record RiscVInstruction : Type 0 where
  pub instr_id : Inst
  pub attr : ℕ
  pub pc : ℕ
  pub ir : ℕ
  pub imm : ℕ
  pub rs1 : ℕ
  pub rs2 : ℕ
  pub rd : ℕ
  pub shamt : ℕ
  pub pred : ℕ
  pub succ : ℕ
  pub zimm : ℕ
  pub csr : ℕ
  pub npc : ℕ

abbrev pub fmt_mask : ℕ
fmt_mask = 0x0007

abbrev pub fmt_r : ℕ
fmt_r = 0x0000

abbrev pub fmt_i : ℕ
fmt_i = 0x0001

abbrev pub fmt_s : ℕ
fmt_s = 0x0002

abbrev pub fmt_b : ℕ
fmt_b = 0x0003

abbrev pub fmt_u : ℕ
fmt_u = 0x0004

abbrev pub fmt_j : ℕ
fmt_j = 0x0005

abbrev pub log_mask : ℕ
log_mask = 0x01f8

abbrev pub log_none : ℕ
log_none = 0x0000

abbrev pub log_rd : ℕ
log_rd = 0x0008

abbrev pub log_load : ℕ
log_load = 0x0030

abbrev pub log_ld1b : ℕ
log_ld1b = 0x0010

abbrev pub log_ld2b : ℕ
log_ld2b = 0x0020

abbrev pub log_ld4b : ℕ
log_ld4b = 0x0030

abbrev pub log_ldsgn : ℕ
log_ldsgn = 0x0040

abbrev pub log_store : ℕ
log_store = 0x0180

abbrev pub log_st1b : ℕ
log_st1b = 0x0080

abbrev pub log_st2b : ℕ
log_st2b = 0x0100

abbrev pub log_st4b : ℕ
log_st4b = 0x0180

abbrev pub opr_mask : ℕ
opr_mask = 0x1e00

abbrev pub opr_none : ℕ
opr_none = 0x0000

abbrev pub opr_rdrs1rs2 : ℕ
opr_rdrs1rs2 = 0x0200

abbrev pub opr_rdrs1imm : ℕ
opr_rdrs1imm = 0x0400

abbrev pub opr_rdrs1shamt : ℕ
opr_rdrs1shamt = 0x0600

abbrev pub opr_rdimm : ℕ
opr_rdimm = 0x0800

abbrev pub opr_rdoffrs1 : ℕ
opr_rdoffrs1 = 0x0a00

abbrev pub opr_rs2offrs1 : ℕ
opr_rs2offrs1 = 0x0c00

abbrev pub opr_rs1rs2npc : ℕ
opr_rs1rs2npc = 0x0e00

abbrev pub opr_rdnpc : ℕ
opr_rdnpc = 0x1000

abbrev pub opr_predsucc : ℕ
opr_predsucc = 0x1200

abbrev pub opr_rdcsrrs1 : ℕ
opr_rdcsrrs1 = 0x1400

abbrev pub opr_rdcsrzimm : ℕ
opr_rdcsrzimm = 0x1600

-- The register names that the simulator uses.
abbrev pub reg_zero : ℕ
reg_zero = 0

abbrev pub reg_sp : ℕ
reg_sp = 2

abbrev pub reg_a0 : ℕ
reg_a0 = 10

abbrev pub reg_a1 : ℕ
reg_a1 = 11

abbrev pub reg_a2 : ℕ
reg_a2 = 12

abbrev pub reg_a7 : ℕ
reg_a7 = 17
