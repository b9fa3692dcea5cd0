-- ===== src/Sim/Riscv/Decode.antt =====
-- The constructor of `RiscVInstruction` in sim/riscv.cpp.
use veri_cross.Base.{ℕ, ◌/◌, ◌^◌, ◌≡◌, refl, Bool-cases, inl, inr, bit_and, bit_or}
use veri_cross.Base.{Bool, ◌==◌, if◌then◌else◌}
use veri_cross.Sim.Common.{add32, test}
use veri_cross.Sim.Riscv.{
  Inst, unknown, lui, auipc, jal, jalr, beq, bne, blt, bge, bltu, bgeu, lb, lh, lw, lbu, lhu, sb,
  sh, sw, addi, slli, slti, sltiu, xori, srli, srai, ori, andi, add, sub, sll, slt, sltu, xor, srl,
  sra, or, and, fence, fencei, ecall, ebreak, mret, wfi, csrrw, csrrs, csrrc, csrrwi, csrrsi,
  csrrci, RiscVInstruction, fmt_r, fmt_i, fmt_s, fmt_b, fmt_u, fmt_j, log_none, log_rd, log_ld1b,
  log_ld2b, log_ld4b, log_ldsgn, log_st1b, log_st2b, log_st4b, opr_none, opr_rdrs1rs2, opr_rdrs1imm,
  opr_rdrs1shamt, opr_rdimm, opr_rdoffrs1, opr_rs2offrs1, opr_rs1rs2npc, opr_rdnpc, opr_predsucc,
  opr_rdcsrrs1, opr_rdcsrzimm,
}
use veri_cross.Sim.Riscv.Imm.{get_imm}

abbrev or3 : ℕ → ℕ → ℕ → ℕ
or3 a b c = bit_or (bit_or a b) c

-- The cases of `switch (OP)`, each with the identifier and the attributes.
decode_branch : ℕ → Inst × ℕ
decode_branch funct3 = (
  if funct3 == 0b000
      then beq
      else if funct3 == 0b001
      then bne
      else if funct3 == 0b100
      then blt
      else if funct3 == 0b101
      then bge
      else if funct3 == 0b110
      then bltu
      else if funct3 == 0b111
      then bgeu
      else unknown,
  or3 fmt_b log_none opr_rs1rs2npc,
)

load_size : ℕ → Inst × ℕ
load_size funct3 =
    if funct3 == 0b000
    then (lb, bit_or log_ld1b log_ldsgn)
    else if funct3 == 0b001
    then (lh, bit_or log_ld2b log_ldsgn)
    else if funct3 == 0b010
    then (lw, log_ld4b)
    else if funct3 == 0b100
    then (lbu, log_ld1b)
    else if funct3 == 0b101
    then (lhu, log_ld2b)
    else (unknown, 0)

decode_load : ℕ → Inst × ℕ
decode_load funct3 =
    let (id, attr) = load_size funct3 in (id, bit_or (or3 attr fmt_i log_rd) opr_rdoffrs1)

store_size : ℕ → Inst × ℕ
store_size funct3 =
    if funct3 == 0b000
    then (sb, log_st1b)
    else if funct3 == 0b001
    then (sh, log_st2b)
    else if funct3 == 0b010
    then (sw, log_st4b)
    else (unknown, 0)

decode_store : ℕ → Inst × ℕ
decode_store funct3 = let (id, attr) = store_size funct3 in (id, or3 attr fmt_s opr_rs2offrs1)

abbrev imm_attr : ℕ
imm_attr = or3 fmt_i log_rd opr_rdrs1imm

abbrev shamt_attr : ℕ
shamt_attr = or3 fmt_i log_rd opr_rdrs1shamt

-- `alt` is the test `funct7 & 0b0100000`.
decode_imm : ℕ → Bool → Inst × ℕ
decode_imm funct3 alt =
    if funct3 == 0b000
    then (addi, imm_attr)
    else if funct3 == 0b001
    then (slli, shamt_attr)
    else if funct3 == 0b010
    then (slti, imm_attr)
    else if funct3 == 0b011
    then (sltiu, imm_attr)
    else if funct3 == 0b100
    then (xori, imm_attr)
    else if funct3 == 0b101
    then ((if alt then srai else srli), shamt_attr)
    else if funct3 == 0b110
    then (ori, imm_attr)
    else if funct3 == 0b111
    then (andi, imm_attr)
    else (unknown, 0)

decode_reg : ℕ → Bool → Inst × ℕ
decode_reg funct3 alt = (
  if funct3 == 0b000
      then (if alt then sub else add)
      else if funct3 == 0b001
      then sll
      else if funct3 == 0b010
      then slt
      else if funct3 == 0b011
      then sltu
      else if funct3 == 0b100
      then xor
      else if funct3 == 0b101
      then (if alt then sra else srl)
      else if funct3 == 0b110
      then or
      else if funct3 == 0b111
      then and
      else unknown,
  or3 fmt_r log_rd opr_rdrs1rs2,
)

decode_misc : ℕ → Inst × ℕ
decode_misc funct3 =
    if funct3 == 0b000
    then (fence, or3 fmt_i log_none opr_predsucc)
    else if funct3 == 0b001
    then (fencei, or3 fmt_i log_none opr_none)
    else (unknown, 0)

unfoldable pub system_id : ℕ → Inst
system_id imm_i =
    if imm_i == 0x000
    then ecall
    else if imm_i == 0x001
    then ebreak
    else if imm_i == 0x302
    then mret
    else if imm_i == 0x105
    then wfi
    else unknown

abbrev csr_attr : ℕ
csr_attr = or3 fmt_i log_rd opr_rdcsrrs1

abbrev zimm_attr : ℕ
zimm_attr = or3 fmt_i log_rd opr_rdcsrzimm

decode_system : ℕ → Inst → Inst × ℕ
decode_system funct3 id =
    if funct3 == 0b000
    then (id, or3 fmt_i log_none opr_none)
    else if funct3 == 0b001
    then (csrrw, csr_attr)
    else if funct3 == 0b010
    then (csrrs, csr_attr)
    else if funct3 == 0b011
    then (csrrc, csr_attr)
    else if funct3 == 0b101
    then (csrrwi, zimm_attr)
    else if funct3 == 0b110
    then (csrrsi, zimm_attr)
    else if funct3 == 0b111
    then (csrrci, zimm_attr)
    else (unknown, 0)

-- `switch (OP)`. `id` is what the system case with `funct3 == 0` makes of `imm_i`.
unfoldable pub decode_op : ℕ → ℕ → Bool → Inst → Inst × ℕ
unfolding decode_branch load_size decode_load store_size decode_store decode_imm decode_reg
    decode_misc decode_system
decode_op op funct3 alt id =
    if op == 0b01101
    then (lui, or3 fmt_u log_rd opr_rdimm)
    else if op == 0b00101
    then (auipc, or3 fmt_u log_rd opr_rdimm)
    else if op == 0b11011
    then (jal, or3 fmt_j log_rd opr_rdnpc)
    else if op == 0b11001
    then (jalr, or3 fmt_i log_rd opr_rdoffrs1)
    else if op == 0b11000
    then decode_branch funct3
    else if op == 0b00000
    then decode_load funct3
    else if op == 0b01000
    then decode_store funct3
    else if op == 0b00100
    then decode_imm funct3 alt
    else if op == 0b01100
    then decode_reg funct3 alt
    else if op == 0b00011
    then decode_misc funct3
    else if op == 0b11100
    then decode_system funct3 id
    else (unknown, 0)

-- The fields that the constructor cuts out of the word.
abbrev pub opcode : ℕ → ℕ
opcode ir = bit_and (ir / 2 ^ 2) 0x1f

abbrev pub funct3 : ℕ → ℕ
funct3 ir = bit_and (ir / 2 ^ 12) 0x07

abbrev pub funct7 : ℕ → ℕ
funct7 ir = bit_and (ir / 2 ^ 25) 0x7f

abbrev pub imm_i : ℕ → ℕ
imm_i ir = bit_and (ir / 2 ^ 20) 0xfff

unfoldable pub identify : ℕ → Inst × ℕ
unfolding system_id
identify ir =
    decode_op (opcode ir) (funct3 ir) (test (bit_and (funct7 ir) 0b0100000)) (system_id (imm_i ir))

-- A word that is no 32-bit instruction leaves the initial values.
short : ℕ → ℕ → RiscVInstruction
short pc ir = record {
  instr_id = unknown;
  attr = 0;
  pc = pc;
  ir = ir;
  imm = 0;
  rs1 = 0;
  rs2 = 0;
  rd = 0;
  shamt = 0;
  pred = 0;
  succ = 0;
  zimm = 0;
  csr = 0;
  npc = 0;
}

operands : Inst → ℕ → ℕ → ℕ → RiscVInstruction
operands id attr pc ir = record {
  instr_id = id;
  attr = attr;
  pc = pc;
  ir = ir;
  imm = get_imm attr ir;
  rs1 = bit_and (ir / 2 ^ 15) 0x1f;
  rs2 = bit_and (ir / 2 ^ 20) 0x1f;
  rd = bit_and (ir / 2 ^ 7) 0x1f;
  shamt = bit_and (ir / 2 ^ 20) 0x1f;
  pred = bit_and (ir / 2 ^ 24) 0x0f;
  succ = bit_and (ir / 2 ^ 20) 0x0f;
  zimm = bit_and (ir / 2 ^ 15) 0x1f;
  csr = bit_and (ir / 2 ^ 20) 0xfff;
  npc = add32 pc (get_imm attr ir);
}

-- The constructor.
unfoldable pub decode : ℕ → ℕ → RiscVInstruction
unfolding short operands
decode pc ir =
    let (id, attr) = identify ir in
    if bit_and ir 0x3 == 0x3 then operands id attr pc ir else short pc ir

-- The constructor keeps its arguments.
pub decode_word : (pc ir : ℕ) → ((decode pc ir).pc ≡ pc) × ((decode pc ir).ir ≡ ir)
unfolding decode
decode_word pc ir = elim (Bool-cases (bit_and ir 0x3 == 0x3)) [
  | inl e ↦ rw e (refl, refl)
  | inr e ↦ rw e (refl, refl)
]
