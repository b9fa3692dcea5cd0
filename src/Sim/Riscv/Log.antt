-- ===== src/Sim/Riscv/Log.antt =====
-- `class RiscVLogInfo` of sim/riscv.cpp: the lines of the instruction log. A call of `std::format`
-- is kept as its arguments, each with the format of its field.
pub mod Fields
pub mod Loads
pub mod Lines
use Prim.Native.String.{String}
use veri_cross.Base.{ℕ, ◌*◌, ◌/◌, ◌^◌, bit_and, bit_or, Bool, ◌==◌, ◌&&◌, leb, not, if◌then◌else◌}
use veri_cross.Base.{Option, none, some, List, [], ◌∷◌}
use veri_cross.Sim.Common.{CoreInstructionIf, test, expand_wmask}
use veri_cross.Sim.Memory.{Memory, merge}
use veri_cross.Sim.Memory.Bytes.{read, word_of}
use veri_cross.Sim.Riscv.{
  Inst, unknown, lui, auipc, jal, jalr, beq, bne, blt, bge, bltu, bgeu, lb, lh, lw, lbu, lhu, sb,
  sh, sw, addi, slli, slti, sltiu, xori, srli, srai, ori, andi, add, sub, sll, slt, sltu, xor, srl,
  sra, or, and, fence, fencei, ecall, ebreak, mret, wfi, csrrw, csrrs, csrrc, csrrwi, csrrsi,
  csrrci, RiscVInstruction, opr_mask, opr_none, opr_rdrs1rs2, opr_rdrs1imm, opr_rdrs1shamt,
  opr_rdimm, opr_rdoffrs1, opr_rs2offrs1, opr_rs1rs2npc, opr_rdnpc, opr_predsucc, opr_rdcsrrs1,
  opr_rdcsrzimm, log_rd, log_load, log_ld1b, log_ld2b, log_ldsgn, log_store,
}
use veri_cross.Sim.Riscv.Decode.{decode}

unfoldable pub instr_table : Inst → String
instr_table unknown = "???"
instr_table lui = "lui"
instr_table auipc = "auipc"
instr_table jal = "jal"
instr_table jalr = "jalr"
instr_table beq = "beq"
instr_table bne = "bne"
instr_table blt = "blt"
instr_table bge = "bge"
instr_table bltu = "bltu"
instr_table bgeu = "bgeu"
instr_table lb = "lb"
instr_table lh = "lh"
instr_table lw = "lw"
instr_table lbu = "lbu"
instr_table lhu = "lhu"
instr_table sb = "sb"
instr_table sh = "sh"
instr_table sw = "sw"
instr_table addi = "addi"
instr_table slli = "slli"
instr_table slti = "slti"
instr_table sltiu = "sltiu"
instr_table xori = "xori"
instr_table srli = "srli"
instr_table srai = "srai"
instr_table ori = "ori"
instr_table andi = "andi"
instr_table add = "add"
instr_table sub = "sub"
instr_table sll = "sll"
instr_table slt = "slt"
instr_table sltu = "sltu"
instr_table xor = "xor"
instr_table srl = "srl"
instr_table sra = "sra"
instr_table or = "or"
instr_table and = "and"
instr_table fence = "fence"
instr_table fencei = "fencei"
instr_table ecall = "ecall"
instr_table ebreak = "ebreak"
instr_table mret = "mret"
instr_table wfi = "wfi"
instr_table csrrw = "csrrw"
instr_table csrrs = "csrrs"
instr_table csrrc = "csrrc"
instr_table csrrwi = "csrrwi"
instr_table csrrsi = "csrrsi"
instr_table csrrci = "csrrci"

-- A field of a format: a padded name, a register, a decimal number, a decimal number that is the
-- bit pattern of an `int32_t`, and a hexadecimal number.
pub data Field : Type 0 where
  name : String → Field
  x_reg dec signed hex : ℕ → Field

-- `inst` is null for an instruction that is not valid.
pub record RiscVLogInfo : Type 0 where
  pub inst : Option RiscVInstruction
  pub iif : CoreInstructionIf
  pub mem_data : ℕ

-- The constructor. `unset` is what `mem_data` holds if the memory is not read.
unfoldable pub log_info : ℕ → CoreInstructionIf → Option Memory → RiscVLogInfo
log_info unset coreif mem =
    let inst = decode coreif.pc coreif.ir in
    record {
      inst = (if coreif.valid == 0 then none else some inst);
      iif = coreif;
      mem_data = elim mem [
        | none ↦ unset
        | some m ↦
            if not (coreif.valid == 0) && test (bit_and inst.attr (bit_or log_load log_store))
            then word_of (read m coreif.d_addr 4)
            else unset
      ];
    }

unfoldable pub get_mnemonic : RiscVInstruction → List Field
unfolding instr_table
get_mnemonic inst =
    let opr = bit_and inst.attr opr_mask in
    let mnemonic = name (instr_table inst.instr_id) in
    if opr == opr_none
    then mnemonic ∷ []
    else if opr == opr_rdrs1rs2
    then mnemonic ∷ x_reg inst.rd ∷ x_reg inst.rs1 ∷ x_reg inst.rs2 ∷ []
    else if opr == opr_rdrs1imm
    then mnemonic ∷ x_reg inst.rd ∷ x_reg inst.rs1 ∷ signed inst.imm ∷ []
    else if opr == opr_rdrs1shamt
    then mnemonic ∷ x_reg inst.rd ∷ x_reg inst.rs1 ∷ dec inst.shamt ∷ []
    else if opr == opr_rdimm
    then mnemonic ∷ x_reg inst.rd ∷ hex inst.imm ∷ []
    else if opr == opr_rdoffrs1
    then mnemonic ∷ x_reg inst.rd ∷ signed inst.imm ∷ x_reg inst.rs1 ∷ []
    else if opr == opr_rs2offrs1
    then mnemonic ∷ x_reg inst.rs2 ∷ signed inst.imm ∷ x_reg inst.rs1 ∷ []
    else if opr == opr_rs1rs2npc
    then mnemonic ∷ x_reg inst.rs1 ∷ x_reg inst.rs2 ∷ signed inst.imm ∷ hex inst.npc ∷ []
    else if opr == opr_rdnpc
    then mnemonic ∷ x_reg inst.rd ∷ signed inst.imm ∷ hex inst.npc ∷ []
    else if opr == opr_predsucc
    then mnemonic ∷ dec inst.pred ∷ dec inst.succ ∷ []
    else if opr == opr_rdcsrrs1
    then mnemonic ∷ x_reg inst.rd ∷ hex inst.csr ∷ x_reg inst.rs1 ∷ []
    else if opr == opr_rdcsrzimm
    then mnemonic ∷ x_reg inst.rd ∷ hex inst.csr ∷ hex inst.zimm ∷ []
    else name "???" ∷ []

-- `inst_str`
pub record InstStr : Type 0 where
  pub pc : ℕ
  pub ir : ℕ
  pub mnemonic : List Field

-- What `get_log` returns: an empty text, or a line with the change of a word of memory, with that
-- of a register, or with none. `null` is the use of a null `inst`, `undefined` a shift by the width
-- of the word or more.
pub data Line : Type 0 where
  empty null undefined : Line
  stores sets : InstStr → ℕ → ℕ → Line
  plain : InstStr → Line

-- The value of a load by the word, the byte address and the attributes.
unfoldable pub loaded : ℕ → ℕ → ℕ → ℕ
loaded attr mem_data baddr =
    let size = bit_and attr log_load in
    let mem_mask =
      (if size == log_ld1b then 0xff else if size == log_ld2b then 0xffff else 0xffffffff) in
    let result = bit_and (mem_data / 2 ^ (baddr * 8)) mem_mask in
    if test (bit_and attr log_ldsgn)
    then (let byte =
          (if test (bit_and attr log_ld1b)
            then bit_or result (if test (bit_and result 0x80) then 0xffffff00 else 0)
            else result) in
        if test (bit_and attr log_ld2b)
        then bit_or byte (if test (bit_and byte 0x8000) then 0xffff0000 else 0)
        else byte)
    else result

-- The rest of `get_log` for a decoded instruction.
unfoldable pub log_line : RiscVInstruction → CoreInstructionIf → ℕ → Line
log_line inst iif mem_data =
    let word_addr = iif.d_addr / 2 ^ 2 in
    let inst_str : InstStr = record { pc = iif.pc; ir = iif.ir; mnemonic = get_mnemonic inst } in
    if test (bit_and inst.attr log_store)
    then stores inst_str word_addr (merge mem_data iif.d_wdata (expand_wmask iif.d_wmask))
    else if test (bit_and inst.attr log_load) && leb 4 iif.d_baddr
    then undefined
    else if test (bit_and inst.attr log_rd)
    then sets inst_str iif.rd (
        if test (bit_and inst.attr log_load)
        then loaded inst.attr mem_data iif.d_baddr
        else iif.result)
    else plain inst_str

unfoldable pub get_log : RiscVLogInfo → Line
get_log l =
    if l.iif.valid == 0
    then empty
    else elim l.inst [ none ↦ null | some inst ↦ log_line inst l.iif l.mem_data ]
