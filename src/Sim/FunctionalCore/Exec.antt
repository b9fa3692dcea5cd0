-- ===== src/Sim/FunctionalCore/Exec.antt =====
-- `FunctionalCore::drive` of sim/functional_core.cpp: one instruction.
use veri_cross.Base.{ℕ, ◌+◌, ◌-◌, ◌*◌, ◌/◌, ◌%◌, ◌^◌, bit_and, bit_or, bit_xor}
use veri_cross.Base.{Bool, true, false, ◌==◌, ◌||◌, not, ltb, leb, if◌then◌else◌}
use veri_cross.Sim.Common.{u32, add32, sub32, test, CoreMemoryIf}
use veri_cross.Sim.Memory.{Memory}
use veri_cross.Sim.Memory.Bytes.{read, word_of}
use veri_cross.Sim.Riscv.{
  Inst, unknown, lui, auipc, jal, jalr, beq, bne, blt, bge, bltu, bgeu, lb, lh, lw, lbu, lhu, sb,
  sh, sw, addi, slli, slti, sltiu, xori, srli, srai, ori, andi, add, sub, sll, slt, sltu, xor, srl,
  sra, or, and, fence, fencei, ecall, ebreak, mret, wfi, csrrw, csrrs, csrrc, csrrwi, csrrsi,
  csrrci, RiscVInstruction, reg_zero,
}
use veri_cross.Sim.Riscv.Decode.{decode}
use veri_cross.Sim.FunctionalCore.{FunctionalCore, set_reg}

-- `(int32_t)a < (int32_t)b`, on bit patterns.
abbrev pub signed_lt : ℕ → ℕ → Bool
signed_lt a b = ltb (add32 a (2 ^ 31)) (add32 b (2 ^ 31))

-- `(uint32_t)((int32_t)a >> n)`
abbrev pub sra32 : ℕ → ℕ → ℕ
sra32 a n = if ltb a (2 ^ 31) then a / 2 ^ n else 2 ^ 32 - 1 - (2 ^ 32 - 1 - a) / 2 ^ n

abbrev pub shl32 : ℕ → ℕ → ℕ
shl32 a n = u32 (a * 2 ^ n)

-- What the `switch` sets: the registers, the next PC, the memory interface and `baddr`.
pub record Effect : Type 0 where
  pub reg : ℕ → ℕ
  pub npc : ℕ
  pub memif : CoreMemoryIf
  pub baddr : ℕ

-- A case of the `switch`: `undefined` is a shift by more than the width, `unrecognised` the
-- `default` case.
pub data Executed : Type 0 where
  done : Effect → Executed
  unrecognised undefined : Executed

module _ (c : FunctionalCore) (m : Memory) (inst : RiscVInstruction) (memif : CoreMemoryIf) where
  abbrev pub rs1_val : ℕ
  rs1_val = c.reg inst.rs1

  abbrev pub rs2_val : ℕ
  rs2_val = c.reg inst.rs2

  abbrev pub data_addr : ℕ
  data_addr = add32 rs1_val inst.imm

  abbrev pub next_pc : ℕ
  next_pc = add32 c.pc 4

  abbrev pub aligned : ℕ → ℕ
  aligned addr = bit_and addr (2 ^ 32 - 1 - 3)

  -- `reg[inst.rd] = v`
  abbrev result : ℕ → Executed
  result v =
      done (record { reg = set_reg c.reg inst.rd v; npc = next_pc; memif = memif; baddr = 0 })

  abbrev jump : ℕ → Executed
  jump target = done (record {
    reg = set_reg c.reg inst.rd (add32 c.pc 4);
    npc = target;
    memif = memif;
    baddr = 0;
  })

  -- `npc = reg[inst.rs1] + inst.imm`, after `reg[inst.rd]` has been written.
  abbrev pub jalr_target : ℕ
  jalr_target = add32 (set_reg c.reg inst.rd (add32 c.pc 4) inst.rs1) inst.imm

  abbrev branch : Bool → Executed
  branch taken = done (record {
    reg = c.reg;
    npc = (if taken then inst.npc else next_pc);
    memif = memif;
    baddr = 0;
  })

  abbrev load : ℕ → ℕ → Executed
  load v baddr = done (record {
    reg = set_reg c.reg inst.rd v;
    npc = next_pc;
    memif = record memif { d_re = 1; d_addr = aligned data_addr };
    baddr = baddr;
  })

  abbrev store : ℕ → ℕ → Executed
  store wdata wmask = done (record {
    reg = c.reg;
    npc = next_pc;
    memif = record memif { d_we = 1; d_addr = aligned data_addr; d_wdata = wdata; d_wmask = wmask };
    baddr = 0;
  })

  abbrev ignored : Executed
  ignored = done (record { reg = c.reg; npc = next_pc; memif = memif; baddr = 0 })

  abbrev flag : Bool → ℕ
  flag b = if b then 1 else 0

  abbrev byte_read : ℕ
  byte_read = word_of (read m data_addr 1)

  abbrev half_read : ℕ
  half_read = word_of (read m data_addr 2)

  unfoldable pub execute : Inst → Executed
  execute lui = result inst.imm
  execute auipc = result inst.npc
  execute jal = jump inst.npc
  execute jalr = jump jalr_target
  execute beq = branch (rs1_val == rs2_val)
  execute bne = branch (not (rs1_val == rs2_val))
  execute blt = branch (signed_lt rs1_val rs2_val)
  execute bge = branch (not (signed_lt rs1_val rs2_val))
  execute bltu = branch (ltb rs1_val rs2_val)
  execute bgeu = branch (leb rs2_val rs1_val)
  execute lb =
      load (bit_or byte_read (if test (bit_and byte_read 0x80) then 0xffffff00 else 0))
        (bit_and data_addr 0x3)
  execute lh =
      load (bit_or half_read (if test (bit_and half_read 0x8000) then 0xffff0000 else 0))
        (bit_and data_addr 0x2)
  execute lw = load (word_of (read m (aligned data_addr) 4)) 0
  execute lbu = load byte_read (bit_and data_addr 0x3)
  execute lhu = load half_read (bit_and data_addr 0x2)
  execute sb = store (shl32 rs2_val (bit_and data_addr 0x3 * 8)) (1 * 2 ^ bit_and data_addr 0x3)
  execute sh = store (shl32 rs2_val (bit_and data_addr 0x2 * 8)) (3 * 2 ^ bit_and data_addr 0x2)
  execute sw = store rs2_val 0xf
  execute addi = result (add32 rs1_val inst.imm)
  execute slli = if ltb inst.imm 32 then result (shl32 rs1_val inst.imm) else undefined
  execute slti = result (flag (signed_lt rs1_val inst.imm))
  execute sltiu = result (flag (ltb rs1_val inst.imm))
  execute xori = result (bit_xor rs1_val inst.imm)
  execute srli = result (rs1_val / 2 ^ inst.shamt)
  execute srai = result (sra32 rs1_val inst.shamt)
  execute ori = result (bit_or rs1_val inst.imm)
  execute andi = result (bit_and rs1_val inst.imm)
  execute add = result (add32 rs1_val rs2_val)
  execute sub = result (sub32 rs1_val rs2_val)
  execute sll = result (shl32 rs1_val (bit_and rs2_val 0x1f))
  execute slt = result (flag (signed_lt rs1_val rs2_val))
  execute sltu = result (flag (ltb rs1_val rs2_val))
  execute xor = result (bit_xor rs1_val rs2_val)
  execute srl = result (rs1_val / 2 ^ bit_and rs2_val 0x1f)
  execute sra = result (sra32 rs1_val (bit_and rs2_val 0x1f))
  execute or = result (bit_or rs1_val rs2_val)
  execute and = result (bit_and rs1_val rs2_val)
  execute fence = ignored
  execute fencei = ignored
  execute ecall = ignored
  execute ebreak = ignored
  execute mret = ignored
  execute wfi = ignored
  execute csrrw = ignored
  execute csrrs = ignored
  execute csrrc = ignored
  execute csrrwi = ignored
  execute csrrsi = ignored
  execute csrrci = ignored
  execute unknown = unrecognised

-- The outcome of `drive`: the core and what the function returns.
pub data Driven : Type 0 where
  returns : FunctionalCore → Bool → Driven
  undefined : Driven

-- The assignments before the fetch.
unfoldable pub begin : FunctionalCore → FunctionalCore
begin c = record c {
  memif = record c.memif { en = 1; d_re = 0; d_we = 0 };
  instif = record c.instif { valid = 0 };
}

unfoldable pub fetched : FunctionalCore → Memory → RiscVInstruction
fetched c m = decode c.pc (word_of (read m c.pc 4))

-- The logging and the next state, after the `switch`.
unfoldable pub retire : FunctionalCore → RiscVInstruction → Effect → FunctionalCore
retire c inst e = record c {
  instif = record {
    valid = 1;
    pc = c.pc;
    ir = inst.ir;
    rd = inst.rd;
    result = e.reg inst.rd;
    d_addr = e.memif.d_addr;
    d_wdata = e.memif.d_wdata;
    d_wmask = e.memif.d_wmask;
    d_baddr = e.baddr;
  };
  memif = e.memif;
  pc = e.npc;
  reg = set_reg e.reg reg_zero 0;
  cnt_inst = (c.cnt_inst + 1) % 2 ^ 64;
  cnt_cycle = (c.cnt_cycle + 1) % 2 ^ 64;
}

unfoldable pub conclude : FunctionalCore → RiscVInstruction → Executed → Driven
conclude c inst (done e) = returns (retire c inst e) true
conclude c inst unrecognised = returns c false
conclude c inst Executed.undefined = Driven.undefined

unfoldable pub drive : FunctionalCore → Memory → Driven
drive c m =
    if c.halt || not c.bound
    then returns c false
    else (let c' = begin c in
        let inst = fetched c m in conclude c' inst (execute c' m inst c'.memif inst.instr_id))
