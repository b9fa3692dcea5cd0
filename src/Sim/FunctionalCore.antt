-- ===== src/Sim/FunctionalCore.antt =====
-- sim/functional_core.cpp: the reference core. A register number is a field of five bits, so
-- the register file is a function of it. The core reads the memory that is bound to it, and
-- stores only through its `memif`.
pub mod Exec
pub mod Laws
pub mod Loading
pub mod Class
use veri_cross.Base.{ℕ, ◌+◌, ◌-◌, ◌*◌, ◌/◌, ◌%◌, ◌^◌, bit_and, bit_or, bit_xor}
use veri_cross.Base.{Bool, true, false, ◌==◌, ◌||◌, not, ltb, if◌then◌else◌, List, [], ◌∷◌}
use veri_cross.Sim.Common.{initial_pc, initial_sp, u32, add32, CoreInstructionIf, CoreMemoryIf}
use veri_cross.Sim.Riscv.{reg_sp, reg_zero, RiscVInstruction}

-- `class FunctionalCore` with what it has of `class Core`. `bound` says that `memory` is not null.
pub record FunctionalCore : Type 0 where
  pub halt : Bool
  pub cnt_inst : ℕ
  pub cnt_cycle : ℕ
  pub instif : CoreInstructionIf
  pub memif : CoreMemoryIf
  pub bound : Bool
  pub reg : ℕ → ℕ
  pub pc : ℕ

abbrev pub set_reg : (ℕ → ℕ) → ℕ → ℕ → ℕ → ℕ
set_reg reg rd v r = if rd == r then v else reg r

-- The constructor. The interfaces are left unset.
unfoldable pub init : CoreInstructionIf → CoreMemoryIf → FunctionalCore
init inst mem = record {
  halt = false;
  cnt_inst = 0;
  cnt_cycle = 0;
  instif = inst;
  memif = mem;
  bound = false;
  reg = set_reg (λ _. 0) reg_sp initial_sp;
  pc = initial_pc;
}

unfoldable pub bind_memory : FunctionalCore → FunctionalCore
bind_memory c = record c { bound = true }

unfoldable pub read_reg : FunctionalCore → ℕ → ℕ
read_reg c addr = c.reg addr

unfoldable pub write_reg : FunctionalCore → ℕ → ℕ → FunctionalCore
write_reg c addr v = record c { reg = set_reg c.reg addr v }

-- `update` changes nothing.
unfoldable pub update : FunctionalCore → Bool
update c = not (c.halt || not c.bound)
