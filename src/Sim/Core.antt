-- ===== src/Sim/Core.antt =====
-- `class Core` of sim/core.hpp: what the simulator asks of a core, whatever its class. A call of a
-- virtual function is a field of the interface.
use veri_cross.Base.{ℕ, ◌+◌, ◌%◌, ◌^◌, ◌≡◌, Bool, true, Option, some}
use veri_cross.Sim.Common.{CoreInstructionIf, CoreMemoryIf}
use veri_cross.Sim.Memory.{Memory}

-- `drive` reads the memory that is bound to the core, and is none where its behaviour is
-- undefined. `set_halt` is the assignment of true to `halt`.
pub record CoreClass (C : Type 0) : Type 0 where
  pub halt : C → Bool
  pub set_halt : C → C
  pub cnt_inst : C → ℕ
  pub instif : C → CoreInstructionIf
  pub memif : C → CoreMemoryIf
  pub set_memif : C → CoreMemoryIf → C
  pub read_reg : C → ℕ → ℕ
  pub write_reg : C → ℕ → ℕ → C
  pub reset : C → C
  pub drive : C → Memory → Option (C × Bool)
  pub update : C → C × Bool

-- What the assignments from outside leave alone.
pub record CoreLaws {C : Type 0} (core : CoreClass C) : Type 0 where
  pub halt-set_halt : (c : C) → core.halt (core.set_halt c) ≡ true
  pub cnt_inst-set_halt : (c : C) → core.cnt_inst (core.set_halt c) ≡ core.cnt_inst c
  pub cnt_inst-set_memif :
      (c : C) (p : CoreMemoryIf) → core.cnt_inst (core.set_memif c p) ≡ core.cnt_inst c
  pub cnt_inst-write_reg :
      (c : C) (r v : ℕ) → core.cnt_inst (core.write_reg c r v) ≡ core.cnt_inst c
  pub halt-write_reg : (c : C) (r v : ℕ) → core.halt (core.write_reg c r v) ≡ core.halt c
  pub instif-write_reg : (c : C) (r v : ℕ) → core.instif (core.write_reg c r v) ≡ core.instif c
  pub instif-set_halt : (c : C) → core.instif (core.set_halt c) ≡ core.instif c

-- A kind of core that executes one instruction in each successful `drive`.
pub record IsReference {C : Type 0} (core : CoreClass C) (R : C → Type 0) : Type 0 where
  pub drives :
      (c c' : C) (m : Memory) (ok : Bool)
      → R c
      → core.drive c m ≡ some (c', ok)
      → R c' × (ok ≡ true → core.cnt_inst c' ≡ (core.cnt_inst c + 1) % 2 ^ 64)
  pub updates :
      (c : C) → R c → R (core.update c).0 × (core.cnt_inst (core.update c).0 ≡ core.cnt_inst c)
  pub assigned : (c : C) (p : CoreMemoryIf) → R c → R (core.set_memif c p)
  pub written : (c : C) (r v : ℕ) → R c → R (core.write_reg c r v)
  pub halted : (c : C) → R c → R (core.set_halt c)
