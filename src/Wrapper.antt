-- ===== src/Wrapper.antt =====
-- core_wrapper/: the verilated cores as classes `Core`. The class that Verilator generates is a
-- parameter, as is the random generator of the core with faults.
pub mod Kronos
pub mod Rvcorep
pub mod Faulty
use veri_cross.Base.{ℕ, ◌≡◌, ◌==◌, if◌then◌else◌, Bool}
use veri_cross.Sim.Common.{CoreInstructionIf, CoreMemoryIf}

-- The outputs of the top module for the memory.
pub record MemPorts : Type 0 where
  pub en : ℕ
  pub d_re : ℕ
  pub d_we : ℕ
  pub i_addr : ℕ
  pub d_addr : ℕ
  pub d_wdata : ℕ
  pub d_wmask : ℕ

-- `Vkronos_top` or `Vrvcorep_main`: its inputs, its evaluation, its outputs, and the registers that
-- the wrapper reaches through `rootp`.
pub record Verilated : Type 1 where
  pub Top : Type 0
  pub fresh : Top
  pub set_clk : Top → ℕ → Top
  pub set_rst_x : Top → ℕ → Top
  pub set_rdata : Top → ℕ → ℕ → Top
  pub eval : Top → Top
  pub mem : Top → MemPorts
  pub inst : Top → CoreInstructionIf
  pub reg : Top → ℕ → ℕ
  pub set_reg : Top → ℕ → ℕ → Top
  pub set_mtvec : Top → ℕ → Top

-- The register file is an array.
abbrev pub IsArray : Verilated → Type 0
IsArray v = (t : v.Top) (a x b : ℕ) → v.reg (v.set_reg t a x) b ≡ (if a == b then x else v.reg t b)

-- The members of `class Core`, and `top`.
pub record Wrapped (v : Verilated) : Type 0 where
  pub halt : Bool
  pub cnt_inst : ℕ
  pub cnt_cycle : ℕ
  pub instif : CoreInstructionIf
  pub memif : CoreMemoryIf
  pub top : v.Top

-- The assignments to `memif` from the outputs.
abbrev pub put_ports : CoreMemoryIf → MemPorts → CoreMemoryIf
put_ports p o = record p {
  en = o.en;
  d_re = o.d_re;
  d_we = o.d_we;
  i_addr = o.i_addr;
  d_addr = o.d_addr;
  d_wdata = o.d_wdata;
  d_wmask = o.d_wmask;
}
