-- ===== src/Wrapper/Kronos.antt =====
-- core_wrapper/kronos_core.cpp: the wrapper of the Kronos core.
use veri_cross.Base.{
  ℕ, refl, ◌+◌, ◌%◌, ◌^◌, ◌==◌, ◌&&◌, not, if◌then◌else◌, Bool, true, false, some,
}
use veri_cross.Sim.Common.{CoreInstructionIf, CoreMemoryIf, initial_sp, add32}
use veri_cross.Sim.Riscv.{reg_sp}
use veri_cross.Sim.Core.{CoreClass, CoreLaws}
use veri_cross.Wrapper.{Verilated, Wrapped, put_ports}

module _ (v : Verilated) where
  -- The constructor. The interfaces are left unset.
  unfoldable pub init : CoreInstructionIf → CoreMemoryIf → Wrapped v
  init inst mem = record {
    halt = false;
    cnt_inst = 0;
    cnt_cycle = 0;
    instif = inst;
    memif = mem;
    top = v.set_rst_x (v.set_clk v.fresh 0) 0;
  }

  unfoldable pub read_reg : Wrapped v → ℕ → ℕ
  read_reg c addr = v.reg c.top addr

  unfoldable pub write_reg : Wrapped v → ℕ → ℕ → Wrapped v
  write_reg c addr x = record c { top = v.set_reg c.top addr x }

  -- The part of `drive` for a core that is not halted.
  low_phase : Wrapped v → Wrapped v
  low_phase c =
      let top = v.eval (v.set_clk (v.set_rdata c.top c.memif.i_rdata c.memif.d_rdata) 0) in
      record c { top = top; memif = put_ports c.memif (v.mem top) }

  unfoldable pub drive : Wrapped v → Wrapped v × Bool
  unfolding low_phase
  drive c = if c.halt then (c, false) else (low_phase c, true)

  -- The override of `mtvec` after an `ecall`.
  after_ecall : v.Top → CoreInstructionIf → v.Top
  after_ecall top inst =
      if not (inst.valid == 0) && inst.ir == 0x00000073
      then v.set_mtvec top (add32 inst.pc 4)
      else top

  -- The part of `update` for a core that is not halted.
  high_phase : Wrapped v → Wrapped v
  unfolding after_ecall
  high_phase c =
      let top = v.eval (v.set_clk c.top 1) in
      let inst = v.inst top in
      record c {
        top = after_ecall top inst;
        instif = inst;
        memif = put_ports c.memif (v.mem top);
        cnt_cycle = (c.cnt_cycle + 1) % 2 ^ 64;
        cnt_inst = if inst.valid == 0 then c.cnt_inst else (c.cnt_inst + 1) % 2 ^ 64;
      }

  unfoldable pub update : Wrapped v → Wrapped v × Bool
  unfolding high_phase
  update c = if c.halt then (c, false) else (high_phase c, true)

  unfoldable pub reset : Wrapped v → Wrapped v
  unfolding drive update write_reg
  reset c =
      let off = record c { top = v.set_rst_x c.top 0 } in
      let cycled = (update (drive off).0).0 in
      write_reg (record cycled { top = v.set_rst_x cycled.top 1 }) reg_sp initial_sp

  abbrev pub kronos : CoreClass (Wrapped v)
  kronos = record {
    halt = λ c. c.halt;
    set_halt = λ c. record c { halt = true };
    cnt_inst = λ c. c.cnt_inst;
    instif = λ c. c.instif;
    memif = λ c. c.memif;
    set_memif = λ c p. record c { memif = p };
    read_reg = read_reg;
    write_reg = write_reg;
    reset = reset;
    drive = λ c m. some (drive c);
    update = update;
  }

  pub kronos-CoreLaws : CoreLaws kronos
  unfolding write_reg
  kronos-CoreLaws = record {
    halt-set_halt = λ c. refl;
    cnt_inst-set_halt = λ c. refl;
    cnt_inst-set_memif = λ c p. refl;
    cnt_inst-write_reg = λ c r x. refl;
    halt-write_reg = λ c r x. refl;
    instif-write_reg = λ c r x. refl;
    instif-set_halt = λ c. refl;
  }
