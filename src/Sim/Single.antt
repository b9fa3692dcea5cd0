-- ===== src/Sim/Single.antt =====
-- `sim_single` of sim/sim_single.cpp: the main loop for one core.
pub mod Laws
use veri_cross.Base.{ℕ, zero, suc, ◌+◌, ◌%◌, ◌^◌, ◌==◌, ◌&&◌, ◌||◌, leb, not, if◌then◌else◌}
use veri_cross.Base.{Bool, true, false, Option, none, some, List, [], ◌∷◌}
use veri_cross.Sim.Core.{CoreClass}
use veri_cross.Sim.Memory.{Memory}
use veri_cross.Sim.Memory.Ports
use veri_cross.Sim.Loop.{Outcome, while}
use veri_cross.Sim.Riscv.Log.{Line, log_info, get_log}
use veri_cross.Sim.SysCall.{Host, System}
use veri_cross.Sim.SysCall.Cases.{Sys, emulate}

module _ {C : Type 0} (core : CoreClass C) (h : Host) where
  -- The objects, the cycles, and the lines logged so far, the last one first.
  pub record Loop : Type 0 where
    pub system : Sys core h
    pub cycle_count : ℕ
    pub lines : List Line

-- `log` says that there is a log file. `unset` is what an object of the log holds where its
-- constructor sets nothing.
module _ {C : Type 0} (core : CoreClass C) (h : Host) (log : Bool) (max_insts unset : ℕ) where
  -- `mem->update()`, which writes to the core's `memif`.
  pub update_mem : Memory → C → Memory × C
  update_mem m c = let (m', p) = Ports.update m (core.memif c) in (m', core.set_memif c p)

  -- `fail = fail || ! core->update()` after a call that returned `ok`.
  pub update_core : C → Bool → C × Bool
  update_core c ok = if ok then core.update c else (c, false)

  abbrev pub is_ecall : C → Bool
  is_ecall c = not ((core.instif c).valid == 0) && (core.instif c).ir == 0x00000073

  -- The system call of an `ecall`.
  pub call_system : Sys core h → Sys core h
  call_system s = if is_ecall s.first then emulate core h s else s

  -- `if (core->cnt_inst >= max_insts || fail) core->halt = true`, with `ok` for not `fail`.
  pub stop : Sys core h → Bool → Sys core h
  stop s ok =
      if leb max_insts (core.cnt_inst s.first) || not ok
      then record s { first = core.set_halt s.first }
      else s

  -- The round from the call of `core->update()` on. `ok` is what `core->drive()` has returned.
  pub rest_of_round : Loop core h → Memory → C → Bool → Loop core h
  unfolding update_mem update_core call_system stop
  rest_of_round l m driven ok =
      let (updated, ok') = update_core driven ok in
      let (m', c) = update_mem (Ports.drive m (core.memif driven)) updated in
      let line = get_log (log_info unset (core.instif c) (some m')) in
      record {
        system = stop (call_system (record l.system { first = c; mem = m' })) ok';
        cycle_count = (l.cycle_count + 1) % 2 ^ 64;
        lines = if log then line ∷ l.lines else l.lines;
      }

  unfoldable pub single_round : Loop core h → Option (Loop core h)
  unfolding rest_of_round
  single_round l =
      let m = Ports.drive l.system.mem (core.memif l.system.first) in
      elim (core.drive l.system.first m) [
        | none ↦ none
        | some (c, ok) ↦ some (rest_of_round l m c ok)
      ]

  -- `while (! core->halt)`
  pub single_loop : ℕ → Loop core h → Outcome (Loop core h)
  single_loop = while (λ l. core.halt l.system.first) single_round

  pub begin : Sys core h → Loop core h
  begin s = record { system = record s { first = core.reset s.first }; cycle_count = 0; lines = [] }

  unfoldable pub sim_single : ℕ → Sys core h → Outcome (Loop core h)
  unfolding single_loop begin
  sim_single fuel s = single_loop fuel (begin s)
