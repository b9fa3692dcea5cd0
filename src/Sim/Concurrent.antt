-- ===== src/Sim/Concurrent.antt =====
-- `sim_concurrent` of sim/sim_concurrent.cpp: the main loop for the reference core and a verilated
-- one, which is compared with it.
pub mod Ring
pub mod Cores
pub mod Laws
pub mod Termination
use veri_cross.Base.{ℕ, zero, suc, ◌+◌, ◌-◌, ◌%◌, ◌^◌, ◌==◌, ◌&&◌, ◌||◌, leb, not, if◌then◌else◌}
use veri_cross.Base.{Bool, true, false, Option, none, some, List, [], ◌∷◌, get_or, replicate}
use veri_cross.Sim.Common.{vcore_timeout}
use veri_cross.Sim.Core.{CoreClass}
use veri_cross.Sim.Memory.{Memory}
use veri_cross.Sim.Memory.Ports
use veri_cross.Sim.Loop.{Outcome, while}
use veri_cross.Sim.Riscv.Log.{Line, RiscVLogInfo, log_info, get_log}
use veri_cross.Sim.Validator.{Validator, validate}
use veri_cross.Sim.SysCall.{Host, SysCall, System}
use veri_cross.Sim.SysCall.Cases.{emulate}
use veri_cross.Sim.Concurrent.Ring.{RingBuffer, store, show}

-- What is printed for a mismatch: the number of the instruction, the differences, the lines of
-- the last instructions with their distance, and the lines of the two cores.
pub record Report : Type 0 where
  pub instruction : ℕ
  pub difference : Validator
  pub recent : List (ℕ × Line)
  pub functional : Line
  pub verilated : Line

module _ {C : Type 0} (core : CoreClass C) (h : Host) where
  -- The objects and the local variables of the loop.
  pub record Pair : Type 0 where
    pub fcore : C
    pub vcore : C
    pub mem : Memory
    pub world : h.World
    pub sys : SysCall
    pub cycle_count : ℕ
    pub log_buffer : RingBuffer RiscVLogInfo
    pub lines : List Line
    pub report : Option Report

  -- `fail = fail || ! core->update()` after a call that returned `ok`.
  pub update_core : C → Bool → C × Bool
  update_core c ok = if ok then core.update c else (c, false)

  -- The verilated core with the memory, in the loop that waits for an instruction.
  pub record Waiting : Type 0 where
    pub vcore : C
    pub mem : Memory
    pub cycle_count : ℕ

  -- One cycle from `mem->drive_replica()` on, after `drive` has returned `ok`.
  pub replica_cycle : Waiting → C → Bool → Waiting × Bool
  unfolding update_core
  replica_cycle w driven ok =
      let m = Ports.drive_replica w.mem (core.memif driven ∷ []) in
      let (c, ok') = update_core driven ok in
      let (m', ps) = Ports.update_replica m (core.memif c ∷ []) in
      (record w { vcore = core.set_memif c (get_or ps 0 (core.memif c)); mem = m' }, ok')

  abbrev pub is_valid : C → Bool
  is_valid c = not ((core.instif c).valid == 0)

  -- The loop that waits for an instruction, with `left` cycles to go. It returns not `fail`.
  unfoldable pub wait : ℕ → Waiting → Option (Waiting × Bool)
  unfolding replica_cycle
  wait zero w = some (w, true)
  wait (suc left) w = elim (core.drive w.vcore w.mem) [
    | none ↦ none
    | some (c, ok) ↦
        let (w', ok') = replica_cycle w c ok in
        elim (is_valid w'.vcore || not ok') [
          | true ↦ some (w', ok')
          | false ↦ wait left (record w' { cycle_count = (w'.cycle_count + 1) % 2 ^ 64 })
        ]
  ]

  module _ (log : Bool) (max_insts mismatch_insts unset : ℕ) where
    -- `if (core->cnt_inst >= max_insts || ! ok) core->halt = true`
    pub stop : C → Bool → C
    stop c ok = if leb max_insts (core.cnt_inst c) || not ok then core.set_halt c else c

    -- The part for the reference core, from `mem->drive()` on.
    pub functional_part : Pair → C → Bool → Pair
    unfolding update_core stop
    functional_part l driven ok =
        let m = Ports.drive l.mem (core.memif driven) in
        let (c, ok') = update_core driven ok in
        let (m', p) = Ports.update m (core.memif c) in
        record l { fcore = stop (core.set_memif c p) ok'; mem = m' }

    -- The part for the verilated core, once it has come to an instruction or has timed out.
    pub verilated_part : Pair → Waiting → Bool → Pair
    unfolding stop
    verilated_part l w ok = record l {
      vcore = stop w.vcore (ok && is_valid w.vcore);
      mem = w.mem;
      cycle_count = w.cycle_count;
    }

    abbrev line : Pair → C → RiscVLogInfo
    line l c = log_info unset (core.instif c) (some l.mem)

    -- A mismatch: the report, and both cores are halted.
    pub mismatch : Pair → Validator → Pair
    mismatch l vld = record l {
      report = some (record {
        instruction = core.cnt_inst l.fcore;
        difference = vld;
        recent = show get_log mismatch_insts (core.cnt_inst l.fcore) l.log_buffer;
        functional = get_log (line l l.fcore);
        verilated = get_log (line l l.vcore);
      });
      fcore = core.set_halt l.fcore;
      vcore = core.set_halt l.vcore;
    }

    -- The system call of an `ecall` of the reference core.
    pub call_system : Pair → Pair
    call_system l =
        let s = emulate core h (record {
          first = l.fcore;
          others = l.vcore ∷ [];
          mem = l.mem;
          world = l.world;
          sys = l.sys;
        }) in
        if (core.instif l.fcore).ir == 0x00000073
        then record l {
          fcore = s.first;
          vcore = get_or s.others 0 l.vcore;
          mem = s.mem;
          world = s.world;
          sys = s.sys;
        }
        else l

    -- The logs of a pair of instructions that agree.
    pub logged : Pair → Pair
    unfolding call_system
    logged l = call_system (record l {
      log_buffer =
          if leb 1 mismatch_insts
          then store mismatch_insts (core.cnt_inst l.fcore) (line l l.fcore) l.log_buffer
          else l.log_buffer;
      lines = if log then get_log (line l l.fcore) ∷ l.lines else l.lines;
    })

    pub compare_cores : Pair → Pair
    unfolding mismatch logged
    compare_cores l =
        let (vld, same) = validate (core.instif l.fcore) (core.instif l.vcore) in
        if same then logged l else mismatch l vld

    abbrev waiting : Pair → Waiting
    waiting l = record { vcore = l.vcore; mem = l.mem; cycle_count = l.cycle_count }

    pub verilated_round : Pair → Option Pair
    unfolding verilated_part compare_cores
    verilated_round l = elim (wait vcore_timeout (waiting l)) [
      | none ↦ none
      | some (w, ok) ↦ some (compare_cores (verilated_part l w ok))
    ]

    -- The body of the loop. After a mismatch, which leaves the loop, both cores are halted, so that
    -- the loop ends with the next test.
    unfoldable pub concurrent_round : Pair → Option Pair
    unfolding functional_part verilated_round
    concurrent_round l = elim (core.drive l.fcore l.mem) [
      | none ↦ none
      | some (c, ok) ↦ verilated_round (functional_part l c ok)
    ]

    abbrev pub over : Pair → Bool
    over l = core.halt l.fcore || core.halt l.vcore

    -- `fcore->halt ^ vcore->halt`: one core stopped but the other did not.
    unfoldable pub alone : Pair → Bool
    alone l = if core.halt l.fcore then not (core.halt l.vcore) else core.halt l.vcore

    -- The state before the first round.
    unfoldable pub begin : Pair → Pair
    begin l = record l {
      fcore = core.reset l.fcore;
      vcore = core.reset l.vcore;
      cycle_count = 0;
      log_buffer = replicate mismatch_insts none;
      lines = [];
      report = none;
    }

    unfoldable pub sim_concurrent : ℕ → Pair → Outcome Pair
    unfolding concurrent_round begin
    sim_concurrent rounds l = while over concurrent_round rounds (begin l)
