-- ===== src/Tests/Report.antt =====
-- A run of the concurrent loop that ends with a mismatch, over a small core.
use veri_cross.Base.{ℕ, ◌+◌, ◌%◌, ◌^◌, ◌≡◌, refl, sym, ap, arith, ◌==◌, if◌then◌else◌, length}
use veri_cross.Base.{Bool, true, false, Option, none, some, []}
use veri_cross.Sim.Common.{CoreInstructionIf, CoreMemoryIf, expand_wmask}
use veri_cross.Sim.Core.{CoreClass, CoreLaws, IsReference}
use veri_cross.Sim.Memory.Ports.{idle}
use veri_cross.Sim.Loop.{while, Outcome, finished, undefined, unfinished}
use veri_cross.Sim.SysCall
use veri_cross.Sim.Validator.{validate}
use veri_cross.Sim.Riscv.Log.{empty}
use veri_cross.Sim.Riscv.Decode.{decode, identify, decode_op}
use veri_cross.Sim.Concurrent.{wait, Report, Pair, sim_concurrent}
use veri_cross.Sim.Concurrent.Ring.Lines.{last_lines}
use veri_cross.Sim.Concurrent.Termination.History.{sim_concurrent-last_lines}
use veri_cross.Tests.Cores.{zero_byte, filled}
use veri_cross.Tests.System.{quiet}

-- A core that retires `sb zero, 0(sp)` in each cycle, at address 0 but for one instruction.
record Repeating : Type 0 where
  halted : Bool
  count : ℕ
  odd_one : ℕ
  inst : CoreInstructionIf
  port : CoreMemoryIf

abbrev repeating : CoreClass Repeating
repeating = record {
  halt = λ c. c.halted;
  set_halt = λ c. record c { halted = true };
  cnt_inst = λ c. c.count;
  instif = λ c. c.inst;
  memif = λ c. c.port;
  set_memif = λ c p. record c { port = p };
  read_reg = λ c r. 0;
  write_reg = λ c r v. c;
  reset = λ c. c;
  drive = λ c m. some (
    record c {
      count = (c.count + 1) % 2 ^ 64;
      inst = record c.inst { pc = (if c.count == c.odd_one then 4 else 0) };
    },
    true,
  );
  update = λ c. (c, true);
}

repeating-CoreLaws : CoreLaws repeating
repeating-CoreLaws = record {
  halt-set_halt = λ c. refl;
  cnt_inst-set_halt = λ c. refl;
  cnt_inst-set_memif = λ c p. refl;
  cnt_inst-write_reg = λ c r v. refl;
  halt-write_reg = λ c r v. refl;
  instif-write_reg = λ c r v. refl;
  instif-set_halt = λ c. refl;
}

repeating-IsReference : IsReference repeating (λ c. Unit)
repeating-IsReference = record {
  drives = λ c c' m ok r e. (tt, λ t. sym (ap (λ o. elim o [ none ↦ 0 | some p ↦ p.0.count ]) e));
  updates = λ c r. (tt, refl);
  assigned = λ c p r. tt;
  written = λ c r v q. tt;
  halted = λ c r. tt;
}

abbrev starting : ℕ → Repeating
starting odd_one = record {
  halted = false;
  count = 0;
  odd_one = odd_one;
  inst = zero_byte 1;
  port = idle;
}

-- The second core differs in its second instruction.
abbrev pair : Pair repeating quiet
pair = record {
  fcore = starting 9;
  vcore = starting 1;
  mem = filled 0;
  world = 0;
  sys = SysCall.init 0 1 2 0x20000;
  cycle_count = 0;
  log_buffer = [];
  lines = [];
  report = none;
}

ended : Outcome (Pair repeating quiet) → Pair repeating quiet
ended (finished l) = l
ended undefined = pair
ended unfinished = pair

abbrev run : Outcome (Pair repeating quiet)
run = sim_concurrent repeating quiet true 5 2 0 (5 + 3) pair

run_finished : run ≡ finished (ended run)
unfolding ended sim_concurrent while wait validate decode identify decode_op expand_wmask
run_finished = refl

shown : Option Report → Report → Report
shown none r = r
shown (some r) r' = r

-- An empty report, for a run without one.
abbrev no_report : Report
no_report = record {
  instruction = 0;
  difference = (validate (zero_byte 1) (zero_byte 1)).0;
  recent = [];
  functional = empty;
  verilated = empty;
}

report_of : Report
report_of = shown (ended run).report no_report

run_reported : (ended run).report ≡ some report_of
unfolding ended sim_concurrent while wait validate decode identify decode_op expand_wmask report_of
    shown
run_reported = refl

run_number : report_of.instruction ≡ length (ended run).lines + 1
unfolding ended sim_concurrent while wait validate decode identify decode_op expand_wmask report_of
    shown
run_number = refl

sim_concurrent-last_lines_example : report_of.recent ≡ last_lines 2 (ended run).lines
sim_concurrent-last_lines_example =
    sim_concurrent-last_lines repeating quiet 5 2 0 (omega arith) repeating-CoreLaws (λ c. Unit)
      repeating-IsReference (omega arith) pair (ended run) report_of tt refl run_finished
      run_reported run_number
