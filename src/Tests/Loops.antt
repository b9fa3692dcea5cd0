-- ===== src/Tests/Loops.antt =====
-- The main loops, the faulty core and the loader at concrete states.
use veri_cross.Base.{
  leb, Bool, ℕ, ◌≡◌, ◌≤◌, ◌+◌, ◌*◌, ◌==◌, ◌⊎◌, refl, arith, true, false, none, some, [],
  if◌then◌else◌, Option,
}
use veri_cross.Sim.Memory.Ports.{idle}
use veri_cross.Sim.Loop.{Ends}
use veri_cross.Sim.FunctionalCore.Class.{functional, functional-CoreLaws, functional-IsReference}
use veri_cross.Sim.SysCall
use veri_cross.Sim.SysCall.{System}
use veri_cross.Sim.SysCall.Cases.{Sys}
use veri_cross.Sim.Single.{sim_single}
use veri_cross.Sim.Single.Laws.{sim_single-Ends}
use veri_cross.Sim.Concurrent.{Pair, over, wait, concurrent_round, sim_concurrent}
use veri_cross.Sim.Concurrent.Laws.{Compared, concurrent_round-Compared}
use veri_cross.Sim.Concurrent.Termination.{sim_concurrent-Ends}
use veri_cross.Wrapper.{Verilated, IsArray, Wrapped}
use veri_cross.Wrapper.Kronos
use veri_cross.Wrapper.Kronos.{kronos, kronos-CoreLaws}
use veri_cross.Wrapper.Faulty.{Random, IsUniform, KronosCoreFaulty, update}
use veri_cross.Wrapper.Faulty.Laws.{IsHit, IsMillionth, Same, update-IsHit}
use veri_cross.Tests.Cores.{reset, zero_byte, filled as instructions}
use veri_cross.Tests.System.{quiet}

-- One core whose memory holds `sb zero, 0(sp)` everywhere.
abbrev one_core : Sys functional quiet
one_core = record {
  first = reset;
  others = [];
  mem = instructions 0x00010023;
  world = 0;
  sys = SysCall.init 0 1 2 0x20000;
}

sim_single-Ends_example :
    Ends
      (λ l. (l.system.first.halt ≡ true) × (l.cycle_count ≤ 5 + 1))
      (sim_single functional quiet true 5 0 (5 + 3) one_core)
sim_single-Ends_example =
    sim_single-Ends functional quiet true 5 0 functional-CoreLaws (λ c. Unit) functional-IsReference
      (omega arith) one_core tt refl

-- The reference core beside itself.
abbrev pair : Pair functional quiet
pair = record {
  fcore = reset;
  vcore = reset;
  mem = instructions 0x00010023;
  world = 0;
  sys = SysCall.init 0 1 2 0x20000;
  cycle_count = 0;
  log_buffer = [];
  lines = [];
  report = none;
}

sim_concurrent-Ends_example :
    Ends
      (λ l'.
        (over functional quiet true 5 2 0 l' ≡ true)
        × (l'.cycle_count ≤ 1000 * (5 + 1))
        × ((l'.report ≡ none) ⊎ ((l'.fcore.halt ≡ true) × (l'.vcore.halt ≡ true))))
      (sim_concurrent functional quiet true 5 2 0 (5 + 3) pair)
sim_concurrent-Ends_example =
    sim_concurrent-Ends functional quiet true 5 2 0 functional-CoreLaws (λ c. Unit)
      functional-IsReference (omega arith) pair tt refl

-- A circuit that has registers only and retires nothing.
abbrev pub registers : Verilated
registers = record {
  Top = ℕ → ℕ;
  fresh = λ _. 0;
  set_clk = λ t clk. t;
  set_rst_x = λ t rst_x. t;
  set_rdata = λ t i d. t;
  eval = λ t. t;
  mem =
      λ t. record { en = 0; d_re = 0; d_we = 0; i_addr = 0; d_addr = 0; d_wdata = 0; d_wmask = 0 };
  inst = λ t. zero_byte 1;
  reg = λ t a. t a;
  set_reg = λ t a x b. if a == b then x else t b;
  set_mtvec = λ t x. t;
}

registers-IsArray : IsArray registers
registers-IsArray = λ t a x b. refl

-- A generator that counts.
abbrev pub counting : Random
counting = record {
  State = ℕ;
  uniform = λ low high s. ((if leb (low + 4) high then low + 4 else low), s + 1);
}

counting-IsUniform : IsUniform counting
counting-IsUniform = λ low high s h. (ground arith, ground arith)

-- The core before its millionth instruction.
abbrev due : KronosCoreFaulty registers counting
due = record {
  core = record {
    halt = false;
    cnt_inst = 999999;
    cnt_cycle = 0;
    instif = zero_byte 0;
    memif = idle;
    top = λ _. 0;
  };
  rng = 0;
}

update-IsHit_example :
    let (c, ok) = Kronos.update registers due.core in
    let (f', ok') = update registers counting due in
    (ok' ≡ ok)
    × Same registers counting counting-IsUniform registers-IsArray c f'.core
    × (((ok ≡ true)
          × IsMillionth registers counting counting-IsUniform registers-IsArray c.cnt_inst
          × IsHit registers counting counting-IsUniform registers-IsArray c f'.core)
        ⊎ (((ok ≡ false)
              ⊎ ¬ IsMillionth registers counting counting-IsUniform registers-IsArray c.cnt_inst)
            × (f'.core.top ≡ c.top)))
update-IsHit_example = update-IsHit registers counting counting-IsUniform registers-IsArray due

-- Two cores that retire `sb zero, 0(sp)` in each cycle.
abbrev wrapped : Wrapped registers
wrapped = record due.core { cnt_inst = 0 }

abbrev twins : Pair (kronos registers) quiet
twins = record {
  fcore = wrapped;
  vcore = wrapped;
  mem = instructions 0;
  world = 0;
  sys = SysCall.init 0 1 2 0x20000;
  cycle_count = 0;
  log_buffer = [];
  lines = [];
  report = none;
}

abbrev is_some : {A : Type 0} → Option A → Bool
is_some none = false
is_some (some a) = true

from_some : {A : Type 0} → A → Option A → A
from_some a none = a
from_some a (some b) = b

some-from_some : {A : Type 0} (a : A) (o : Option A) → is_some o ≡ true → o ≡ some (from_some a o)
unfolding from_some
some-from_some a none e = absurd (ground arith)
some-from_some a (some b) e = refl

twins_after : Pair (kronos registers) quiet
twins_after = from_some twins (concurrent_round (kronos registers) quiet true 5 2 0 twins)

twins_run : is_some (concurrent_round (kronos registers) quiet true 5 2 0 twins) ≡ true
unfolding concurrent_round wait Kronos.drive Kronos.update
twins_run = refl

concurrent_round-Compared_example :
    Compared (kronos registers) quiet true 5 2 0 (kronos-CoreLaws registers) none twins_after
unfolding twins_after from_some
concurrent_round-Compared_example =
    concurrent_round-Compared (kronos registers) quiet true 5 2 0 (kronos-CoreLaws registers) twins
      twins_after
      (some-from_some twins (concurrent_round (kronos registers) quiet true 5 2 0 twins) twins_run)
