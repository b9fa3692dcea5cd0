-- ===== src/Tests/System.antt =====
-- The system calls and the log at concrete states.
use veri_cross.Base.{ℕ, ◌≡◌, ◌≢◌, ◌+◌, ◌/◌, ◌*◌, ◌%◌, ◌^◌, refl, arith, inl, true, some, [], ◌∷◌}
use veri_cross.Sim.Common.{mem_words}
use veri_cross.Sim.Memory.{Memory, view, read_4b}
use veri_cross.Sim.Memory.Buffer.{lookup}
use veri_cross.Sim.Memory.Bytes.{read, read_words, word_of}
use veri_cross.Sim.Memory.Bytes.Single.{IsSized}
use veri_cross.Sim.Memory.Ports.{idle}
use veri_cross.Sim.Riscv.{reg_a0}
use veri_cross.Sim.Riscv.Decode.{decode, identify, decode_op}
use veri_cross.Sim.Riscv.Imm.{get_imm}
use veri_cross.Sim.Riscv.Isa.{is_load}
use veri_cross.Sim.Riscv.Log.{log_info, get_log, sets}
use veri_cross.Sim.Riscv.Log.Fields.{load_value}
use veri_cross.Sim.Riscv.Log.Lines.{inst_str, store_line, stored, get_log-store}
use veri_cross.Sim.FunctionalCore
use veri_cross.Sim.FunctionalCore.{FunctionalCore, set_reg}
use veri_cross.Sim.FunctionalCore.Exec.{drive, data_addr, returns, fetched}
use veri_cross.Sim.FunctionalCore.Class.{functional}
use veri_cross.Sim.FunctionalCore.Loading.{drive-get_log}
use veri_cross.Sim.SysCall
use veri_cross.Sim.SysCall.{
  Host, SysCall, System, sc_open, sc_write, read_reg, read_path, write_others, is_natural,
}
use veri_cross.Sim.SysCall.Cases.{Sys, emulate, close_file}
use veri_cross.Sim.SysCall.Table.{IsTable, init-IsTable}
use veri_cross.Sim.SysCall.Laws.{emulate-IsTable, close_file-standard}
use veri_cross.Sim.SysCall.Step.{InStep, emulate-InStep}
use veri_cross.Sim.SysCall.Paths.{IsText, read_path-IsText}
use veri_cross.Tests.Cores.{reset, zero_byte, zero_byte-store}
use veri_cross.Tests.Memory.{fresh, fresh-IsSized}

-- A host whose files are empty and whose `open` gives 7.
abbrev pub quiet : Host
quiet = record {
  World = ℕ;
  Stat = ℕ;
  errno = λ w. 2;
  close = λ fd w. (w + 1, 0);
  lseek = λ fd offset whence w. (w, 0);
  read = λ fd size w. (w, [], 0);
  write = λ fd bytes size w. (w + fd, size);
  fstat = λ fd w. (w, 0, 0);
  open_path = λ path flags mode w. (w, 7);
  stat = λ path w. (w, 0, 0);
  st_size = λ st. 0;
  stamp = λ st vtime nsec blocks. st;
  words = λ st. [];
}

-- The letter `a` and its NUL, in each word of the memory of one core.
abbrev letters : Memory
letters = record {
  num_reps = 0;
  if_prim = idle;
  if_reps = [];
  wb_prim = [];
  wb_reps = [];
  mem = λ x. 0x61;
  nwords = mem_words;
}

-- Two cores that call `open`.
abbrev opening : FunctionalCore
opening = record reset { reg = set_reg (λ _. 0) 17 sc_open }

abbrev calling : Sys functional quiet
calling = record {
  first = opening;
  others = opening ∷ [];
  mem = letters;
  world = 0;
  sys = SysCall.init 0 1 2 0x20000;
}

emulate-IsTable_example : IsTable 0 1 2 (emulate functional quiet calling).sys
emulate-IsTable_example =
    emulate-IsTable functional quiet calling 0 1 2 (init-IsTable 0 1 2 0x20000)

emulate-InStep_example : InStep functional quiet calling (emulate functional quiet calling)
emulate-InStep_example = emulate-InStep functional quiet calling

close_file-standard_example :
    ((close_file functional quiet calling).world ≡ 0)
    × ((close_file functional quiet calling).first ≡ functional.write_reg opening reg_a0 0)
unfolding read_reg FunctionalCore.read_reg
close_file-standard_example =
    close_file-standard functional quiet calling (init-IsTable 0 1 2 0x20000) (inl (omega arith))

-- The same call once more.
abbrev again : Sys functional quiet
again = record calling { sys = (emulate functional quiet calling).sys }

-- After a further call of `open`, a core that calls `write` for the descriptor of the first one.
abbrev writing : Sys functional quiet
writing = record {
  first = record reset { reg = set_reg (set_reg (λ _. 0) 17 sc_write) 10 3 };
  others = [];
  mem = letters;
  world = 5;
  sys = (emulate functional quiet again).sys;
}

read_path-IsText_example : IsText letters 0x1001 0 4096 (read_path letters 0x1001)
read_path-IsText_example = read_path-IsText letters 0x1001

get_log-store_example :
    let line =
      store_line 0
        (zero_byte 1)
        fresh
        refl
        fresh-IsSized
        (omega arith)
        (omega arith)
        refl
        zero_byte-store in
    (get_log (log_info 0 (zero_byte 1) (some fresh)) ≡ line)
    × (get_log (
          log_info 0 (zero_byte 1) (
            some (
              stored 0
                (zero_byte 1)
                fresh
                refl
                fresh-IsSized
                (omega arith)
                (omega arith)
                refl
                zero_byte-store)))
        ≡ line)
get_log-store_example =
    get_log-store 0 (zero_byte 1) fresh refl fresh-IsSized (omega arith) (omega arith) refl
      zero_byte-store

-- `lh a0, 2(sp)` in each word of the memory of one core.
abbrev load_half : ℕ
load_half = 0x00211503

abbrev halves : Memory
halves = record letters { mem = λ x. load_half }

halves-IsSized : IsSized halves
halves-IsSized = record {
  valid = record { reps = refl; sorted = tt };
  size = refl;
  words = λ j x. unfold view lookup in omega arith;
}

halves-load : is_load (fetched reset halves).instr_id ≡ true
unfolding fetched decode identify decode_op read read_words read_4b view lookup
halves-load = refl

halves-even : data_addr reset halves (fetched reset halves) reset.memif % 2 ≡ 0
unfolding fetched decode identify decode_op get_imm read read_words read_4b view lookup
halves-even = refl

drive-get_log_example :
    (c' : FunctionalCore) × (drive reset halves ≡ returns c' true)
    × (c'.instif.result
        ≡ load_value
            (fetched reset halves).instr_id
            (word_of (read halves c'.instif.d_addr 4) / 2 ^ (c'.instif.d_baddr * 8)))
    × ((fetched reset halves).rd ≢ 0 → c'.reg (fetched reset halves).rd ≡ c'.instif.result)
    × (get_log (log_info 0 c'.instif (some halves))
        ≡ sets
            (inst_str reset.pc (fetched reset halves).ir)
            (fetched reset halves).rd
            c'.instif.result)
drive-get_log_example =
    drive-get_log reset halves halves-IsSized 0 refl halves-load (λ h. halves-even)
