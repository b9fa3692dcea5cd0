-- ===== src/Tests/Cores.antt =====
-- The reference core and the validator on concrete instructions.
use veri_cross.Base.{ℕ, ◌≡◌, ◌≢◌, ◌≤◌, ◌↔◌, refl, arith, true, false, []}
use veri_cross.Sim.Common.{CoreInstructionIf, initial_pc, initial_sp, expand_wmask, mem_words}
use veri_cross.Sim.Memory.{Memory, merge}
use veri_cross.Sim.Memory.Ports.{idle}
use veri_cross.Sim.Riscv.{slli}
use veri_cross.Sim.Riscv.Decode.{decode, identify, decode_op}
use veri_cross.Sim.Riscv.Isa.{is_known, is_store}
use veri_cross.Sim.FunctionalCore.{FunctionalCore, init, bind_memory, set_reg}
use veri_cross.Sim.FunctionalCore.Exec.{Driven, fetched, drive}
use veri_cross.Sim.FunctionalCore.Laws.{
  Returns, Retired, drive_registers, drive_retires, drive-undefined_iff,
}
use veri_cross.Sim.Validator.{validate, Agree, validate_iff, validate_mask_gap, all_ones}

-- `sb zero, 0(sp)` in the log, with a mask.
abbrev pub zero_byte : ℕ → CoreInstructionIf
zero_byte mask = record {
  valid = 1;
  pc = 0x10000;
  ir = 0x00010023;
  rd = 0;
  result = 0;
  d_addr = 0x1e6400;
  d_wdata = 0;
  d_wmask = mask;
  d_baddr = 0;
}

pub zero_byte-store : is_store (decode 0x10000 0x00010023).instr_id ≡ true
unfolding decode identify decode_op
zero_byte-store = refl

zero_byte-known : is_known (decode 0x10000 0x00010023).instr_id ≡ true
unfolding decode identify decode_op
zero_byte-known = refl

validate_iff_example :
    ((validate (zero_byte 1) (zero_byte 2)).1 ≡ true) ↔ Agree (zero_byte 1) (zero_byte 2)
validate_iff_example = validate_iff (zero_byte 1) (zero_byte 2) zero_byte-known

validate_mask_gap_example :
    ((validate (zero_byte 1) (zero_byte 2)).1 ≡ true)
    × (merge all_ones 0 (expand_wmask 1) ≢ merge all_ones 0 (expand_wmask 2))
validate_mask_gap_example =
    validate_mask_gap (zero_byte 1) (zero_byte 2) refl refl zero_byte-store refl refl refl
      (omega arith) (omega arith) (omega arith)

-- A memory of one core that holds an instruction in every word, and the core after reset.
abbrev pub filled : ℕ → Memory
filled w = record {
  num_reps = 0;
  if_prim = idle;
  if_reps = [];
  wb_prim = [];
  wb_reps = [];
  mem = λ _. w;
  nwords = mem_words;
}

abbrev pub reset : FunctionalCore
reset = record {
  halt = false;
  cnt_inst = 0;
  cnt_cycle = 0;
  instif = zero_byte 0;
  memif = idle;
  bound = true;
  reg = set_reg (λ _. 0) 2 initial_sp;
  pc = initial_pc;
}

reset_core : bind_memory (init (zero_byte 0) idle) ≡ reset
unfolding init bind_memory
reset_core = refl

drive_registers_example :
    Returns
      (λ c' b.
        (c'.reg 0 ≡ 0)
        × ((r : ℕ) → r ≢ (fetched reset (filled 0x00010023)).rd → c'.reg r ≡ reset.reg r))
      (drive reset (filled 0x00010023))
drive_registers_example = drive_registers reset (filled 0x00010023) refl

drive_retires_example :
    Returns (Retired reset (filled 0x00010023)) (drive reset (filled 0x00010023))
drive_retires_example = drive_retires reset (filled 0x00010023)

-- The word that the core reads as `slli` with an immediate of 1024.
drive-undefined_iff_example : (drive reset (filled 0x40011113) ≡ Driven.undefined) ↔ (
    ((fetched reset (filled 0x40011113)).instr_id ≡ slli)
    × (32 ≤ (fetched reset (filled 0x40011113)).imm))
drive-undefined_iff_example = drive-undefined_iff reset (filled 0x40011113) refl
