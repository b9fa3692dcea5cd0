-- ===== src/Tests/Riscv.antt =====
-- The decoder and the loader's jump at concrete words.
use veri_cross.Base.{ℕ, ◌≡◌, refl, arith, true, ◌&&◌, bit_and}
use veri_cross.Sim.Common.{test, initial_pc, sub32}
use veri_cross.Sim.Riscv.{jal, reg_zero, log_load, log_store, log_rd}
use veri_cross.Sim.Riscv.Decode.{decode, identify, decode_op}
use veri_cross.Sim.Riscv.Imm.{get_imm}
use veri_cross.Sim.Riscv.Isa.{immediate, format_of, is_known, is_load, is_store, writes_rd}
use veri_cross.Sim.Riscv.Flags.{decode-immediate, decode_flags}
use veri_cross.Sim.Loader.{make_jal, make_jal-start}

-- `lw a0, -4(sp)`
abbrev load_word : ℕ
load_word = 0xffc12503

load_word-known : is_known (decode 0x10000 load_word).instr_id ≡ true
unfolding decode identify decode_op
load_word-known = refl

decode-immediate_example :
    (decode 0x10000 load_word).imm
    ≡ immediate (format_of (decode 0x10000 load_word).instr_id) load_word
decode-immediate_example = decode-immediate 0x10000 load_word (omega arith) load_word-known

decode_flags_example :
    (test (bit_and (decode 0x10000 load_word).attr log_load)
      ≡ is_load (decode 0x10000 load_word).instr_id)
    × (test (bit_and (decode 0x10000 load_word).attr log_store)
        ≡ is_store (decode 0x10000 load_word).instr_id)
    × ((is_known (decode 0x10000 load_word).instr_id
          && test (bit_and (decode 0x10000 load_word).attr log_rd))
        ≡ writes_rd (decode 0x10000 load_word).instr_id)
decode_flags_example = decode_flags 0x10000 load_word

make_jal-start_example :
    let inst = decode initial_pc (make_jal (sub32 0x10054 initial_pc)) in
    (inst.instr_id ≡ jal) × (inst.rd ≡ reg_zero) × (inst.npc ≡ 0x10054)
make_jal-start_example = make_jal-start 0x10054 (omega arith) (omega arith) (omega arith)

-- The immediate of the load is -4.
load_word_offset : (decode 0x10000 load_word).imm ≡ 0xfffffffc
unfolding decode identify decode_op get_imm
load_word_offset = refl
