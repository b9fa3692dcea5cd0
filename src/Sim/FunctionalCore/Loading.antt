-- ===== src/Sim/FunctionalCore/Loading.antt =====
-- The loads of the reference core: what reaches the register, and what the log says of it.
use veri_cross.Bits.{bit_and-ones, bit_and-field}
use veri_cross.Base.{ℕ, ◌*◌, ◌/◌, ◌%◌, ◌^◌, ◌<◌, ◌≡◌, refl, sym, ap, ◌∙◌, arith, bit_and}
use veri_cross.Base.{◌≢◌, true, some, if◌then◌else◌, ==_refl, bit_or}
use veri_cross.Sim.Common.{test, mem_words, CoreMemoryIf}
use veri_cross.Sim.Memory.{Memory, primary}
use veri_cross.Sim.Memory.Bytes.{read, word_of}
use veri_cross.Sim.Memory.Bytes.Single.{IsSized}
use veri_cross.Sim.Riscv.{Inst, lb, lh, lw, lbu, lhu, RiscVInstruction}
use veri_cross.Sim.Riscv.Isa.{is_load}
use veri_cross.Sim.Riscv.Decode.{decode, decode_word}
use veri_cross.Sim.Riscv.Log.Lines.{inst_str, get_log-load}
use veri_cross.Sim.Riscv.Log.{log_info, get_log, sets}
use veri_cross.Sim.Riscv.Log.Fields.{load_value, is_half, extend_byte, extend_half}
use veri_cross.Sim.Riscv.Log.Loads.{aligned, word-aligned, word_of-byte, word_of-half}
use veri_cross.Sim.FunctionalCore.{FunctionalCore, set_reg}
use veri_cross.Sim.FunctionalCore.Exec.{
  Effect, done, execute, data_addr, returns, begin, fetched, retire, conclude, drive,
}
use veri_cross.Sim.FunctionalCore.Laws.{running, drive_running}

-- The value of the accessed byte address, as the log shifts to it.
abbrev accessed : Memory → Effect → ℕ
accessed m e = word_of (read m e.memif.d_addr 4) / 2 ^ (e.baddr * 8)

byte_address : (addr : ℕ) → bit_and addr 0x3 < 4
byte_address addr = omega (arith, bit_and-ones 2 addr)

half_address : (addr : ℕ) → bit_and addr 0x2 < 4
half_address addr = omega (arith, bit_and-field 1 1 addr)

set_reg_self : (reg : ℕ → ℕ) (rd v : ℕ) → set_reg reg rd v rd ≡ v
set_reg_self reg rd v = rw (==_refl rd)

module _ (m : Memory) (s : IsSized m) (addr : ℕ) (h : addr < 2 ^ 32) where
  abbrev whole : ℕ
  whole = word_of (read m (aligned addr) 4)

  load_byte : word_of (read m addr 1) ≡ whole / 2 ^ (bit_and addr 0x3 * 8) % 2 ^ 8
  load_byte =
      word_of-byte m s addr h
      ∙ ap (λ w. w / 2 ^ (bit_and addr 0x3 * 8) % 2 ^ 8) (sym (word-aligned m s addr h))

  load_half : addr % 2 ≡ 0 → word_of (read m addr 2) ≡ whole / 2 ^ (bit_and addr 0x2 * 8) % 2 ^ 16
  load_half even =
      word_of-half m s addr h even
      ∙ ap (λ w. w / 2 ^ (bit_and addr 0x2 * 8) % 2 ^ 16) (sym (word-aligned m s addr h))

  load_word : whole ≡ whole / 2 ^ (0 * 8) % 2 ^ 32
  load_word = omega (arith, word-aligned m s addr h, s.words primary (addr / 4 % mem_words))

module _ (c : FunctionalCore) (m : Memory) (inst : RiscVInstruction) (p : CoreMemoryIf)
    (s : IsSized m) where
  abbrev addr : ℕ
  addr = data_addr c m inst p

  addr-lt : addr < 2 ^ 32
  addr-lt = omega arith

  execute_load :
      (id : Inst)
      → is_load id ≡ true
      → (is_half id ≡ true → addr % 2 ≡ 0)
      → (e : Effect) × (execute c m inst p id ≡ done e)
        × (e.baddr < 4)
        × (e.reg inst.rd ≡ load_value id (accessed m e))
  unfolding execute
  execute_load lb l even = (
    _,
    refl,
    byte_address addr,
    set_reg_self c.reg inst.rd _
        ∙ ap (λ b. bit_or b (if test (bit_and b 0x80) then 0xffffff00 else 0))
            (load_byte m s addr addr-lt)
        ∙ extend_byte (whole m s addr addr-lt / 2 ^ (bit_and addr 0x3 * 8) % 2 ^ 8) (omega arith),
  )
  execute_load lh l even = (
    _,
    refl,
    half_address addr,
    set_reg_self c.reg inst.rd _
        ∙ ap (λ b. bit_or b (if test (bit_and b 0x8000) then 0xffff0000 else 0))
            (load_half m s addr addr-lt (even refl))
        ∙ extend_half (whole m s addr addr-lt / 2 ^ (bit_and addr 0x2 * 8) % 2 ^ 16) (omega arith),
  )
  execute_load lw l even =
      (_, refl, omega arith, set_reg_self c.reg inst.rd _ ∙ load_word m s addr addr-lt)
  execute_load lbu l even =
      (_, refl, byte_address addr, set_reg_self c.reg inst.rd _ ∙ load_byte m s addr addr-lt)
  execute_load lhu l even = (
    _,
    refl,
    half_address addr,
    set_reg_self c.reg inst.rd _ ∙ load_half m s addr addr-lt (even refl),
  )
  execute_load _ l even = absurd (ground arith)

module _ (c : FunctionalCore) (m : Memory) (s : IsSized m) where
  abbrev fetch_inst : RiscVInstruction
  fetch_inst = fetched c m

  -- The decoder, run again on what the core has logged, gives the same instruction.
  decode_again : decode c.pc fetch_inst.ir ≡ fetch_inst
  unfolding fetched
  decode_again =
      let fetch_ir : ℕ = word_of (read m c.pc 4) in ap (decode c.pc) (decode_word c.pc fetch_ir).1

  -- For a memory of the program's size and a running core that fetches a load, if of a half-word
  -- then at an even address: `drive` executes it, the logged result is the value that the manual
  -- gives for the memory word at the logged address, shifted to the logged byte address, and so is
  -- the register, if it is not register 0; and `get_log`, with the memory as it is then, prints
  -- this result.
  pub drive-get_log :
      (unset : ℕ)
      → running c ≡ true
      → is_load fetch_inst.instr_id ≡ true
      → (is_half fetch_inst.instr_id ≡ true → data_addr c m fetch_inst c.memif % 2 ≡ 0)
      → (c' : FunctionalCore) × (drive c m ≡ returns c' true)
        × (c'.instif.result
            ≡ load_value fetch_inst.instr_id
                (word_of (read m c'.instif.d_addr 4) / 2 ^ (c'.instif.d_baddr * 8)))
        × (fetch_inst.rd ≢ 0 → c'.reg fetch_inst.rd ≡ c'.instif.result)
        × (get_log (log_info unset c'.instif (some m))
            ≡ sets (inst_str c.pc fetch_inst.ir) fetch_inst.rd c'.instif.result)
  drive-get_log unset on l even =
      let (e, runs, near, value) =
        execute_load (begin c) m fetch_inst (begin c).memif s fetch_inst.instr_id l
          (unfold begin in even) in
      let again : is_load (decode c.pc fetch_inst.ir).instr_id ≡ true = rw decode_again l in
      (
        retire (begin c) fetch_inst e,
        drive_running c m on ∙ ap (conclude (begin c) fetch_inst) runs ∙ unfold conclude in refl,
        unfold retire in value,
        λ ne. unfold retire in ground arith,
        unfold retire begin in
            get_log-load unset (retire (begin c) fetch_inst e).instif m refl again near
            ∙ ap (sets (inst_str c.pc fetch_inst.ir) fetch_inst.rd)
                (ap (λ i. load_value i.instr_id (accessed m e)) decode_again ∙ sym value),
      )
