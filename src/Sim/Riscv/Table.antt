-- ===== src/Sim/Riscv/Table.antt =====
-- The tables of the decoder, checked row by row: a test that every row passes holds of every
-- decoded word.
use veri_cross.Base.{ℕ, ◌/◌, ◌^◌, ◌≡◌, arith, bit_and}
use veri_cross.Base.{Bool, true, false, not, ◌==◌, Bool-cases, inl, inr, all_below, all_below_sound}
use veri_cross.Bits.{bit_and-ones}
use veri_cross.Sim.Common.{test}
use veri_cross.Sim.Riscv.{Inst, unknown, ecall, ebreak, mret, wfi}
use veri_cross.Sim.Riscv.Decode.{
  decode_op, system_id, identify, decode, opcode, funct3, funct7, imm_i,
}

abbrev pub agree : Bool → Bool → Bool
agree true b = b
agree false b = not b

module _ (check : Inst × ℕ → Bool) where
  abbrev table : Bool → Inst → Bool
  table alt id = all_below 32 (λ op. all_below 8 (λ f3. check (decode_op op f3 alt id)))

  abbrev pub Rows : Bool → Type 0
  Rows alt =
      (table alt ecall ≡ true)
      × (table alt ebreak ≡ true)
      × (table alt mret ≡ true)
      × (table alt wfi ≡ true)
      × (table alt unknown ≡ true)

  module _ (rows : (alt : Bool) → Rows alt) where
    system_id-table : (alt : Bool) (n : ℕ) → table alt (system_id n) ≡ true
    unfolding system_id
    system_id-table alt n = elim (Bool-cases (n == 0x000)) [
      | inl e ↦ rw e (rows alt).0
      | inr e ↦ elim (Bool-cases (n == 0x001)) [
        | inl f ↦ rw (e, f) (rows alt).1
        | inr f ↦ elim (Bool-cases (n == 0x302)) [
          | inl g ↦ rw (e, f, g) (rows alt).2
          | inr g ↦ elim (Bool-cases (n == 0x105)) [
            | inl h ↦ rw (e, f, g, h) (rows alt).3
            | inr h ↦ rw (e, f, g, h) (rows alt).4
          ]
        ]
      ]
    ]

    identify_table : (ir : ℕ) → check (identify ir) ≡ true
    unfolding identify
    identify_table ir =
        all_below_sound 8
          (λ f3. check (
            decode_op (opcode ir) f3 (test (bit_and (funct7 ir) 0b0100000)) (system_id (imm_i ir))))
          (funct3 ir)
          (all_below_sound 32
            (λ op. all_below 8 (λ f3.
              check
                (decode_op op f3 (test (bit_and (funct7 ir) 0b0100000)) (system_id (imm_i ir)))))
            (opcode ir) (system_id-table (test (bit_and (funct7 ir) 0b0100000)) (imm_i ir))
            (omega (arith, bit_and-ones 5 (ir / 2 ^ 2))))
          (omega (arith, bit_and-ones 3 (ir / 2 ^ 12)))

    -- `short` is the row of a word that is no 32-bit instruction.
    pub decode_table :
        check (unknown, 0) ≡ true
        → (pc ir : ℕ) → check ((decode pc ir).instr_id, (decode pc ir).attr) ≡ true
    unfolding decode
    decode_table short pc ir = elim (Bool-cases (bit_and ir 0x3 == 0x3)) [
      | inl e ↦ rw e (identify_table ir)
      | inr e ↦ rw e short
    ]
