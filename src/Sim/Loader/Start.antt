-- ===== src/Sim/Loader/Start.antt =====
-- The first instruction of the reference core, after the loader's sections were written.
use veri_cross.Base.{
  ℕ, ◌+◌, ◌%◌, ◌^◌, ◌<◌, ◌≡◌, ◌≢◌, refl, sym, ap, ◌∙◌, subst, arith, ==-ne, some, true, List,
}
use veri_cross.Sim.Common.{CoreMemoryIf, add32, initial_pc, sub32}
use veri_cross.Sim.Memory.{Memory}
use veri_cross.Sim.Memory.Bytes.{read, word_of}
use veri_cross.Sim.Memory.Bytes.Single.{IsSized}
use veri_cross.Sim.Riscv.{RiscVInstruction, jal, reg_zero}
use veri_cross.Sim.Riscv.Decode.{decode}
use veri_cross.Sim.FunctionalCore.{FunctionalCore, set_reg}
use veri_cross.Sim.FunctionalCore.Exec.{
  Effect, done, returns, begin, fetched, execute, retire, conclude, drive,
}
use veri_cross.Sim.FunctionalCore.Laws.{running, drive_running}
use veri_cross.Sim.Loader.{make_jal, make_jal-start}
use veri_cross.Sim.Loader.Files.{get_lines, find_start}
use veri_cross.Sim.Loader.Image.{Section, Files, loaded, load, write_sections}
use veri_cross.Sim.Loader.Boot.{Labels, load-IsImage}

execute_jal :
    (c : FunctionalCore) (m : Memory) (inst : RiscVInstruction) (p : CoreMemoryIf)
    → (e : Effect) × (execute c m inst p jal ≡ done e)
      × (e.npc ≡ inst.npc)
      × (e.reg ≡ set_reg c.reg inst.rd (add32 c.pc 4))
unfolding execute
execute_jal c m inst p = (
  record { reg = set_reg c.reg inst.rd (add32 c.pc 4); npc = inst.npc; memif = p; baddr = 0 },
  refl,
  refl,
  refl,
)

-- What `drive` does with a jump that has register 0 as its destination.
drive_jump :
    (c : FunctionalCore) (m : Memory)
    → running c ≡ true
    → (fetched c m).instr_id ≡ jal
    → (fetched c m).rd ≡ reg_zero
    → (c' : FunctionalCore) × (drive c m ≡ returns c' true)
      × (c'.pc ≡ (fetched c m).npc)
      × ((r : ℕ) → r ≢ 0 → c'.reg r ≡ c.reg r)
drive_jump c m on id rd =
    let (e, runs, npc, reg) = execute_jal (begin c) m (fetched c m) (begin c).memif in
    (
      retire (begin c) (fetched c m) e,
      drive_running c m on
          ∙ ap (conclude (begin c) (fetched c m))
              (ap (execute (begin c) m (fetched c m) (begin c).memif) id ∙ runs)
          ∙ unfold conclude in refl,
      unfold retire in npc,
      λ r ne.
          unfold retire in
          rw (==-ne reg_zero r (λ z. ne (sym z))) (
            ap (λ g. g r) reg ∙ unfold begin in kept c.reg (fetched c m).rd r (add32 c.pc 4) rd ne),
    )
  where
    kept : (reg : ℕ → ℕ) (rd r v : ℕ) → rd ≡ reg_zero → r ≢ 0 → set_reg reg rd v r ≡ reg r
    kept reg rd r v e ne = ground (arith, e)

-- For a memory of the program's size: if the constructor gives a valid loader, and the address that
-- its loop finds in the dump is even and less than a mebibyte above the initial PC, then the dump
-- labels this address with `_start`; and a running reference core whose PC is the initial one, with
-- the memory into which the sections were written, executes an instruction that sets the PC to this
-- address and changes no register but register 0.
pub drive-load :
    (f : Files) (m : Memory) (sections : List Section) (brk : ℕ) (dump : List ℕ)
    (c : FunctionalCore)
    → IsSized m
    → f.dump ≡ some dump
    → load f ≡ loaded sections brk
    → let start = (find_start (get_lines dump) 0).1 in
      start % 2 ≡ 0
      → start < initial_pc + 2 ^ 20
      → running c ≡ true
      → c.pc ≡ initial_pc
      → Labels start (get_lines dump)
        × ((c' : FunctionalCore) × (drive c (write_sections sections m) ≡ returns c' true)
            × (c'.pc ≡ start)
            × ((r : ℕ) → r ≢ 0 → c'.reg r ≡ c.reg r))
drive-load f m sections brk dump c s opened e even near on at_pc =
    let image = load-IsImage f m sections brk s e in
    let same : image.dump ≡ dump = some_injective (sym image.opened ∙ opened) in
    let start : image.start ≡ (find_start (get_lines dump) 0).1 =
      image.found ∙ ap (λ d. (find_start (get_lines d) 0).1) same in
    let jump =
      make_jal-start image.start (omega (arith, start, near)) (ap (λ a. a % 2) start ∙ even)
        (omega (arith, start, near)) in
    let inst : fetched c (write_sections sections m)
        ≡ decode initial_pc (make_jal (sub32 image.start initial_pc)) =
      unfold fetched in
      (ap (λ pc. decode pc (word_of (read (write_sections sections m) pc 4))) at_pc
        ∙ ap (decode initial_pc) image.first) in
    let (c', runs, target, kept) =
      drive_jump c (write_sections sections m) on (ap (λ i. i.instr_id) inst ∙ jump.0)
        (ap (λ i. i.rd) inst ∙ jump.1) in
    (
      subst (λ a. Labels a (get_lines dump)) start
          (subst (λ d. Labels image.start (get_lines d)) same image.labelled),
      (c', runs, target ∙ ap (λ i. i.npc) inst ∙ jump.2 ∙ start, kept),
    )
  where
    some_injective : {a b : List ℕ} → some a ≡ some b → a ≡ b
    some_injective e = cc
