-- ===== src/Sim/FunctionalCore/Laws.antt =====
-- What one call of `drive` may change, and where it goes next.
use veri_cross.Base.{ℕ, ◌+◌, ◌%◌, ◌^◌, ◌≤◌, ◌≡◌, ◌≢◌, ◌↔◌, refl, sym, ap, ◌∙◌, arith}
use veri_cross.Base.{Bool, true, false, ◌||◌, not, ltb, Bool-cases, inl, inr}
use veri_cross.Sim.Common.{CoreMemoryIf}
use veri_cross.Sim.Memory.{Memory}
use veri_cross.Sim.Riscv.{Inst, RiscVInstruction, lui, slli, unknown}
use veri_cross.Sim.FunctionalCore.{FunctionalCore}
use veri_cross.Sim.FunctionalCore.Exec.{
  Effect, Executed, done, unrecognised, execute, Driven, returns, begin, fetched, retire, conclude,
  drive,
}

-- A condition on the effect, where there is one.
abbrev pub Done : (Effect → Type 0) → Executed → Type 0
Done P (done e) = P e
Done P unrecognised = Unit
Done P Executed.undefined = Unit

module _ (c : FunctionalCore) (m : Memory) (inst : RiscVInstruction) (p : CoreMemoryIf) where
  -- No case writes a register but `rd`.
  execute_frame :
      (id : Inst) (r : ℕ) → Done (λ e. inst.rd ≢ r → e.reg r ≡ c.reg r) (execute c m inst p id)
  unfolding execute
  execute_frame lui r = ground arith
  execute_frame slli r = elim (Bool-cases (ltb inst.imm 32)) [
    | inl e ↦ rw e (ground arith)
    | inr e ↦ rw e tt
  ]
  execute_frame _ r = ground arith

  -- Only a shift by an immediate of 32 or more is undefined.
  execute-undefined :
      (id : Inst) → execute c m inst p id ≡ Executed.undefined → (id ≡ slli) × (32 ≤ inst.imm)
  unfolding execute
  execute-undefined lui h = cc
  execute-undefined slli h = elim (Bool-cases (ltb inst.imm 32)) [
    | inl e ↦ absurd (clash (rw e at h))
    | inr e ↦ (refl, ground arith)
  ]
    where
      clash : {e : Effect} → done e ≡ Executed.undefined → ⊥
      clash h = cc
  execute-undefined _ h = cc

  execute-unrecognised : (id : Inst) → execute c m inst p id ≡ unrecognised → id ≡ unknown
  unfolding execute
  execute-unrecognised unknown h = refl
  execute-unrecognised slli h = elim (Bool-cases (ltb inst.imm 32)) [
    | inl e ↦ absurd (clash (rw e at h))
    | inr e ↦ absurd (clash' (rw e at h))
  ]
    where
      clash : {e : Effect} → done e ≡ unrecognised → ⊥
      clash h = cc

      clash' : Executed.undefined ≡ unrecognised → ⊥
      clash' h = cc
  execute-unrecognised _ h = cc

execute_slli :
    (c : FunctionalCore) (m : Memory) (inst : RiscVInstruction) (p : CoreMemoryIf)
    → 32 ≤ inst.imm
    → execute c m inst p slli ≡ Executed.undefined
unfolding execute
execute_slli c m inst p h = ground arith

conclude-undefined :
    (c : FunctionalCore) (inst : RiscVInstruction) (x : Executed)
    → conclude c inst x ≡ Driven.undefined
    → x ≡ Executed.undefined
unfolding conclude
conclude-undefined c inst (done e) h = cc
conclude-undefined c inst unrecognised h = cc
conclude-undefined c inst Executed.undefined h = refl

abbrev pub running : FunctionalCore → Bool
running c = not (c.halt || not c.bound)

-- A condition on the core and the result of `drive`, where it is defined.
abbrev pub Returns : (FunctionalCore → Bool → Type 0) → Driven → Type 0
Returns P (returns c b) = P c b
Returns P Driven.undefined = Unit

-- Properties of `drive` from those of the cases.
drive_rule :
    (P : FunctionalCore → Bool → Type 0) (c : FunctionalCore) (m : Memory)
    → P c false
    → P (begin c) false
    → Done
        (λ e. P (retire (begin c) (fetched c m) e) true)
        (execute (begin c) m (fetched c m) (begin c).memif (fetched c m).instr_id)
    → Returns P (drive c m)
unfolding drive conclude
drive_rule P c m stopped unknown_op executed = elim (Bool-cases (c.halt || not c.bound)) [
  | inl e ↦ rw e stopped
  | inr e ↦ rw e (
      concluded (execute (begin c) m (fetched c m) (begin c).memif (fetched c m).instr_id) executed)
]
  where
    concluded :
        (x : Executed)
        → Done (λ e. P (retire (begin c) (fetched c m) e) true) x
        → Returns P (conclude (begin c) (fetched c m) x)
    concluded (done e) h = h
    concluded unrecognised h = unknown_op
    concluded Executed.undefined h = tt

Done-map : (P Q : Effect → Type 0) (x : Executed) → ((e : Effect) → P e → Q e) → Done P x → Done Q x
Done-map P Q (done e) f h = f e h
Done-map P Q unrecognised f h = tt
Done-map P Q Executed.undefined f h = tt

Done-pi :
    (P : ℕ → Effect → Type 0) (x : Executed)
    → ((r : ℕ) → Done (P r) x)
    → Done (λ e. (r : ℕ) → P r e) x
Done-pi P (done e) f = f
Done-pi P unrecognised f = tt
Done-pi P Executed.undefined f = tt

-- If register 0 holds 0, it does so after `drive`, and no register but the destination of the
-- fetched word changes, whether the instruction is executed or not.
pub drive_registers :
    (c : FunctionalCore) (m : Memory)
    → c.reg 0 ≡ 0
    → Returns
        (λ c' b. (c'.reg 0 ≡ 0) × ((r : ℕ) → r ≢ (fetched c m).rd → c'.reg r ≡ c.reg r))
        (drive c m)
drive_registers c m h0 =
    drive_rule (λ c' b. (c'.reg 0 ≡ 0) × ((r : ℕ) → r ≢ (fetched c m).rd → c'.reg r ≡ c.reg r)) c m
      (h0, λ r ne. refl) (unfold begin in (h0, λ r ne. refl))
      (Done-map (λ e. (r : ℕ) → (fetched c m).rd ≢ r → e.reg r ≡ c.reg r)
        (λ e.
          ((retire (begin c) (fetched c m) e).reg 0 ≡ 0)
          × ((r : ℕ) → r ≢ (fetched c m).rd → (retire (begin c) (fetched c m) e).reg r ≡ c.reg r))
        (execute (begin c) m (fetched c m) (begin c).memif (fetched c m).instr_id)
        (λ e f. unfold retire in (refl, λ r ne. ground (arith, f r (λ q. ne (sym q)))))
        (Done-pi (λ r e. (fetched c m).rd ≢ r → e.reg r ≡ c.reg r)
          (execute (begin c) m (fetched c m) (begin c).memif (fetched c m).instr_id)
          λ r.
            unfold begin in
            execute_frame (begin c) m (fetched c m) (begin c).memif (fetched c m).instr_id r))

Done-all : (P : Effect → Type 0) (x : Executed) → ((e : Effect) → P e) → Done P x
Done-all P (done e) f = f e
Done-all P unrecognised f = tt
Done-all P Executed.undefined f = tt

-- After an executed instruction: it is counted and logged. Otherwise the state is as before.
abbrev pub Retired : FunctionalCore → Memory → FunctionalCore → Bool → Type 0
Retired c m c' true =
    (c'.cnt_inst ≡ (c.cnt_inst + 1) % 2 ^ 64)
    × (c'.instif.valid ≡ 1)
    × (c'.instif.pc ≡ c.pc)
    × (c'.instif.ir ≡ (fetched c m).ir)
Retired c m c' false = (c'.cnt_inst ≡ c.cnt_inst) × (c'.pc ≡ c.pc) × (c'.reg ≡ c.reg)

-- Where `drive` is defined: if it returns true, the instruction count has gone up by one (modulo
-- 2 ^ 64) and the logged instruction is the fetched one at the old PC; if it returns false, the
-- count, the PC and the registers are as before.
pub drive_retires : (c : FunctionalCore) (m : Memory) → Returns (Retired c m) (drive c m)
drive_retires c m =
    drive_rule (Retired c m) c m (refl, refl, refl) (unfold begin in (refl, refl, refl))
      (Done-all (λ e. Retired c m (retire (begin c) (fetched c m) e) true)
        (execute (begin c) m (fetched c m) (begin c).memif (fetched c m).instr_id)
        (λ e. unfold retire begin in (refl, refl, refl, refl)))

module _ (c : FunctionalCore) (m : Memory) (on : running c ≡ true) where
  abbrev pub executing : Executed
  executing = execute (begin c) m (fetched c m) (begin c).memif (fetched c m).instr_id

  pub drive_running : drive c m ≡ conclude (begin c) (fetched c m) executing
  unfolding drive
  drive_running = elim (Bool-cases (c.halt || not c.bound)) [
    | inl e ↦ absurd (ground arith)
    | inr e ↦ rw e
  ]

  -- For a running core, `drive` is undefined exactly if the fetched word is an `slli` whose
  -- immediate is 32 or more.
  pub drive-undefined_iff :
      (drive c m ≡ Driven.undefined) ↔ (((fetched c m).instr_id ≡ slli) × (32 ≤ (fetched c m).imm))
  drive-undefined_iff = (
    λ h.
        execute-undefined (begin c) m (fetched c m) (begin c).memif (fetched c m).instr_id
          (conclude-undefined (begin c) (fetched c m) executing (sym drive_running ∙ h)),
    λ h.
        drive_running
        ∙ ap (conclude (begin c) (fetched c m)) (
            ap (execute (begin c) m (fetched c m) (begin c).memif) h.0
            ∙ execute_slli (begin c) m (fetched c m) (begin c).memif h.1)
        ∙ unfold conclude in refl,
  )
