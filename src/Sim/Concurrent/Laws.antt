-- ===== src/Sim/Concurrent/Laws.antt =====
-- The main loop for two cores: it ends, and it goes on only while the cores agree.
use veri_cross.Base.{ℕ, sym, ◌≡◌, ◌⊎◌, inl, inr, refl}
use veri_cross.Base.{Bool-cases}
use veri_cross.Base.{Bool, true, false, Option, none, some}
use veri_cross.Sim.Common.{vcore_timeout}
use veri_cross.Sim.Core.{CoreClass, CoreLaws}
use veri_cross.Sim.SysCall.{Host}
use veri_cross.Sim.Validator.{Validator, validate, Agree, validate-Agree}
use veri_cross.Sim.Loop.{then_some, bind_some}
use veri_cross.Sim.Concurrent.{
  Pair, Report, wait, waiting, functional_part, verilated_part, mismatch, logged, compare_cores,
  verilated_round, concurrent_round,
}
use veri_cross.Sim.Concurrent.Cores.{call_system-instif, call_system-report}

-- The report, if there is one, is for a given instruction, with the differences found.
abbrev pub Names : Option Report → ℕ → Validator → Type 0
Names none number vld = ⊥
Names (some r) number vld = (r.instruction ≡ number) × (r.difference ≡ vld)

module _ {C : Type 0} (core : CoreClass C) (h : Host) (log : Bool)
    (max_insts mismatch_insts unset : ℕ) (laws : CoreLaws core) where
  -- What the validator says of the logged instructions of the two cores.
  abbrev pub verdict : Pair core h → Validator × Bool
  verdict l = validate (core.instif l.fcore) (core.instif l.vcore)

  -- Either the validator accepts the logged instructions, they agree and there is no new report; or
  -- it does not, there is a report of its differences, and both cores are halted.
  abbrev pub Compared : Option Report → Pair core h → Type 0
  Compared old l =
      (((verdict l).1 ≡ true)
        × Agree (core.instif l.fcore) (core.instif l.vcore)
        × (l.report ≡ old))
      ⊎ (((verdict l).1 ≡ false)
          × Names l.report (core.cnt_inst l.fcore) (verdict l).0
          × (core.halt l.fcore ≡ true)
          × (core.halt l.vcore ≡ true))

  logged-instif :
      (l : Pair core h)
      → let l' = logged core h log max_insts mismatch_insts unset l in
        (core.instif l'.fcore ≡ core.instif l.fcore)
        × (core.instif l'.vcore ≡ core.instif l.vcore)
        × (l'.report ≡ l.report)
  unfolding logged
  logged-instif l =
      let kept = call_system-instif core h log max_insts mismatch_insts unset laws _ in
      (kept.0, kept.1, call_system-report core h log max_insts mismatch_insts unset laws _)

  compare_cores-Compared :
      (l : Pair core h)
      → Compared l.report (compare_cores core h log max_insts mismatch_insts unset l)
  unfolding compare_cores mismatch
  compare_cores-Compared l =
      elim (Bool-cases (validate (core.instif l.fcore) (core.instif l.vcore)).1) [
        | inl e ↦
            let kept = logged-instif l in
            rw e (
              inl (
                rw (kept.0, kept.1) e,
                rw (kept.0, kept.1) (validate-Agree (core.instif l.fcore) (core.instif l.vcore) e),
                kept.2,
              ))
        | inr e ↦ rw e (
            inr (
              rw (laws.instif-set_halt l.fcore, laws.instif-set_halt l.vcore) e,
              (
                sym (laws.cnt_inst-set_halt l.fcore),
                rw (laws.instif-set_halt l.fcore, laws.instif-set_halt l.vcore) refl,
              ),
              laws.halt-set_halt l.fcore,
              laws.halt-set_halt l.vcore,
            ))
      ]

  -- With cores that assignments from outside leave alone otherwise, and after a round of the loop
  -- that is not undefined: the validator accepts the logged instructions of the two cores, they
  -- agree in what they do, and the report is as before; or the validator does not accept them, the
  -- report has the number of the instruction and the validator's differences, and both cores are
  -- halted.
  pub concurrent_round-Compared :
      (l l' : Pair core h)
      → concurrent_round core h log max_insts mismatch_insts unset l ≡ some l'
      → Compared l.report l'
  unfolding concurrent_round verilated_round functional_part verilated_part
  concurrent_round-Compared l l' e =
      let (driven, runs, rest) =
        bind_some (core.drive l.fcore l.mem)
          (λ d.
            verilated_round core h log max_insts mismatch_insts unset
              (functional_part core h log max_insts mismatch_insts unset l d.0 d.1))
          l' e in
      let l1 = functional_part core h log max_insts mismatch_insts unset l driven.0 driven.1 in
      let (waited, comes, same) =
        then_some (wait core h vcore_timeout (waiting core h log max_insts mismatch_insts unset l1))
          (λ w.
            compare_cores core h log max_insts mismatch_insts unset
              (verilated_part core h log max_insts mismatch_insts unset l1 w.0 w.1))
          l' rest in
      rw same (
        compare_cores-Compared
          (verilated_part core h log max_insts mismatch_insts unset l1 waited.0 waited.1))
