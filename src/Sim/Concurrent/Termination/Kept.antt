-- ===== src/Sim/Concurrent/Termination/Kept.antt =====
-- What a round of the concurrent loop does to the log and the ring buffer.
use veri_cross.Base.{
  ℕ, suc, ◌+◌, ◌-◌, ◌^◌, ◌<◌, ◌≡◌, ◌⊎◌, inl, inr, refl, sym, ap, ap₂, subst, ◌∙◌, arith,
}
use veri_cross.Base.{◌==◌, ==_iff, leb, Bool-cases}
use veri_cross.Base.{Bool, true, false, Option, none, some, List, ◌∷◌, length}
use veri_cross.Sim.Common.{vcore_timeout}
use veri_cross.Sim.Core.{CoreClass, CoreLaws, IsReference}
use veri_cross.Sim.SysCall.{Host}
use veri_cross.Sim.Validator.{validate}
use veri_cross.Sim.Riscv.Log.{RiscVLogInfo, Line, log_info, get_log}
use veri_cross.Sim.Loop.{then_some, bind_some}
use veri_cross.Sim.Concurrent.{
  Report, Pair, wait, waiting, functional_part, verilated_part, mismatch, logged, call_system,
  compare_cores, verilated_round, concurrent_round, over,
}
use veri_cross.Sim.Concurrent.Cores.{call_system-kind, call_system-report}
use veri_cross.Sim.Concurrent.Ring.{store, show}
use veri_cross.Sim.Concurrent.Ring.Lines.{
  last_lines, Shown, texts, length-texts, buffer_of, show-last_lines,
}
use veri_cross.Sim.Concurrent.Termination.{Goes, functional_part-Goes, compare_cores-Goes}

module _ {C : Type 0} (core : CoreClass C) (h : Host) (max_insts n unset : ℕ) (pos : 0 < n)
    (laws : CoreLaws core) (R : C → Type 0) (reference : IsReference core R)
    (small : max_insts + 1 < 2 ^ 64) where
  -- The log and the ring buffer have an entry for each instruction of the reference core.
  pub record Kept (l : Pair core h) (count : ℕ) : Type 0 where
    pub entries : List RiscVLogInfo
    pub buffer : l.log_buffer ≡ buffer_of n pos entries
    pub lines : l.lines ≡ texts entries
    pub counted : count ≡ length entries

  abbrev pub Running : Pair core h → Type 0
  Running l =
      (l.report ≡ none)
      × Kept l (core.cnt_inst l.fcore)
      × R l.fcore
      × (core.cnt_inst l.fcore < max_insts + 1)

  abbrev pub is_over : Pair core h → Bool
  is_over l = over core h true max_insts n unset l

  -- The loop is running, or it is over with a report of the last lines if there is one.
  abbrev pub Known : Pair core h → Type 0
  Known l = Running l ⊎ ((is_over l ≡ true) × Shown n l.report l.lines)

  mismatch-Shown :
      (l : Pair core h) (count : ℕ)
      → Kept l count
      → let l' =
          mismatch core h true max_insts n unset l
            (validate (core.instif l.fcore) (core.instif l.vcore)).0 in
        Shown n l'.report l'.lines
  unfolding mismatch
  mismatch-Shown l count k = elim (Bool-cases (core.cnt_inst l.fcore == length l.lines + 1)) [
    | inl e ↦
        let number : core.cnt_inst l.fcore ≡ length k.entries + 1 =
          (==_iff _ _).0 e
          ∙ ap (λ ls. length ls + 1) k.lines
          ∙ ap (λ m. m + 1) (length-texts k.entries) in
        rw e (
          ap₂ (show get_log n) number k.buffer
          ∙ show-last_lines n pos (log_info unset (core.instif l.fcore) none) k.entries
          ∙ ap (last_lines n) (sym k.lines))
    | inr e ↦ rw e tt
  ]

  call_system-logs :
      (l : Pair core h)
      → let l' = call_system core h true max_insts n unset l in
        (l'.log_buffer ≡ l.log_buffer) × (l'.lines ≡ l.lines)
  unfolding call_system
  call_system-logs l = elim (Bool-cases ((core.instif l.fcore).ir == 0x00000073)) [
    | inl e ↦ rw e (refl, refl)
    | inr e ↦ rw e (refl, refl)
  ]

  logged-Kept :
      (l : Pair core h) (count : ℕ)
      → Kept l count
      → core.cnt_inst l.fcore ≡ count + 1
      → Kept (logged core h true max_insts n unset l) (count + 1)
  unfolding logged buffer_of texts
  logged-Kept l count k e =
      let on : leb 1 n ≡ true = ground arith in
      let logs = call_system-logs _ in
      let x = log_info unset (core.instif l.fcore) (some l.mem) in
      record {
        entries = x ∷ k.entries;
        buffer = logs.0 ∙ rw on (ap₂ (λ i b. store n i x b) (next k.counted e) k.buffer);
        lines = logs.1 ∙ ap (λ ls. get_log x ∷ ls) k.lines;
        counted = ap (λ m. m + 1) k.counted ∙ omega arith;
      }
    where
      next : {a b c : ℕ} → a ≡ b → c ≡ a + 1 → c ≡ suc b
      next e f = omega arith

  unfoldable pub Result : ℕ → Pair core h → Type 0
  Result count l =
      Known l
      × ((is_over l ≡ true) ⊎ (max_insts + 1 - core.cnt_inst l.fcore < max_insts + 1 - count))

  abbrev GoesOn : ℕ → C → Type 0
  GoesOn = Goes core h true max_insts n unset laws R reference small

  halted-Result :
      (l : Pair core h) (count : ℕ)
      → core.halt l.fcore ≡ true
      → Shown n l.report l.lines
      → Result count l
  unfolding Result
  halted-Result l count halted shown =
      let stopped : is_over l ≡ true = rw halted refl in (inr (stopped, shown), inl stopped)

  pub clean-Shown : (o : Option Report) (lines : List Line) → o ≡ none → Shown n o lines
  clean-Shown o lines clean = subst (λ o. Shown n o lines) (sym clean) tt

  logged-halted :
      (l : Pair core h)
      → core.halt l.fcore ≡ true
      → core.halt (logged core h true max_insts n unset l).fcore ≡ true
  unfolding logged
  logged-halted l e =
      call_system-kind core h true max_insts n unset laws (λ c. core.halt c ≡ true) _
        (λ c r v x. laws.halt-write_reg c r v ∙ x) (λ c x. laws.halt-set_halt c) e

  logged-report : (l : Pair core h) → (logged core h true max_insts n unset l).report ≡ l.report
  unfolding logged
  logged-report l = call_system-report core h true max_insts n unset laws _

  logged-Result :
      (l : Pair core h) (count : ℕ)
      → l.report ≡ none
      → Kept l count
      → GoesOn count l.fcore
      → GoesOn count (logged core h true max_insts n unset l).fcore
      → Result count (logged core h true max_insts n unset l)
  unfolding Result
  logged-Result l count clean k before after =
      let l' = logged core h true max_insts n unset l in
      let shown = clean-Shown l'.report l'.lines (logged-report l ∙ clean) in
      elim before.goes [
        | inl e ↦ halted-Result l' count (logged-halted l e) shown
        | inr b ↦ elim after.goes [
          | inl e ↦ halted-Result l' count e shown
          | inr (r, same, more) ↦ (
            inl (
              logged-report l ∙ clean,
              subst (Kept l') (sym same) (logged-Kept l count k b.1),
              r,
              omega arith,
            ),
            inr (omega arith),
          )
        ]
      ]

  compare_cores-Result :
      (l : Pair core h) (count : ℕ)
      → l.report ≡ none
      → Kept l count
      → GoesOn count l.fcore
      → Result count (compare_cores core h true max_insts n unset l)
  unfolding compare_cores
  compare_cores-Result l count clean k g =
      let after =
        compare_cores-Goes core h true max_insts n unset laws R reference small count l g in
      elim (Bool-cases (validate (core.instif l.fcore) (core.instif l.vcore)).1) [
        | inl e ↦ rw e (logged-Result l count clean k g (rw e at after))
        | inr e ↦ rw e (
            halted-Result _ count (unfold mismatch in laws.halt-set_halt l.fcore)
              (mismatch-Shown l count k))
      ]

  pub round-Result :
      (l l' : Pair core h)
      → Known l
      → is_over l ≡ false
      → concurrent_round core h true max_insts n unset l ≡ some l'
      → Result (core.cnt_inst l.fcore) l'
  unfolding concurrent_round verilated_round verilated_part functional_part
  round-Result l l' (inr (stopped, s)) on e = absurd (clash (sym stopped ∙ on))
    where
      clash : true ≡ false → ⊥
      clash e = cc
  round-Result l l' (inl (clean, k, r, near)) on e =
      let (driven, runs, rest) =
        bind_some (core.drive l.fcore l.mem)
          (λ d.
            verilated_round core h true max_insts n unset
              (functional_part core h true max_insts n unset l d.0 d.1))
          l' e in
      let l1 = functional_part core h true max_insts n unset l driven.0 driven.1 in
      let (waited, comes, same) =
        then_some (wait core h vcore_timeout (waiting core h true max_insts n unset l1))
          (λ w.
            compare_cores core h true max_insts n unset
              (verilated_part core h true max_insts n unset l1 w.0 w.1))
          l' rest in
      let l2 = verilated_part core h true max_insts n unset l1 waited.0 waited.1 in
      rw same (
        compare_cores-Result l2 (core.cnt_inst l.fcore) clean
          (record { entries = k.entries; buffer = k.buffer; lines = k.lines; counted = k.counted })
          (functional_part-Goes core h true max_insts n unset laws R reference small l driven.0
            driven.1 r near runs))
