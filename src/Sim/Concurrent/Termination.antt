-- ===== src/Sim/Concurrent/Termination.antt =====
-- The main loop for two cores ends, whatever the verilated core does.
pub mod Kept
pub mod History
use veri_cross.Base.{
  ℕ, suc, ◌+◌, ◌-◌, ◌*◌, ◌^◌, ◌≤◌, ◌<◌, ◌≡◌, ◌⊎◌, inl, inr, refl, subst, ◌∙◌, arith,
}
use veri_cross.Base.{◌||◌, leb, not, Bool-cases}
use veri_cross.Base.{Bool, true, false, Option, none, some}
use veri_cross.Sim.Common.{vcore_timeout}
use veri_cross.Sim.Core.{CoreClass, CoreLaws, IsReference}
use veri_cross.Sim.SysCall.{Host}
use veri_cross.Sim.Validator.{validate}
use veri_cross.Sim.Loop.{Ends, Ends-map, while, while-Ends, then_some, bind_some}
use veri_cross.Sim.Concurrent.{
  Pair, update_core, wait, waiting, stop, functional_part, verilated_part, mismatch, logged,
  compare_cores, verilated_round, concurrent_round, over, begin, sim_concurrent,
}
use veri_cross.Sim.Concurrent.Cores.{Within, wait-Within, call_system-kind, call_system-cycles}
use veri_cross.Sim.Concurrent.Laws.{Compared, concurrent_round-Compared}

module _ {C : Type 0} (core : CoreClass C) (h : Host) (log : Bool)
    (max_insts mismatch_insts unset : ℕ) (laws : CoreLaws core) (R : C → Type 0)
    (reference : IsReference core R) (small : max_insts + 1 < 2 ^ 64) where
  -- The reference core is halted, or has executed one more instruction and may go on.
  record Goes (n : ℕ) (c : C) : Type 0 where
    goes : (core.halt c ≡ true) ⊎ (R c × (core.cnt_inst c ≡ n + 1) × (n + 1 < max_insts))

  write_reg-Goes : (n : ℕ) (c : C) (r v : ℕ) → Goes n c → Goes n (core.write_reg c r v)
  write_reg-Goes n c r v g = elim g.goes [
    | inl e ↦ record { goes = inl (laws.halt-write_reg c r v ∙ e) }
    | inr (k, e, more) ↦ record {
      goes = inr (reference.written c r v k, laws.cnt_inst-write_reg c r v ∙ e, more);
    }
  ]

  set_halt-Goes : (n : ℕ) (c : C) → Goes n (core.set_halt c)
  set_halt-Goes n c = record { goes = inl (laws.halt-set_halt c) }

  stop-Goes :
      (n : ℕ) (c : C) (ok : Bool)
      → (ok ≡ true → R c × (core.cnt_inst c ≡ n + 1))
      → Goes n (stop core h log max_insts mismatch_insts unset c ok)
  unfolding stop
  stop-Goes n c ok counted = elim (Bool-cases (leb max_insts (core.cnt_inst c) || not ok)) [
    | inl e ↦ rw e (set_halt-Goes n c)
    | inr e ↦
        let (r, same) = counted (ground arith) in
        rw e (record { goes = inr (r, same, ground (arith, same)) })
  ]

  functional_part-Goes :
      (l : Pair core h) (c : C) (ok : Bool)
      → R l.fcore
      → core.cnt_inst l.fcore < max_insts + 1
      → core.drive l.fcore l.mem ≡ some (c, ok)
      → Goes
          (core.cnt_inst l.fcore)
          (functional_part core h log max_insts mismatch_insts unset l c ok).fcore
  unfolding functional_part update_core
  functional_part-Goes l c true r near driven =
      let (driven_kind, one) = reference.drives l.fcore c l.mem true r driven in
      let (kind, kept) = reference.updates c driven_kind in
      stop-Goes _ _ _ (λ e.
        (reference.assigned _ _ kind, laws.cnt_inst-set_memif _ _ ∙ kept ∙ one refl ∙ omega arith))
  functional_part-Goes l c false r near driven = stop-Goes _ _ _ (λ e. absurd (clash e))
    where
      clash : false ≡ true → ⊥
      clash e = cc

  compare_cores-Goes :
      (n : ℕ) (l : Pair core h)
      → Goes n l.fcore
      → Goes n (compare_cores core h log max_insts mismatch_insts unset l).fcore
  unfolding compare_cores mismatch logged
  compare_cores-Goes n l g =
      elim (Bool-cases (validate (core.instif l.fcore) (core.instif l.vcore)).1) [
        | inl e ↦ rw e (
            call_system-kind core h log max_insts mismatch_insts unset laws (Goes n) _
              (write_reg-Goes n) (λ c g'. set_halt-Goes n c) g)
        | inr e ↦ rw e (set_halt-Goes n l.fcore)
      ]

  compare_cores-cycles :
      (l : Pair core h)
      → (compare_cores core h log max_insts mismatch_insts unset l).cycle_count ≡ l.cycle_count
  unfolding compare_cores mismatch logged
  compare_cores-cycles l =
      elim (Bool-cases (validate (core.instif l.fcore) (core.instif l.vcore)).1) [
        | inl e ↦ rw e (call_system-cycles core h log max_insts mismatch_insts unset laws _)
        | inr e ↦ rw e
      ]

  -- The loop is over, or each instruction of the reference core has taken at most 1000 cycles.
  abbrev Running : Pair core h → Type 0
  Running l =
      ((core.halt l.fcore ≡ true) × (l.cycle_count ≤ 1000 * (max_insts + 1)))
      ⊎ (R l.fcore
          × (l.cycle_count ≤ 1000 * core.cnt_inst l.fcore)
          × (core.cnt_inst l.fcore < max_insts + 1))

  -- No mismatch was found, or both cores are halted.
  abbrev Reported : Pair core h → Type 0
  Reported l = (l.report ≡ none) ⊎ ((core.halt l.fcore ≡ true) × (core.halt l.vcore ≡ true))

  combine :
      (n k : ℕ) (l' : Pair core h)
      → k ≤ 1000 * n
      → n < max_insts + 1
      → l'.cycle_count ≤ k + 1000
      → Goes n l'.fcore
      → Running l'
        × ((over core h log max_insts mismatch_insts unset l' ≡ true)
            ⊎ (max_insts + 1 - core.cnt_inst l'.fcore < max_insts + 1 - n))
  combine n k l' below near one g = elim g.goes [
    | inl e ↦ (inl (e, omega arith), inl (rw e refl))
    | inr (r, same, more) ↦ (inr (r, omega arith, omega arith), inr (omega arith))
  ]

  round-Running :
      (l l' : Pair core h)
      → Running l
      → over core h log max_insts mismatch_insts unset l ≡ false
      → concurrent_round core h log max_insts mismatch_insts unset l ≡ some l'
      → Running l'
        × ((over core h log max_insts mismatch_insts unset l' ≡ true)
            ⊎ (max_insts + 1 - core.cnt_inst l'.fcore < max_insts + 1 - core.cnt_inst l.fcore))
  unfolding concurrent_round verilated_round verilated_part functional_part
  round-Running l l' (inl (halted, k)) on e = absurd (clash (rw halted at on))
    where
      clash : true ≡ false → ⊥
      clash e = cc
  round-Running l l' (inr (r, below, near)) on e =
      let (driven, runs, rest) =
        bind_some (core.drive l.fcore l.mem)
          (λ d.
            verilated_round core h log max_insts mismatch_insts unset
              (functional_part core h log max_insts mismatch_insts unset l d.0 d.1))
          l' e in
      let l1 = functional_part core h log max_insts mismatch_insts unset l driven.0 driven.1 in
      let (waited, comes, same) =
        then_some (wait core h vcore_timeout (waiting core h log max_insts mismatch_insts unset l1))
          (λ w.
            compare_cores core h log max_insts mismatch_insts unset
              (verilated_part core h log max_insts mismatch_insts unset l1 w.0 w.1))
          l' rest in
      let l2 = verilated_part core h log max_insts mismatch_insts unset l1 waited.0 waited.1 in
      let cycles : waited.0.cycle_count ≤ l.cycle_count + 1000 =
        subst (Within core h (l.cycle_count + 1000)) comes (
          wait-Within core h vcore_timeout
            (waiting core h log max_insts mismatch_insts unset l1)) in
      rw same (
        combine (core.cnt_inst l.fcore) l.cycle_count
          (compare_cores core h log max_insts mismatch_insts unset l2) below near
          (rw (compare_cores-cycles l2) cycles)
          (compare_cores-Goes (core.cnt_inst l.fcore) l2
            (functional_part-Goes l driven.0 driven.1 r near runs)))

  round-Reported :
      (l l' : Pair core h)
      → Reported l
      → over core h log max_insts mismatch_insts unset l ≡ false
      → concurrent_round core h log max_insts mismatch_insts unset l ≡ some l'
      → Reported l'
  round-Reported l l' r on e =
      from r (concurrent_round-Compared core h log max_insts mismatch_insts unset laws l l' e)
    where
      clash : true ≡ false → ⊥
      clash e = cc

      from :
          Reported l
          → Compared core h log max_insts mismatch_insts unset laws l.report l'
          → Reported l'
      from (inl clean) (inl (accepted, agree, same)) = inl (same ∙ clean)
      from (inr (f, v)) (inl (accepted, agree, same)) = absurd (clash (rw f at on))
      from r (inr (refused, reported, f, v)) = inr (f, v)

  -- With cores that assignments from outside leave alone otherwise, a reference core of a kind that
  -- executes one instruction in each successful `drive`, and that has executed none yet, and with
  -- `max_insts + 1 < 2 ^ 64`, the main loop ends within `max_insts + 3` rounds whatever the
  -- verilated core does, unless one of them comes to an operation whose behaviour is undefined.
  -- Then a core is halted, at most `1000 * (max_insts + 1)` cycles were counted, and if a mismatch
  -- is reported, both are halted.
  pub sim_concurrent-Ends :
      (l : Pair core h)
      → R (core.reset l.fcore)
      → core.cnt_inst (core.reset l.fcore) ≡ 0
      → Ends
          (λ l'.
            (over core h log max_insts mismatch_insts unset l' ≡ true)
            × (l'.cycle_count ≤ 1000 * (max_insts + 1))
            × ((l'.report ≡ none) ⊎ ((core.halt l'.fcore ≡ true) × (core.halt l'.vcore ≡ true))))
          (sim_concurrent core h log max_insts mismatch_insts unset (max_insts + 3) l)
  unfolding sim_concurrent begin
  sim_concurrent-Ends l kind none_yet =
      let start = begin core h log max_insts mismatch_insts unset l in
      let rounds : suc (max_insts + 2) ≡ max_insts + 3 = omega arith in
      subst (λ n. Ends AtEnd (while is_over round n start)) rounds
        (Ends-map (λ l'. (is_over l' ≡ true) × Kept l') AtEnd
          (while is_over round (suc (max_insts + 2)) start) at_end
          (while-Ends is_over round Kept (λ l'. max_insts + 1 - core.cnt_inst l'.fcore)
            (λ a b k on e. (
              ((round-Running a b k.0 on e).0, round-Reported a b k.1 on e),
              (round-Running a b k.0 on e).1,
            ))
            (max_insts + 2) start (inr (kind, omega arith, omega (arith, none_yet)), inl refl)
            (omega arith)))
    where
      is_over : Pair core h → Bool
      is_over l' = over core h log max_insts mismatch_insts unset l'

      round : Pair core h → Option (Pair core h)
      round l' = concurrent_round core h log max_insts mismatch_insts unset l'

      Kept : Pair core h → Type 0
      Kept l' = Running l' × Reported l'

      AtEnd : Pair core h → Type 0
      AtEnd l' = (is_over l' ≡ true) × (l'.cycle_count ≤ 1000 * (max_insts + 1)) × Reported l'

      at_end : (l' : Pair core h) → (is_over l' ≡ true) × Kept l' → AtEnd l'
      at_end l' (e, (inl (halted, k), r)) = (e, k, r)
      at_end l' (e, (inr (kind, k, near), r)) = (e, omega arith, r)
