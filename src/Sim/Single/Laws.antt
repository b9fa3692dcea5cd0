-- ===== src/Sim/Single/Laws.antt =====
-- The main loop for one core ends, if the core executes an instruction in each successful round.
use veri_cross.Base.{
  ℕ, suc, ◌+◌, ◌-◌, ◌^◌, ◌≤◌, ◌<◌, ◌≡◌, ◌⊎◌, inl, inr, refl, sym, subst, ◌∙◌, arith,
}
use veri_cross.Base.{◌||◌, leb, not, Bool-cases}
use veri_cross.Base.{Bool, true, false, some}
use veri_cross.Sim.Core.{CoreClass, CoreLaws, IsReference}
use veri_cross.Sim.Memory.{Memory}
use veri_cross.Sim.Memory.Ports
use veri_cross.Sim.Loop.{Ends, while, while-Ends, then_some, Ends-map}
use veri_cross.Sim.SysCall.{Host}
use veri_cross.Sim.SysCall.Cases.{Sys}
use veri_cross.Sim.SysCall.Laws.{cnt_inst-emulate, emulate-kind}
use veri_cross.Sim.Single.{
  Loop, begin, update_core, rest_of_round, is_ecall, call_system, stop, single_round, sim_single,
}

module _ {C : Type 0} (core : CoreClass C) (h : Host) (log : Bool) (max_insts unset : ℕ)
    (laws : CoreLaws core) (R : C → Type 0) (reference : IsReference core R)
    (small : max_insts + 1 < 2 ^ 64) where
  count : Sys core h → ℕ
  count s = core.cnt_inst s.first

  -- A system whose first core is of the kind `R` and has executed `n` instructions.
  abbrev Counts : ℕ → Sys core h → Type 0
  Counts n s = R s.first × (core.cnt_inst s.first ≡ n)

  call_system-Counts :
      (n : ℕ) (s : Sys core h) → Counts n s → Counts n (call_system core h log max_insts unset s)
  unfolding call_system
  call_system-Counts n s (r, e) = elim (Bool-cases (is_ecall core h log max_insts unset s.first)) [
    | inl t ↦ rw t (
      emulate-kind core h s R reference.written reference.halted r,
      cnt_inst-emulate core h s laws ∙ e,
    )
    | inr t ↦ rw t (r, e)
  ]

  update_core-Counts :
      (c : C) (ok : Bool)
      → R c
      → R (update_core core h log max_insts unset c ok).0
        × (core.cnt_inst (update_core core h log max_insts unset c ok).0 ≡ core.cnt_inst c)
  unfolding update_core
  update_core-Counts c true r = reference.updates c r
  update_core-Counts c false r = (r, refl)

  -- After a round the core is halted, or has executed one more instruction and may go on.
  abbrev Goes : ℕ → Sys core h → Type 0
  Goes n s = (core.halt s.first ≡ true) ⊎ (R s.first × (count s ≡ n + 1) × (n + 1 < max_insts))

  stop-Goes :
      (n : ℕ) (s : Sys core h) (ok : Bool)
      → (ok ≡ true → Counts (n + 1) s)
      → Goes n (stop core h log max_insts unset s ok)
  unfolding stop count
  stop-Goes n s ok counted = elim (Bool-cases (leb max_insts (core.cnt_inst s.first) || not ok)) [
    | inl e ↦ rw e (inl (laws.halt-set_halt s.first))
    | inr e ↦ let (r, same) = counted (ground arith) in rw e (inr (r, same, ground (arith, same)))
  ]

  goes :
      (l : Loop core h) (m : Memory) (c : C) (ok : Bool)
      → R l.system.first
      → count l.system < max_insts + 1
      → core.drive l.system.first m ≡ some (c, ok)
      → Goes (count l.system) (rest_of_round core h log max_insts unset l m c ok).system
  unfolding rest_of_round count
  goes l m c true r near driven =
      let (driven_kind, one) = reference.drives l.system.first c m true r driven in
      let (kind, kept) = update_core-Counts c true driven_kind in
      stop-Goes (count l.system) _ _ (λ e.
        call_system-Counts (count l.system + 1) _ (
          reference.assigned _ _ kind,
          laws.cnt_inst-set_memif _ _ ∙ kept ∙ one refl ∙ omega arith,
        ))
  goes l m c false r near driven =
      stop-Goes (count l.system) _ _ (λ e. absurd (clash (unfold update_core in e)))
    where
      clash : false ≡ true → ⊥
      clash e = cc

  goes_cycles :
      (l : Loop core h) (m : Memory) (c : C) (ok : Bool)
      → (rest_of_round core h log max_insts unset l m c ok).cycle_count ≤ l.cycle_count + 1
  unfolding rest_of_round
  goes_cycles l m c ok = omega arith

  -- The core is halted, or has executed an instruction in each cycle.
  abbrev Running : Loop core h → Type 0
  Running l =
      ((core.halt l.system.first ≡ true) × (l.cycle_count ≤ max_insts + 1))
      ⊎ (R l.system.first × (l.cycle_count ≤ count l.system) × (count l.system < max_insts + 1))

  combine :
      (k n : ℕ) (l' : Loop core h)
      → k ≤ n
      → n < max_insts + 1
      → l'.cycle_count ≤ k + 1
      → Goes n l'.system
      → Running l'
        × ((core.halt l'.system.first ≡ true)
            ⊎ (max_insts + 1 - count l'.system < max_insts + 1 - n))
  combine k n l' below near one (inl halted) = (inl (halted, omega arith), inl halted)
  combine k n l' below near one (inr (r, same, more)) =
      (inr (r, omega arith, omega arith), inr (omega arith))

  round-Running :
      (l l' : Loop core h)
      → Running l
      → core.halt l.system.first ≡ false
      → single_round core h log max_insts unset l ≡ some l'
      → Running l'
        × ((core.halt l'.system.first ≡ true)
            ⊎ (max_insts + 1 - count l'.system < max_insts + 1 - count l.system))
  unfolding single_round
  round-Running l l' (inl (halted, r)) e q = absurd (clash (sym halted ∙ e))
    where
      clash : true ≡ false → ⊥
      clash e = cc
  round-Running l l' (inr (r, below, near)) e q =
      let m = Ports.drive l.system.mem (core.memif l.system.first) in
      let (driven, runs, same) =
        then_some (core.drive l.system.first m)
          (λ d. rest_of_round core h log max_insts unset l m d.0 d.1) l' q in
      rw same (
        combine l.cycle_count (count l.system)
          (rest_of_round core h log max_insts unset l m driven.0 driven.1) below near
          (goes_cycles l m driven.0 driven.1) (goes l m driven.0 driven.1 r near runs))

  -- With a core that assignments from outside leave alone otherwise, of a kind that executes one
  -- instruction in each successful `drive`, and that has executed none yet, and with `max_insts + 1
  -- < 2 ^ 64`, the main loop ends within `max_insts + 3` rounds, unless it comes to an instruction
  -- whose behaviour is undefined. The core is halted then, after at most `max_insts + 1` cycles.
  pub sim_single-Ends :
      (s : Sys core h)
      → R (core.reset s.first)
      → core.cnt_inst (core.reset s.first) ≡ 0
      → Ends
          (λ l. (core.halt l.system.first ≡ true) × (l.cycle_count ≤ max_insts + 1))
          (sim_single core h log max_insts unset (max_insts + 3) s)
  unfolding sim_single count
  sim_single-Ends s kind none_yet =
      let start = begin core h log max_insts unset s in
      let rounds : suc (max_insts + 2) ≡ max_insts + 3 = omega arith in
      subst (λ n. Ends AtEnd (while over (single_round core h log max_insts unset) n start)) rounds
        (Ends-map (λ l. (over l ≡ true) × Running l) AtEnd
          (while over (single_round core h log max_insts unset) (suc (max_insts + 2)) start) at_end
          (while-Ends over (single_round core h log max_insts unset) Running
            (λ l. max_insts + 1 - count l.system) round-Running (max_insts + 2) start
            (inr (kind, omega arith, omega (arith, none_yet))) (omega arith)))
    where
      over : Loop core h → Bool
      over l = core.halt l.system.first

      AtEnd : Loop core h → Type 0
      AtEnd l = (over l ≡ true) × (l.cycle_count ≤ max_insts + 1)

      at_end : (l : Loop core h) → (over l ≡ true) × Running l → AtEnd l
      at_end l (e, inl (halted, k)) = (e, k)
      at_end l (e, inr (r, k, near)) = (e, omega arith)
