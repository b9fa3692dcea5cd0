-- ===== src/Sim/Concurrent/Termination/History.antt =====
-- What the report of a mismatch shows of the run before it.
use veri_cross.Base.{ℕ, suc, ◌+◌, ◌-◌, ◌^◌, ◌<◌, ◌≡◌, inl, inr, refl, subst, arith}
use veri_cross.Base.{◌==◌, ==_iff}
use veri_cross.Base.{Bool, true, Option, some, [], length}
use veri_cross.Sim.Core.{CoreClass, CoreLaws, IsReference}
use veri_cross.Sim.SysCall.{Host}
use veri_cross.Sim.Loop.{finished, Ends, Ends-map, while, while-Ends}
use veri_cross.Sim.Concurrent.{Report, Pair, concurrent_round, begin, sim_concurrent}
use veri_cross.Sim.Concurrent.Ring.Lines.{last_lines, Shown, texts, buffer_of}
use veri_cross.Sim.Concurrent.Termination.Kept.{
  Kept, Result, is_over, Known, clean-Shown, round-Result,
}

module _ {C : Type 0} (core : CoreClass C) (h : Host) (max_insts n unset : ℕ) (pos : 0 < n)
    (laws : CoreLaws core) (R : C → Type 0) (reference : IsReference core R)
    (small : max_insts + 1 < 2 ^ 64) where
  abbrev is_ended : Pair core h → Bool
  is_ended = is_over core h max_insts n unset pos laws R reference small

  abbrev Followed : Pair core h → Type 0
  Followed = Known core h max_insts n unset pos laws R reference small

  -- The loop ends with what `Shown` says of its report.
  sim_concurrent-Shown :
      (l : Pair core h)
      → R (core.reset l.fcore)
      → core.cnt_inst (core.reset l.fcore) ≡ 0
      → Ends
          (λ l'. Shown n l'.report l'.lines)
          (sim_concurrent core h true max_insts n unset (max_insts + 3) l)
  unfolding sim_concurrent begin buffer_of texts Result
  sim_concurrent-Shown l kind none_yet =
      let start = begin core h true max_insts n unset l in
      let rounds : suc (max_insts + 2) ≡ max_insts + 3 = omega arith in
      subst (λ m. Ends (λ l'. Shown n l'.report l'.lines) (while is_ended round m start)) rounds
        (Ends-map (λ l'. (is_ended l' ≡ true) × Followed l') (λ l'. Shown n l'.report l'.lines)
          (while is_ended round (suc (max_insts + 2)) start) at_end
          (while-Ends is_ended round Followed (λ l'. max_insts + 1 - core.cnt_inst l'.fcore)
            (round-Result core h max_insts n unset pos laws R reference small) (max_insts + 2) start
            (inl (refl, none_logged, kind, omega arith)) (omega arith)))
    where
      round : Pair core h → Option (Pair core h)
      round = concurrent_round core h true max_insts n unset

      none_logged :
          Kept core h max_insts n unset pos laws R reference small
            (begin core h true max_insts n unset l)
            (core.cnt_inst (core.reset l.fcore))
      none_logged = record { entries = []; buffer = refl; lines = refl; counted = none_yet }

      at_end : (l' : Pair core h) → (is_ended l' ≡ true) × Followed l' → Shown n l'.report l'.lines
      at_end l' (o, inl run) =
          clean-Shown core h max_insts n unset pos laws R reference small l'.report l'.lines run.0
      at_end l' (o, inr (stopped, shown)) = shown

  -- With cores that assignments from outside leave alone otherwise, a reference core of a kind that
  -- executes one instruction in each successful `drive`, and that has executed none yet, with
  -- `max_insts + 1 < 2 ^ 64`, a log file and a ring buffer of `n > 0` entries: if the main loop ends
  -- with the report of a mismatch, and this names the instruction that follows the logged ones, then
  -- it shows the last `n` lines of the log, the oldest first and each with its distance.
  pub sim_concurrent-last_lines :
      (l l' : Pair core h) (r : Report)
      → R (core.reset l.fcore)
      → core.cnt_inst (core.reset l.fcore) ≡ 0
      → sim_concurrent core h true max_insts n unset (max_insts + 3) l ≡ finished l'
      → l'.report ≡ some r
      → r.instruction ≡ length l'.lines + 1
      → r.recent ≡ last_lines n l'.lines
  sim_concurrent-last_lines l l' r kind none_yet ended reported number =
      let shown : Shown n l'.report l'.lines =
        subst (Ends (λ p. Shown n p.report p.lines)) ended (sim_concurrent-Shown l kind none_yet) in
      let this : Shown n (some r) l'.lines = subst (λ o. Shown n o l'.lines) reported shown in
      let named : (r.instruction == length l'.lines + 1) ≡ true = (==_iff _ _).1 number in
      rw named at this
