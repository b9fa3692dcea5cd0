-- ===== src/Sim/SysCall/Step.antt =====
-- What a system call does to all the cores.
use veri_cross.Base.{ℕ, ◌≡◌, ◌⊎◌, inl, inr, refl, sym, subst, List, [], ◌∷◌}
use veri_cross.Sim.Core.{CoreClass}
use veri_cross.Sim.Riscv.{reg_a0}
use veri_cross.Sim.SysCall.{Host, halt_others, write_others}
use veri_cross.Sim.SysCall.Cases.{Sys, emulate}
use veri_cross.Sim.SysCall.Laws.{ByLoops, emulate-ByLoops}

-- A relation between the elements of two lists, one by one.
abbrev pub Pointwise : {A : Type 0} → (A → A → Type 0) → List A → List A → Type 0
Pointwise R [] [] = Unit
Pointwise R (x ∷ xs) (y ∷ ys) = R x y × Pointwise R xs ys
Pointwise R _ _ = ⊥

module _ {C : Type 0} (core : CoreClass C) where
  abbrev pub Writes : ℕ → C → C → Type 0
  Writes v c c' = c' ≡ core.write_reg c reg_a0 v

  abbrev pub Halts : C → C → Type 0
  Halts c c' = c' ≡ core.set_halt c

  pub write_others-Writes :
      (cs : List C) (v : ℕ) → Pointwise (Writes v) cs (write_others core cs reg_a0 v)
  unfolding write_others
  write_others-Writes [] v = tt
  write_others-Writes (c ∷ cs) v = (refl, write_others-Writes cs v)

  halt_others-Halts : (cs : List C) → Pointwise Halts cs (halt_others core cs)
  unfolding halt_others
  halt_others-Halts [] = tt
  halt_others-Halts (c ∷ cs) = (refl, halt_others-Halts cs)

  module _ (h : Host) where
    abbrev pub all_cores : Sys core h → List C
    all_cores s = s.first ∷ s.others

    -- The cores are as before, or each has one and the same value written to a0, or each is halted.
    abbrev pub InStep : Sys core h → Sys core h → Type 0
    InStep s s' =
        (all_cores s' ≡ all_cores s)
        ⊎ ((v : ℕ) × Pointwise (Writes v) (all_cores s) (all_cores s'))
        ⊎ Pointwise Halts (all_cores s) (all_cores s')

    -- A system call leaves all the cores alone, or changes each of them by a write of one and the
    -- same value to its register a0, or halts each of them.
    pub emulate-InStep : (s : Sys core h) → InStep s (emulate core h s)
    emulate-InStep s = from (emulate core h s) (emulate-ByLoops core h s)
      where
        from : (s' : Sys core h) → ByLoops core h s s' → InStep s s'
        from s' (inl (f, o)) = inl cc
        from s' (inr (inl (v, f, o))) = inr (
            inl (
              v,
              (f, subst (Pointwise (Writes v) s.others) (sym o) (write_others-Writes s.others v)),
            ))
        from s' (inr (inr (f, o))) =
            inr (inr (f, subst (Pointwise Halts s.others) (sym o) (halt_others-Halts s.others)))
