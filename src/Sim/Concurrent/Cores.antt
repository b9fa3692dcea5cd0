-- ===== src/Sim/Concurrent/Cores.antt =====
-- What the parts of a round do to the two cores.
use veri_cross.Base.{ℕ, zero, suc, ◌+◌, ◌%◌, ◌^◌, ◌≤◌, ◌≡◌, ◌⊎◌, inl, inr, refl, ap, ◌∙◌, arith}
use veri_cross.Base.{◌==◌, ◌||◌, not, Bool-cases}
use veri_cross.Base.{Bool, true, false, Option, none, some, [], ◌∷◌, get_or}
use veri_cross.Sim.Core.{CoreClass, CoreLaws}
use veri_cross.Sim.SysCall.{Host, write_others, halt_others}
use veri_cross.Sim.SysCall.Cases.{Sys, emulate}
use veri_cross.Sim.SysCall.Laws.{emulate-kind, emulate-ByLoops}
use veri_cross.Sim.Concurrent.{Pair, Waiting, replica_cycle, is_valid, wait, call_system}

module _ {C : Type 0} (core : CoreClass C) (h : Host) where
  replica_cycle-cycles :
      (w : Waiting core h) (c : C) (ok : Bool)
      → (replica_cycle core h w c ok).0.cycle_count ≡ w.cycle_count
  unfolding replica_cycle
  replica_cycle-cycles w c ok = refl

  abbrev pub Within : ℕ → Option (Waiting core h × Bool) → Type 0
  Within bound none = Unit
  Within bound (some (w, ok)) = w.cycle_count ≤ bound

  within_more : (a b : ℕ) (o : Option (Waiting core h × Bool)) → a ≤ b → Within a o → Within b o
  within_more a b none le h = tt
  within_more a b (some (w, ok)) le h = omega arith

  -- The loop that waits takes at most as many cycles as it is given.
  pub wait-Within :
      (left : ℕ) (w : Waiting core h) → Within (w.cycle_count + left) (wait core h left w)
  unfolding wait
  wait-Within zero w = omega arith
  wait-Within (suc left) w = let rest = wait-Within left in after rest (core.drive w.vcore w.mem)
    where
      after :
          ((w' : Waiting core h) → Within (w'.cycle_count + left) (wait core h left w'))
          → (d : Option (C × Bool))
          → Within (w.cycle_count + suc left) (elim d [
            | none ↦ none
            | some (c, ok) ↦
                let (w', ok') = replica_cycle core h w c ok in
                elim (is_valid core h w'.vcore || not ok') [
                  | true ↦ some (w', ok')
                  | false ↦
                      wait core h left (record w' { cycle_count = (w'.cycle_count + 1) % 2 ^ 64 })
                ]
          ])
      after rest none = tt
      after rest (some (c, ok)) =
          let (w', ok') = replica_cycle core h w c ok in
          elim (Bool-cases (is_valid core h w'.vcore || not ok')) [
            | inl e ↦ rw e (omega (arith, replica_cycle-cycles w c ok))
            | inr e ↦ rw e (
                within_more _ _ _ (omega (arith, replica_cycle-cycles w c ok))
                  (rest (record w' { cycle_count = (w'.cycle_count + 1) % 2 ^ 64 })))
          ]

module _ {C : Type 0} (core : CoreClass C) (h : Host) (log : Bool)
    (max_insts mismatch_insts unset : ℕ) (laws : CoreLaws core) where
  system_of : Pair core h → Sys core h
  system_of l = record {
    first = l.fcore;
    others = l.vcore ∷ [];
    mem = l.mem;
    world = l.world;
    sys = l.sys;
  }

  -- A condition on the reference core that the assignments of a system call keep.
  pub call_system-kind :
      (P : C → Type 0) (l : Pair core h)
      → ((c : C) (r v : ℕ) → P c → P (core.write_reg c r v))
      → ((c : C) → P c → P (core.set_halt c))
      → P l.fcore
      → P (call_system core h log max_insts mismatch_insts unset l).fcore
  unfolding call_system system_of
  call_system-kind P l written halted p =
      elim (Bool-cases ((core.instif l.fcore).ir == 0x00000073)) [
        | inl e ↦ rw e (emulate-kind core h (system_of l) P written halted p)
        | inr e ↦ rw e p
      ]

  -- The logged instructions of both cores are as before.
  pub call_system-instif :
      (l : Pair core h)
      → let l' = call_system core h log max_insts mismatch_insts unset l in
        (core.instif l'.fcore ≡ core.instif l.fcore) × (core.instif l'.vcore ≡ core.instif l.vcore)
  unfolding call_system system_of write_others halt_others
  call_system-instif l = elim (Bool-cases ((core.instif l.fcore).ir == 0x00000073)) [
    | inl e ↦ rw e (kept (emulate core h (system_of l)) (emulate-ByLoops core h (system_of l)))
    | inr e ↦ rw e (refl, refl)
  ]
    where
      kept :
          (s : Sys core h)
          → ((s.first ≡ l.fcore) × (s.others ≡ l.vcore ∷ []))
            ⊎ ((v : ℕ) × (s.first ≡ core.write_reg l.fcore 10 v)
                × (s.others ≡ write_others core (l.vcore ∷ []) 10 v))
            ⊎ ((s.first ≡ core.set_halt l.fcore) × (s.others ≡ halt_others core (l.vcore ∷ [])))
          → (core.instif s.first ≡ core.instif l.fcore)
            × (core.instif (get_or s.others 0 l.vcore) ≡ core.instif l.vcore)
      kept s (inl (f, v)) = (ap core.instif f, ap (λ o. core.instif (get_or o 0 l.vcore)) v)
      kept s (inr (inl (x, f, v))) = (
        ap core.instif f ∙ laws.instif-write_reg l.fcore 10 x,
        ap (λ o. core.instif (get_or o 0 l.vcore)) v ∙ laws.instif-write_reg l.vcore 10 x,
      )
      kept s (inr (inr (f, v))) = (
        ap core.instif f ∙ laws.instif-set_halt l.fcore,
        ap (λ o. core.instif (get_or o 0 l.vcore)) v ∙ laws.instif-set_halt l.vcore,
      )

  pub call_system-report :
      (l : Pair core h)
      → (call_system core h log max_insts mismatch_insts unset l).report ≡ l.report
  unfolding call_system
  call_system-report l = elim (Bool-cases ((core.instif l.fcore).ir == 0x00000073)) [
    | inl e ↦ rw e
    | inr e ↦ rw e
  ]

  pub call_system-cycles :
      (l : Pair core h)
      → (call_system core h log max_insts mismatch_insts unset l).cycle_count ≡ l.cycle_count
  unfolding call_system
  call_system-cycles l = elim (Bool-cases ((core.instif l.fcore).ir == 0x00000073)) [
    | inl e ↦ rw e
    | inr e ↦ rw e
  ]
