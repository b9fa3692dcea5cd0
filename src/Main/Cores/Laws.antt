-- ===== src/Main/Cores/Laws.antt =====
-- The four classes keep the laws of a core, and the functional one executes an instruction in each
-- successful `drive`.
use veri_cross.Base.{ℕ, ◌+◌, ◌%◌, ◌^◌, ◌≡◌, refl, ap, subst, Bool, true, Option, none, some}
use veri_cross.Sim.Common.{CoreMemoryIf}
use veri_cross.Sim.Memory.{Memory}
use veri_cross.Sim.Core.{CoreClass, CoreLaws, IsReference}
use veri_cross.Sim.FunctionalCore.{FunctionalCore}
use veri_cross.Sim.FunctionalCore.Class.{functional, functional-CoreLaws, functional-IsReference}
use veri_cross.Wrapper.{Verilated}
use veri_cross.Wrapper.Kronos.{kronos-CoreLaws}
use veri_cross.Wrapper.Rvcorep.{rvcorep-CoreLaws}
use veri_cross.Wrapper.Faulty.{Random}
use veri_cross.Wrapper.Faulty.Laws.{faulty-CoreLaws}
use veri_cross.Main.Cores.{
  AnyCore, reference, kronos_core, faulty_core, rvcorep_core, rewrap, any, IsFunctional,
}

module _ (v w : Verilated) (r : Random) where
  abbrev Core : Type 0
  Core = AnyCore v w r

  abbrev class : CoreClass Core
  class = any v w r

  halt-any : (c : Core) → class.halt (class.set_halt c) ≡ true
  halt-any (reference c) = refl
  halt-any (kronos_core c) = refl
  halt-any (faulty_core c) = refl
  halt-any (rvcorep_core c) = refl

  count_halt-any : (c : Core) → class.cnt_inst (class.set_halt c) ≡ class.cnt_inst c
  count_halt-any (reference c) = refl
  count_halt-any (kronos_core c) = refl
  count_halt-any (faulty_core c) = refl
  count_halt-any (rvcorep_core c) = refl

  instif_halt-any : (c : Core) → class.instif (class.set_halt c) ≡ class.instif c
  instif_halt-any (reference c) = refl
  instif_halt-any (kronos_core c) = refl
  instif_halt-any (faulty_core c) = refl
  instif_halt-any (rvcorep_core c) = refl

  memif-any :
      (c : Core) (p : CoreMemoryIf) → class.cnt_inst (class.set_memif c p) ≡ class.cnt_inst c
  memif-any (reference c) p = refl
  memif-any (kronos_core c) p = refl
  memif-any (faulty_core c) p = refl
  memif-any (rvcorep_core c) p = refl

  module _ (n x : ℕ) where
    write_reg-any :
        (c : Core)
        → (class.cnt_inst (class.write_reg c n x) ≡ class.cnt_inst c)
          × (class.halt (class.write_reg c n x) ≡ class.halt c)
          × (class.instif (class.write_reg c n x) ≡ class.instif c)
    write_reg-any (reference c) = (
      functional-CoreLaws.cnt_inst-write_reg c n x,
      functional-CoreLaws.halt-write_reg c n x,
      functional-CoreLaws.instif-write_reg c n x,
    )
    write_reg-any (kronos_core c) = (
      (kronos-CoreLaws v).cnt_inst-write_reg c n x,
      (kronos-CoreLaws v).halt-write_reg c n x,
      (kronos-CoreLaws v).instif-write_reg c n x,
    )
    write_reg-any (faulty_core c) = (
      (faulty-CoreLaws v r).cnt_inst-write_reg c n x,
      (faulty-CoreLaws v r).halt-write_reg c n x,
      (faulty-CoreLaws v r).instif-write_reg c n x,
    )
    write_reg-any (rvcorep_core c) = (
      (rvcorep-CoreLaws w).cnt_inst-write_reg c n x,
      (rvcorep-CoreLaws w).halt-write_reg c n x,
      (rvcorep-CoreLaws w).instif-write_reg c n x,
    )

  pub any-CoreLaws : CoreLaws class
  any-CoreLaws = record {
    halt-set_halt = halt-any;
    cnt_inst-set_halt = count_halt-any;
    cnt_inst-set_memif = memif-any;
    cnt_inst-write_reg = λ c n x. (write_reg-any n x c).0;
    halt-write_reg = λ c n x. (write_reg-any n x c).1;
    instif-write_reg = λ c n x. (write_reg-any n x c).2;
    instif-set_halt = instif_halt-any;
  }

  -- The class of a functional core is kept, and it counts its instructions.
  abbrev Driven : FunctionalCore → Core × Bool → Type 0
  Driven c (c', ok) =
      IsFunctional v w r c' × (ok ≡ true → class.cnt_inst c' ≡ (c.cnt_inst + 1) % 2 ^ 64)

  reference_driven :
      (c : FunctionalCore) (m : Memory) (d : Option (FunctionalCore × Bool)) (p : Core × Bool)
      → functional.drive c m ≡ d
      → rewrap v w r reference d ≡ some p
      → Driven c p
  reference_driven c m none p e q = absurd (clash q)
    where
      clash : ◌≡◌ {A = Option (Core × Bool)} none (some p) → ⊥
      clash q = cc
  reference_driven c m (some (c', ok)) p e q =
      subst (Driven c) (ap (λ (o : Option (Core × Bool)). elim o [ none ↦ p | some x ↦ x ]) q)
        (tt, (functional-IsReference.drives c c' m ok tt e).1)

  reference_drives :
      (c c' : Core) (m : Memory) (ok : Bool)
      → IsFunctional v w r c
      → class.drive c m ≡ some (c', ok)
      → IsFunctional v w r c' × (ok ≡ true → class.cnt_inst c' ≡ (class.cnt_inst c + 1) % 2 ^ 64)
  reference_drives (reference c) c' m ok f e =
      reference_driven c m (functional.drive c m) (c', ok) refl e
  reference_drives (kronos_core c) c' m ok f e = absurd f
  reference_drives (faulty_core c) c' m ok f e = absurd f
  reference_drives (rvcorep_core c) c' m ok f e = absurd f

  reference_updates :
      (c : Core)
      → IsFunctional v w r c
      → IsFunctional v w r (class.update c).0
        × (class.cnt_inst (class.update c).0 ≡ class.cnt_inst c)
  reference_updates (reference c) f = (tt, refl)
  reference_updates (kronos_core c) f = absurd f
  reference_updates (faulty_core c) f = absurd f
  reference_updates (rvcorep_core c) f = absurd f

  reference_assigned :
      (c : Core) (p : CoreMemoryIf)
      → IsFunctional v w r c
      → IsFunctional v w r (class.set_memif c p)
  reference_assigned (reference c) p f = tt
  reference_assigned (kronos_core c) p f = f
  reference_assigned (faulty_core c) p f = f
  reference_assigned (rvcorep_core c) p f = f

  reference_written :
      (c : Core) (n x : ℕ) → IsFunctional v w r c → IsFunctional v w r (class.write_reg c n x)
  reference_written (reference c) n x f = tt
  reference_written (kronos_core c) n x f = f
  reference_written (faulty_core c) n x f = f
  reference_written (rvcorep_core c) n x f = f

  reference_halted : (c : Core) → IsFunctional v w r c → IsFunctional v w r (class.set_halt c)
  reference_halted (reference c) f = tt
  reference_halted (kronos_core c) f = f
  reference_halted (faulty_core c) f = f
  reference_halted (rvcorep_core c) f = f

  pub any-IsReference : IsReference class (IsFunctional v w r)
  any-IsReference = record {
    drives = reference_drives;
    updates = reference_updates;
    assigned = reference_assigned;
    written = reference_written;
    halted = reference_halted;
  }
