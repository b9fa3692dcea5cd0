-- ===== src/Main/Cores.antt =====
-- The cores that main.cpp makes: an object of one of the four classes, with the calls of virtual
-- functions by its class.
pub mod Laws
use veri_cross.Base.{
  ℕ, ◌+◌, ◌%◌, ◌^◌, ◌≡◌, refl, Bool, true, false, Option, none, some, List, [], ◌∷◌, ◌++◌,
}
use veri_cross.Sim.Common.{CoreInstructionIf, CoreMemoryIf}
use veri_cross.Sim.Memory.{Memory}
use veri_cross.Sim.Core.{CoreClass, CoreLaws, IsReference}
use veri_cross.Sim.FunctionalCore.{FunctionalCore}
use veri_cross.Sim.FunctionalCore.Class.{functional, functional-CoreLaws, functional-IsReference}
use veri_cross.Sim.Loop.{then_some}
use veri_cross.Wrapper.{Verilated, Wrapped}
use veri_cross.Wrapper.Kronos.{kronos, kronos-CoreLaws}
use veri_cross.Wrapper.Rvcorep.{rvcorep, rvcorep-CoreLaws}
use veri_cross.Wrapper.Faulty.{Random, KronosCoreFaulty, faulty}
use veri_cross.Wrapper.Faulty.Laws.{faulty-CoreLaws}

-- The generated classes of the two cores, and the random generator.
module _ (v w : Verilated) (r : Random) where
  pub data AnyCore : Type 0 where
    reference : FunctionalCore → AnyCore
    kronos_core : Wrapped v → AnyCore
    faulty_core : KronosCoreFaulty v r → AnyCore
    rvcorep_core : Wrapped w → AnyCore

  -- A function of each class, on the object of that class.
  abbrev pub by_class :
      {B : Type 0}
      → (FunctionalCore → B)
      → (Wrapped v → B)
      → (KronosCoreFaulty v r → B)
      → (Wrapped w → B)
      → AnyCore
      → B
  by_class f k x p (reference c) = f c
  by_class f k x p (kronos_core c) = k c
  by_class f k x p (faulty_core c) = x c
  by_class f k x p (rvcorep_core c) = p c

  abbrev pub rewrap : {A B : Type 0} → (A → B) → Option (A × Bool) → Option (B × Bool)
  rewrap f none = none
  rewrap f (some (a, ok)) = some (f a, ok)

  abbrev pub any : CoreClass AnyCore
  any = record {
    halt = by_class functional.halt (kronos v).halt (faulty v r).halt (rvcorep w).halt;
    set_halt =
        by_class (λ c. reference (functional.set_halt c)) (λ c. kronos_core ((kronos v).set_halt c))
          (λ c. faulty_core ((faulty v r).set_halt c)) (λ c. rvcorep_core ((rvcorep w).set_halt c));
    cnt_inst =
        by_class functional.cnt_inst (kronos v).cnt_inst (faulty v r).cnt_inst (rvcorep w).cnt_inst;
    instif = by_class functional.instif (kronos v).instif (faulty v r).instif (rvcorep w).instif;
    memif = by_class functional.memif (kronos v).memif (faulty v r).memif (rvcorep w).memif;
    set_memif = λ a p.
        by_class (λ c. reference (functional.set_memif c p))
          (λ c. kronos_core ((kronos v).set_memif c p))
          (λ c. faulty_core ((faulty v r).set_memif c p))
          (λ c. rvcorep_core ((rvcorep w).set_memif c p)) a;
    read_reg =
        by_class functional.read_reg (kronos v).read_reg (faulty v r).read_reg (rvcorep w).read_reg;
    write_reg = λ a n x.
        by_class (λ c. reference (functional.write_reg c n x))
          (λ c. kronos_core ((kronos v).write_reg c n x))
          (λ c. faulty_core ((faulty v r).write_reg c n x))
          (λ c. rvcorep_core ((rvcorep w).write_reg c n x)) a;
    reset =
        by_class (λ c. reference (functional.reset c)) (λ c. kronos_core ((kronos v).reset c))
          (λ c. faulty_core ((faulty v r).reset c)) (λ c. rvcorep_core ((rvcorep w).reset c));
    drive = λ a m.
        by_class (λ c. rewrap reference (functional.drive c m))
          (λ c. rewrap kronos_core ((kronos v).drive c m))
          (λ c. rewrap faulty_core ((faulty v r).drive c m))
          (λ c. rewrap rvcorep_core ((rvcorep w).drive c m)) a;
    update =
        by_class (λ c. let (c', ok) = functional.update c in (reference c', ok))
          (λ c. let (c', ok) = (kronos v).update c in (kronos_core c', ok))
          (λ c. let (c', ok) = (faulty v r).update c in (faulty_core c', ok))
          (λ c. let (c', ok) = (rvcorep w).update c in (rvcorep_core c', ok));
  }

  abbrev pub IsFunctional : AnyCore → Type 0
  IsFunctional (reference c) = Unit
  IsFunctional _ = ⊥
