-- ===== src/Sim/FunctionalCore/Class.antt =====
-- The reference core as a `class Core`.
use veri_cross.Base.{◌+◌, ◌%◌, ◌^◌, ◌≡◌, refl, sym, ap, ◌∙◌, Bool, true, Option, none, some}
use veri_cross.Sim.Core.{CoreClass, CoreLaws, IsReference}
use veri_cross.Sim.Memory.{Memory}
use veri_cross.Sim.FunctionalCore.{FunctionalCore, read_reg, write_reg, update}
use veri_cross.Sim.FunctionalCore.Exec.{Driven, returns, drive}
use veri_cross.Sim.FunctionalCore.Laws.{Returns, Retired, drive_retires}

abbrev as_option : Driven → Option (FunctionalCore × Bool)
as_option (returns c b) = some (c, b)
as_option Driven.undefined = none

-- `reset` is empty, and `update` changes nothing.
abbrev pub functional : CoreClass FunctionalCore
functional = record {
  halt = λ c. c.halt;
  set_halt = λ c. record c { halt = true };
  cnt_inst = λ c. c.cnt_inst;
  instif = λ c. c.instif;
  memif = λ c. c.memif;
  set_memif = λ c p. record c { memif = p };
  read_reg = read_reg;
  write_reg = write_reg;
  reset = λ c. c;
  drive = λ c m. as_option (drive c m);
  update = λ c. (c, update c);
}

pub functional-CoreLaws : CoreLaws functional
unfolding write_reg
functional-CoreLaws = record {
  halt-set_halt = λ c. refl;
  cnt_inst-set_halt = λ c. refl;
  cnt_inst-set_memif = λ c p. refl;
  cnt_inst-write_reg = λ c r v. refl;
  halt-write_reg = λ c r v. refl;
  instif-write_reg = λ c r v. refl;
  instif-set_halt = λ c. refl;
}

Retired-count :
    (c c' : FunctionalCore) (m : Memory) (d : Driven)
    → Returns (Retired c m) d
    → as_option d ≡ some (c', true)
    → c'.cnt_inst ≡ (c.cnt_inst + 1) % 2 ^ 64
Retired-count c c' m (returns d true) r e =
    ap (λ o. elim o [ none ↦ d.cnt_inst | some p ↦ p.0.cnt_inst ]) (sym e) ∙ r.0
Retired-count c c' m (returns d Bool.false) r e = absurd (clash e)
  where
    clash : ◌≡◌ {A = Option (FunctionalCore × Bool)} (some (d, Bool.false)) (some (c', true)) → ⊥
    clash e = cc
Retired-count c c' m Driven.undefined r e = absurd (clash e)
  where
    clash : ◌≡◌ {A = Option (FunctionalCore × Bool)} none (some (c', true)) → ⊥
    clash e = cc

pub functional-IsReference : IsReference functional (λ c. Unit)
functional-IsReference = record {
  drives =
      λ c c' m ok r e. (tt, λ t. Retired-count c c' m (drive c m) (drive_retires c m) (rw t at e));
  updates = λ c r. (tt, refl);
  assigned = λ c p r. tt;
  written = λ c r v q. tt;
  halted = λ c r. tt;
}
