-- ===== src/Wrapper/Faulty.antt =====
-- core_wrapper/kronos_core_faulty.cpp: the Kronos core whose registers are hit by faults.
pub mod Laws
use veri_cross.Base.{
  ℕ, ◌≤◌, ◌*◌, ◌%◌, ◌^◌, ◌==◌, ◌&&◌, ltb, if◌then◌else◌, Bool, true, false, some, bit_xor,
}
use veri_cross.Sim.Core.{CoreClass}
use veri_cross.Sim.Common.{initial_sp}
use veri_cross.Sim.Riscv.{reg_sp}
use veri_cross.Wrapper.{Verilated, Wrapped}
use veri_cross.Wrapper.Kronos
use veri_cross.Wrapper.Kronos.{kronos}

-- `std::mt19937`, and a call of a `std::uniform_int_distribution` over it, by its two bounds.
pub record Random : Type 1 where
  pub State : Type 0
  pub uniform : ℕ → ℕ → State → ℕ × State

-- A distribution gives numbers of its range, the bounds included.
abbrev pub IsUniform : Random → Type 0
IsUniform r =
    (low high : ℕ) (s : r.State)
    → low ≤ high
    → (low ≤ (r.uniform low high s).0) × ((r.uniform low high s).0 ≤ high)

module _ (v : Verilated) (r : Random) where
  pub record KronosCoreFaulty : Type 0 where
    pub core : Wrapped v
    pub rng : r.State

  unfoldable pub inject_fault : KronosCoreFaulty → KronosCoreFaulty
  inject_fault f =
      let (reg_num, rng) = r.uniform 1 31 f.rng in
      let (bit_pos, rng') = r.uniform 0 31 rng in
      let value = Kronos.read_reg v f.core reg_num in
      record { core = Kronos.write_reg v f.core reg_num (bit_xor value (2 ^ bit_pos)); rng = rng' }

  -- The test for a fault after an update.
  abbrev pub is_due : ℕ → Bool
  is_due cnt_inst = ltb 0 cnt_inst && cnt_inst % 1000000 == 0

  unfoldable pub update : KronosCoreFaulty → KronosCoreFaulty × Bool
  update f =
      let (core, ok) = Kronos.update v f.core in
      let f' = record f { core = core } in
      if ok then ((if is_due core.cnt_inst then inject_fault f' else f'), true) else (f', false)

  -- `KronosCore::reset`, whose call of `update` is that of this class.
  unfoldable pub reset : KronosCoreFaulty → KronosCoreFaulty
  unfolding update
  reset f =
      let off = record f.core { top = v.set_rst_x f.core.top 0 } in
      let cycled = (update (record f { core = (Kronos.drive v off).0 })).0 in
      record cycled {
        core =
            Kronos.write_reg v (record cycled.core { top = v.set_rst_x cycled.core.top 1 }) reg_sp
              initial_sp;
      }

  -- What is not overridden is that of `KronosCore`.
  abbrev pub faulty : CoreClass KronosCoreFaulty
  faulty = record {
    halt = λ f. f.core.halt;
    set_halt = λ f. record f { core = record f.core { halt = true } };
    cnt_inst = λ f. f.core.cnt_inst;
    instif = λ f. f.core.instif;
    memif = λ f. f.core.memif;
    set_memif = λ f p. record f { core = record f.core { memif = p } };
    read_reg = λ f a. Kronos.read_reg v f.core a;
    write_reg = λ f a x. record f { core = Kronos.write_reg v f.core a x };
    reset = reset;
    drive = λ f m. let (c, ok) = Kronos.drive v f.core in some (record f { core = c }, ok);
    update = update;
  }
