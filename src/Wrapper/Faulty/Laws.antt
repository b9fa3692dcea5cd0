-- ===== src/Wrapper/Faulty/Laws.antt =====
-- What a fault changes, and what it leaves to the Kronos core.
use native.Mathlib.Nat.{one-le-pow}
use veri_cross.Base.{
  ℕ, ◌+◌, ◌-◌, ◌*◌, ◌/◌, ◌⊎◌, true, false, ◌<◌, ◌^◌, ◌≡◌, ◌≢◌, inl, inr, refl, sym, ap, ◌∙◌, arith,
  Bool-cases, bit_xor, ==-ne, ==_refl,
}
use veri_cross.Bits.{bit_xor_comm, bit_xor_cancel, zero-bit_xor}
use veri_cross.Wrapper.{Verilated, IsArray, Wrapped}
use veri_cross.Wrapper.Kronos
use veri_cross.Sim.Core.{CoreLaws}
use veri_cross.Wrapper.Faulty.{
  faulty, Random, IsUniform, KronosCoreFaulty, inject_fault, is_due, update,
}

-- A flipped bit changes the number.
flip-ne : (a b : ℕ) → bit_xor a (2 ^ b) ≢ a
flip-ne a b e = omega (
  arith,
  one-le-pow b 2,
  sym (bit_xor_cancel (2 ^ b) a)
      ∙ ap (λ x. bit_xor x a) (bit_xor_comm (2 ^ b) a ∙ e)
      ∙ ap (λ x. bit_xor x a) (sym (zero-bit_xor a))
      ∙ bit_xor_cancel 0 a,
)

module _ (v : Verilated) (r : Random) (uniform : IsUniform r) (array : IsArray v) where
  -- `d` is `c` with one bit of one register other than 0 flipped.
  abbrev pub IsHit : Wrapped v → Wrapped v → Type 0
  IsHit c d =
      (a : ℕ) × (b : ℕ) × (0 < a)
      × (a < 32)
      × (b < 32)
      × (v.reg d.top a ≡ bit_xor (v.reg c.top a) (2 ^ b))
      × (v.reg d.top a ≢ v.reg c.top a)
      × ((x : ℕ) → a ≢ x → v.reg d.top x ≡ v.reg c.top x)

  inject_fault-IsHit : (f : KronosCoreFaulty v r) → IsHit f.core (inject_fault v r f).core
  unfolding inject_fault Kronos.read_reg Kronos.write_reg
  inject_fault-IsHit f =
      let a = (r.uniform 1 31 f.rng).0 in
      let b = (r.uniform 0 31 (r.uniform 1 31 f.rng).1).0 in
      let x = bit_xor (v.reg f.core.top a) (2 ^ b) in
      let flipped : v.reg (v.set_reg f.core.top a x) a ≡ x =
        array f.core.top a x a ∙ rw (==_refl a) in
      (
        a,
        b,
        omega (arith, (uniform 1 31 f.rng (omega arith)).0),
        omega (arith, (uniform 1 31 f.rng (omega arith)).1),
        omega (arith, (uniform 0 31 (r.uniform 1 31 f.rng).1 (omega arith)).1),
        flipped,
        λ e. flip-ne (v.reg f.core.top a) b (sym flipped ∙ e),
        λ y ne. array f.core.top a x y ∙ rw (==-ne a y ne),
      )

  -- The members that are not the circuit's.
  abbrev pub Same : Wrapped v → Wrapped v → Type 0
  Same c d =
      (d.halt ≡ c.halt)
      × (d.cnt_inst ≡ c.cnt_inst)
      × (d.cnt_cycle ≡ c.cnt_cycle)
      × (d.instif ≡ c.instif)
      × (d.memif ≡ c.memif)

  inject_fault-Same : (f : KronosCoreFaulty v r) → Same f.core (inject_fault v r f).core
  unfolding inject_fault Kronos.write_reg
  inject_fault-Same f = (refl, refl, refl, refl, refl)

  -- A count that is a million times a positive number.
  abbrev pub IsMillionth : ℕ → Type 0
  IsMillionth count = (k : ℕ) × (count ≡ (k + 1) * 1000000)

  due-IsMillionth : (count : ℕ) → is_due v r count ≡ true → IsMillionth count
  due-IsMillionth count e = (count / 1000000 - 1, ground arith)

  not_due-IsMillionth : (count : ℕ) → is_due v r count ≡ false → ¬ IsMillionth count
  not_due-IsMillionth count e m = ground (arith, m.1)

  -- If a uniform distribution gives numbers between its bounds and the register file is an array,
  -- then `update` of the faulty core returns what that of the Kronos core returns and differs from
  -- it in the registers only: in one bit of one register from 1 to 31, which is flipped, if it has
  -- not failed and the count of instructions is a positive multiple of a million; else not at all.
  pub update-IsHit :
      (f : KronosCoreFaulty v r)
      → let (c, ok) = Kronos.update v f.core in
        let (f', ok') = update v r f in
        (ok' ≡ ok)
        × Same c f'.core
        × (((ok ≡ true) × IsMillionth c.cnt_inst × IsHit c f'.core)
            ⊎ (((ok ≡ false) ⊎ ¬ IsMillionth c.cnt_inst) × (f'.core.top ≡ c.top)))
  unfolding update
  update-IsHit f =
      let c = (Kronos.update v f.core).0 in
      elim (Bool-cases (Kronos.update v f.core).1) [
        | inl e ↦ elim (Bool-cases (is_due v r c.cnt_inst)) [
          | inl d ↦
              rw (e, d)
                (
                  refl,
                  inject_fault-Same (record f { core = c }),
                  inl (
                    refl,
                    due-IsMillionth c.cnt_inst d,
                    inject_fault-IsHit (record f { core = c }),
                  ),
                )
          | inr d ↦
              rw (e, d)
                (
                  refl,
                  (refl, refl, refl, refl, refl),
                  inr (inr (not_due-IsMillionth c.cnt_inst d), refl),
                )
        ]
        | inr e ↦ rw e (refl, (refl, refl, refl, refl, refl), inr (inl refl, refl))
      ]

pub faulty-CoreLaws : (v : Verilated) (r : Random) → CoreLaws (faulty v r)
unfolding Kronos.write_reg
faulty-CoreLaws v r = record {
  halt-set_halt = λ f. refl;
  cnt_inst-set_halt = λ f. refl;
  cnt_inst-set_memif = λ f p. refl;
  cnt_inst-write_reg = λ f a x. refl;
  halt-write_reg = λ f a x. refl;
  instif-write_reg = λ f a x. refl;
  instif-set_halt = λ f. refl;
}
