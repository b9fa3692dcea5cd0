-- ===== src/Sim/Memory/Ports/Laws.antt =====
-- One cycle of the memory interfaces, as the cores see it: a latched write changes the word of
-- its own core, and a latched read gives what that core saw before the cycle.
use veri_cross.Base.{ℕ, ◌/◌, ◌-◌, ◌^◌, ◌≡◌, refl, ap, ◌∙◌, arith, Bool, true, false, not, ◌&&◌}
use veri_cross.Base.{◌==◌, if◌then◌else◌, bit_and, List, Bool-cases, inl, inr, ==_iff}
use veri_cross.Sim.Common.{CoreMemoryIf, test, expand_wmask}
use veri_cross.Sim.Memory.{
  Memory, CoreId, primary, all, replica, word_addr, buffer, view, read_4b, write_mask, merge,
}
use veri_cross.Sim.Memory.View.{
  IsValid, InRange, HasShapeOf, HasShapeOf-refl, reaches, write_4b-HasShapeOf, view-write_4b,
  write_4b-IsValid,
}
use veri_cross.Sim.Memory.Ports.{fetch, answer, commit, update}

-- Whether a latched interface writes: it is enabled, and reads no data.
abbrev pub writes : CoreMemoryIf → Bool
writes p = not (p.en == 0) && not (test p.d_re) && test p.d_we

-- A private memory after the write of a latched interface.
abbrev pub effect : ℕ → CoreMemoryIf → (ℕ → ℕ) → ℕ → ℕ
effect nwords p seen x =
    if writes p && bit_and (p.d_addr / 2 ^ 2) (nwords - 1) == x
    then merge (seen x) p.d_wdata (expand_wmask p.d_wmask)
    else seen x

module _ (m : Memory) (id : CoreId) (p : CoreMemoryIf) where
  pub commit-HasShapeOf : HasShapeOf (commit m id p) m
  unfolding commit write_mask
  commit-HasShapeOf = elim (Bool-cases (test p.d_re)) [
    | inl e ↦ rw e (HasShapeOf-refl m)
    | inr e ↦ elim (Bool-cases (test p.d_we)) [
      | inl f ↦ rw (e, f) (write_4b-HasShapeOf m id p.d_addr _)
      | inr f ↦ rw (e, f) (HasShapeOf-refl m)
    ]
  ]

  pub commit-IsValid : IsValid m → InRange m id → IsValid (commit m id p)
  unfolding commit write_mask
  commit-IsValid s r = elim (Bool-cases (test p.d_re)) [
    | inl e ↦ rw e s
    | inr e ↦ elim (Bool-cases (test p.d_we)) [
      | inl f ↦ rw (e, f) (write_4b-IsValid m _ s id p.d_addr r)
      | inr f ↦ rw (e, f) s
    ]
  ]

  view-commit :
      (j : CoreId) (x : ℕ)
      → IsValid m
      → InRange m id
      → (p.en == 0) ≡ false
      → view (commit m id p) j x ≡ (
          if reaches m id j && writes p && word_addr m p.d_addr == x
          then merge (view m id x) p.d_wdata (expand_wmask p.d_wmask)
          else view m j x)
  unfolding commit write_mask read_4b
  view-commit j x s r en = ground (
    arith,
    view-write_4b m (merge (view m id (word_addr m p.d_addr)) p.d_wdata (expand_wmask p.d_wmask)) s
        id j p.d_addr x r,
    ==_iff (word_addr m p.d_addr) x,
  )

-- The interfaces that the memory keeps do not matter to what a core sees.
view-if_prim :
    (m : Memory) (p : CoreMemoryIf) (j : CoreId) (x : ℕ)
    → view (record m { if_prim = p }) j x ≡ view m j x
unfolding view buffer
view-if_prim m p primary x = refl
view-if_prim m p all x = refl
view-if_prim m p (replica i) x = refl

pub view-if_reps :
    (m : Memory) (ps : List CoreMemoryIf) (j : CoreId) (x : ℕ)
    → view (record m { if_reps = ps }) j x ≡ view m j x
unfolding view buffer
view-if_reps m ps primary x = refl
view-if_reps m ps all x = refl
view-if_reps m ps (replica i) x = refl

-- A core that owns a port, unlike `ID_ALL`.
abbrev pub IsPort : CoreId → Type 0
IsPort all = ⊥
IsPort primary = Unit
IsPort (replica i) = Unit

-- A write reaches only cores that see the memory of the writer.
view_shared :
    (m : Memory) (id j : CoreId) (x : ℕ)
    → IsPort id
    → reaches m id j ≡ true
    → view m id x ≡ view m j x
unfolding view buffer
view_shared m all j x p r = elim p [ ]
view_shared m primary primary x p r = refl
view_shared m primary all x p r = refl
view_shared m primary (replica j) x p r = ground arith
view_shared m (replica i) primary x p r = ground arith
view_shared m (replica i) all x p r = ground arith
view_shared m (replica i) (replica j) x p r = ground arith

-- `commit` after `fetch` is the effect of the port on the memories that it reaches.
pub view-commit-fetch :
    (m : Memory) (id j : CoreId) (p : CoreMemoryIf) (x : ℕ)
    → IsValid m
    → InRange m id
    → IsPort id
    → (p.en == 0) ≡ false
    → view (commit m id (fetch m id p)) j x
      ≡ (if reaches m id j then effect m.nwords p (view m j) x else view m j x)
unfolding fetch
view-commit-fetch m id j p x s r port e =
    ground (arith, view-commit m id (fetch m id p) j x s r e, view_shared m id j x port)

update_disabled : (m : Memory) (c : CoreMemoryIf) → (m.if_prim.en == 0) ≡ true → (update m c).0 ≡ m
unfolding update
update_disabled m c e = rw e refl

update_enabled :
    (m : Memory) (c : CoreMemoryIf)
    → (m.if_prim.en == 0) ≡ false
    → (update m c).0 ≡ record (commit m primary (fetch m primary m.if_prim)) {
      if_prim = fetch m primary m.if_prim;
    }
unfolding update
update_enabled m c e = rw e refl

-- For a valid memory, `update` performs the latched store of the primary's interface on the words
-- that the primary sees, and changes no word of a replica. In single execution there is one
-- memory for all.
pub view-update :
    (m : Memory) (c : CoreMemoryIf) (j : CoreId) (x : ℕ)
    → IsValid m
    → view (update m c).0 j x
      ≡ (if reaches m primary j then effect m.nwords m.if_prim (view m j) x else view m j x)
view-update m c j x s = elim (Bool-cases (m.if_prim.en == 0)) [
  | inl e ↦ ground (arith, ap (λ (n : Memory). view n j x) (update_disabled m c e))
  | inr e ↦
      let p = fetch m primary m.if_prim in
      ap (λ n. view n j x) (update_enabled m c e)
      ∙ view-if_prim (commit m primary p) p j x
      ∙ view-commit-fetch m primary j m.if_prim x s tt tt e
]

-- When the primary's interface is enabled, `update` hands back the words that the primary saw
-- before: the instruction word always, the data word if a read was latched.
update_answers :
    (m : Memory) (c : CoreMemoryIf)
    → (m.if_prim.en == 0) ≡ false
    → ((update m c).1.i_rdata ≡ read_4b m primary m.if_prim.i_addr)
      × ((update m c).1.d_rdata
          ≡ (if test m.if_prim.d_re then read_4b m primary m.if_prim.d_addr else m.if_prim.d_rdata))
unfolding update fetch answer
update_answers m c e = rw e (refl, refl)

-- `update` keeps the invariant.
pub update-IsValid : (m : Memory) (c : CoreMemoryIf) → IsValid m → IsValid (update m c).0
unfolding update
update-IsValid m c s = elim (Bool-cases (m.if_prim.en == 0)) [
  | inl e ↦ rw e s
  | inr e ↦
      let t = commit-IsValid m primary (fetch m primary m.if_prim) s tt in
      rw e (record { reps = t.reps; sorted = t.sorted })
]
