-- ===== src/Sim/Memory/Cleanup/Laws.antt =====
-- `cleanup_wb` as a whole.
use veri_cross.Base.{ℕ, ◌≡◌, ◌≢◌, refl, sym, arith, ◌&&◌, ◌==◌, if◌then◌else◌}
use veri_cross.Base.{none, some, [], ◌∷◌, Bool-cases, inl, inr, ◌∙◌}
use veri_cross.Sim.Memory.Buffer.{WriteBuffer, Above, IsSorted, lookup, contains}
use veri_cross.Sim.Memory.Buffer.{contains-lookup, lookup-Above}
use veri_cross.Sim.Memory.{Memory, CoreId, view}
use veri_cross.Sim.Memory.View.{IsValid, InRange}
use veri_cross.Sim.Memory.Cleanup.{written_all, cleanup_entry, cleanup_loop, cleanup_wb}
use veri_cross.Sim.Memory.Cleanup.Entry.{
  num_reps-cleanup_entry, cleanup_entry-IsValid, lookup-cleanup_entry, written_all-cleanup_entry,
  view-cleanup_entry,
}

-- The entries still to be visited are held by the buffer.
abbrev Held : WriteBuffer → WriteBuffer → Type 0
Held [] b = Unit
Held ((k, v) ∷ rest) b = (lookup k b ≡ some v) × Held rest b

Held-cons : (j v : ℕ) (rest b : WriteBuffer) → Above j rest → Held rest b → Held rest ((j, v) ∷ b)
unfolding lookup
Held-cons j v [] b a h = tt
Held-cons j v ((k, u) ∷ rest) b a h = (ground arith, Held-cons j v rest b a.1 h.1)

Held-self : (b : WriteBuffer) → IsSorted b → Held b b
unfolding lookup
Held-self [] s = tt
Held-self ((j, v) ∷ b) s = (ground arith, Held-cons j v b b s.0 (Held-self b s.1))

Held-cleanup_entry :
    (m : Memory) (w v : ℕ) (rest : WriteBuffer)
    → Above w rest
    → Held rest m.wb_prim
    → Held rest (cleanup_entry m w v).wb_prim
Held-cleanup_entry m w v [] a h = tt
Held-cleanup_entry m w v ((k, u) ∷ rest) a h =
    (ground (arith, lookup-cleanup_entry m w v k), Held-cleanup_entry m w v rest a.1 h.1)

InRange-of_eq : (m n : Memory) (j : CoreId) → m.num_reps ≡ n.num_reps → InRange n j → InRange m j
InRange-of_eq m n CoreId.primary e r = tt
InRange-of_eq m n CoreId.all e r = tt
InRange-of_eq m n (CoreId.replica i) e r = omega arith

cleanup_loop-IsValid : (rest : WriteBuffer) (m : Memory) → IsValid m → IsValid (cleanup_loop rest m)
unfolding cleanup_loop
cleanup_loop-IsValid [] m s = s
cleanup_loop-IsValid ((w, v) ∷ rest) m s =
    cleanup_loop-IsValid rest (cleanup_entry m w v) (cleanup_entry-IsValid m w v s)

view-cleanup_loop :
    (rest : WriteBuffer) (m : Memory) (j : CoreId) (x : ℕ)
    → IsSorted rest
    → Held rest m.wb_prim
    → IsValid m
    → InRange m j
    → m.num_reps ≢ 0
    → view (cleanup_loop rest m) j x ≡ view m j x
unfolding cleanup_loop
view-cleanup_loop [] m j x o h s r ne = refl
view-cleanup_loop ((w, v) ∷ rest) m j x o h s r ne =
    view-cleanup_loop rest (cleanup_entry m w v) j x o.1 (Held-cleanup_entry m w v rest o.0 h.1)
      (cleanup_entry-IsValid m w v s)
      (InRange-of_eq (cleanup_entry m w v) m j (num_reps-cleanup_entry m w v) r)
      (λ e. ne (sym (num_reps-cleanup_entry m w v) ∙ e))
    ∙ view-cleanup_entry m w v j x s r ne h.0

lookup-cleanup_loop :
    (rest : WriteBuffer) (m : Memory) (x : ℕ)
    → IsSorted rest
    → lookup x (cleanup_loop rest m).wb_prim
      ≡ (if written_all x m.wb_reps && contains x rest then none else lookup x m.wb_prim)
unfolding cleanup_loop contains
lookup-cleanup_loop [] m x o = ground arith
lookup-cleanup_loop ((w, v) ∷ rest) m x o = ground (
  arith,
  lookup-cleanup_loop rest (cleanup_entry m w v) x o.1,
  lookup-cleanup_entry m w v x,
  written_all-cleanup_entry m w v x,
  contains-lookup x rest,
  lookup-Above w x rest,
)

-- `cleanup_wb` keeps the invariant.
pub cleanup_wb-IsValid : (m : Memory) → IsValid m → IsValid (cleanup_wb m)
unfolding cleanup_wb
cleanup_wb-IsValid m s = elim (Bool-cases (m.num_reps == 0)) [
  | inl e ↦ rw e s
  | inr e ↦ rw e (cleanup_loop-IsValid m.wb_prim m s)
]

-- For a valid memory, `cleanup_wb` changes no word that a known core sees, in single and in
-- concurrent execution.
pub view-cleanup_wb :
    (m : Memory) (j : CoreId) (x : ℕ)
    → IsValid m
    → InRange m j
    → view (cleanup_wb m) j x ≡ view m j x
unfolding cleanup_wb
view-cleanup_wb m j x s r = elim (Bool-cases (m.num_reps == 0)) [
  | inl e ↦ rw e
  | inr e ↦
      rw e (
        view-cleanup_loop m.wb_prim m j x s.sorted (Held-self m.wb_prim s.sorted) s r
          (ground arith))
]

-- For a valid memory with replicas, `cleanup_wb` takes out of the primary's write buffer exactly
-- the words that every replica's buffer holds, and leaves its other entries.
lookup-cleanup_wb :
    (m : Memory) (x : ℕ)
    → IsValid m
    → m.num_reps ≢ 0
    → lookup x (cleanup_wb m).wb_prim
      ≡ (if written_all x m.wb_reps then none else lookup x m.wb_prim)
unfolding cleanup_wb
lookup-cleanup_wb m x s ne = elim (Bool-cases (m.num_reps == 0)) [
  | inl e ↦ absurd (ground arith)
  | inr e ↦
      rw e (ground (arith, lookup-cleanup_loop m.wb_prim m x s.sorted, contains-lookup x m.wb_prim))
]
