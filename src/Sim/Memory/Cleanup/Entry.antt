-- ===== src/Sim/Memory/Cleanup/Entry.antt =====
-- One round of the loop of `cleanup_wb`.
use veri_cross.Base.{ℕ, zero, suc, ◌<◌, ◌≡◌, ◌≢◌, refl, ap, ap₂, arith, true, ◌&&◌}
use veri_cross.Base.{◌==◌, if◌then◌else◌, none, some, List, [], ◌∷◌, length, get_or}
use veri_cross.Base.{Bool-cases, inl, inr, ==_iff}
use veri_cross.Sim.Memory.Buffer.{WriteBuffer, lookup, contains, erase}
use veri_cross.Sim.Memory.Buffer.{lookup-erase, contains-lookup, erase-IsSorted}
use veri_cross.Sim.Memory.{Memory, CoreId, primary, all, replica, update_at, buffer, view}
use veri_cross.Sim.Memory.View.{IsValid, InRange}
use veri_cross.Sim.Memory.Cleanup.{written_all, drop_agreeing, cleanup_entry}

-- The word that a core with buffer `b` sees over the array `a`.
abbrev seen : WriteBuffer → (ℕ → ℕ) → ℕ → ℕ
seen b a x = elim (lookup x b) [ none ↦ a x | some u ↦ u ]

abbrev kept : ℕ → ℕ → WriteBuffer → WriteBuffer
kept w v b = elim (lookup w b) [ none ↦ b | some u ↦ if u == v then erase w b else b ]

seen-kept :
    (w v x : ℕ) (b : WriteBuffer) (a : ℕ → ℕ)
    → contains w b ≡ true
    → seen (kept w v b) (update_at a w v) x ≡ seen b a x
seen-kept w v x b a h = ground (arith, contains-lookup w b, lookup-erase w x b, ==_iff w x)

contains-kept : (w v x : ℕ) (b : WriteBuffer) → w ≢ x → contains x (kept w v b) ≡ contains x b
contains-kept w v x b ne =
    ground (arith, contains-lookup x b, contains-lookup x (erase w b), lookup-erase w x b)

length-drop_agreeing : (w v : ℕ) (bs : List WriteBuffer) → length (drop_agreeing w v bs) ≡ length bs
unfolding drop_agreeing
length-drop_agreeing w v [] = refl
length-drop_agreeing w v (b ∷ bs) = ap suc (length-drop_agreeing w v bs)

seen-drop_agreeing :
    (w v x j : ℕ) (bs : List WriteBuffer) (a : ℕ → ℕ)
    → written_all w bs ≡ true
    → j < length bs
    → seen (get_or (drop_agreeing w v bs) j []) (update_at a w v) x ≡ seen (get_or bs j []) a x
unfolding drop_agreeing written_all
seen-drop_agreeing w v x j [] a h lt = elim lt [ ]
seen-drop_agreeing w v x zero (b ∷ bs) a h lt = seen-kept w v x b a (ground arith)
seen-drop_agreeing w v x (suc j) (b ∷ bs) a h lt =
    seen-drop_agreeing w v x j bs a (ground arith) (ground arith)

pub written_all-drop_agreeing :
    (w v x : ℕ) (bs : List WriteBuffer)
    → w ≢ x
    → written_all x (drop_agreeing w v bs) ≡ written_all x bs
unfolding drop_agreeing written_all
written_all-drop_agreeing w v x [] ne = refl
written_all-drop_agreeing w v x (b ∷ bs) ne =
    ap₂ ◌&&◌ (contains-kept w v x b ne) (written_all-drop_agreeing w v x bs ne)

module _ (m : Memory) (w v : ℕ) where
  pub num_reps-cleanup_entry : (cleanup_entry m w v).num_reps ≡ m.num_reps
  unfolding cleanup_entry
  num_reps-cleanup_entry = ground arith

  pub cleanup_entry-IsValid : IsValid m → IsValid (cleanup_entry m w v)
  unfolding cleanup_entry
  cleanup_entry-IsValid s =
      ground (arith, length-drop_agreeing w v m.wb_reps, erase-IsSorted w m.wb_prim)

  pub lookup-cleanup_entry :
      (x : ℕ)
      → lookup x (cleanup_entry m w v).wb_prim
        ≡ (if written_all w m.wb_reps && w == x then none else lookup x m.wb_prim)
  unfolding cleanup_entry
  lookup-cleanup_entry x = ground (arith, lookup-erase w x m.wb_prim)

  pub written_all-cleanup_entry :
      (x : ℕ) → w ≢ x → written_all x (cleanup_entry m w v).wb_reps ≡ written_all x m.wb_reps
  unfolding cleanup_entry
  written_all-cleanup_entry x ne = ground (arith, written_all-drop_agreeing w v x m.wb_reps)

  -- No core sees a word change.
  pub view-cleanup_entry :
      (j : CoreId) (x : ℕ)
      → IsValid m
      → InRange m j
      → m.num_reps ≢ 0
      → lookup w m.wb_prim ≡ some v
      → view (cleanup_entry m w v) j x ≡ view m j x
  view-cleanup_entry j x s r ne h = elim (Bool-cases (written_all w m.wb_reps)) [
    | inl e ↦ committed j r e
    | inr e ↦ unfold cleanup_entry in rw e refl
  ]
    where
      committed :
          (j : CoreId)
          → InRange m j
          → written_all w m.wb_reps ≡ true
          → view (cleanup_entry m w v) j x ≡ view m j x
      committed primary r e =
          unfold cleanup_entry view buffer in
          rw e (ground (arith, lookup-erase w x m.wb_prim, ==_iff w x))
      committed all r e =
          unfold cleanup_entry view buffer in
          rw e (ground (arith, lookup-erase w x m.wb_prim, ==_iff w x))
      committed (replica k) r e =
          unfold cleanup_entry view buffer in
          rw e (ground (arith, seen-drop_agreeing w v x k m.wb_reps m.mem e (rw s.reps r)))
