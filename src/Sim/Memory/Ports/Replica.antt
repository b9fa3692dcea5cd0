-- ===== src/Sim/Memory/Ports/Replica.antt =====
-- `update_replica`: each replica's latched write reaches its own memory, and `cleanup_wb` at the
-- end shows in none.
use veri_cross.Base.{ℕ, zero, suc, ◌+◌, ◌<◌, ◌≤◌, ◌≡◌, ◌≢◌, refl, ap, ◌∙◌, arith, true, false, ◌&&◌}
use veri_cross.Base.{◌==◌, if◌then◌else◌, leb, ltb, List, get_or, set, get_or-set_ne}
use veri_cross.Base.{Bool-cases, inl, inr, ==_iff}
use veri_cross.Sim.Common.{CoreMemoryIf}
use veri_cross.Sim.Memory.{Memory, CoreId, primary, replica, view}
use veri_cross.Sim.Memory.View.{IsValid, is_for}
use veri_cross.Sim.Memory.Cleanup.Laws.{view-cleanup_wb, cleanup_wb-IsValid}
use veri_cross.Sim.Memory.Ports.{idle, fetch, commit, update_one, update_loop, update_replica}
use veri_cross.Sim.Memory.Ports.Laws.{
  effect, commit-IsValid, commit-HasShapeOf, view-if_reps, view-commit-fetch,
}

-- One round of `update_replica`, for the replica `i`.
module _ (m : Memory) (i : ℕ) (cs : List CoreMemoryIf) where
  abbrev own : CoreMemoryIf
  own = get_or m.if_reps i idle

  update_one_disabled : (own.en == 0) ≡ true → (update_one m i cs).0 ≡ m
  unfolding update_one
  update_one_disabled e = rw e refl

  abbrev next : Memory
  next =
      let m' = commit m (replica i) (fetch m (replica i) own) in
      record m' { if_reps = set m'.if_reps i (fetch m (replica i) own) }

  update_one_enabled : (own.en == 0) ≡ false → (update_one m i cs).0 ≡ next
  unfolding update_one
  update_one_enabled e = rw e refl

  view-update_one :
      (j : CoreId) (x : ℕ)
      → IsValid m
      → i < m.num_reps
      → view (update_one m i cs).0 j x
        ≡ (if is_for (replica i) j then effect m.nwords own (view m j) x else view m j x)
  view-update_one j x s lt = elim (Bool-cases (own.en == 0)) [
    | inl e ↦ ground (arith, ap (λ (n : Memory). view n j x) (update_one_disabled e))
    | inr e ↦ ground (
      arith,
      ap (λ (n : Memory). view n j x) (update_one_enabled e),
      view-if_reps (commit m (replica i) (fetch m (replica i) own)) next.if_reps j x,
      view-commit-fetch m (replica i) j own x s lt tt e,
    )
  ]

  update_one-IsValid : IsValid m → i < m.num_reps → IsValid (update_one m i cs).0
  update_one-IsValid s lt = elim (Bool-cases (own.en == 0)) [
    | inl e ↦ rw (update_one_disabled e) s
    | inr e ↦
        let t = commit-IsValid m (replica i) (fetch m (replica i) own) s lt in
        rw (update_one_enabled e) (record { reps = t.reps; sorted = t.sorted })
  ]

  -- The later rounds find their interfaces as they were.
  update_one_frame :
      ((update_one m i cs).0.num_reps ≡ m.num_reps)
      × ((update_one m i cs).0.nwords ≡ m.nwords)
      × ((k : ℕ) → i ≢ k → get_or (update_one m i cs).0.if_reps k idle ≡ get_or m.if_reps k idle)
  update_one_frame = elim (Bool-cases (own.en == 0)) [
    | inl e ↦ rw (update_one_disabled e) (refl, refl, λ k ne. refl)
    | inr e ↦
        let t = commit-HasShapeOf m (replica i) (fetch m (replica i) own) in
        rw (update_one_enabled e) (
          t.num_reps,
          t.nwords,
          λ k ne. rw t.if_reps (get_or-set_ne m.if_reps i k (fetch m (replica i) own) idle ne),
        )
  ]

update_loop-IsValid :
    (left i : ℕ) (m : Memory) (cs : List CoreMemoryIf)
    → IsValid m
    → i + left ≤ m.num_reps
    → IsValid (update_loop left i m cs).0 × ((update_loop left i m cs).0.num_reps ≡ m.num_reps)
unfolding update_loop
update_loop-IsValid zero i m cs s le = (s, refl)
update_loop-IsValid (suc left) i m cs s le =
    let (m', cs') = update_one m i cs in
    let frame = update_one_frame m i cs in
    let rest =
      update_loop-IsValid left (i + 1) m' cs' (update_one-IsValid m i cs s (omega arith))
        (omega arith) in
    (rest.0, rest.1 ∙ frame.0)

-- A replica whose round is to come has its effect; nobody else has one.
view-update_loop_replica :
    (left i : ℕ) (m : Memory) (cs : List CoreMemoryIf) (k x : ℕ)
    → IsValid m
    → i + left ≤ m.num_reps
    → view (update_loop left i m cs).0 (replica k) x ≡ (
        if leb i k && ltb k (i + left)
        then effect m.nwords (get_or m.if_reps k idle) (view m (replica k)) x
        else view m (replica k) x)
unfolding update_loop
view-update_loop_replica zero i m cs k x s le = ground arith
view-update_loop_replica (suc left) i m cs k x s le =
    let (m', cs') = update_one m i cs in
    let frame = update_one_frame m i cs in
    let ih =
      view-update_loop_replica left (i + 1) m' cs' k x (update_one-IsValid m i cs s (omega arith))
        (omega arith) in
    let one = view-update_one m i cs (replica k) x s (omega arith) in
    elim (Bool-cases (i == k)) [
      | inl e ↦
          let k_eq : i ≡ k = (==_iff i k).0 e in
          let past : (leb (i + 1) k && ltb k (i + 1 + left)) ≡ false = ground arith in
          let now : (leb i k && ltb k (i + suc left)) ≡ true = ground arith in
          ih ∙ rw past (one ∙ rw (e, now, k_eq))
      | inr e ↦
          let ne : i ≢ k = ground arith in
          let later : (leb i k && ltb k (i + suc left)) ≡ (leb (i + 1) k && ltb k (i + 1 + left)) =
            ground arith in
          let kept : view m' (replica k) x ≡ view m (replica k) x = one ∙ rw e in
          ih ∙ rw (later, frame.1, frame.2 k ne, kept)
    ]

view-update_loop_primary :
    (left i : ℕ) (m : Memory) (cs : List CoreMemoryIf) (x : ℕ)
    → IsValid m
    → i + left ≤ m.num_reps
    → view (update_loop left i m cs).0 primary x ≡ view m primary x
unfolding update_loop
view-update_loop_primary zero i m cs x s le = refl
view-update_loop_primary (suc left) i m cs x s le =
    let (m', cs') = update_one m i cs in
    let frame = update_one_frame m i cs in
    view-update_loop_primary left (i + 1) m' cs' x (update_one-IsValid m i cs s (omega arith))
      (omega arith)
    ∙ view-update_one m i cs primary x s (omega arith)

module _ (m : Memory) (cs : List CoreMemoryIf) (s : IsValid m) where
  looped : Memory
  looped = (update_loop m.num_reps 0 m cs).0

  looped-IsValid : IsValid looped × (looped.num_reps ≡ m.num_reps)
  unfolding looped
  looped-IsValid = update_loop-IsValid m.num_reps 0 m cs s (omega arith)

  -- A cycle of the replicas, with `cleanup_wb` at its end, keeps the representation invariant: one
  -- buffer for each replica, and the primary's entries in strictly ascending order.
  update_replica-IsValid : IsValid (update_replica m cs).0
  unfolding update_replica looped
  update_replica-IsValid = cleanup_wb-IsValid looped looped-IsValid.0

  -- For a valid memory, after `update_replica` each replica sees its own latched store done to the
  -- words that it saw before, whatever the other replicas latched and `cleanup_wb` moved.
  pub view-update_replica :
      (k x : ℕ)
      → k < m.num_reps
      → view (update_replica m cs).0 (replica k) x
        ≡ effect m.nwords (get_or m.if_reps k idle) (view m (replica k)) x
  unfolding update_replica looped
  view-update_replica k x lt =
      view-cleanup_wb looped (replica k) x looped-IsValid.0 (omega (arith, looped-IsValid.1))
      ∙ view-update_loop_replica m.num_reps 0 m cs k x s (omega arith)
      ∙ rw (in_loop) refl
    where
      in_loop : (leb 0 k && ltb k (0 + m.num_reps)) ≡ true
      in_loop = ground arith

  -- For a valid memory, `update_replica` changes no word that the primary sees.
  pub view-update_replica_primary :
      (x : ℕ) → view (update_replica m cs).0 primary x ≡ view m primary x
  unfolding update_replica looped
  view-update_replica_primary x =
      view-cleanup_wb looped primary x looped-IsValid.0 tt
      ∙ view-update_loop_primary m.num_reps 0 m cs x s (omega arith)
