-- ===== src/Sim/Memory/View.antt =====
-- What the operations of `Memory` do to the words that each core sees.
use veri_cross.Base.{ℕ, zero, suc, ◌<◌, ◌≡◌, ◌≢◌, refl, ap, arith, Bool, true, false, ◌&&◌, ◌||◌}
use veri_cross.Base.{◌==◌, if◌then◌else◌, none, List, [], ◌∷◌, length, get_or}
use veri_cross.Base.{get_or-set_self, get_or-set_ne, length-set, Bool-cases, inl, inr}
use veri_cross.Sim.Memory.Buffer.{WriteBuffer, IsSorted, lookup, insert}
use veri_cross.Sim.Memory.Buffer.{lookup-insert, lookup-erase, insert-IsSorted, erase-IsSorted}
use veri_cross.Sim.Memory.{
  Memory, CoreId, primary, all, replica, word_addr, buffer, view, erase_all, store_in, write_4b,
}

-- The representation invariant: one buffer for each replica, and the primary's in order.
pub record IsValid (m : Memory) : Type 0 where
  pub reps : length m.wb_reps ≡ m.num_reps
  pub sorted : IsSorted m.wb_prim

-- A core identifier that the memory knows.
abbrev pub InRange : Memory → CoreId → Type 0
InRange m primary = Unit
InRange m all = Unit
InRange m (replica i) = i < m.num_reps

-- Whether a write under `id` is for the core `j`.
abbrev pub is_for : CoreId → CoreId → Bool
is_for all j = true
is_for primary (replica j) = false
is_for primary j = true
is_for (replica i) (replica j) = i == j
is_for (replica i) j = false

-- In single execution there is one memory for all.
abbrev pub reaches : Memory → CoreId → CoreId → Bool
reaches m id j = m.num_reps == 0 || is_for id j

length-erase_all : (w : ℕ) (bs : List WriteBuffer) → length (erase_all w bs) ≡ length bs
unfolding erase_all
length-erase_all w [] = refl
length-erase_all w (b ∷ bs) = ap suc (length-erase_all w bs)

lookup-nil : (w : ℕ) → lookup w [] ≡ none
unfolding lookup
lookup-nil w = refl

lookup-erase_all :
    (w j i : ℕ) (bs : List WriteBuffer)
    → lookup j (get_or (erase_all w bs) i []) ≡ (if w == j then none else lookup j (get_or bs i []))
unfolding erase_all
lookup-erase_all w j i [] = ground (arith, lookup-nil j)
lookup-erase_all w j zero (b ∷ bs) = lookup-erase w j b
lookup-erase_all w j (suc i) (b ∷ bs) = lookup-erase_all w j i bs

module _ (m : Memory) (v : ℕ) (valid : IsValid m) where
  store_in-IsValid : (id : CoreId) (w : ℕ) → InRange m id → IsValid (store_in m id w v)
  unfolding store_in
  store_in-IsValid primary w r = ground (arith, insert-IsSorted w v m.wb_prim)
  store_in-IsValid all w r =
      ground (arith, erase-IsSorted w m.wb_prim, length-erase_all w m.wb_reps)
  store_in-IsValid (replica i) w r =
      ground (arith, length-set m.wb_reps i (insert w v (get_or m.wb_reps i [])))

  view-store_in :
      (id j : CoreId) (w x : ℕ)
      → InRange m id
      → m.num_reps ≢ 0
      → view (store_in m id w v) j x ≡ (if is_for id j && w == x then v else view m j x)
  unfolding store_in view buffer
  view-store_in primary primary w x r h = ground (arith, lookup-insert w x v m.wb_prim)
  view-store_in primary all w x r h = ground (arith, lookup-insert w x v m.wb_prim)
  view-store_in primary (replica j) w x r h = ground arith
  view-store_in all primary w x r h = ground (arith, lookup-erase w x m.wb_prim)
  view-store_in all all w x r h = ground (arith, lookup-erase w x m.wb_prim)
  view-store_in all (replica j) w x r h = ground (arith, lookup-erase_all w x j m.wb_reps)
  view-store_in (replica i) primary w x r h = ground arith
  view-store_in (replica i) all w x r h = ground arith
  view-store_in (replica i) (replica j) w x r h = ground (
    arith,
    get_or-set_self m.wb_reps i (insert w v (get_or m.wb_reps i [])) [],
    get_or-set_ne m.wb_reps i j (insert w v (get_or m.wb_reps i [])) [],
    lookup-insert w x v (get_or m.wb_reps i []),
  )

  -- `write_4b` keeps the invariant.
  pub write_4b-IsValid : (id : CoreId) (addr : ℕ) → InRange m id → IsValid (write_4b m id addr v)
  unfolding write_4b
  write_4b-IsValid id addr r = elim (Bool-cases (m.num_reps == 0)) [
    | inl e ↦ rw e (record { reps = valid.reps; sorted = valid.sorted })
    | inr e ↦ rw e (store_in-IsValid id (word_addr m addr) r)
  ]

  -- For a valid memory and a known identifier `id`, `write_4b` changes one word: a core that the
  -- write reaches (the one named by `id`, or all) sees the new word at the index of `addr`, and
  -- every other word of every core is as before.
  pub view-write_4b :
      (id j : CoreId) (addr x : ℕ)
      → InRange m id
      → view (write_4b m id addr v) j x
        ≡ (if reaches m id j && word_addr m addr == x then v else view m j x)
  unfolding write_4b
  view-write_4b id j addr x r = elim (Bool-cases (m.num_reps == 0)) [
    | inl e ↦ rw e (unfold view in ground arith)
    | inr e ↦ rw e (view-store_in id j (word_addr m addr) x r (ground arith))
  ]

-- The fields that no access to the words touches.
pub record HasShapeOf (n m : Memory) : Type 0 where
  pub num_reps : n.num_reps ≡ m.num_reps
  pub nwords : n.nwords ≡ m.nwords
  pub if_reps : n.if_reps ≡ m.if_reps
  pub if_prim : n.if_prim ≡ m.if_prim

pub HasShapeOf-refl : (m : Memory) → HasShapeOf m m
HasShapeOf-refl m = record { num_reps = refl; nwords = refl; if_reps = refl; if_prim = refl }

store_in-HasShapeOf : (m : Memory) (id : CoreId) (w v : ℕ) → HasShapeOf (store_in m id w v) m
unfolding store_in
store_in-HasShapeOf m primary w v = record {
  num_reps = refl;
  nwords = refl;
  if_reps = refl;
  if_prim = refl;
}
store_in-HasShapeOf m all w v = record {
  num_reps = refl;
  nwords = refl;
  if_reps = refl;
  if_prim = refl;
}
store_in-HasShapeOf m (replica i) w v = record {
  num_reps = refl;
  nwords = refl;
  if_reps = refl;
  if_prim = refl;
}

pub write_4b-HasShapeOf :
    (m : Memory) (id : CoreId) (addr v : ℕ) → HasShapeOf (write_4b m id addr v) m
unfolding write_4b
write_4b-HasShapeOf m id addr v = elim (Bool-cases (m.num_reps == 0)) [
  | inl e ↦ rw e (record { num_reps = refl; nwords = refl; if_reps = refl; if_prim = refl })
  | inr e ↦ rw e (store_in-HasShapeOf m id (word_addr m addr) v)
]
