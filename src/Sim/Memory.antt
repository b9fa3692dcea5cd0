-- ===== src/Sim/Memory.antt =====
-- sim/memory.cpp and sim/memory.hpp: the main memory that several cores share, each behind a
-- write buffer of its own. The word array is a function of the index, which the code always
-- cuts to the array's size. A core's `memif` stands outside the memory: it is handed to the
-- operation that reads it, and the one that writes it returns the new one.
pub mod Buffer
pub mod Merge
pub mod View
pub mod Cleanup
pub mod Ports
pub mod Bytes
use veri_cross.Base.{ℕ, zero, suc, ◌+◌, ◌-◌, ◌*◌, ◌/◌, ◌%◌, ◌^◌, bit_and, bit_or}
use veri_cross.Base.{◌==◌, if◌then◌else◌, none, some, List, [], ◌∷◌, get_or, set, replicate}
use veri_cross.Sim.Common.{CoreMemoryIf, u32, not32, expand_wmask}
use Buffer.{WriteBuffer, lookup, insert, erase}

-- `ID_PRIMARY`, `ID_ALL`, and the index of a replica.
pub data CoreId : Type 0 where
  primary all : CoreId
  replica : ℕ → CoreId

-- `class Memory`. `wb_all` is `wb_prim ∷ wb_reps`.
pub record Memory : Type 0 where
  pub num_reps : ℕ
  pub if_prim : CoreMemoryIf
  pub if_reps : List CoreMemoryIf
  pub wb_prim : WriteBuffer
  pub wb_reps : List WriteBuffer
  pub mem : ℕ → ℕ
  pub nwords : ℕ

-- The constructor, for a primary and `reps` replicas. `fresh` stands for the contents that
-- `new` leaves unset.
unfoldable pub init : CoreMemoryIf → ℕ → ℕ → Memory
init fresh reps nw = record {
  num_reps = reps;
  if_prim = fresh;
  if_reps = replicate reps fresh;
  wb_prim = [];
  wb_reps = replicate reps [];
  mem = λ _. 0;
  nwords = nw;
}

-- The array access of `read_4b` and `write_4b`.
abbrev pub word_addr : Memory → ℕ → ℕ
word_addr m addr = bit_and (addr / 2 ^ 2) (m.nwords - 1)

abbrev pub update_at : (ℕ → ℕ) → ℕ → ℕ → ℕ → ℕ
update_at f i v j = if i == j then v else f j

-- `*wb_all[id + 1]`, and the buffer that a read with `ID_ALL` takes.
unfoldable pub buffer : Memory → CoreId → WriteBuffer
buffer m primary = m.wb_prim
buffer m all = m.wb_prim
buffer m (replica i) = get_or m.wb_reps i []

-- The word at an index of the array, as the core `id` sees it.
unfoldable pub view : Memory → CoreId → ℕ → ℕ
unfolding buffer
view m id w =
    if m.num_reps == 0
    then m.mem w
    else elim (lookup w (buffer m id)) [ none ↦ m.mem w | some v ↦ v ]

unfoldable pub read_4b : Memory → CoreId → ℕ → ℕ
read_4b m id addr = view m id (word_addr m addr)

unfoldable pub read_1b : Memory → CoreId → ℕ → ℕ
read_1b m id addr = bit_and (read_4b m id addr / 2 ^ (addr % 4 * 8)) 0xff

erase_all : ℕ → List WriteBuffer → List WriteBuffer
erase_all w [] = []
erase_all w (b ∷ bs) = erase w b ∷ erase_all w bs

-- The last branch of `write_4b`: the write buffer of one core.
store_in : Memory → CoreId → ℕ → ℕ → Memory
store_in m (replica i) w v = record m {
  wb_reps = set m.wb_reps i (insert w v (get_or m.wb_reps i []));
}
store_in m primary w v = record m { wb_prim = insert w v m.wb_prim }
store_in m all w v = record m {
  mem = update_at m.mem w v;
  wb_prim = erase w m.wb_prim;
  wb_reps = erase_all w m.wb_reps;
}

unfoldable pub write_4b : Memory → CoreId → ℕ → ℕ → Memory
unfolding store_in erase_all
write_4b m id addr v =
    let w = word_addr m addr in
    if m.num_reps == 0 then record m { mem = update_at m.mem w v } else store_in m id w v

-- The word with the bits of `mask` replaced.
abbrev pub merge : ℕ → ℕ → ℕ → ℕ
merge old v mask = bit_or (bit_and old (not32 mask)) (bit_and v mask)

unfoldable pub write_1b : Memory → CoreId → ℕ → ℕ → Memory
write_1b m id addr v =
    let wmask = u32 (0xff * 2 ^ (addr % 4 * 8)) in
    let wdata = u32 (0x01010101 * v) in write_4b m id addr (merge (read_4b m id addr) wdata wmask)

unfoldable pub write_mask : Memory → CoreId → ℕ → ℕ → ℕ → Memory
write_mask m id addr v mask = write_4b m id addr (merge (read_4b m id addr) v (expand_wmask mask))
