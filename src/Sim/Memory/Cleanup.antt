-- ===== src/Sim/Memory/Cleanup.antt =====
-- `Memory::cleanup_wb` of sim/memory.cpp: words that every core has written go to the array.
mod Entry
pub mod Laws
use veri_cross.Base.{ℕ, Bool, true, ◌&&◌, ◌==◌, if◌then◌else◌, none, some, List, [], ◌∷◌}
use veri_cross.Sim.Memory.Buffer.{WriteBuffer, lookup, contains, erase}
use veri_cross.Sim.Memory.{Memory, update_at}

unfoldable pub written_all : ℕ → List WriteBuffer → Bool
written_all w [] = true
written_all w (b ∷ bs) = contains w b && written_all w bs

-- `if ((*wb_reps[i])[w] == v) wb_reps[i]->erase(w);` for every replica.
unfoldable pub drop_agreeing : ℕ → ℕ → List WriteBuffer → List WriteBuffer
drop_agreeing w v [] = []
drop_agreeing w v (b ∷ bs) =
    (elim (lookup w b) [ none ↦ b | some u ↦ if u == v then erase w b else b ])
    ∷ drop_agreeing w v bs

-- One entry of the primary's buffer.
unfoldable pub cleanup_entry : Memory → ℕ → ℕ → Memory
cleanup_entry m w v =
    if written_all w m.wb_reps
    then record m {
      mem = update_at m.mem w v;
      wb_reps = drop_agreeing w v m.wb_reps;
      wb_prim = erase w m.wb_prim;
    }
    else m

-- The loop of `cleanup_wb` over the entries that are left. It erases only the entry at hand,
-- so the others are those of the buffer at the start.
unfoldable pub cleanup_loop : WriteBuffer → Memory → Memory
cleanup_loop [] m = m
cleanup_loop ((w, v) ∷ rest) m = cleanup_loop rest (cleanup_entry m w v)

unfoldable pub cleanup_wb : Memory → Memory
cleanup_wb m = if m.num_reps == 0 then m else cleanup_loop m.wb_prim m
