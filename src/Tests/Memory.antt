-- ===== src/Tests/Memory.antt =====
-- The memory of two cores at concrete contents.
use veri_cross.Base.{◌≡◌, refl, arith, none, some, [], ◌∷◌}
use veri_cross.Sim.Common.{CoreMemoryIf, mem_words}
use veri_cross.Sim.Memory.{Memory, primary, replica, view, init}
use veri_cross.Sim.Memory.Buffer.{lookup, contains, erase}
use veri_cross.Sim.Memory.View.{IsValid}
use veri_cross.Sim.Memory.Cleanup.{
  written_all, cleanup_wb, cleanup_loop, cleanup_entry, drop_agreeing,
}
use veri_cross.Sim.Memory.Cleanup.Laws.{view-cleanup_wb}
use veri_cross.Sim.Memory.Ports.{idle, update, update_replica}
use veri_cross.Sim.Memory.Ports.Laws.{effect, view-update}
use veri_cross.Sim.Memory.Ports.Replica.{view-update_replica, view-update_replica_primary}
use veri_cross.Sim.Memory.Bytes.{read, write}
use veri_cross.Sim.Memory.Bytes.Single.{IsSized, init-IsSized}
use veri_cross.Sim.Memory.Bytes.RoundTrip.{read-write}

-- A store of 0xab to byte 1 of word 2.
abbrev storing : CoreMemoryIf
storing = record idle { en = 1; d_we = 1; d_addr = 8; d_wdata = 0xab00; d_wmask = 2 }

-- Both cores have written word 5, and the primary alone word 7.
abbrev two_cores : Memory
two_cores = record {
  num_reps = 1;
  if_prim = storing;
  if_reps = storing ∷ [];
  wb_prim = (5, 50) ∷ (7, 70) ∷ [];
  wb_reps = ((5, 50) ∷ []) ∷ [];
  mem = λ _. 0x01020304;
  nwords = mem_words;
}

two_cores-IsValid : IsValid two_cores
two_cores-IsValid = record { reps = refl; sorted = omega arith }

abbrev pub fresh : Memory
fresh = record {
  num_reps = 1;
  if_prim = idle;
  if_reps = idle ∷ [];
  wb_prim = [];
  wb_reps = [] ∷ [];
  mem = λ _. 0;
  nwords = mem_words;
}

pub fresh-IsSized : IsSized fresh
unfolding init
fresh-IsSized = init-IsSized idle 1

view-cleanup_wb_example : view (cleanup_wb two_cores) (replica 0) 5 ≡ view two_cores (replica 0) 5
view-cleanup_wb_example = view-cleanup_wb two_cores (replica 0) 5 two_cores-IsValid (omega arith)

view-update_example :
    view (update two_cores idle).0 primary 2 ≡ effect mem_words storing (view two_cores primary) 2
view-update_example = view-update two_cores idle primary 2 two_cores-IsValid

view-update_replica_example :
    view (update_replica two_cores (idle ∷ [])).0 (replica 0) 2
    ≡ effect mem_words storing (view two_cores (replica 0)) 2
view-update_replica_example =
    view-update_replica two_cores (idle ∷ []) two_cores-IsValid 0 2 (omega arith)

view-update_replica_primary_example :
    view (update_replica two_cores (idle ∷ [])).0 primary 2 ≡ view two_cores primary 2
view-update_replica_primary_example =
    view-update_replica_primary two_cores (idle ∷ []) two_cores-IsValid 2

read-write_example : read (write fresh 3 (1 ∷ 2 ∷ 3 ∷ [])) 3 3 ≡ 1 ∷ 2 ∷ 3 ∷ []
read-write_example = read-write fresh 3 (1 ∷ 2 ∷ 3 ∷ []) fresh-IsSized (omega arith) (omega arith)

-- The words after a cleanup: word 5 is in the array, and word 7 is still in the buffer.
cleanup_runs :
    (lookup 5 (cleanup_wb two_cores).wb_prim ≡ none)
    × (lookup 7 (cleanup_wb two_cores).wb_prim ≡ some 70)
    × ((cleanup_wb two_cores).mem 5 ≡ 50)
unfolding cleanup_wb cleanup_loop cleanup_entry drop_agreeing written_all lookup contains erase
cleanup_runs = (refl, refl, refl)
