-- ===== src/Sim/Memory/Ports.antt =====
-- `drive`, `update`, `drive_replica` and `update_replica` of sim/memory.cpp: one cycle of the
-- cores' memory interfaces.
pub mod Laws
pub mod Replica
use veri_cross.Base.{ℕ, zero, suc, ◌+◌, ◌==◌, if◌then◌else◌, List, [], ◌∷◌, get_or, set}
use veri_cross.Sim.Common.{CoreMemoryIf, test}
use veri_cross.Sim.Memory.{Memory, CoreId, primary, replica, read_4b, write_mask}
use veri_cross.Sim.Memory.Cleanup.{cleanup_wb}

-- The assignments of `drive` and of one round of `drive_replica`.
pub latch : CoreMemoryIf → CoreMemoryIf → CoreMemoryIf
latch own c = record own {
  en = c.en;
  d_re = c.d_re;
  d_we = c.d_we;
  i_addr = c.i_addr;
  d_addr = c.d_addr;
  d_wdata = c.d_wdata;
  d_wmask = c.d_wmask;
}

unfoldable pub drive : Memory → CoreMemoryIf → Memory
drive m c = record m { if_prim = latch m.if_prim c }

pub latch_all : List CoreMemoryIf → List CoreMemoryIf → List CoreMemoryIf
latch_all [] cs = []
latch_all (o ∷ os) [] = o ∷ os
latch_all (o ∷ os) (c ∷ cs) = latch o c ∷ latch_all os cs

unfoldable pub drive_replica : Memory → List CoreMemoryIf → Memory
drive_replica m cs = record m { if_reps = latch_all m.if_reps cs }

-- The reads of a latched interface: `i_rdata` always, `d_rdata` if `d_re` is set.
pub fetch : Memory → CoreId → CoreMemoryIf → CoreMemoryIf
fetch m id p = record p {
  i_rdata = read_4b m id p.i_addr;
  d_rdata = if test p.d_re then read_4b m id p.d_addr else p.d_rdata;
}

-- The write of a latched interface, if `d_re` is clear and `d_we` is set.
pub commit : Memory → CoreId → CoreMemoryIf → Memory
commit m id p =
    if test p.d_re
    then m
    else if test p.d_we
    then write_mask m id p.d_addr p.d_wdata p.d_wmask
    else m

-- What `update` hands back to the core.
pub answer : CoreMemoryIf → CoreMemoryIf → CoreMemoryIf
answer p c = record c { i_rdata = p.i_rdata; d_rdata = p.d_rdata }

unfoldable pub update : Memory → CoreMemoryIf → Memory × CoreMemoryIf
update m c =
    if m.if_prim.en == 0
    then (m, c)
    else (let p = fetch m primary m.if_prim in
        (record (commit m primary p) { if_prim = p }, answer p c))

abbrev pub idle : CoreMemoryIf
idle = record {
  i_addr = 0;
  d_addr = 0;
  i_rdata = 0;
  d_rdata = 0;
  d_wdata = 0;
  d_wmask = 0;
  en = 0;
  d_re = 0;
  d_we = 0;
}

-- One round of the loop of `update_replica`.
pub update_one : Memory → ℕ → List CoreMemoryIf → Memory × List CoreMemoryIf
update_one m i cs =
    let own = get_or m.if_reps i idle in
    if own.en == 0
    then (m, cs)
    else (let p = fetch m (replica i) own in
        let m' = commit m (replica i) p in
        (record m' { if_reps = set m'.if_reps i p }, set cs i (answer p (get_or cs i idle))))

-- The loop from index `i` on, with `left` rounds to go.
pub update_loop : ℕ → ℕ → Memory → List CoreMemoryIf → Memory × List CoreMemoryIf
update_loop zero i m cs = (m, cs)
update_loop (suc left) i m cs = let (m', cs') = update_one m i cs in update_loop left (i + 1) m' cs'

unfoldable pub update_replica : Memory → List CoreMemoryIf → Memory × List CoreMemoryIf
update_replica m cs = let (m', cs') = update_loop m.num_reps 0 m cs in (cleanup_wb m', cs')
