-- ===== src/Tests.antt =====
-- Runs of the models at concrete inputs.
mod Memory
mod Riscv
mod Cores
mod Bench
mod Dijkstra
mod Bitarray
mod Bitfiles
mod System
mod Loops
mod Main
mod Report
