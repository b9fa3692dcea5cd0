-- ===== src/Bench.antt =====
-- The benchmark programs of benchmark/source that have code of their own.
pub mod Crc32
pub mod Bitarray
pub mod Bitcount
pub mod Bitfiles
pub mod Dijkstra
