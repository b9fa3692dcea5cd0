-- ===== src/Sim.antt =====
-- The simulator, sim/.
pub mod Common
pub mod Memory
pub mod Riscv
pub mod FunctionalCore
pub mod Loader
pub mod Validator
pub mod Core
pub mod SysCall
pub mod Loop
pub mod Single
pub mod Concurrent
