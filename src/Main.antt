-- ===== src/Main.antt =====
-- sim/main.cpp: the command line, and the objects that the program makes of it.
pub mod Number
pub mod Args
pub mod Cores
pub mod Run
