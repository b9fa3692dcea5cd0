-- ===== src/Sim/SysCall/Opened.antt =====
-- What a descriptor that `open` has given stands for in the calls that follow.
use veri_cross.Base.{ℕ, ◌<◌, ◌≡◌, some, List}
use veri_cross.Sim.Core.{CoreClass}
use veri_cross.Sim.Riscv.{reg_a1, reg_a2}
use veri_cross.Sim.Memory.Buffer.{lookup}
use veri_cross.Sim.SysCall.{Host, SysCall, linux_flags, read_reg}
use veri_cross.Sim.SysCall.Cases.{Sys, emulate}

-- A descriptor that was given, with the host's behind it.
record Stands (k fd : ℕ) (t : SysCall) : Type 0 where
  found : lookup k t.fd_map ≡ some fd
  given : k < t.fd_next

module _ {C : Type 0} (core : CoreClass C) (h : Host) where
  -- The emulation after any number of further system calls, by whatever cores, memory and host.
  pub data Later (t : SysCall) : SysCall → Type 0 where
    now : Later t t
    call : (s : Sys core h) → Later t s.sys → Later t (emulate core h s).sys

  abbrev pub host_fd : Sys core h → List ℕ → ℕ
  host_fd s path =
      (h.open_path path (linux_flags (read_reg core s reg_a1)) (read_reg core s reg_a2) s.world).1
