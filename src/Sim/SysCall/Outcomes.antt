-- ===== src/Sim/SysCall/Outcomes.antt =====
-- What one call of `emulate` may change.
use veri_cross.Base.{ℕ, ◌+◌}
use veri_cross.Base.{if_rule, Option, none, some, List}
use veri_cross.Sim.Core.{CoreClass}
use veri_cross.Sim.Memory.{Memory}
use veri_cross.Sim.Memory.Buffer.{insert}
use veri_cross.Sim.Riscv.{reg_a0}
use veri_cross.Sim.SysCall.{Host, SysCall, fd_at, read_path, halt_cores, read_reg, write_reg}
use veri_cross.Sim.SysCall.Cases.{
  Sys, close_file, seek_file, read_file, write_file, give_stat, stat_file, get_time, set_break,
  open_found, stat_found, open_file, stat_path, emulate,
}

-- After a successful `open`.
abbrev pub opened : SysCall → ℕ → SysCall
opened s fd = record s { fd_map = insert s.fd_next fd s.fd_map; fd_next = s.fd_next + 1 }

-- What is to be shown of a condition for it to hold after `emulate`.
pub record Closed {C : Type 0} (core : CoreClass C) (h : Host) (s : Sys core h)
    (P : Sys core h → Type 0) : Type 0 where
  pub unchanged : P s
  pub stopped : P (halt_cores core s)
  pub moved : (brk : ℕ) → P (record s { sys = record s.sys { brk_addr = brk } })
  pub asked :
      (k v : ℕ) (w : h.World) (m : Memory)
      → P (write_reg core (record s { sys = (fd_at s.sys k).0; world = w; mem = m }) reg_a0 v)
  pub given :
      (fd v : ℕ) (w : h.World)
      → P (write_reg core (record s { sys = opened s.sys fd; world = w }) reg_a0 v)
  pub answered :
      (v : ℕ) (w : h.World) (m : Memory)
      → P (write_reg core (record s { world = w; mem = m }) reg_a0 v)

module _ {C : Type 0} (core : CoreClass C) (h : Host) (s : Sys core h) (P : Sys core h → Type 0)
    (r : Closed core h s P) where
  close_file_rule : P (close_file core h s)
  unfolding close_file
  close_file_rule = if_rule P _ _ _ (r.asked _ _ _ _) (r.asked _ _ _ _)

  stat_file_rule : P (stat_file core h s)
  unfolding stat_file give_stat write_reg
  stat_file_rule = if_rule P _ _ _ (r.asked _ _ _ _) (r.asked _ _ _ _)

  set_break_rule : P (set_break core h s)
  unfolding set_break
  set_break_rule = if_rule P _ _ _ (r.answered _ _ _) (r.moved _)

  seek_file_rule : P (seek_file core h s)
  unfolding seek_file
  seek_file_rule = r.asked _ _ _ _

  read_file_rule : P (read_file core h s)
  unfolding read_file
  read_file_rule = r.asked _ _ _ _

  write_file_rule : P (write_file core h s)
  unfolding write_file
  write_file_rule = r.asked _ _ _ _

  get_time_rule : P (get_time core h s)
  unfolding get_time
  get_time_rule = r.answered _ _ _

  open_found_rule : (path : Option (List ℕ)) → P (open_found core h s path)
  unfolding open_found
  open_found_rule none = r.answered _ _ _
  open_found_rule (some path) = if_rule P _ _ _ (r.given _ _ _) (r.answered _ _ _)

  open_file_rule : P (open_file core h s)
  unfolding open_file
  open_file_rule = open_found_rule (read_path s.mem (read_reg core s reg_a0))

  stat_found_rule : (path : Option (List ℕ)) → P (stat_found core h s path)
  unfolding stat_found give_stat write_reg
  stat_found_rule none = r.answered _ _ _
  stat_found_rule (some path) = if_rule P _ _ _ (r.answered _ _ _) (r.answered _ _ _)

  stat_path_rule : P (stat_path core h s)
  unfolding stat_path
  stat_path_rule = stat_found_rule (read_path s.mem (read_reg core s reg_a0))

  pub emulate_rule : P (emulate core h s)
  unfolding emulate
  emulate_rule = if_rule P _ _ _ close_file_rule (
      if_rule P _ _ _ seek_file_rule (
        if_rule P _ _ _ read_file_rule (
          if_rule P _ _ _ write_file_rule (
            if_rule P _ _ _ stat_file_rule (
              if_rule P _ _ _ r.stopped (
                if_rule P _ _ _ get_time_rule (
                  if_rule P _ _ _ set_break_rule (
                    if_rule P _ _ _ open_file_rule
                      (if_rule P _ _ _ stat_path_rule r.unchanged)))))))))
