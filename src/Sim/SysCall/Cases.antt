-- ===== src/Sim/SysCall/Cases.antt =====
-- `SysCall::emulate` of sim/syscall.cpp: a function for each case of its `switch`.
use veri_cross.Base.{ℕ, zero, suc, ◌+◌, ◌*◌, ◌/◌, ◌%◌}
use veri_cross.Base.{◌==◌, ◌&&◌, leb, not, if◌then◌else◌, Option, none, some, List, [], ◌∷◌, ◌++◌}
use veri_cross.Sim.Common.{u32}
use veri_cross.Sim.Core.{CoreClass}
use veri_cross.Sim.Memory.Buffer.{insert}
use veri_cross.Sim.Memory.Bytes.{read, write, bytes_of}
use veri_cross.Sim.Riscv.{reg_a0, reg_a1, reg_a2, reg_a7}
use veri_cross.Sim.SysCall.{
  Host, System, is_natural, negated, fd_at, linux_flags, read_path, postprocess_stat, halt_cores,
  read_reg, write_reg, sc_close, sc_lseek, sc_read, sc_write, sc_fstat, sc_exit, sc_gettimeofday,
  sc_sbrk, sc_open, sc_stat,
}

-- The first `n` bytes of a buffer.
abbrev pub take {ℓ} : {A : Type ℓ} → ℕ → List A → List A
take zero xs = []
take (suc n) [] = []
take (suc n) (x ∷ xs) = x ∷ take n xs

abbrev pub bytes : List ℕ → List ℕ
bytes [] = []
bytes (w ∷ ws) = bytes_of w ++ bytes ws

module _ {C : Type 0} (core : CoreClass C) (h : Host) where
  abbrev pub Sys : Type 0
  Sys = System C h.World

  abbrev arg : Sys → ℕ → ℕ
  arg s r = read_reg core s r

  abbrev answer : Sys → ℕ → Sys
  answer s v = write_reg core s reg_a0 v

  -- For deterministic current time.
  abbrev pub vtime : Sys → ℕ
  vtime s = u32 (1640995200 + core.cnt_inst s.first / 1000000)

  abbrev pub vtime_nsec : Sys → ℕ
  vtime_nsec s = core.cnt_inst s.first % 1000000 * 1000

  -- The result of a call, or `-errno`.
  abbrev result : h.World → ℕ → ℕ
  result w ret = if is_natural ret then ret else negated (h.errno w)

  unfoldable pub close_file : Sys → Sys
  close_file s =
      let (sys, fd) = fd_at s.sys (arg s reg_a0) in
      if leb 3 fd && is_natural fd
      then (let (w, ret) = h.close fd s.world in
          answer (record s { sys = sys; world = w }) (if ret == 0 then 0 else negated (h.errno w)))
      else answer (record s { sys = sys }) 0

  unfoldable pub seek_file : Sys → Sys
  seek_file s =
      let (sys, fd) = fd_at s.sys (arg s reg_a0) in
      let (w, ret) = h.lseek fd (arg s reg_a1) (arg s reg_a2) s.world in
      answer (record s { sys = sys; world = w }) (result w ret)

  unfoldable pub read_file : Sys → Sys
  read_file s =
      let (sys, fd) = fd_at s.sys (arg s reg_a0) in
      let (w, buf, ret) = h.read fd (arg s reg_a2) s.world in
      let m =
        (if is_natural ret && not (ret == 0)
          then write s.mem (arg s reg_a1) (take ret buf)
          else s.mem) in
      answer (record s { sys = sys; world = w; mem = m }) (result w ret)

  -- What `mem->read` puts into the buffer of `write`. Its size is an `int`.
  abbrev pub outgoing : Sys → List ℕ
  outgoing s = if is_natural (arg s reg_a2) then read s.mem (arg s reg_a1) (arg s reg_a2) else []

  unfoldable pub write_file : Sys → Sys
  write_file s =
      let (sys, fd) = fd_at s.sys (arg s reg_a0) in
      let (w, ret) = h.write fd (outgoing s) (arg s reg_a2) s.world in
      answer (record s { sys = sys; world = w }) (result w ret)

  -- What `fstat` and `stat` do with their result.
  unfoldable pub give_stat : Sys → h.Stat → ℕ → Sys
  give_stat s st ret =
      let buf = postprocess_stat h st (vtime s) (vtime_nsec s) in
      if ret == 0
      then (let s' = answer s 0 in record s' { mem = write s.mem (arg s' reg_a1) (bytes buf) })
      else answer s (negated (h.errno s.world))

  unfoldable pub stat_file : Sys → Sys
  stat_file s =
      let (sys, fd) = fd_at s.sys (arg s reg_a0) in
      let (w, st, ret) = h.fstat fd s.world in give_stat (record s { sys = sys; world = w }) st ret

  unfoldable pub get_time : Sys → Sys
  get_time s =
      let tv_buf = vtime s ∷ 0 ∷ vtime_nsec s ∷ 0 ∷ [] in
      answer (record s { mem = write s.mem (arg s reg_a0) (bytes tv_buf) }) 0

  unfoldable pub set_break : Sys → Sys
  set_break s =
      if arg s reg_a0 == 0
      then answer s s.sys.brk_addr
      else record s { sys = record s.sys { brk_addr = arg s reg_a0 } }

  -- The two calls that take a path, with what `read_path` has found.
  unfoldable pub open_found : Sys → Option (List ℕ) → Sys
  open_found s none = answer s (negated 36)
  open_found s (some path) =
      let (w, fd) = h.open_path path (linux_flags (arg s reg_a1)) (arg s reg_a2) s.world in
      let opened = record s.sys {
        fd_map = insert s.sys.fd_next fd s.sys.fd_map;
        fd_next = s.sys.fd_next + 1;
      } in
      if is_natural fd
      then answer (record s { sys = opened; world = w }) s.sys.fd_next
      else answer (record s { world = w }) (negated (h.errno w))

  unfoldable pub stat_found : Sys → Option (List ℕ) → Sys
  stat_found s none = answer s (negated 36)
  stat_found s (some path) =
      let (w, st, ret) = h.stat path s.world in give_stat (record s { world = w }) st ret

  unfoldable pub open_file : Sys → Sys
  open_file s = open_found s (read_path s.mem (arg s reg_a0))

  unfoldable pub stat_path : Sys → Sys
  stat_path s = stat_found s (read_path s.mem (arg s reg_a0))

  unfoldable pub emulate : Sys → Sys
  emulate s =
      let call = arg s reg_a7 in
      if call == sc_close
      then close_file s
      else if call == sc_lseek
      then seek_file s
      else if call == sc_read
      then read_file s
      else if call == sc_write
      then write_file s
      else if call == sc_fstat
      then stat_file s
      else if call == sc_exit
      then halt_cores core s
      else if call == sc_gettimeofday
      then get_time s
      else if call == sc_sbrk
      then set_break s
      else if call == sc_open
      then open_file s
      else if call == sc_stat
      then stat_path s
      else s
