-- ===== src/Sim/SysCall/Laws.antt =====
-- What the system calls keep: the table of descriptors, the cores in step, the standard streams.
use veri_cross.Base.{ℕ, ◌≤◌, ◌<◌, ◌≡◌, ◌⊎◌, inl, inr, refl, arith}
use veri_cross.Base.{leb, ◌&&◌, false}
use veri_cross.Sim.Core.{CoreClass, CoreLaws}
use veri_cross.Sim.Riscv.{reg_a0}
use veri_cross.Sim.SysCall.{
  Host, is_natural, fd_of, halt_cores, halt_others, read_reg, write_reg, write_others,
}
use veri_cross.Sim.SysCall.Cases.{Sys, close_file, emulate}
use veri_cross.Sim.SysCall.Table.{IsTable, fd_at-IsTable, open-IsTable, fd_of-standard}
use veri_cross.Sim.SysCall.Outcomes.{emulate_rule}

module _ {C : Type 0} (core : CoreClass C) (h : Host) (s : Sys core h) where
  -- For every system call, whatever the host answers: if the table of descriptors is well formed,
  -- it stays so. That is, 0, 1 and 2 are the simulator's own streams, the next descriptor is 3 or
  -- more, and a descriptor that was not given yet is unknown, or stands for 0.
  pub emulate-IsTable :
      (fd_in fd_out fd_err : ℕ)
      → IsTable fd_in fd_out fd_err s.sys
      → IsTable fd_in fd_out fd_err (emulate core h s).sys
  emulate-IsTable i o e t =
      emulate_rule core h s (λ s'. IsTable i o e s'.sys)
        (record {
          unchanged = t;
          stopped = unfold halt_cores in t;
          moved = λ brk. record {
            input = t.input;
            output = t.output;
            errors = t.errors;
            next = t.next;
            free = t.free;
          };
          asked = λ k v w m. unfold write_reg in fd_at-IsTable i o e s.sys t k;
          given = λ fd v w. unfold write_reg in open-IsTable i o e s.sys t fd;
          answered = λ v w m. unfold write_reg in t;
        })

  -- The cores by the loops over them: as before, or with one value written to a0, or halted.
  abbrev pub ByLoops : Sys core h → Type 0
  ByLoops s' =
      ((s'.first ≡ s.first) × (s'.others ≡ s.others))
      ⊎ ((v : ℕ) × (s'.first ≡ core.write_reg s.first reg_a0 v)
          × (s'.others ≡ write_others core s.others reg_a0 v))
      ⊎ ((s'.first ≡ core.set_halt s.first) × (s'.others ≡ halt_others core s.others))

  pub emulate-ByLoops : ByLoops (emulate core h s)
  emulate-ByLoops = emulate_rule core h s ByLoops (record {
    unchanged = inl (refl, refl);
    stopped = unfold halt_cores in inr (inr (refl, refl));
    moved = λ brk. inl (refl, refl);
    asked = λ k v w m. unfold write_reg in inr (inl (v, refl, refl));
    given = λ fd v w. unfold write_reg in inr (inl (v, refl, refl));
    answered = λ v w m. unfold write_reg in inr (inl (v, refl, refl));
  })

  pub cnt_inst-emulate :
      CoreLaws core → core.cnt_inst (emulate core h s).first ≡ core.cnt_inst s.first
  cnt_inst-emulate laws =
      emulate_rule core h s (λ s'. core.cnt_inst s'.first ≡ core.cnt_inst s.first)
        (record {
          unchanged = refl;
          stopped = unfold halt_cores in laws.cnt_inst-set_halt s.first;
          moved = λ brk. refl;
          asked = λ k v w m. unfold write_reg in laws.cnt_inst-write_reg s.first reg_a0 v;
          given = λ fd v w. unfold write_reg in laws.cnt_inst-write_reg s.first reg_a0 v;
          answered = λ v w m. unfold write_reg in laws.cnt_inst-write_reg s.first reg_a0 v;
        })

  -- The first core stays of its kind.
  pub emulate-kind :
      (R : C → Type 0)
      → ((c : C) (r v : ℕ) → R c → R (core.write_reg c r v))
      → ((c : C) → R c → R (core.set_halt c))
      → R s.first
      → R (emulate core h s).first
  emulate-kind R written halted r =
      emulate_rule core h s (λ s'. R s'.first)
        (record {
          unchanged = r;
          stopped = unfold halt_cores in halted s.first r;
          moved = λ brk. r;
          asked = λ k v w m. unfold write_reg in written s.first reg_a0 v r;
          given = λ fd v w. unfold write_reg in written s.first reg_a0 v r;
          answered = λ v w m. unfold write_reg in written s.first reg_a0 v r;
        })

  -- With the table of a simulator whose streams are 0, 1 and 2, closing a standard descriptor or
  -- one that was not given yet calls nothing of the host, and answers 0.
  pub close_file-standard :
      IsTable 0 1 2 s.sys
      → (read_reg core s reg_a0 < 3) ⊎ (s.sys.fd_next ≤ read_reg core s reg_a0)
      → ((close_file core h s).world ≡ s.world)
        × ((close_file core h s).first ≡ core.write_reg s.first reg_a0 0)
  unfolding close_file
  close_file-standard t k =
      let standard : (leb 3 fd && is_natural fd) ≡ false =
        ground (arith, fd_of-standard s.sys (read_reg core s reg_a0) t k) in
      rw standard (unfold write_reg in (refl, refl))
    where
      fd : ℕ
      fd = fd_of s.sys.fd_map (read_reg core s reg_a0)
