-- ===== src/Main/Run.antt =====
-- `main` of sim/main.cpp, behind the parsing of the command line. Opening the log file and entering
-- the directory are answers of the host.
pub mod Laws
use veri_cross.Base.{
  ℕ, ◌+◌, ◌==◌, ◌||◌, ◌&&◌, not, if◌then◌else◌, Bool, true, false, Option, none, some, List, [],
  ◌∷◌, ◌++◌, length,
}
use veri_cross.Sim.Common.{CoreInstructionIf, CoreMemoryIf, mem_words}
use veri_cross.Sim.Memory
use veri_cross.Sim.Loop.{Outcome}
use veri_cross.Sim.FunctionalCore
use veri_cross.Sim.FunctionalCore.{bind_memory}
use veri_cross.Sim.Loader.Files.{eq_text}
use veri_cross.Sim.Loader.Image.{Files, Message, Loaded, loaded, failed, load, write_sections}
use veri_cross.Sim.SysCall
use veri_cross.Sim.SysCall.{Host, System}
use veri_cross.Sim.Single.{Loop, sim_single}
use veri_cross.Sim.Concurrent.{Pair, sim_concurrent}
use veri_cross.Wrapper.{Verilated}
use veri_cross.Wrapper.Kronos
use veri_cross.Wrapper.Rvcorep
use veri_cross.Wrapper.Faulty.{Random}
use veri_cross.Main.Args.{
  Args, Opt, ArgResult, success, info_printed, overflow, checkarg, is_empty, kronos_name,
  kronos_faulty_name, rvcorep_name,
}
use veri_cross.Main.Cores.{AnyCore, reference, kronos_core, faulty_core, rvcorep_core, any}

-- The host's answers besides the system calls; `unset` and the two interfaces are the contents of
-- objects that no constructor has set.
pub record Setting : Type 0 where
  pub files : Files
  pub log_opens : Bool
  pub enters : Bool
  pub inst : CoreInstructionIf
  pub mem : CoreMemoryIf
  pub unset : ℕ

module _ (v w : Verilated) (r : Random) (h : Host) (rng : r.State) (set : Setting) where
  -- `cores` before its null pointer.
  pub verilated_cores : List ℕ → List (AnyCore v w r)
  verilated_cores core_type =
      if eq_text core_type kronos_name
      then kronos_core (Kronos.init v set.inst set.mem) ∷ []
      else if eq_text core_type kronos_faulty_name
      then faulty_core (record { core = Kronos.init v set.inst set.mem; rng = rng }) ∷ []
      else if eq_text core_type rvcorep_name
      then rvcorep_core (Rvcorep.init w set.inst set.mem) ∷ []
      else []

  unfoldable pub make_cores : Args → List (AnyCore v w r)
  unfolding verilated_cores
  make_cores args =
      if args.proc_only
      then verilated_cores args.core_type
      else reference (FunctionalCore.init set.inst set.mem) ∷ verilated_cores args.core_type

  -- `fc->bind_memory(mem)`, if `cores[0]` is a functional core.
  unfoldable pub bind : AnyCore v w r → AnyCore v w r
  bind (reference c) = reference (bind_memory c)
  bind c = c

  -- How the program ends: with an exit code before the simulation, with the use of a null
  -- `cores[0]`, or with the loop of the simulation.
  pub data Exit : Type 0 where
    usage printed undefined null_core no_log no_directory : Exit
    not_loaded : Message → Exit
    single : Outcome (Loop (any v w r) h) → Exit
    concurrent : Outcome (Pair (any v w r) h) → Exit

  -- `log != nullptr`
  abbrev pub is_logged : Args → Bool
  is_logged args = not (is_empty args.log_file) || args.dump_log

  -- The main loop, for the cores behind the first.
  unfoldable pub simulate_with :
      ℕ → Args → System (AnyCore v w r) h.World → List (AnyCore v w r) → Exit
  simulate_with rounds args s [] =
      single (sim_single (any v w r) h (is_logged args) args.max_insts set.unset rounds s)
  simulate_with rounds args s (c ∷ cs) = concurrent (
      sim_concurrent (any v w r) h (is_logged args) args.max_insts args.mismatch_insts set.unset
        rounds
        (record {
          fcore = s.first;
          vcore = c;
          mem = s.mem;
          world = s.world;
          sys = s.sys;
          cycle_count = 0;
          log_buffer = [];
          lines = [];
          report = none;
        }))

  unfoldable pub simulate : ℕ → Args → System (AnyCore v w r) h.World → Exit
  unfolding simulate_with
  simulate rounds args s = simulate_with rounds args s s.others

  -- The log file and the directory, then the main loop.
  unfoldable pub open_log : ℕ → Args → System (AnyCore v w r) h.World → Exit
  unfolding simulate
  open_log rounds args s =
      if not (is_empty args.log_file) && not set.log_opens
      then no_log
      else if set.enters
      then simulate rounds args s
      else no_directory

  -- The memory and the system calls, for the cores of the array and what the loader has made.
  unfoldable pub with_image :
      ℕ → Args → h.World → AnyCore v w r → List (AnyCore v w r) → Loaded → Exit
  unfolding bind open_log
  with_image rounds args world first others (failed message) = not_loaded message
  with_image rounds args world first others (loaded sections brk) = open_log rounds args (record {
    first = bind first;
    others = others;
    mem = write_sections sections (Memory.init set.mem (length others) mem_words);
    world = world;
    sys = SysCall.init 0 1 2 brk;
  })

  unfoldable pub prepare : ℕ → Args → h.World → List (AnyCore v w r) → Exit
  unfolding with_image
  prepare rounds args world [] = null_core
  prepare rounds args world (first ∷ others) =
      with_image rounds args world first others (load set.files)

  -- The branches on what `checkarg` returns.
  unfoldable pub with_args : ℕ → h.World → ArgResult → Exit
  unfolding make_cores prepare
  with_args rounds world (success args) = prepare rounds args world (make_cores args)
  with_args rounds world ArgResult.failed = usage
  with_args rounds world info_printed = printed
  with_args rounds world overflow = undefined

  unfoldable pub main : ℕ → List Opt → List (List ℕ) → h.World → Exit
  unfolding with_args
  main rounds opts operands world = with_args rounds world (checkarg opts operands)
