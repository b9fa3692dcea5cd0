-- ===== src/Main/Run/Laws.antt =====
-- How the program ends.
use veri_cross.Base.{ℕ, ◌+◌, ◌*◌, ◌^◌, ◌<◌, ◌≤◌, ◌≡◌, ◌≢◌, ◌⊎◌, refl, sym, subst, if_rule}
use veri_cross.Base.{◌||◌, if◌then◌else◌, Bool, true, false, none, List, [], ◌∷◌}
use veri_cross.Sim.Memory.{Memory}
use veri_cross.Sim.Loop.{Ends}
use veri_cross.Sim.FunctionalCore
use veri_cross.Sim.FunctionalCore.{bind_memory}
use veri_cross.Sim.Loader.Files.{eq_text}
use veri_cross.Sim.Loader.Image.{Message, Loaded, loaded, failed, load}
use veri_cross.Sim.SysCall.{Host, System, SysCall}
use veri_cross.Sim.Single.Laws.{sim_single-Ends}
use veri_cross.Sim.Concurrent.Termination.{sim_concurrent-Ends}
use veri_cross.Wrapper.{Verilated}
use veri_cross.Wrapper.Faulty.{Random}
use veri_cross.Wrapper.Kronos
use veri_cross.Wrapper.Rvcorep
use veri_cross.Main.Args.{
  Args, Opt, ArgResult, success, info_printed, overflow, checkarg, is_known_core, kronos_name,
  kronos_faulty_name, rvcorep_name,
}
use veri_cross.Main.Args.Laws.{OnSuccess, IsUsable, checkarg-IsUsable}
use veri_cross.Main.Cores.{
  AnyCore, reference, kronos_core, faulty_core, rvcorep_core, any, IsFunctional,
}
use veri_cross.Main.Cores.Laws.{any-CoreLaws, any-IsReference}
use veri_cross.Main.Run.{
  Setting, verilated_cores, make_cores, bind, Exit, usage, printed, undefined, null_core, no_log,
  no_directory, not_loaded, single, concurrent, is_logged, simulate_with, simulate, open_log,
  with_image, prepare, with_args, main,
}

module _ (v w : Verilated) (r : Random) (h : Host) (rng : r.State) (set : Setting) where
  abbrev Core : Type 0
  Core = AnyCore v w r

  abbrev Result : Type 0
  Result = Exit v w r h rng set

  module _ (P : Result → Type 0) (rounds : ℕ) (args : Args) (world : h.World) (first : Core)
      (others : List Core) (a : P no_log) (b : P no_directory)
      (c : (m : Message) → P (not_loaded m))
      (d : (mem : Memory) (sys : SysCall)
        → P (
            simulate v w r h rng set rounds args (record {
              first = bind v w r h rng set first;
              others = others;
              mem = mem;
              world = world;
              sys = sys;
            }))) where
    with_image_rule : (l : Loaded) → P (with_image v w r h rng set rounds args world first others l)
    unfolding with_image open_log
    with_image_rule (failed m) = c m
    with_image_rule (loaded ss brk) = if_rule P _ _ _ a (if_rule P _ _ _ (d _ _) b)

    -- A condition on every end of `prepare` with a core.
    prepare_rule : P (prepare v w r h rng set rounds args world (first ∷ others))
    unfolding prepare
    prepare_rule = with_image_rule (load set.files)

  abbrev pub HasCore : Result → Type 0
  HasCore null_core = ⊥
  HasCore _ = Unit

  simulate_with-HasCore :
      (rounds : ℕ) (args : Args) (s : System Core h.World) (others : List Core)
      → HasCore (simulate_with v w r h rng set rounds args s others)
  unfolding simulate_with
  simulate_with-HasCore rounds args s [] = tt
  simulate_with-HasCore rounds args s (c ∷ cs) = tt

  prepare-HasCore :
      (rounds : ℕ) (args : Args) (world : h.World) (cs : List Core)
      → cs ≢ []
      → HasCore (prepare v w r h rng set rounds args world cs)
  unfolding simulate
  prepare-HasCore rounds args world [] ne = absurd (ne refl)
  prepare-HasCore rounds args world (first ∷ others) ne =
      prepare_rule HasCore rounds args world first others tt tt (λ m. tt)
        (λ mem sys. simulate_with-HasCore rounds args _ others)

  picks :
      (a b c : Bool) (x y z : Core)
      → (a || (b || (c || false))) ≡ true
      → (if a then x ∷ [] else if b then y ∷ [] else if c then z ∷ [] else []) ≢ []
  picks true b c x y z k e = cc
  picks false true c x y z k e = cc
  picks false false true x y z k e = cc
  picks false false false x y z k e = cc

  named_cores :
      (name : List ℕ) → is_known_core name ≡ true → verilated_cores v w r h rng set name ≢ []
  unfolding is_known_core verilated_cores
  named_cores name k =
      picks (eq_text name kronos_name) (eq_text name kronos_faulty_name) (eq_text name rvcorep_name)
        (kronos_core (Kronos.init v set.inst set.mem))
        (faulty_core (record { core = Kronos.init v set.inst set.mem; rng = rng }))
        (rvcorep_core (Rvcorep.init w set.inst set.mem)) k

  made :
      (args : Args) (proc : Bool)
      → args.proc_only ≡ proc
      → IsUsable args
      → make_cores v w r h rng set args ≢ []
  unfolding make_cores
  made args true e u = rw e (named_cores args.core_type (u.1 e))
  made args false e u = rw e (λ q. cc)

  -- Whatever the command line and the host, the program does not simulate without a core: it never
  -- uses a null `cores[0]`.
  pub main-HasCore :
      (rounds : ℕ) (opts : List Opt) (operands : List (List ℕ)) (world : h.World)
      → HasCore (main v w r h rng set rounds opts operands world)
  unfolding main with_args
  main-HasCore rounds opts operands world =
      by_args (checkarg opts operands) (checkarg-IsUsable opts operands)
    where
      by_args :
          (x : ArgResult)
          → OnSuccess IsUsable x
          → HasCore (with_args v w r h rng set rounds world x)
      by_args (success args) u =
          prepare-HasCore rounds args world (make_cores v w r h rng set args)
            (made args args.proc_only refl u)
      by_args ArgResult.failed u = tt
      by_args info_printed u = tt
      by_args overflow u = tt

  -- The loops end with a halted core, within the cycles that the instructions allow.
  abbrev pub EndsWell : ℕ → Result → Type 0
  EndsWell max_insts (single o) =
      Ends (λ l. ((any v w r).halt l.system.first ≡ true) × (l.cycle_count ≤ max_insts + 1)) o
  EndsWell max_insts (concurrent o) =
      Ends
        (λ l.
          ((any v w r).halt l.fcore || (any v w r).halt l.vcore) ≡ true
          × (l.cycle_count ≤ 1000 * (max_insts + 1))
          × ((l.report ≡ none)
              ⊎ (((any v w r).halt l.fcore ≡ true) × ((any v w r).halt l.vcore ≡ true))))
        o
  EndsWell max_insts usage = ⊥
  EndsWell max_insts printed = ⊥
  EndsWell max_insts undefined = ⊥
  EndsWell max_insts null_core = ⊥
  EndsWell max_insts _ = Unit

  -- A functional core after its reset, before the first instruction.
  abbrev IsNew : Core → Type 0
  IsNew c =
      IsFunctional v w r ((any v w r).reset c) × ((any v w r).cnt_inst ((any v w r).reset c) ≡ 0)

  simulate_with-EndsWell :
      (args : Args) (s : System Core h.World) (others : List Core)
      → args.max_insts + 1 < 2 ^ 64
      → IsNew s.first
      → EndsWell args.max_insts (simulate_with v w r h rng set (args.max_insts + 3) args s others)
  unfolding simulate_with
  simulate_with-EndsWell args s [] small new =
      sim_single-Ends (any v w r) h (is_logged v w r h rng set args) args.max_insts set.unset
        (any-CoreLaws v w r) (IsFunctional v w r) (any-IsReference v w r) small s new.0 new.1
  simulate_with-EndsWell args s (c ∷ cs) small new =
      sim_concurrent-Ends (any v w r) h (is_logged v w r h rng set args) args.max_insts
        args.mismatch_insts set.unset (any-CoreLaws v w r) (IsFunctional v w r)
        (any-IsReference v w r) small _ new.0 new.1

  -- If `checkarg` accepts the command line, which asks for less than 2 ^ 64 - 1 instructions and
  -- not for a verilated core alone, then the program comes to its end, within three rounds more
  -- than the instructions it asks for, whatever the verilated core does: before the simulation, by
  -- the loader, the log file or the directory; or at an operation whose behaviour is undefined; or
  -- with a halted core, after at most one cycle per instruction and one, or a thousand times as
  -- many with a verilated core, and with both cores halted if a mismatch is reported.
  pub main-EndsWell :
      (opts : List Opt) (operands : List (List ℕ)) (world : h.World) (args : Args)
      → checkarg opts operands ≡ success args
      → args.proc_only ≡ false
      → args.max_insts + 1 < 2 ^ 64
      → EndsWell args.max_insts (main v w r h rng set (args.max_insts + 3) opts operands world)
  unfolding main with_args make_cores simulate
  main-EndsWell opts operands world args e both small =
      subst (λ x. EndsWell args.max_insts (with_args v w r h rng set (args.max_insts + 3) world x))
        (sym e)
        (subst
          (λ cs.
            EndsWell args.max_insts (prepare v w r h rng set (args.max_insts + 3) args world cs))
          (sym cores)
          (prepare_rule (EndsWell args.max_insts) (args.max_insts + 3) args world first others tt tt
            (λ m. tt)
            (λ mem sys.
              simulate_with-EndsWell args _ others small
                (unfold bind FunctionalCore.init bind_memory in (tt, refl)))))
    where
      first : Core
      first = reference (FunctionalCore.init set.inst set.mem)

      others : List Core
      others = verilated_cores v w r h rng set args.core_type

      cores : make_cores v w r h rng set args ≡ first ∷ others
      cores = rw both
