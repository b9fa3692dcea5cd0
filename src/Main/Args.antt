-- ===== src/Main/Args.antt =====
-- `checkarg` and `is_known_core` of sim/main.cpp. What `getopt_long` finds is a parameter: the
-- options in their order, each with its argument, and the operands that are left. A text is a list
-- of characters.
pub mod Laws
use veri_cross.Base.{ℕ, zero, suc, ◌-◌, ◌^◌, ◌==◌, ◌&&◌, ◌||◌, ltb, leb, not, if◌then◌else◌}
use veri_cross.Base.{Bool, true, false, Option, none, some, List, [], ◌∷◌, ◌++◌}
use veri_cross.Sim.Loader.Files.{eq_text}
use veri_cross.Main.Number.{
  Scanned, scan, is_negative, Scaled, number, invalid, undefined, parse_scaled_number,
}

abbrev pub kronos_name : List ℕ
kronos_name = b'k' ∷ b'r' ∷ b'o' ∷ b'n' ∷ b'o' ∷ b's' ∷ []

abbrev pub kronos_faulty_name : List ℕ
kronos_faulty_name =
    b'k' ∷ b'r' ∷ b'o' ∷ b'n' ∷ b'o' ∷ b's' ∷ b'_' ∷ b'f' ∷ b'a' ∷ b'u' ∷ b'l' ∷ b't' ∷ b'y' ∷ []

abbrev pub rvcorep_name : List ℕ
rvcorep_name = b'r' ∷ b'v' ∷ b'c' ∷ b'o' ∷ b'r' ∷ b'e' ∷ b'p' ∷ []

abbrev pub known_cores : List (List ℕ)
known_cores = kronos_name ∷ kronos_faulty_name ∷ rvcorep_name ∷ []

abbrev contains : List (List ℕ) → List ℕ → Bool
contains [] core_type = false
contains (name ∷ names) core_type = eq_text core_type name || contains names core_type

unfoldable pub is_known_core : List ℕ → Bool
is_known_core core_type = contains known_cores core_type

-- `args_t`. `max_insts` and `mismatch_insts` hold what was parsed.
pub record Args : Type 0 where
  pub dump_log : Bool
  pub proc_only : Bool
  pub max_insts : ℕ
  pub mismatch_insts : ℕ
  pub core_type : List ℕ
  pub base_dir : List ℕ
  pub bin_file : List ℕ
  pub dump_file : List ℕ
  pub sp_file : List ℕ
  pub log_file : List ℕ

-- An option with its argument; `unknown` is what `getopt_long` answers with `?`.
pub data Opt : Type 0 where
  core logfile instruction mismatch : List ℕ → Opt
  list_core log proc_only version unknown : Opt

-- `ArgResult`. `overflow` is one in the parsing of a number.
pub data ArgResult : Type 0 where
  success : Args → ArgResult
  failed info_printed overflow : ArgResult

-- The values before the first option. The texts start empty.
abbrev pub defaults : Args
defaults = record {
  dump_log = false;
  proc_only = false;
  max_insts = 10000000;
  mismatch_insts = 0;
  core_type = [];
  base_dir = [];
  bin_file = [];
  dump_file = [];
  sp_file = [];
  log_file = [];
}

-- `atoi`, whose result is undefined if an `int` does not hold it, and the test `< 1`.
unfoldable pub parse_mismatch : List ℕ → Scaled
parse_mismatch str = elim (scan str) [
  | none ↦ invalid
  | some s ↦
      if leb (2 ^ 31) s.magnitude && not (s.negative && s.magnitude == 2 ^ 31)
      then undefined
      else if s.negative || s.magnitude == 0
      then invalid
      else number s.magnitude
]

abbrev dot_bin : List ℕ
dot_bin = b'.' ∷ b'b' ∷ b'i' ∷ b'n' ∷ []

abbrev dot_objdump : List ℕ
dot_objdump = b'.' ∷ b'o' ∷ b'b' ∷ b'j' ∷ b'd' ∷ b'u' ∷ b'm' ∷ b'p' ∷ []

abbrev sp_txt : List ℕ
sp_txt = b'_' ∷ b's' ∷ b'p' ∷ b'.' ∷ b't' ∷ b'x' ∷ b't' ∷ []

abbrev pub is_empty : List ℕ → Bool
is_empty [] = true
is_empty (c ∷ cs) = false

-- What follows the loop over the options.
unfoldable pub finish : Args → List (List ℕ) → ArgResult
finish args (base ∷ binary ∷ stack ∷ []) =
    if args.proc_only && is_empty args.core_type
    then failed
    else success (record args {
      base_dir = base;
      bin_file = binary ++ dot_bin;
      dump_file = binary ++ dot_objdump;
      sp_file = stack ++ sp_txt;
    })
finish args _ = failed

-- The effect of one option: to go on with the arguments, or to return.
pub data Next : Type 0 where
  go_on : Args → Next
  return : ArgResult → Next

pub set_max : Args → Scaled → Next
set_max args (number n) = go_on (record args { max_insts = n })
set_max args invalid = return failed
set_max args undefined = return overflow

pub set_mismatch : Args → Scaled → Next
set_mismatch args (number n) = go_on (record args { mismatch_insts = n })
set_mismatch args invalid = return failed
set_mismatch args undefined = return overflow

unfoldable pub option : Args → Opt → Next
unfolding set_max set_mismatch
option args (core name) =
    if is_known_core name then go_on (record args { core_type = name }) else return failed
option args (logfile file) = go_on (record args { dump_log = true; log_file = file })
option args (instruction str) = set_max args (parse_scaled_number str)
option args (mismatch str) = set_mismatch args (parse_mismatch str)
option args list_core = return info_printed
option args log = go_on (record args { dump_log = true })
option args proc_only = go_on (record args { proc_only = true })
option args version = return info_printed
option args unknown = return failed

unfoldable pub options : Args → List Opt → List (List ℕ) → ArgResult
unfolding finish option
options args [] operands = finish args operands
options args (o ∷ os) operands = elim (option args o) [
  | go_on args' ↦ options args' os operands
  | return r ↦ r
]

unfoldable pub checkarg : List Opt → List (List ℕ) → ArgResult
unfolding options
checkarg opts operands = options defaults opts operands
