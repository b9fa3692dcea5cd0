-- ===== src/Tests/Main.antt =====
-- The loader and the program at concrete inputs.
use veri_cross.Base.{
  ◌≢◌, ap, ◌%◌, ◌≡◌, ◌+◌, ◌*◌, ◌^◌, refl, arith, true, some, List, [], ◌∷◌, ◌++◌, if◌then◌else◌,
  ltb, ℕ,
}
use veri_cross.Sim.Common.{initial_pc, initial_sp}
use veri_cross.Sim.Memory.Ports.{idle}
use veri_cross.Sim.Loader.Files.{
  start_name, find_start, get_lines, match_func, stack_words, match_sp, binary_words,
}
use veri_cross.Sim.Loader.{make_jal}
use veri_cross.Sim.Loader.Image.{Section, Files, loaded, load, make_image, write_sections}
use veri_cross.Sim.Loader.Boot.{Labels}
use veri_cross.Sim.Loader.Start.{drive-load}
use veri_cross.Sim.FunctionalCore.{FunctionalCore}
use veri_cross.Sim.FunctionalCore.Exec.{drive, returns}
use veri_cross.Main.Number.{number, undefined, parse_scaled_number}
use veri_cross.Main.Number.Laws.{
  mega, letter, factor, written, decimal, parse_scaled_number-written,
}
use veri_cross.Main.Args.{
  Args, Opt, defaults, core, instruction, kronos_name, success, is_known_core, checkarg,
}
use veri_cross.Main.Run.{Setting, main}
use veri_cross.Main.Run.Laws.{HasCore, main-HasCore, EndsWell, main-EndsWell}
use veri_cross.Tests.Cores.{reset, zero_byte}
use veri_cross.Tests.Memory.{fresh, fresh-IsSized}
use veri_cross.Tests.System.{quiet}
use veri_cross.Tests.Loops.{registers, counting}

-- A program without words whose `_start` is at 0x10054, and a stack of four zero words.
abbrev zero_line : List ℕ
zero_line = b'0' ∷ b'0' ∷ b'0' ∷ b'0' ∷ b'0' ∷ b'0' ∷ b'0' ∷ b'0' ∷ 10 ∷ []

abbrev label_line : List ℕ
label_line =
    b'0'
    ∷ b'0'
    ∷ b'0'
    ∷ b'1'
    ∷ b'0'
    ∷ b'0'
    ∷ b'5'
    ∷ b'4'
    ∷ b' '
    ∷ b'<'
    ∷ (start_name ++ (b'>' ∷ b':' ∷ 10 ∷ []))

abbrev files : Files
files = record {
  enters = true;
  binary = some [];
  dump = some label_line;
  stack = some (zero_line ++ (zero_line ++ (zero_line ++ zero_line)));
}

abbrev sections : List Section
sections =
    record { addr = 0x10054; data_words = [] }
    ∷ record { addr = initial_sp; data_words = 0 ∷ 0 ∷ 0 ∷ 0 ∷ [] }
    ∷ record { addr = initial_pc; data_words = 0x0540006f ∷ [] }
    ∷ []

load_files : load files ≡ loaded sections 0x10054
unfolding load make_image find_start get_lines match_func stack_words match_sp binary_words make_jal
load_files = refl

start_address : (find_start (get_lines label_line) 0).1 ≡ 0x10054
unfolding find_start get_lines match_func
start_address = refl

drive-load_example :
    Labels (find_start (get_lines label_line) 0).1 (get_lines label_line)
    × ((c' : FunctionalCore) × (drive reset (write_sections sections fresh) ≡ returns c' true)
        × (c'.pc ≡ (find_start (get_lines label_line) 0).1)
        × ((r : ℕ) → r ≢ 0 → c'.reg r ≡ reset.reg r))
drive-load_example =
    drive-load files fresh sections 0x10054 label_line reset fresh-IsSized refl load_files
      (ap (λ a. a % 2) start_address) (omega (arith, start_address)) refl refl

-- `42M`
parse_scaled_number-written_example : parse_scaled_number (written (4 ∷ 2 ∷ []) ++ letter mega) ≡ (
    if ltb (decimal 4 (2 ∷ []) * factor mega) (2 ^ 63)
    then number (decimal 4 (2 ∷ []) * factor mega)
    else undefined)
parse_scaled_number-written_example =
    parse_scaled_number-written 4 (2 ∷ []) mega (omega arith, (omega arith, tt)) (omega arith)

abbrev setting : Setting
setting = record {
  files = files;
  log_opens = true;
  enters = true;
  inst = zero_byte 0;
  mem = idle;
  unset = 0;
}

-- `-c kronos -i 5` with three file_names.
abbrev given : List Opt
given = core kronos_name ∷ instruction (b'5' ∷ []) ∷ []

abbrev file_names : List (List ℕ)
file_names = (b'.' ∷ []) ∷ (b'x' ∷ []) ∷ (b'y' ∷ []) ∷ []

main-HasCore_example :
    HasCore registers registers counting quiet 0 setting
      (main registers registers counting quiet 0 setting 8 given file_names 0)
main-HasCore_example =
    main-HasCore registers registers counting quiet 0 setting 8 given file_names 0

abbrev parsed : Args
parsed = record defaults {
  max_insts = 5;
  core_type = kronos_name;
  base_dir = b'.' ∷ [];
  bin_file = b'x' ∷ b'.' ∷ b'b' ∷ b'i' ∷ b'n' ∷ [];
  dump_file = b'x' ∷ b'.' ∷ b'o' ∷ b'b' ∷ b'j' ∷ b'd' ∷ b'u' ∷ b'm' ∷ b'p' ∷ [];
  sp_file = b'y' ∷ b'_' ∷ b's' ∷ b'p' ∷ b'.' ∷ b't' ∷ b'x' ∷ b't' ∷ [];
}

given-parsed : checkarg given file_names ≡ success parsed
unfolding checkarg is_known_core parse_scaled_number
given-parsed = refl

main-EndsWell_example :
    EndsWell registers registers counting quiet 0 setting 5
      (main registers registers counting quiet 0 setting (5 + 3) given file_names 0)
main-EndsWell_example =
    main-EndsWell registers registers counting quiet 0 setting given file_names 0 parsed
      given-parsed refl (omega arith)
