-- ===== src/Sim/Loader/Image.antt =====
-- The constructor of `class Loader` in sim/loader.cpp, and the loop of main.cpp that writes the
-- sections. The files are what the host opens in the given directory; a binary is below 2 GiB.
use veri_cross.Base.{
  ℕ, ◌+◌, ◌*◌, ◌==◌, ltb, if◌then◌else◌, Option, none, some, List, [], ◌∷◌, length, Bool,
}
use veri_cross.Sim.Common.{initial_pc, initial_sp, add32, sub32}
use veri_cross.Sim.Memory.{Memory}
use veri_cross.Sim.Memory.Bytes.{write, bytes_of}
use veri_cross.Sim.Loader.{make_jal}
use veri_cross.Sim.Loader.Files.{get_lines, find_start, stack_words, binary_words}

-- `Loader::Section`; its length is four times that of `data`.
pub record Section : Type 0 where
  pub addr : ℕ
  pub data_words : List ℕ

-- The directory can be entered or not, and a file can be opened or not.
pub record Files : Type 0 where
  pub enters : Bool
  pub binary : Option (List ℕ)
  pub dump : Option (List ℕ)
  pub stack : Option (List ℕ)

pub data Message : Type 0 where
  no_directory no_binary no_dump no_stack no_initial_pc bad_stack : Message

-- A valid loader with its sections and `brk_addr`, or one that is not, with its message.
pub data Loaded : Type 0 where
  loaded : List Section → ℕ → Loaded
  failed : Message → Loaded

-- The constructor from the check of the initial PC on.
unfoldable pub make_image : List ℕ → ℕ × ℕ → List ℕ → Loaded
make_image bin (text_addr, start_addr) sp =
    if start_addr == 0
    then failed no_initial_pc
    else if ltb (4 * length sp) 16
    then failed bad_stack
    else loaded
        (record { addr = text_addr; data_words = bin }
          ∷ record { addr = initial_sp; data_words = sp }
          ∷ record { addr = initial_pc; data_words = make_jal (sub32 start_addr initial_pc) ∷ [] }
          ∷ [])
        (add32 text_addr (4 * length bin))

unfoldable pub open_stack : List ℕ → List ℕ → Option (List ℕ) → Loaded
open_stack bin dump none = failed no_stack
open_stack bin dump (some sp) =
    make_image (binary_words bin) (find_start (get_lines dump) 0) (stack_words (get_lines sp))

unfoldable pub open_dump : List ℕ → Option (List ℕ) → Option (List ℕ) → Loaded
unfolding open_stack
open_dump bin none sp = failed no_dump
open_dump bin (some dump) sp = open_stack bin dump sp

unfoldable pub open_binary : Option (List ℕ) → Option (List ℕ) → Option (List ℕ) → Loaded
unfolding open_dump
open_binary none dump sp = failed no_binary
open_binary (some bin) dump sp = open_dump bin dump sp

unfoldable pub load : Files → Loaded
unfolding open_binary
load f = if f.enters then open_binary f.binary f.dump f.stack else failed no_directory

-- `mem->write((*s)->addr + i * 4, &(*s)->data[i])` for the words from index `i` on.
unfoldable pub write_section : ℕ → ℕ → List ℕ → Memory → Memory
write_section addr i [] m = m
write_section addr i (w ∷ ws) m =
    write_section addr (i + 1) ws (write m (add32 addr (i * 4)) (bytes_of w))

unfoldable pub write_sections : List Section → Memory → Memory
unfolding write_section
write_sections [] m = m
write_sections (s ∷ ss) m = write_sections ss (write_section s.addr 0 s.data_words m)
