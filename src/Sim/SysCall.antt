-- ===== src/Sim/SysCall.antt =====
-- sim/syscall.cpp: the emulation of system calls. The calls of the host's operating system are a
-- parameter, and an `int` is its bit pattern. `std::map` is the sorted association list of the
-- write buffers. `new` does not fail.
pub mod Cases
pub mod Table
pub mod Outcomes
pub mod Laws
pub mod Step
pub mod Opened
pub mod Paths
use veri_cross.Base.{ℕ, zero, suc, ◌+◌, ◌-◌, ◌*◌, ◌/◌, ◌%◌, ◌^◌, bit_and, bit_or, Bool}
use veri_cross.Base.{◌==◌, ltb, leb, if◌then◌else◌, Option, none, some, List, [], ◌∷◌, set, get_or}
use veri_cross.Sim.Common.{u32, add32, sub32, test}
use veri_cross.Sim.Core.{CoreClass}
use veri_cross.Sim.Memory.{Memory}
use veri_cross.Sim.Memory.Buffer.{WriteBuffer, lookup, insert}
use veri_cross.Sim.Memory.Bytes.{read, word_of}
use veri_cross.Sim.Riscv.{reg_a0}

-- What the emulation calls of the host: the calls return an `int`, `read` also the buffer that it
-- fills, the two that read a `struct stat` also this. `write` gets the bytes that the buffer was
-- filled with, and the size that is asked for. `words` are the first 30 words of a
-- `struct stat`, as the host lays it out, and `stamp` sets its times and its number of blocks.
pub record Host : Type 1 where
  pub World : Type 0
  pub Stat : Type 0
  pub errno : World → ℕ
  pub close : ℕ → World → World × ℕ
  pub lseek : ℕ → ℕ → ℕ → World → World × ℕ
  pub read : ℕ → ℕ → World → World × List ℕ × ℕ
  pub write : ℕ → List ℕ → ℕ → World → World × ℕ
  pub fstat : ℕ → World → World × Stat × ℕ
  pub open_path : List ℕ → ℕ → ℕ → World → World × ℕ
  pub stat : List ℕ → World → World × Stat × ℕ
  pub st_size : Stat → ℕ
  pub stamp : Stat → ℕ → ℕ → ℕ → Stat
  pub words : Stat → List ℕ

abbrev pub sim_path_max : ℕ
sim_path_max = 4096

abbrev pub sc_close : ℕ
sc_close = 57

abbrev pub sc_lseek : ℕ
sc_lseek = 62

abbrev pub sc_read : ℕ
sc_read = 63

abbrev pub sc_write : ℕ
sc_write = 64

abbrev pub sc_fstat : ℕ
sc_fstat = 80

abbrev pub sc_exit : ℕ
sc_exit = 93

abbrev pub sc_gettimeofday : ℕ
sc_gettimeofday = 169

abbrev pub sc_sbrk : ℕ
sc_sbrk = 214

abbrev pub sc_open : ℕ
sc_open = 1024

abbrev pub sc_stat : ℕ
sc_stat = 1038

-- `class SysCall`, less the pointers to the cores and the memory. `fd_next` is a number: fewer than
-- 2 ^ 31 files are opened.
pub record SysCall : Type 0 where
  pub fd_map : WriteBuffer
  pub fd_next : ℕ
  pub brk_addr : ℕ

-- The constructor.
unfoldable pub init : ℕ → ℕ → ℕ → ℕ → SysCall
init fd_in fd_out fd_err brk = record {
  fd_map = insert 2 fd_err (insert 1 fd_out (insert 0 fd_in []));
  fd_next = 3;
  brk_addr = brk;
}

-- `ret >= 0` for an `int`, and `-errno`.
abbrev pub is_natural : ℕ → Bool
is_natural ret = ltb ret (2 ^ 31)

abbrev pub negated : ℕ → ℕ
negated e = sub32 0 e

-- `fd_map[k]`, which inserts 0 for a missing key.
unfoldable pub touch : WriteBuffer → ℕ → WriteBuffer
touch fds k = elim (lookup k fds) [ none ↦ insert k 0 fds | some fd ↦ fds ]

unfoldable pub fd_of : WriteBuffer → ℕ → ℕ
fd_of fds k = elim (lookup k fds) [ none ↦ 0 | some fd ↦ fd ]

abbrev pub fd_at : SysCall → ℕ → SysCall × ℕ
fd_at s k = (record s { fd_map = touch s.fd_map k }, fd_of s.fd_map k)

-- The flags of `open` by newlib's and by Linux's numbers.
abbrev pub open_flags : List (ℕ × ℕ)
open_flags =
    (0x000008, 0x000400)
    ∷ (0x040000, 0x080000)
    ∷ (0x000200, 0x000040)
    ∷ (0x200000, 0x010000)
    ∷ (0x000800, 0x000080)
    ∷ (0x008000, 0x000100)
    ∷ (0x100000, 0x020000)
    ∷ (0x004000, 0x000800)
    ∷ (0x002000, 0x101000)
    ∷ (0x000400, 0x000200)
    ∷ []

convert : List (ℕ × ℕ) → ℕ → ℕ → ℕ
convert [] flag_rv flag_lx = flag_lx
convert ((rv, lx) ∷ fs) flag_rv flag_lx =
    convert fs flag_rv (if test (bit_and flag_rv rv) then bit_or flag_lx lx else flag_lx)

unfoldable pub linux_flags : ℕ → ℕ
unfolding convert
linux_flags flag_rv = bit_or (convert open_flags flag_rv 0) (bit_and flag_rv 0x3)

-- The loop of `read_path` from index `i` on, with `left` rounds to go: the path up to its NUL.
unfoldable pub read_path_from : Memory → ℕ → ℕ → ℕ → Option (List ℕ)
read_path_from m base i zero = none
read_path_from m base i (suc left) =
    let c = word_of (read m (add32 base i) 1) in
    let rest = read_path_from m base (i + 1) left in
    if c == 0 then some [] else elim rest [ none ↦ none | some cs ↦ some (c ∷ cs) ]

unfoldable pub read_path : Memory → ℕ → Option (List ℕ)
unfolding read_path_from
read_path m base = read_path_from m base 0 sim_path_max

-- `dst[5] = dst[4]; dst[4] = dst[6]; dst[6] = dst[7];`
abbrev pub reorder : List ℕ → List ℕ
reorder dst =
    let a = set dst 5 (get_or dst 4 0) in let b = set a 4 (get_or a 6 0) in set b 6 (get_or b 7 0)

unfoldable pub postprocess_stat : (h : Host) → h.Stat → ℕ → ℕ → List ℕ
postprocess_stat h src vtime vtime_nsec =
    reorder (h.words (h.stamp src vtime vtime_nsec (h.st_size src / 512)))

-- The objects that a system call works on: the cores, of which there is at least one, the memory,
-- the host, and the emulation itself.
pub record System (C W : Type 0) : Type 0 where
  pub first : C
  pub others : List C
  pub mem : Memory
  pub world : W
  pub sys : SysCall

module _ {C : Type 0} (core : CoreClass C) where
  unfoldable pub halt_others : List C → List C
  halt_others [] = []
  halt_others (c ∷ cs) = core.set_halt c ∷ halt_others cs

  unfoldable pub write_others : List C → ℕ → ℕ → List C
  write_others [] addr v = []
  write_others (c ∷ cs) addr v = core.write_reg c addr v ∷ write_others cs addr v

  module _ {W : Type 0} where
    unfoldable pub halt_cores : System C W → System C W
    unfolding halt_others
    halt_cores s = record s { first = core.set_halt s.first; others = halt_others s.others }

    unfoldable pub read_reg : System C W → ℕ → ℕ
    read_reg s addr = core.read_reg s.first addr

    unfoldable pub write_reg : System C W → ℕ → ℕ → System C W
    unfolding write_others
    write_reg s addr v = record s {
      first = core.write_reg s.first addr v;
      others = write_others s.others addr v;
    }
