-- ===== src/Sim/Common.antt =====
-- sim/common.hpp and sim/core.hpp: constants, the write mask, the interfaces of a core. An
-- unsigned word is a native number below 2 ^ 32, with each wrap-around written out.
use veri_cross.Base.{ℕ, ◌+◌, ◌-◌, ◌%◌, ◌^◌, bit_and, bit_or, Bool, ◌==◌, if◌then◌else◌, not}

abbrev pub mem_words : ℕ
mem_words = 0x80000

abbrev pub initial_pc : ℕ
initial_pc = 0x10000

abbrev pub initial_sp : ℕ
initial_sp = 0x1e6400

abbrev pub vcore_timeout : ℕ
vcore_timeout = 1000

-- Casts and operators of `uint32_t`.
abbrev pub u32 : ℕ → ℕ
u32 n = n % 2 ^ 32

abbrev pub add32 : ℕ → ℕ → ℕ
add32 a b = (a + b) % 2 ^ 32

abbrev pub sub32 : ℕ → ℕ → ℕ
sub32 a b = (a + 2 ^ 32 - b) % 2 ^ 32

-- `~a`
abbrev pub not32 : ℕ → ℕ
not32 a = 2 ^ 32 - 1 - a

-- `x ? …`: a number as a condition.
abbrev pub test : ℕ → Bool
test x = not (x == 0)

unfoldable pub expand_wmask : ℕ → ℕ
expand_wmask mask =
    bit_or
      (bit_or
        (bit_or (if test (bit_and mask 8) then 0xff000000 else 0)
          (if test (bit_and mask 4) then 0x00ff0000 else 0))
        (if test (bit_and mask 2) then 0x0000ff00 else 0))
      (if test (bit_and mask 1) then 0x000000ff else 0)

-- `CoreInstructionIF`
pub record CoreInstructionIf : Type 0 where
  pub valid : ℕ
  pub pc : ℕ
  pub ir : ℕ
  pub rd : ℕ
  pub result : ℕ
  pub d_addr : ℕ
  pub d_wdata : ℕ
  pub d_wmask : ℕ
  pub d_baddr : ℕ

-- `CoreMemoryIF`
pub record CoreMemoryIf : Type 0 where
  pub i_addr : ℕ
  pub d_addr : ℕ
  pub i_rdata : ℕ
  pub d_rdata : ℕ
  pub d_wdata : ℕ
  pub d_wmask : ℕ
  pub en : ℕ
  pub d_re : ℕ
  pub d_we : ℕ
