-- ===== src/Bench/Bitfiles.antt =====
-- benchmark/source/bitcount/bitfiles.c: bits written to and read from a file. A file is the list of
-- its bytes: those that are written, or those that are left to be read. `fgetc` gives -1 at the
-- end of the file, which `rbuf` keeps as the byte 255.
pub mod Laws
use veri_cross.Base.{
  ℕ, zero, suc, ◌+◌, ◌-◌, ◌*◌, ◌/◌, ◌%◌, ◌^◌, bit_and, bit_or, ◌==◌, if◌then◌else◌,
}
use veri_cross.Base.{List, [], ◌∷◌, ◌++◌, Bool}
use veri_cross.Sim.Common.{test}

-- `bfile`, with the bytes of its file. A file is either written or read.
pub record Bfile : Type 0 where
  pub file : List ℕ
  pub rbuf : ℕ
  pub rcnt : ℕ
  pub wbuf : ℕ
  pub wcnt : ℕ

-- `bfopen` of a file that opens: `rbuf` and `wbuf` are left as `malloc` gives them.
unfoldable pub bfopen : List ℕ → ℕ → ℕ → Bfile
bfopen file rbuf wbuf = record { file = file; rbuf = rbuf; rcnt = 0; wbuf = wbuf; wcnt = 0 }

-- `fgetc` into a `char`.
abbrev pub refill : Bfile → Bfile
refill bf = elim bf.file [
  | [] ↦ record bf { rbuf = 255; rcnt = 8 }
  | c ∷ rest ↦ record bf { file = rest; rbuf = c; rcnt = 8 }
]

unfoldable pub bfread : Bfile → Bfile × Bool
bfread bf =
    let filled = if bf.rcnt == 0 then refill bf else bf in
    let n = filled.rcnt - 1 in (record filled { rcnt = n }, test (bit_and filled.rbuf (2 ^ n)))

unfoldable pub bfwrite : ℕ → Bfile → Bfile
bfwrite bit bf =
    let flushed =
      if bf.wcnt == 8 then record bf { file = bf.file ++ bf.wbuf ∷ []; wcnt = 0 } else bf in
    record flushed {
      wcnt = flushed.wcnt + 1;
      wbuf = bit_or (flushed.wbuf * 2 % 2 ^ 8) (bit_and bit 1);
    }

-- `bfclose`: the file that is left.
unfoldable pub bfclose : Bfile → List ℕ
bfclose bf = bf.file
