-- ===== src/Sim/Memory/Bytes.antt =====
-- The public `read` and `write` of sim/memory.cpp, over the bytes of a buffer. `memcpy` of a
-- word is that of a little-endian host.
pub mod Single
pub mod Laws
pub mod RoundTrip
use veri_cross.Base.{ℕ, zero, suc, ◌+◌, ◌*◌, ◌/◌, ◌%◌, ◌&&◌, ◌==◌, if◌then◌else◌}
use veri_cross.Base.{List, [], ◌∷◌, ◌++◌, length}
use veri_cross.Bits.Lanes.{lanes, byte}
use veri_cross.Sim.Common.{add32}
use veri_cross.Sim.Memory.{Memory, primary, all, read_1b, read_4b, write_1b, write_4b}

-- The four bytes of a word in memory.
abbrev pub bytes_of : ℕ → List ℕ
bytes_of w = byte w 0 ∷ byte w 1 ∷ byte w 2 ∷ byte w 3 ∷ []

-- The loop over words, at index `i` with `left` rounds to go, and the one over bytes.
unfoldable pub read_words : Memory → ℕ → ℕ → ℕ → List ℕ
read_words m addr zero i = []
read_words m addr (suc left) i =
    bytes_of (read_4b m primary (add32 addr (i * 4))) ++ read_words m addr left (i + 1)

unfoldable pub read_bytes : Memory → ℕ → ℕ → ℕ → List ℕ
read_bytes m addr zero i = []
read_bytes m addr (suc left) i = read_1b m primary (add32 addr i) ∷ read_bytes m addr left (i + 1)

unfoldable pub read : Memory → ℕ → ℕ → List ℕ
unfolding read_words read_bytes
read m addr size =
    if addr % 4 == 0 && size % 4 == 0
    then read_words m addr (size / 4) 0
    else read_bytes m addr size 0

pub write_words : ℕ → List ℕ → ℕ → Memory → Memory
write_words addr (b0 ∷ b1 ∷ b2 ∷ b3 ∷ bs) i m =
    write_words addr bs (i + 1) (write_4b m all (add32 addr (i * 4)) (lanes b3 b2 b1 b0))
write_words addr _ i m = m

pub write_bytes : ℕ → List ℕ → ℕ → Memory → Memory
write_bytes addr [] i m = m
write_bytes addr (b ∷ bs) i m = write_bytes addr bs (i + 1) (write_1b m all (add32 addr i) b)

-- The value of a buffer that `read` has filled, on a little-endian host.
abbrev pub word_of : List ℕ → ℕ
word_of [] = 0
word_of (b ∷ bs) = b + 256 * word_of bs

-- `write` of the whole list, whose length is `size`.
unfoldable pub write : Memory → ℕ → List ℕ → Memory
unfolding write_words write_bytes
write m addr bs =
    if addr % 4 == 0 && length bs % 4 == 0 then write_words addr bs 0 m else write_bytes addr bs 0 m
