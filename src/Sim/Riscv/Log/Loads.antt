-- ===== src/Sim/Riscv/Log/Loads.antt =====
-- The value that the log gives for a load, against the value that the reference core loads.
use veri_cross.Base.{ℕ, zero, suc, ◌+◌, ◌-◌, ◌*◌, ◌/◌, ◌%◌, ◌^◌, ◌<◌, ◌≡◌, sym, ap, ap₂, ◌∙◌, arith}
use veri_cross.Base.{bit_and}
use veri_cross.Bits.{bit_and-ones, bit_and-field}
use veri_cross.Bits.Lanes.{byte}
use veri_cross.Sim.Common.{mem_words}
use veri_cross.Sim.Memory.{Memory, primary, word_addr, view, read_4b, read_1b}
use veri_cross.Sim.Memory.Bytes.{read, read_bytes, read_words, word_of}
use veri_cross.Sim.Memory.Bytes.Single.{IsSized, read_1b-eq, word_addr-eq}

abbrev pub aligned : ℕ → ℕ
aligned addr = bit_and addr (2 ^ 32 - 1 - 3)

aligned-eq : (addr : ℕ) → addr < 2 ^ 32 → aligned addr ≡ addr / 4 * 4
aligned-eq addr h = ground (arith, bit_and-field 2 30 addr)

module _ (m : Memory) (s : IsSized m) (addr : ℕ) (h : addr < 2 ^ 32) where
  -- The word of the memory that the address lies in.
  abbrev pub word : ℕ
  word = view m primary (addr / 4 % mem_words)

  pub word-aligned : word_of (read m (aligned addr) 4) ≡ word
  unfolding read read_words read_4b
  word-aligned =
      whole
      ∙ ap (view m primary) (word_addr-eq m (aligned addr) s)
      ∙ ap (λ x. view m primary (x % mem_words)) (omega (arith, aligned-eq addr h))
    where
      whole : word_of (read m (aligned addr) 4) ≡ view m primary (word_addr m (aligned addr))
      whole = ground (arith, aligned-eq addr h, s.words primary (word_addr m (aligned addr)))

  read_1b-shift : read_1b m primary addr ≡ word / 2 ^ (bit_and addr 0x3 * 8) % 2 ^ 8
  unfolding read_1b read_4b
  read_1b-shift =
      bit_and-ones 8 (view m primary (word_addr m addr) / 2 ^ (addr % 4 * 8))
      ∙ ap (λ x. view m primary x / 2 ^ (addr % 4 * 8) % 2 ^ 8) (word_addr-eq m addr s)
      ∙ ap (λ r. word / 2 ^ (r * 8) % 2 ^ 8) (sym (bit_and-ones 2 addr))

  pub word_of-byte : word_of (read m addr 1) ≡ word / 2 ^ (bit_and addr 0x3 * 8) % 2 ^ 8
  unfolding read read_bytes
  word_of-byte = one ∙ read_1b-shift
    where
      one : word_of (read m addr 1) ≡ read_1b m primary addr
      one = ground arith

two_lanes :
    (w r : ℕ) → r < 4 → r % 2 ≡ 0 → byte w r + 256 * byte w (r + 1) ≡ w / 2 ^ (r * 8) % 2 ^ 16
two_lanes w zero h even = omega arith
two_lanes w (suc zero) h even = absurd (omega arith)
two_lanes w (suc (suc zero)) h even = omega arith
two_lanes w (suc (suc (suc r))) h even = absurd (omega arith)

module _ (addr : ℕ) (even : addr % 2 ≡ 0) where
  same_word : (addr + 1) / 4 ≡ addr / 4
  same_word = omega arith

  next_lane : (addr + 1) % 4 ≡ addr % 4 + 1
  next_lane = omega arith

  lane_of : addr % 4 ≡ bit_and addr 0x2
  lane_of = omega (arith, bit_and-field 1 1 addr)

module _ (m : Memory) (s : IsSized m) (addr : ℕ) (h : addr < 2 ^ 32) (even : addr % 2 ≡ 0) where
  pub word_of-half : word_of (read m addr 2) ≡ word m s addr h / 2 ^ (bit_and addr 0x2 * 8) % 2 ^ 16
  unfolding read read_bytes
  word_of-half =
      two
      ∙ ap₂ (λ a b. a + 256 * b) (read_1b-eq m primary addr s) (read_1b-eq m primary (addr + 1) s)
      ∙ ap₂
          (λ x r. byte (word m s addr h) (addr % 4) + 256 * byte (view m primary (x % mem_words)) r)
          (same_word addr even) (next_lane addr even)
      ∙ two_lanes (word m s addr h) (addr % 4) (omega arith) (omega arith)
      ∙ ap (λ r. word m s addr h / 2 ^ (r * 8) % 2 ^ 16) (lane_of addr even)
    where
      two : word_of (read m addr 2) ≡ read_1b m primary addr + 256 * read_1b m primary (addr + 1)
      two = ground arith
