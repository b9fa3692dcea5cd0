-- ===== src/Sim/Memory/Bytes/Single.antt =====
-- One byte and one word of the memory, in the size that the program gives it.
use veri_cross.Base.{ℕ, zero, suc, ◌*◌, ◌/◌, ◌%◌, ◌^◌, ◌<◌, ◌≡◌, refl, sym, ap, ap₂, ◌∙◌, arith}
use veri_cross.Base.{true, false, ◌==◌, if◌then◌else◌}
use veri_cross.Base.{Bool-cases, inl, inr, ==_iff}
use veri_cross.Base.{[], length, get_or, replicate}
use veri_cross.Bits.{bit_and-ones}
use veri_cross.Bits.Lanes.{byte}
use veri_cross.Sim.Common.{mem_words, u32, CoreMemoryIf}
use veri_cross.Sim.Memory.{
  Memory, CoreId, primary, all, replica, word_addr, init, buffer, view, read_4b, read_1b, write_4b,
  write_1b, merge,
}
use veri_cross.Sim.Memory.View.{
  IsValid, InRange, reaches, view-write_4b, write_4b-IsValid, write_4b-HasShapeOf,
}
use veri_cross.Sim.Memory.Buffer.{WriteBuffer, lookup}
use veri_cross.Sim.Memory.Merge.{byte_mask, merge-lt, byte-merge_at}

-- The memory that main.cpp makes, holding 32-bit words.
pub record IsSized (m : Memory) : Type 0 where
  pub valid : IsValid m
  pub size : m.nwords ≡ mem_words
  pub words : (j : CoreId) (x : ℕ) → view m j x < 2 ^ 32

-- The index of a byte in the whole memory.
abbrev pub index : ℕ → ℕ
index addr = addr % (4 * mem_words)

pub word_addr-eq : (m : Memory) (addr : ℕ) → IsSized m → word_addr m addr ≡ addr / 4 % mem_words
word_addr-eq m addr s = rw s.size (bit_and-ones 19 (addr / 4))

pow_byte : (r : ℕ) → r < 4 → 2 ^ (r * 8) ≡ 256 ^ r
pow_byte zero h = refl
pow_byte (suc zero) h = refl
pow_byte (suc (suc zero)) h = refl
pow_byte (suc (suc (suc zero))) h = refl
pow_byte (suc (suc (suc (suc r)))) h = absurd (omega arith)

pub read_1b-eq :
    (m : Memory) (j : CoreId) (addr : ℕ)
    → IsSized m
    → read_1b m j addr ≡ byte (view m j (addr / 4 % mem_words)) (addr % 4)
unfolding read_1b read_4b
read_1b-eq m j addr s =
    bit_and-ones 8 (view m j (word_addr m addr) / 2 ^ (addr % 4 * 8))
    ∙ ap₂ (λ x p. view m j x / p % 256) (word_addr-eq m addr s) (pow_byte (addr % 4) (omega arith))

pub write_4b-IsSized :
    (m : Memory) (id : CoreId) (addr v : ℕ)
    → IsSized m
    → InRange m id
    → v < 2 ^ 32
    → IsSized (write_4b m id addr v)
write_4b-IsSized m id addr v s r h = record {
  valid = write_4b-IsValid m v s.valid id addr r;
  size = (write_4b-HasShapeOf m id addr v).nwords ∙ s.size;
  words = λ j x. ground (arith, view-write_4b m v s.valid id j addr x r, s.words j x);
}

get_or-replicate : (n i : ℕ) → get_or {A = WriteBuffer} (replicate n []) i [] ≡ []
get_or-replicate zero i = refl
get_or-replicate (suc n) zero = refl
get_or-replicate (suc n) (suc i) = get_or-replicate n i

length-replicate {ℓ} : {A : Type ℓ} (n : ℕ) (a : A) → length (replicate n a) ≡ n
length-replicate zero a = refl
length-replicate (suc n) a = ap suc (length-replicate n a)

-- Every core of a new memory sees zeros.
view-init :
    (fresh : CoreMemoryIf) (reps : ℕ) (j : CoreId) (x : ℕ)
    → view (init fresh reps mem_words) j x ≡ 0
unfolding init view buffer lookup
view-init fresh reps primary x = ground arith
view-init fresh reps all x = ground arith
view-init fresh reps (replica i) x = rw (get_or-replicate reps i) (ground arith)

wmask-eq :
    (r : ℕ) → r < 4 → u32 (0xff * 2 ^ (r * 8)) ≡ byte_mask (r == 3) (r == 2) (r == 1) (r == 0)
wmask-eq zero h = refl
wmask-eq (suc zero) h = refl
wmask-eq (suc (suc zero)) h = refl
wmask-eq (suc (suc (suc zero))) h = refl
wmask-eq (suc (suc (suc (suc r)))) h = absurd (omega arith)

-- The word that `write_1b` stores.
abbrev put_byte : ℕ → ℕ → ℕ → ℕ
put_byte old r v = merge old (u32 (0x01010101 * v)) (u32 (0xff * 2 ^ (r * 8)))

byte_repeated : (v i : ℕ) → v < 256 → i < 4 → byte (u32 (0x01010101 * v)) i ≡ v
byte_repeated v zero hv hi = omega arith
byte_repeated v (suc zero) hv hi = omega arith
byte_repeated v (suc (suc zero)) hv hi = omega arith
byte_repeated v (suc (suc (suc zero))) hv hi = omega arith
byte_repeated v (suc (suc (suc (suc i)))) hv hi = absurd (omega arith)

byte-put_byte :
    (old r v i : ℕ)
    → old < 2 ^ 32
    → r < 4
    → v < 256
    → i < 4
    → byte (put_byte old r v) i ≡ (if r == i then v else byte old i)
byte-put_byte old r v i ho hr hv hi =
    ap (λ w. byte (merge old (u32 (0x01010101 * v)) w) i) (wmask-eq r hr)
    ∙ byte-merge_at old (u32 (0x01010101 * v)) (λ k. r == k) i ho (omega arith) hi
    ∙ rw (byte_repeated v i hv hi)

put_byte-lt : (old r v : ℕ) → old < 2 ^ 32 → r < 4 → put_byte old r v < 2 ^ 32
put_byte-lt old r v ho hr =
    rw (wmask-eq r hr)
      (merge-lt old (u32 (0x01010101 * v)) (r == 3) (r == 2) (r == 1) (r == 0) ho (omega arith))

module _ (m : Memory) (id : CoreId) (addr v : ℕ) (s : IsSized m) (r : InRange m id) where
  pub write_1b-IsSized : IsSized (write_1b m id addr v)
  unfolding write_1b read_4b
  write_1b-IsSized =
      write_4b-IsSized m id addr _ s r
        (put_byte-lt (read_4b m id addr) (addr % 4) v (s.words id (word_addr m addr)) (omega arith))

  module _ (j : CoreId) (sees : reaches m id j ≡ true)
      (same : (x : ℕ) → view m id x ≡ view m j x) where
    -- The word of the byte `b` after the write.
    written :
        (b : ℕ)
        → view (write_1b m id addr v) j (b / 4 % mem_words) ≡ (
            if addr / 4 % mem_words == b / 4 % mem_words
            then put_byte (view m j (b / 4 % mem_words)) (addr % 4) v
            else view m j (b / 4 % mem_words))
    unfolding write_1b read_4b
    written b = ground (
      arith,
      word_addr-eq m addr s,
      view-write_4b m (put_byte (view m id (word_addr m addr)) (addr % 4) v) s.valid id j addr
          (b / 4 % mem_words) r,
      same (b / 4 % mem_words),
      ap (λ (x : ℕ). put_byte (view m id x) (addr % 4) v) (word_addr-eq m addr s),
      ==_iff (addr / 4 % mem_words) (b / 4 % mem_words),
    )

    -- A byte written is the byte read at its index, and no other byte changes.
    pub read_1b-write_1b :
        (b : ℕ)
        → v < 256
        → read_1b (write_1b m id addr v) j b ≡ (if index addr == index b then v else read_1b m j b)
    read_1b-write_1b b hv =
        read_1b-eq (write_1b m id addr v) j b write_1b-IsSized
        ∙ ap (λ w. byte w (b % 4)) (written b)
        ∙ elim (Bool-cases (addr / 4 % mem_words == b / 4 % mem_words)) [
          | inl e ↦
              let word : addr / 4 % mem_words ≡ b / 4 % mem_words = (==_iff _ _).0 e in
              let here : (index addr == index b) ≡ (addr % 4 == b % 4) = ground arith in
              rw (e, here)
                (byte-put_byte (view m j (b / 4 % mem_words)) (addr % 4) v (b % 4)
                    (s.words j (b / 4 % mem_words)) (omega arith) hv (omega arith)
                  ∙ rw (read_1b-eq m j b s))
          | inr e ↦
              let elsewhere : (index addr == index b) ≡ false = ground arith in
              rw (e, elsewhere) (sym (read_1b-eq m j b s))
        ]

-- A word written is four bytes written.
pub read_1b-write_4b :
    (m : Memory) (id : CoreId) (addr v : ℕ)
    → IsSized m
    → InRange m id
    → (j : CoreId) → reaches m id j ≡ true
    → v < 2 ^ 32
    → (b : ℕ)
    → read_1b (write_4b m id addr v) j b
      ≡ (if addr / 4 % mem_words == b / 4 % mem_words then byte v (b % 4) else read_1b m j b)
read_1b-write_4b m id addr v s r j sees hv b =
    read_1b-eq (write_4b m id addr v) j b (write_4b-IsSized m id addr v s r hv)
    ∙ ground (
      arith,
      word_addr-eq m addr s,
      view-write_4b m v s.valid id j addr (b / 4 % mem_words) r,
      read_1b-eq m j b s,
    )

-- A new memory of the program's size satisfies the invariant.
pub init-IsSized : (fresh : CoreMemoryIf) (reps : ℕ) → IsSized (init fresh reps mem_words)
unfolding init
init-IsSized fresh reps = record {
  valid = record { reps = length-replicate reps []; sorted = tt };
  size = refl;
  words = λ j x. rw (view-init fresh reps j x) (omega arith);
}
