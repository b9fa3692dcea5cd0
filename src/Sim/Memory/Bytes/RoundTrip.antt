-- ===== src/Sim/Memory/Bytes/RoundTrip.antt =====
-- `read` and `write` as a whole, from the loops.
use veri_cross.Base.{
  ℕ, zero, suc, ◌+◌, ◌*◌, ◌/◌, ◌%◌, ◌<◌, ◌≤◌, ◌≡◌, refl, sym, ap, ap₂, ◌∙◌, arith,
}
use veri_cross.Base.{◌&&◌, ◌==◌, Bool-cases, inl, inr}
use veri_cross.Base.{List, [], ◌∷◌, length, get_or}
use veri_cross.Bits.Lanes.{lanes, byte}
use veri_cross.Sim.Common.{mem_words, add32}
use veri_cross.Sim.Memory.{Memory, primary, all, view, read_1b, read_4b, write_1b, write_4b}
use veri_cross.Sim.Memory.Bytes.{read_words, read_bytes, read, write_words, write_bytes, write}
use veri_cross.Sim.Memory.Bytes.Single.{
  IsSized, read_1b-eq, word_addr-eq, write_1b-IsSized, write_4b-IsSized,
}
use veri_cross.Sim.Memory.Bytes.Laws.{
  AreBytes, patched_inside, read_1b-write_bytes, read_1b-write_words, read_bytes_back,
}

byte_of_word :
    (m : Memory) (addr i r : ℕ)
    → IsSized m
    → addr % 4 ≡ 0
    → i < mem_words
    → r < 4
    → byte (read_4b m primary (add32 addr (i * 4))) r ≡ read_1b m primary (add32 addr (i * 4 + r))
unfolding read_4b
byte_of_word m addr i r s al hi hr =
    ap₂ (λ x k. byte (view m primary x) k) (word_addr-eq m (add32 addr (i * 4)) s ∙ omega arith)
      (omega arith)
    ∙ sym (read_1b-eq m primary (add32 addr (i * 4 + r)) s)

read_bytes_four :
    (m : Memory) (addr n i : ℕ)
    → read_bytes m addr (suc n * 4) i
      ≡ read_1b m primary (add32 addr (i + 0))
        ∷ read_1b m primary (add32 addr (i + 1))
        ∷ read_1b m primary (add32 addr (i + 2))
        ∷ read_1b m primary (add32 addr (i + 3))
        ∷ read_bytes m addr (n * 4) (i + 4)
unfolding read_bytes
read_bytes_four m addr n i =
    ap (λ k. read_bytes m addr k i) four
    ∙ ap₂ ◌∷◌ (at (omega arith)) (
        ap₂ ◌∷◌ (at (omega arith)) (
          ap₂ ◌∷◌ (at (omega arith))
            (ap₂ ◌∷◌ (at (omega arith)) (ap (read_bytes m addr (n * 4)) (omega arith)))))
  where
    four : suc n * 4 ≡ suc (suc (suc (suc (n * 4))))
    four = omega arith

    at : {x y : ℕ} → x ≡ y → read_1b m primary (add32 addr x) ≡ read_1b m primary (add32 addr y)
    at e = ap (λ x. read_1b m primary (add32 addr x)) e

-- The loop over words reads the bytes that the loop over bytes reads.
read_words-eq :
    (m : Memory) (addr left i : ℕ)
    → IsSized m
    → addr % 4 ≡ 0
    → i + left ≤ mem_words
    → read_words m addr left i ≡ read_bytes m addr (left * 4) (i * 4)
unfolding read_words
read_words-eq m addr zero i s al h = unfold read_bytes in refl
read_words-eq m addr (suc left) i s al h =
    ap₂ ◌∷◌ (at 0 (omega arith)) (
      ap₂ ◌∷◌ (at 1 (omega arith)) (
        ap₂ ◌∷◌ (at 2 (omega arith)) (
          ap₂ ◌∷◌ (at 3 (omega arith)) (
            read_words-eq m addr left (i + 1) s al (omega arith)
            ∙ ap (read_bytes m addr (left * 4)) next))))
    ∙ sym (read_bytes_four m addr left (i * 4))
  where
    at :
        (r : ℕ)
        → r < 4
        → byte (read_4b m primary (add32 addr (i * 4))) r
          ≡ read_1b m primary (add32 addr (i * 4 + r))
    at r hr = byte_of_word m addr i r s al (omega arith) hr

    next : (i + 1) * 4 ≡ i * 4 + 4
    next = omega arith

-- For a memory of the program's size, and no more bytes than it holds, `read` gives the bytes from
-- `addr` on one by one, whether it takes the loop over words or the one over bytes.
read-eq-read_bytes :
    (m : Memory) (addr size : ℕ)
    → IsSized m
    → size ≤ 4 * mem_words
    → read m addr size ≡ read_bytes m addr size 0
unfolding read
read-eq-read_bytes m addr size s h = elim (Bool-cases (addr % 4 == 0 && size % 4 == 0)) [
  | inl e ↦ rw e (
      read_words-eq m addr (size / 4) 0 s (ground arith) (omega arith)
      ∙ ap (λ n. read_bytes m addr n 0) (ground arith))
  | inr e ↦ rw e
]

-- Every byte written is found at its place.
read_1b-write :
    (m : Memory) (addr : ℕ) (bs : List ℕ) (t : ℕ)
    → IsSized m
    → AreBytes bs
    → length bs ≤ 4 * mem_words
    → t < length bs
    → read_1b (write m addr bs) primary (add32 addr (0 + t)) ≡ get_or bs t 0
unfolding write
read_1b-write m addr bs t s hb h ht = elim (Bool-cases (addr % 4 == 0 && length bs % 4 == 0)) [
  | inl e ↦ rw e (
      read_1b-write_words addr bs 0 m (0 + t) s hb (ground arith) (ground arith) (omega arith)
        (omega arith)
      ∙ patched_inside 0 bs t (read_1b m primary (add32 addr (0 + t))) ht)
  | inr e ↦ rw e (
      read_1b-write_bytes addr bs 0 m (0 + t) s hb (omega arith) (omega arith)
      ∙ patched_inside 0 bs t (read_1b m primary (add32 addr (0 + t))) ht)
]

write_bytes-IsSized :
    (addr : ℕ) (bs : List ℕ) (i : ℕ) (m : Memory) → IsSized m → IsSized (write_bytes addr bs i m)
unfolding write_bytes
write_bytes-IsSized addr [] i m s = s
write_bytes-IsSized addr (b ∷ bs) i m s =
    write_bytes-IsSized addr bs (i + 1) (write_1b m all (add32 addr i) b)
      (write_1b-IsSized m all (add32 addr i) b s tt)

write_words-IsSized :
    (addr : ℕ) (bs : List ℕ) (i : ℕ) (m : Memory)
    → AreBytes bs
    → IsSized m
    → IsSized (write_words addr bs i m)
unfolding write_words
write_words-IsSized addr [] i m hb s = s
write_words-IsSized addr (b0 ∷ []) i m hb s = s
write_words-IsSized addr (b0 ∷ b1 ∷ []) i m hb s = s
write_words-IsSized addr (b0 ∷ b1 ∷ b2 ∷ []) i m hb s = s
write_words-IsSized addr (b0 ∷ b1 ∷ b2 ∷ b3 ∷ bs) i m hb s =
    write_words-IsSized addr bs (i + 1) (write_4b m all (add32 addr (i * 4)) (lanes b3 b2 b1 b0))
      hb.1.1.1.1
      (write_4b-IsSized m all (add32 addr (i * 4)) (lanes b3 b2 b1 b0) s tt (omega arith))

-- `write` keeps the invariant.
pub write-IsSized :
    (m : Memory) (addr : ℕ) (bs : List ℕ) → AreBytes bs → IsSized m → IsSized (write m addr bs)
unfolding write
write-IsSized m addr bs hb s = elim (Bool-cases (addr % 4 == 0 && length bs % 4 == 0)) [
  | inl e ↦ rw e (write_words-IsSized addr bs 0 m hb s)
  | inr e ↦ rw e (write_bytes-IsSized addr bs 0 m s)
]

-- For a memory of the program's size, `read` gives back the bytes that `write` has put at the same
-- address, aligned or not, if they are no more than the memory holds.
pub read-write :
    (m : Memory) (addr : ℕ) (bs : List ℕ)
    → IsSized m
    → AreBytes bs
    → length bs ≤ 4 * mem_words
    → read (write m addr bs) addr (length bs) ≡ bs
read-write m addr bs s hb h =
    read-eq-read_bytes (write m addr bs) addr (length bs) (write-IsSized m addr bs hb s) h
    ∙ read_bytes_back (write m addr bs) addr bs 0 (λ t ht. read_1b-write m addr bs t s hb h ht)
