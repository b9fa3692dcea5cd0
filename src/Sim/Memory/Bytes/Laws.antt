-- ===== src/Sim/Memory/Bytes/Laws.antt =====
-- The public accesses: the fast path over words is the loop over bytes, and what `write` puts
-- into the memory `read` gets back.
use veri_cross.Base.{ℕ, zero, suc, ◌+◌, ◌*◌, ◌/◌, ◌%◌, ◌<◌, ◌≤◌, ◌≡◌, refl, ap, ap₂, ◌∙◌, arith}
use veri_cross.Base.{true, ◌==◌, if◌then◌else◌}
use veri_cross.Base.{List, [], ◌∷◌, length, get_or}
use veri_cross.Bits.Lanes.{lanes, byte}
use veri_cross.Sim.Common.{mem_words, add32}
use veri_cross.Sim.Memory.{Memory, primary, all, buffer, view, read_1b, write_1b, write_4b}
use veri_cross.Sim.Memory.View.{reaches}
use veri_cross.Sim.Memory.Bytes.{read_bytes, write_words, write_bytes}
use veri_cross.Sim.Memory.Bytes.Single.{
  IsSized, index, write_4b-IsSized, write_1b-IsSized, read_1b-write_1b, read_1b-write_4b,
}

abbrev pub AreBytes : List ℕ → Type 0
AreBytes [] = Unit
AreBytes (b ∷ bs) = (b < 256) × AreBytes bs

module _ (m : Memory) where
  all_sees_primary : (x : ℕ) → view m all x ≡ view m primary x
  unfolding view buffer
  all_sees_primary x = refl

  all_reaches : reaches m all primary ≡ true
  all_reaches = ground arith

-- Indices that differ by less than the memory's size are different bytes of it.
index_inj :
    (addr i k : ℕ)
    → i < 4 * mem_words
    → k < 4 * mem_words
    → (index (add32 addr i) == index (add32 addr k)) ≡ (i == k)
index_inj addr i k hi hk = ground arith

at_write_1b :
    (m : Memory) (addr i k b : ℕ)
    → IsSized m
    → i < 4 * mem_words
    → k < 4 * mem_words
    → b < 256
    → read_1b (write_1b m all (add32 addr i) b) primary (add32 addr k)
      ≡ (if i == k then b else read_1b m primary (add32 addr k))
at_write_1b m addr i k b s hi hk hb =
    read_1b-write_1b m all (add32 addr i) b s tt primary (all_reaches m) (all_sees_primary m)
      (add32 addr k) hb
    ∙ rw (index_inj addr i k hi hk)

-- What a read at offset `k` finds after the bytes have been written from offset `i` on.
abbrev pub patched : ℕ → List ℕ → ℕ → ℕ → ℕ
patched i [] k old = old
patched i (b ∷ bs) k old = patched (i + 1) bs k (if i == k then b else old)

patched_before : (i : ℕ) (bs : List ℕ) (k old : ℕ) → k < i → patched i bs k old ≡ old
patched_before i [] k old h = refl
patched_before i (b ∷ bs) k old h =
    patched_before (i + 1) bs k (if i == k then b else old) (omega arith) ∙ ground arith

pub patched_inside :
    (i : ℕ) (bs : List ℕ) (t old : ℕ) → t < length bs → patched i bs (i + t) old ≡ get_or bs t 0
patched_inside i [] t old h = elim h [ ]
patched_inside i (b ∷ bs) zero old h =
    patched_before (i + 1) bs (i + 0) (if i == i + 0 then b else old) (omega arith) ∙ ground arith
patched_inside i (b ∷ bs) (suc t) old h =
    ap (λ k. patched (i + 1) bs k (if i == i + suc t then b else old)) (omega arith)
    ∙ patched_inside (i + 1) bs t (if i == i + suc t then b else old) (omega arith)

pub read_1b-write_bytes :
    (addr : ℕ) (bs : List ℕ) (i : ℕ) (m : Memory) (k : ℕ)
    → IsSized m
    → AreBytes bs
    → i + length bs ≤ 4 * mem_words
    → k < 4 * mem_words
    → read_1b (write_bytes addr bs i m) primary (add32 addr k)
      ≡ patched i bs k (read_1b m primary (add32 addr k))
unfolding write_bytes
read_1b-write_bytes addr [] i m k s hb le hk = refl
read_1b-write_bytes addr (b ∷ bs) i m k s hb le hk =
    read_1b-write_bytes addr bs (i + 1) (write_1b m all (add32 addr i) b) k
      (write_1b-IsSized m all (add32 addr i) b s tt) hb.1 (omega arith) hk
    ∙ ap (patched (i + 1) bs k) (at_write_1b m addr i k b s (omega arith) hk hb.0)

same_word :
    (addr i k : ℕ)
    → addr % 4 ≡ 0
    → i * 4 + 4 ≤ 4 * mem_words
    → k < 4 * mem_words
    → (add32 addr (i * 4) / 4 % mem_words == add32 addr k / 4 % mem_words) ≡ (i == k / 4)
same_word addr i k al hi hk = ground arith

low_bits : (addr k : ℕ) → addr % 4 ≡ 0 → k < 4 * mem_words → add32 addr k % 4 ≡ k % 4
low_bits addr k al hk = omega arith

lane_at :
    (b0 b1 b2 b3 r : ℕ)
    → r < 4
    → b0 < 256
    → b1 < 256
    → b2 < 256
    → b3 < 256
    → byte (lanes b3 b2 b1 b0) r
      ≡ (if r == 3 then b3 else if r == 2 then b2 else if r == 1 then b1 else b0)
lane_at b0 b1 b2 b3 zero h h0 h1 h2 h3 = omega arith
lane_at b0 b1 b2 b3 (suc zero) h h0 h1 h2 h3 = omega arith
lane_at b0 b1 b2 b3 (suc (suc zero)) h h0 h1 h2 h3 = omega arith
lane_at b0 b1 b2 b3 (suc (suc (suc zero))) h h0 h1 h2 h3 = omega arith
lane_at b0 b1 b2 b3 (suc (suc (suc (suc r)))) h h0 h1 h2 h3 = absurd (omega arith)

at_write_4b :
    (m : Memory) (addr i k b0 b1 b2 b3 : ℕ)
    → IsSized m
    → addr % 4 ≡ 0
    → i * 4 + 4 ≤ 4 * mem_words
    → k < 4 * mem_words
    → b0 < 256
    → b1 < 256
    → b2 < 256
    → b3 < 256
    → read_1b (write_4b m all (add32 addr (i * 4)) (lanes b3 b2 b1 b0)) primary (add32 addr k)
      ≡ patched (i * 4) (b0 ∷ b1 ∷ b2 ∷ b3 ∷ []) k (read_1b m primary (add32 addr k))
at_write_4b m addr i k b0 b1 b2 b3 s al hi hk h0 h1 h2 h3 =
    read_1b-write_4b m all (add32 addr (i * 4)) (lanes b3 b2 b1 b0) s tt primary (all_reaches m)
      (omega arith) (add32 addr k)
    ∙ rw
        (
          same_word addr i k al hi hk,
          low_bits addr k al hk,
          lane_at b0 b1 b2 b3 (k % 4) (omega arith) h0 h1 h2 h3,
        )
        (ground arith)

pub read_1b-write_words :
    (addr : ℕ) (bs : List ℕ) (i : ℕ) (m : Memory) (k : ℕ)
    → IsSized m
    → AreBytes bs
    → addr % 4 ≡ 0
    → length bs % 4 ≡ 0
    → i * 4 + length bs ≤ 4 * mem_words
    → k < 4 * mem_words
    → read_1b (write_words addr bs i m) primary (add32 addr k)
      ≡ patched (i * 4) bs k (read_1b m primary (add32 addr k))
unfolding write_words
read_1b-write_words addr [] i m k s hb al len le hk = refl
read_1b-write_words addr (b0 ∷ []) i m k s hb al len le hk = absurd (omega arith)
read_1b-write_words addr (b0 ∷ b1 ∷ []) i m k s hb al len le hk = absurd (omega arith)
read_1b-write_words addr (b0 ∷ b1 ∷ b2 ∷ []) i m k s hb al len le hk = absurd (omega arith)
read_1b-write_words addr (b0 ∷ b1 ∷ b2 ∷ b3 ∷ bs) i m k s hb al len le hk =
    read_1b-write_words addr bs (i + 1) (write_4b m all (add32 addr (i * 4)) (lanes b3 b2 b1 b0)) k
      (write_4b-IsSized m all (add32 addr (i * 4)) (lanes b3 b2 b1 b0) s tt (omega arith))
      hb.1.1.1.1 al (omega arith) (omega arith) hk
    ∙ ap (patched ((i + 1) * 4) bs k)
        (at_write_4b m addr i k b0 b1 b2 b3 s al (omega arith) hk hb.0 hb.1.0 hb.1.1.0 hb.1.1.1.0)
    ∙ ap
        (λ n.
          patched n bs k
            (patched (i * 4) (b0 ∷ b1 ∷ b2 ∷ b3 ∷ []) k (read_1b m primary (add32 addr k))))
        (omega arith)

-- Reading back what is known byte by byte.
pub read_bytes_back :
    (m : Memory) (addr : ℕ) (bs : List ℕ) (i : ℕ)
    → ((t : ℕ) → t < length bs → read_1b m primary (add32 addr (i + t)) ≡ get_or bs t 0)
    → read_bytes m addr (length bs) i ≡ bs
unfolding read_bytes
read_bytes_back m addr [] i h = refl
read_bytes_back m addr (b ∷ bs) i h =
    ap₂ ◌∷◌ (ap (λ n. read_1b m primary (add32 addr n)) (omega arith) ∙ h 0 (omega arith)) (
      read_bytes_back m addr bs (i + 1) (λ t lt.
        ap (λ n. read_1b m primary (add32 addr n)) (omega arith) ∙ h (suc t) (omega arith)))
