-- ===== src/Bench/Crc32/Laws.antt =====
-- The table-driven CRC against the division one bit at a time, and what the CRC detects.
use veri_cross.Base.{ℕ, ◌+◌, ◌-◌, ◌*◌, ◌/◌, ◌%◌, ◌^◌, ◌<◌, ◌≡◌, ◌≢◌, refl, sym, ap, ap₂, ◌∙◌, arith}
use veri_cross.Base.{
  bit_and, bit_xor, ◌==◌, ==_iff, true, false, List, [], ◌∷◌, ◌++◌, length, none, some,
}
use veri_cross.Base.{all_below, all_below_sound}
use veri_cross.Bits.{
  bit_and-ones, bit_xor_comm, bit_xor-disjoint, bit_xor-split, bit_xor-zero, bit_xor-lt,
  bit_xor_cancel,
}
use veri_cross.Bench.Crc32.{
  error, success, read_error, crc32file, table_entry, update_crc32, feed, crc32buf,
}
use veri_cross.Bench.Crc32.Steps.{
  shift_steps, shift_steps-high, shift_steps-lt, shift_steps_injective,
}

table_matches : all_below 256 (λ i. table_entry i == shift_steps 8 i) ≡ true
unfolding all_below shift_steps table_entry
table_matches = refl

-- For every index below 256, the entry of the table is the result of eight shift and xor operations on its index.
table_entry-shift_steps : (i : ℕ) → i < 256 → table_entry i ≡ shift_steps 8 i
table_entry-shift_steps i h =
    (==_iff _ _).0 (all_below_sound 256 (λ i. table_entry i == shift_steps 8 i) i table_matches h)

module _ (ch crc : ℕ) (hch : ch < 2 ^ 8) where
  low-lt : bit_xor (crc % 2 ^ 8) ch < 2 ^ 8
  low-lt = bit_xor-lt 8 (crc % 2 ^ 8) ch (omega arith) hch

  cut : bit_xor crc ch ≡ crc / 2 ^ 8 * 2 ^ 8 + bit_xor (crc % 2 ^ 8) ch
  cut =
      ap₂ bit_xor {x = crc} (omega arith) (omega arith)
      ∙ bit_xor-split 8 (crc / 2 ^ 8) 0 (crc % 2 ^ 8) ch (omega arith) hch
      ∙ ap (λ (t : ℕ). t * 2 ^ 8 + bit_xor (crc % 2 ^ 8) ch) (bit_xor-zero (crc / 2 ^ 8))

  index : bit_and (bit_xor crc ch) 0xff ≡ bit_xor (crc % 2 ^ 8) ch
  index = omega (arith, bit_and-ones 8 (bit_xor crc ch), cut, low-lt)

  -- One update is eight steps of the register into which the character has been added.
  pub update_crc32-shift_steps : update_crc32 ch crc ≡ shift_steps 8 (bit_xor crc ch)
  unfolding update_crc32
  update_crc32-shift_steps =
      ap (λ (t : ℕ). bit_xor (table_entry (bit_and (bit_xor crc t) 0xff)) (crc / 2 ^ 8)) {y = ch}
        (omega arith)
      ∙ ap (λ (t : ℕ). bit_xor (table_entry t) (crc / 2 ^ 8)) index
      ∙ ap (λ (t : ℕ). bit_xor t (crc / 2 ^ 8))
          (table_entry-shift_steps (bit_xor (crc % 2 ^ 8) ch) low-lt)
      ∙ bit_xor_comm (shift_steps 8 (bit_xor (crc % 2 ^ 8) ch)) (crc / 2 ^ 8)
      ∙ sym (shift_steps-high 8 (crc / 2 ^ 8) (bit_xor (crc % 2 ^ 8) ch))
      ∙ ap (shift_steps 8)
          (bit_xor-disjoint 8 (crc / 2 ^ 8) (bit_xor (crc % 2 ^ 8) ch) low-lt ∙ sym cut)

  pub update_crc32-lt : crc < 2 ^ 32 → update_crc32 ch crc < 2 ^ 32
  update_crc32-lt h =
      rw update_crc32-shift_steps
        (shift_steps-lt 8 (bit_xor crc ch) (bit_xor-lt 32 crc ch h (omega arith)))

update_crc32_injective :
    (ch crc ch' crc' : ℕ)
    → ch < 2 ^ 8
    → ch' < 2 ^ 8
    → crc < 2 ^ 32
    → crc' < 2 ^ 32
    → update_crc32 ch crc ≡ update_crc32 ch' crc'
    → bit_xor crc ch ≡ bit_xor crc' ch'
update_crc32_injective ch crc ch' crc' hc hc' h h' e =
    shift_steps_injective 8 (bit_xor crc ch) (bit_xor crc' ch')
      (bit_xor-lt 32 crc ch h (omega arith)) (bit_xor-lt 32 crc' ch' h' (omega arith))
      (sym (update_crc32-shift_steps ch crc hc) ∙ e ∙ update_crc32-shift_steps ch' crc' hc')

-- Characters of eight bits.
abbrev pub IsBytes : List ℕ → Type 0
IsBytes [] = Unit
IsBytes (c ∷ cs) = (c < 2 ^ 8) × IsBytes cs

-- The register after each character of a buffer, one bit at a time.
abbrev pub divide : List ℕ → ℕ → ℕ
divide [] crc = crc
divide (c ∷ cs) crc = divide cs (shift_steps 8 (bit_xor crc c))

feed-divide : (cs : List ℕ) (crc : ℕ) → IsBytes cs → feed cs crc ≡ divide cs crc
feed-divide [] crc h = refl
feed-divide (c ∷ cs) crc h =
    feed-divide cs (update_crc32 c crc) h.1 ∙ ap (divide cs) (update_crc32-shift_steps c crc h.0)

-- For every buffer of bytes, `crc32buf` is the complement of the register that starts with all
-- ones, adds in each byte and divides by the polynomial one bit at a time.
pub crc32buf-divide : (cs : List ℕ) → IsBytes cs → crc32buf cs ≡ 2 ^ 32 - 1 - divide cs (2 ^ 32 - 1)
unfolding crc32buf
crc32buf-divide cs h = ap (λ (t : ℕ). 2 ^ 32 - 1 - t) (feed-divide cs (2 ^ 32 - 1) h)

feed-lt : (cs : List ℕ) (crc : ℕ) → IsBytes cs → crc < 2 ^ 32 → feed cs crc < 2 ^ 32
feed-lt [] crc h lt = lt
feed-lt (c ∷ cs) crc h lt = feed-lt cs (update_crc32 c crc) h.1 (update_crc32-lt c crc h.0 lt)

feed_injective :
    (cs : List ℕ) (x y : ℕ) → IsBytes cs → x < 2 ^ 32 → y < 2 ^ 32 → feed cs x ≡ feed cs y → x ≡ y
feed_injective [] x y h hx hy e = e
feed_injective (c ∷ cs) x y h hx hy e = cancel (
    update_crc32_injective c x c y h.0 h.0 hx hy (
      feed_injective cs (update_crc32 c x) (update_crc32 c y) h.1 (update_crc32-lt c x h.0 hx)
        (update_crc32-lt c y h.0 hy) e))
  where
    cancel : bit_xor x c ≡ bit_xor y c → x ≡ y
    cancel q = sym (bit_xor_cancel x c) ∙ ap (λ (t : ℕ). bit_xor t c) q ∙ bit_xor_cancel y c

feed-append : (xs ys : List ℕ) (crc : ℕ) → feed (xs ++ ys) crc ≡ feed ys (feed xs crc)
feed-append [] ys crc = refl
feed-append (x ∷ xs) ys crc = feed-append xs ys (update_crc32 x crc)

characters : (r c d : ℕ) → bit_xor r c ≡ bit_xor r d → c ≡ d
characters r c d q =
    sym (bit_xor_cancel c r)
    ∙ ap (λ (t : ℕ). bit_xor t r) (bit_xor_comm c r ∙ q ∙ bit_xor_comm r d)
    ∙ bit_xor_cancel d r

-- Two buffers of bytes that differ in exactly one place have different CRCs.
pub crc32buf_detects :
    (xs ys : List ℕ) (c d : ℕ)
    → IsBytes xs
    → IsBytes ys
    → c < 2 ^ 8
    → d < 2 ^ 8
    → c ≢ d
    → crc32buf (xs ++ c ∷ ys) ≢ crc32buf (xs ++ d ∷ ys)
unfolding crc32buf
crc32buf_detects xs ys c d hx hy hc hd ne e =
    ne (characters (feed xs (2 ^ 32 - 1)) c d (registers same))
  where
    before-lt : feed xs (2 ^ 32 - 1) < 2 ^ 32
    before-lt = feed-lt xs (2 ^ 32 - 1) hx (omega arith)

    same :
        feed ys (update_crc32 c (feed xs (2 ^ 32 - 1)))
        ≡ feed ys (update_crc32 d (feed xs (2 ^ 32 - 1)))
    same = omega (
      arith,
      e,
      feed-append xs (c ∷ ys) (2 ^ 32 - 1),
      feed-append xs (d ∷ ys) (2 ^ 32 - 1),
      feed-lt ys (update_crc32 c (feed xs (2 ^ 32 - 1))) hy
          (update_crc32-lt c (feed xs (2 ^ 32 - 1)) hc before-lt),
      feed-lt ys (update_crc32 d (feed xs (2 ^ 32 - 1))) hy
          (update_crc32-lt d (feed xs (2 ^ 32 - 1)) hd before-lt),
    )

    registers :
        feed ys (update_crc32 c (feed xs (2 ^ 32 - 1)))
          ≡ feed ys (update_crc32 d (feed xs (2 ^ 32 - 1)))
        → bit_xor (feed xs (2 ^ 32 - 1)) c ≡ bit_xor (feed xs (2 ^ 32 - 1)) d
    registers q =
        update_crc32_injective c (feed xs (2 ^ 32 - 1)) d (feed xs (2 ^ 32 - 1)) hc hd before-lt
          before-lt
          (feed_injective ys (update_crc32 c (feed xs (2 ^ 32 - 1)))
            (update_crc32 d (feed xs (2 ^ 32 - 1))) hy
            (update_crc32-lt c (feed xs (2 ^ 32 - 1)) hc before-lt)
            (update_crc32-lt d (feed xs (2 ^ 32 - 1)) hd before-lt) q)

-- For a file of bytes: without a read error, `crc32file` gives the complement of the division
-- one bit at a time and the number of characters; after a read error it gives the complement
-- for the characters before it; and for a file that cannot be opened there is no CRC.
crc32file-divide :
    (cs : List ℕ)
    → IsBytes cs
    → (crc32file (some (cs, false)) ≡ (success (2 ^ 32 - 1 - divide cs (2 ^ 32 - 1)), length cs))
      × (crc32file (some (cs, true)) ≡ (read_error (2 ^ 32 - 1 - divide cs (2 ^ 32 - 1)), 0))
      × (crc32file none ≡ (error, 0))
unfolding crc32file
crc32file-divide cs h = (
  ap (λ (t : ℕ). (success (2 ^ 32 - 1 - t), length cs)) (feed-divide cs (2 ^ 32 - 1) h),
  ap (λ (t : ℕ). (read_error (2 ^ 32 - 1 - t), 0)) (feed-divide cs (2 ^ 32 - 1) h),
  refl,
)
