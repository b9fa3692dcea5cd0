-- ===== src/Bench/Bitfiles/Laws.antt =====
-- What a file of bits holds after a number of writes.
use veri_cross.Base.{ℕ, suc, ◌+◌, ◌-◌, ◌*◌, ◌/◌, ◌<◌, ◌≤◌, ◌≡◌, refl, ap, arith}
use veri_cross.Base.{◌==◌, true, Bool-cases, inl, inr, List, [], ◌∷◌, ◌++◌, length}
use veri_cross.Bench.Bitfiles.{Bfile, bfopen, bfwrite, bfclose}

abbrev pub write_all : List ℕ → Bfile → Bfile
write_all [] bf = bf
write_all (b ∷ bs) bf = write_all bs (bfwrite b bf)

length-snoc : (xs : List ℕ) (x : ℕ) → length (xs ++ x ∷ []) ≡ suc (length xs)
length-snoc [] x = refl
length-snoc (y ∷ ys) x = ap suc (length-snoc ys x)

bfwrite-count :
    (b : ℕ) (bf : Bfile)
    → bf.wcnt ≤ 8
    → (length (bfwrite b bf).file * 8 + (bfwrite b bf).wcnt ≡ length bf.file * 8 + bf.wcnt + 1)
      × (0 < (bfwrite b bf).wcnt)
      × ((bfwrite b bf).wcnt ≤ 8)
unfolding bfwrite
bfwrite-count b bf h = elim (Bool-cases (bf.wcnt == 8)) [
  | inl e ↦ rw e (omega (arith, length-snoc bf.file bf.wbuf, full e), omega arith, omega arith)
  | inr e ↦ rw e (omega arith, omega arith, ground arith)
]
  where
    full : (bf.wcnt == 8) ≡ true → bf.wcnt ≡ 8
    full e = ground arith

write_all-count :
    (bs : List ℕ) (bf : Bfile)
    → 0 < bf.wcnt
    → bf.wcnt ≤ 8
    → (length (write_all bs bf).file * 8 + (write_all bs bf).wcnt
        ≡ length bf.file * 8 + bf.wcnt + length bs)
      × (0 < (write_all bs bf).wcnt)
      × ((write_all bs bf).wcnt ≤ 8)
write_all-count [] bf p h = (omega arith, p, h)
write_all-count (b ∷ bs) bf p h =
    let w = bfwrite-count b bf h in
    let r = write_all-count bs (bfwrite b bf) w.1 w.2 in (omega (arith, r.0, w.0), r.1, r.2)

-- A new file to which at least one bit is written and which is then closed holds one byte for
-- every eight bits before the last bit: the last bits, of which there are one to eight, are lost.
pub bfclose-length :
    (bs : List ℕ) (rbuf wbuf : ℕ)
    → 0 < length bs
    → length (bfclose (write_all bs (bfopen [] rbuf wbuf))) ≡ (length bs - 1) / 8
unfolding bfclose bfopen
bfclose-length [] rbuf wbuf h = absurd (omega arith)
bfclose-length (b ∷ bs) rbuf wbuf h =
    let w =
      bfwrite-count b (record { file = []; rbuf = rbuf; rcnt = 0; wbuf = wbuf; wcnt = 0 })
        (omega arith) in
    let r =
      write_all-count bs
        (bfwrite b (record { file = []; rbuf = rbuf; rcnt = 0; wbuf = wbuf; wcnt = 0 })) w.1 w.2 in
    omega (arith, r.0, r.1, r.2, w.0)
