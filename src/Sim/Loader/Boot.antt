-- ===== src/Sim/Loader/Boot.antt =====
-- From the files to the first instruction: what the loaded memory makes a core execute.
use veri_cross.Base.{ℕ, ◌+◌, ◌*◌, ◌^◌, ◌<◌, ◌≡◌, ◌≢◌, refl, sym, ap, ap₂, ◌∙◌, arith, inl, inr}
use veri_cross.Base.{
  ◌==◌, ltb, if◌then◌else◌, Bool, true, false, Bool-cases, Option, none, some, List, [], ◌∷◌,
  length, ==_iff,
}
use veri_cross.Sim.Common.{initial_pc, initial_sp, add32, sub32}
use veri_cross.Sim.Memory.{Memory}
use veri_cross.Sim.Memory.Bytes.{read, write, bytes_of, word_of}
use veri_cross.Sim.Memory.Bytes.Single.{IsSized}
use veri_cross.Sim.Memory.Bytes.Laws.{AreBytes}
use veri_cross.Sim.Memory.Bytes.RoundTrip.{write-IsSized, read-write}
use veri_cross.Sim.Loader.{make_jal, fields-make_jal}
use veri_cross.Sim.Loader.Files.{
  get_lines, find_start, stack_words, binary_words, match_func, start_name, eq_text,
}
use veri_cross.Sim.Loader.Image.{
  Section, Files, Message, Loaded, loaded, failed, make_image, load, open_binary, open_dump,
  open_stack, write_section, write_sections,
}

-- A line of the dump labels the address with `_start`.
pub data Labels (addr : ℕ) : List (List ℕ) → Type 0 where
  here :
      {line : List ℕ} {lines : List (List ℕ)}
      → match_func line ≡ some (addr, start_name)
      → Labels addr (line ∷ lines)
  there : {line : List ℕ} {lines : List (List ℕ)} → Labels addr lines → Labels addr (line ∷ lines)

eq_text-eq : (a b : List ℕ) → eq_text a b ≡ true → a ≡ b
eq_text-eq [] [] e = refl
eq_text-eq (x ∷ xs) (y ∷ ys) e =
    ap₂ ◌∷◌ ((==_iff x y).0 (ground arith)) (eq_text-eq xs ys (ground arith))
eq_text-eq [] (y ∷ ys) e = absurd (ground arith)
eq_text-eq (x ∷ xs) [] e = absurd (ground arith)

module _ (line : List ℕ) (lines : List (List ℕ)) (text : ℕ)
    (rest : (t : ℕ) → (find_start lines t).1 ≢ 0 → Labels (find_start lines t).1 lines) where
  named :
      (addr t : ℕ) (name : List ℕ) (b : Bool)
      → match_func line ≡ some (addr, name)
      → eq_text name start_name ≡ b
      → let r : ℕ × ℕ = elim b [ true ↦ (t, addr) | false ↦ find_start lines t ] in
        r.1 ≢ 0 → Labels r.1 (line ∷ lines)
  named addr t name true e q ne = here (e ∙ ap (λ n. some (addr, n)) (eq_text-eq name start_name q))
  named addr t name false e q ne = there (rest t ne)

  matched :
      (m : Option (ℕ × List ℕ))
      → match_func line ≡ m
      → let r : ℕ × ℕ = elim m [
        | none ↦ find_start lines text
        | some (addr, name) ↦
            let text_addr' = (if text == 0 then addr else text) in
            elim (eq_text name start_name) [
              | true ↦ (text_addr', addr)
              | false ↦ find_start lines text_addr'
            ]
      ] in
        r.1 ≢ 0 → Labels r.1 (line ∷ lines)
  matched none e ne = there (rest text ne)
  matched (some (addr, name)) e ne =
      named addr (if text == 0 then addr else text) name (eq_text name start_name) e refl ne

find_start-Labels :
    (lines : List (List ℕ)) (text : ℕ)
    → (find_start lines text).1 ≢ 0
    → Labels (find_start lines text).1 lines
unfolding find_start
find_start-Labels [] text ne = absurd (ne refl)
find_start-Labels (line ∷ lines) text ne =
    matched line lines text (find_start-Labels lines) (match_func line) refl ne

bytes_of-AreBytes : (w : ℕ) → AreBytes (bytes_of w)
bytes_of-AreBytes w = (omega arith, (omega arith, (omega arith, (omega arith, tt))))

word_of-bytes_of : (w : ℕ) → w < 2 ^ 32 → word_of (bytes_of w) ≡ w
word_of-bytes_of w h = omega arith

write_section-IsSized :
    (addr i : ℕ) (ws : List ℕ) (m : Memory) → IsSized m → IsSized (write_section addr i ws m)
unfolding write_section
write_section-IsSized addr i [] m s = s
write_section-IsSized addr i (w ∷ ws) m s =
    write_section-IsSized addr (i + 1) ws (write m (add32 addr (i * 4)) (bytes_of w))
      (write-IsSized m (add32 addr (i * 4)) (bytes_of w) (bytes_of-AreBytes w) s)

write_sections-IsSized :
    (ss : List Section) (m : Memory) → IsSized m → IsSized (write_sections ss m)
unfolding write_sections
write_sections-IsSized [] m s = s
write_sections-IsSized (x ∷ ss) m s =
    write_sections-IsSized ss (write_section x.addr 0 x.data_words m)
      (write_section-IsSized x.addr 0 x.data_words m s)

module _ (text stack : Section) (w : ℕ) (small : w < 2 ^ 32) (m : Memory) (s : IsSized m) where
  abbrev image : List Section
  image = text ∷ stack ∷ record { addr = initial_pc; data_words = w ∷ [] } ∷ []

  -- The instruction that is written last is the one at the initial PC.
  first_word : word_of (read (write_sections image m) initial_pc 4) ≡ w
  unfolding write_sections write_section
  first_word =
      ap word_of (
        read-write (write_sections (text ∷ stack ∷ []) m) initial_pc (bytes_of w)
          (write_sections-IsSized (text ∷ stack ∷ []) m s) (bytes_of-AreBytes w) (omega arith))
      ∙ word_of-bytes_of w small

-- What a valid loader has found and made of it.
pub record IsImage (f : Files) (m : Memory) (sections : List Section) (brk : ℕ) : Type 0 where
  pub start : ℕ
  pub dump : List ℕ
  pub opened : f.dump ≡ some dump
  pub found : start ≡ (find_start (get_lines dump) 0).1
  pub labelled : Labels start (get_lines dump)
  pub first :
      word_of (read (write_sections sections m) initial_pc 4) ≡ make_jal (sub32 start initial_pc)

not_failed : {m : Message} {ss : List Section} {brk : ℕ} → failed m ≡ loaded ss brk → ⊥
not_failed e = cc

sections_of : Loaded → List Section
sections_of (loaded ss brk) = ss
sections_of (failed m) = []

make_image-IsImage :
    (f : Files) (m : Memory) (bin dump sp : List ℕ) (sections : List Section) (brk : ℕ)
    → IsSized m
    → f.dump ≡ some dump
    → make_image bin (find_start (get_lines dump) 0) sp ≡ loaded sections brk
    → IsImage f m sections brk
unfolding make_image sections_of
make_image-IsImage f m bin dump sp sections brk s opened e = elim (Bool-cases (start == 0)) [
  | inl z ↦ absurd (not_failed (rw z at e))
  | inr nz ↦ elim (Bool-cases (ltb (4 * length sp) 16)) [
    | inl z ↦ absurd (not_failed (rw (nz, z) at e))
    | inr long ↦ record {
      start = start;
      dump = dump;
      opened = opened;
      found = refl;
      labelled = find_start-Labels (get_lines dump) 0 (ground arith);
      first = first_of (ap sections_of (rw (nz, long) at e));
    }
  ]
]
  where
    start : ℕ
    start = (find_start (get_lines dump) 0).1

    text : Section
    text = record { addr = (find_start (get_lines dump) 0).0; data_words = bin }

    stack : Section
    stack = record { addr = initial_sp; data_words = sp }

    first_of :
        image text stack (make_jal (sub32 start initial_pc)) (fields-make_jal _ (omega arith)).0 m s
          ≡ sections
        → word_of (read (write_sections sections m) initial_pc 4)
          ≡ make_jal (sub32 start initial_pc)
    first_of same =
        ap (λ ss. word_of (read (write_sections ss m) initial_pc 4)) (sym same)
        ∙ first_word text stack (make_jal (sub32 start initial_pc))
            (fields-make_jal _ (omega arith)).0 m s

opened-IsImage :
    (f : Files) (m : Memory) (sections : List Section) (brk : ℕ)
    (binary dump stack : Option (List ℕ))
    → IsSized m
    → f.dump ≡ dump
    → open_binary binary dump stack ≡ loaded sections brk
    → IsImage f m sections brk
unfolding open_binary open_dump open_stack
opened-IsImage f m sections brk none dump stack s opened e = absurd (not_failed e)
opened-IsImage f m sections brk (some bin) none stack s opened e = absurd (not_failed e)
opened-IsImage f m sections brk (some bin) (some dump) none s opened e = absurd (not_failed e)
opened-IsImage f m sections brk (some bin) (some dump) (some sp) s opened e =
    make_image-IsImage f m (binary_words bin) dump (stack_words (get_lines sp)) sections brk s
      opened e

-- A valid loader is made of the files.
pub load-IsImage :
    (f : Files) (m : Memory) (sections : List Section) (brk : ℕ)
    → IsSized m
    → load f ≡ loaded sections brk
    → IsImage f m sections brk
unfolding load
load-IsImage f m sections brk s e = elim (Bool-cases f.enters) [
  | inl y ↦ opened-IsImage f m sections brk f.binary f.dump f.stack s refl (rw y at e)
  | inr n ↦ absurd (not_failed (rw n at e))
]
