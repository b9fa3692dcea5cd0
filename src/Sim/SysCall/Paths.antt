-- ===== src/Sim/SysCall/Paths.antt =====
-- `read_path` of sim/syscall.cpp: the text that it finds in the memory.
use veri_cross.Base.{ℕ, zero, suc, ◌+◌, ◌<◌, ◌≡◌, ◌≢◌, sym, ap, ◌∙◌, arith}
use veri_cross.Base.{Option, none, some, List, ◌∷◌, length, get_or, Bool-cases, inl, inr, ◌==◌}
use veri_cross.Sim.Common.{add32}
use veri_cross.Sim.Memory.{Memory}
use veri_cross.Sim.Memory.Bytes.{read, word_of}
use veri_cross.Sim.SysCall.{sim_path_max, read_path, read_path_from}

module _ (m : Memory) (base : ℕ) where
  abbrev pub char_at : ℕ → ℕ
  char_at i = word_of (read m (add32 base i) 1)

  -- A text, which starts at index `i`, and its NUL within `left` bytes.
  abbrev pub IsText : ℕ → ℕ → Option (List ℕ) → Type 0
  IsText i left none = (j : ℕ) → j < left → char_at (i + j) ≢ 0
  IsText i left (some cs) =
      (length cs < left)
      × ((j : ℕ) → j < length cs → (get_or cs j 0 ≡ char_at (i + j)) × (char_at (i + j) ≢ 0))
      × (char_at (i + length cs) ≡ 0)

  next_char : (i j : ℕ) → char_at (i + 1 + j) ≡ char_at (i + suc j)
  next_char i j = ap char_at (omega arith)

  here : (i : ℕ) → char_at (i + 0) ≡ char_at i
  here i = ap char_at (omega arith)

  -- One more byte that is not NUL, before the text that starts behind it.
  longer :
      (i left : ℕ) (rest : Option (List ℕ))
      → char_at i ≢ 0
      → IsText (i + 1) left rest
      → IsText i (suc left) (elim rest [ none ↦ none | some cs ↦ some (char_at i ∷ cs) ])
  longer i left none ne h = no_nul
    where
      no_nul : (j : ℕ) → j < suc left → char_at (i + j) ≢ 0
      no_nul zero l = rw (here i) ne
      no_nul (suc j) l = λ z. h j (omega arith) (next_char i j ∙ z)
  longer i left (some cs) ne h = (omega (arith, h.0), same, sym (next_char i (length cs)) ∙ h.2)
    where
      same :
          (j : ℕ)
          → j < suc (length cs)
          → (get_or (char_at i ∷ cs) j 0 ≡ char_at (i + j)) × (char_at (i + j) ≢ 0)
      same zero l = (sym (here i), rw (here i) ne)
      same (suc j) l = (
        (h.1 j (omega arith)).0 ∙ next_char i j,
        λ z. (h.1 j (omega arith)).1 (next_char i j ∙ z),
      )

  read_path_from-IsText : (i left : ℕ) → IsText i left (read_path_from m base i left)
  unfolding read_path_from
  read_path_from-IsText i zero = λ j h. absurd (omega arith)
  read_path_from-IsText i (suc left) = elim (Bool-cases (char_at i == 0)) [
    | inl e ↦ rw e (omega arith, λ j h. absurd (omega arith), here i ∙ ground arith)
    | inr e ↦ rw e (
        longer i left (read_path_from m base (i + 1) left) (ground arith)
          (read_path_from-IsText (i + 1) left))
  ]

  -- `read_path` gives the bytes before the first NUL if there is one in the first 4096 bytes, and
  -- none if there is not.
  pub read_path-IsText : IsText 0 sim_path_max (read_path m base)
  unfolding read_path
  read_path-IsText = read_path_from-IsText 0 sim_path_max
