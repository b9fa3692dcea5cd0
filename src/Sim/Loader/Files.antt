-- ===== src/Sim/Loader/Files.antt =====
-- What the constructor of sim/loader.cpp reads: texts and bytes as lists of numbers.
use veri_cross.Base.{ℕ, zero, suc, ◌+◌, ◌-◌, ◌*◌, ◌==◌, ◌&&◌, leb, if◌then◌else◌}
use veri_cross.Base.{Bool, true, false, Option, none, some, List, [], ◌∷◌}
use veri_cross.Bits.Lanes.{lanes}

-- `std::getline` until the end of the file.
push : ℕ → List (List ℕ) → List (List ℕ)
push c [] = (c ∷ []) ∷ []
push c (l ∷ ls) = (c ∷ l) ∷ ls

unfoldable pub get_lines : List ℕ → List (List ℕ)
unfolding push
get_lines [] = []
get_lines (c ∷ cs) = let rest = get_lines cs in if c == 10 then [] ∷ rest else push c rest

-- A digit of `[0-9a-f]`.
abbrev pub hex_digit : ℕ → Option ℕ
hex_digit c =
    if leb b'0' c && leb c b'9'
    then some (c - b'0')
    else if leb b'a' c && leb c b'f'
    then some (c - b'a' + 10)
    else none

-- The `n` digits at the head of a text, with their value, and what follows.
unfoldable pub hex_number : ℕ → ℕ → List ℕ → Option (ℕ × List ℕ)
hex_number zero value cs = some (value, cs)
hex_number (suc n) value [] = none
hex_number (suc n) value (c ∷ cs) = elim (hex_digit c) [
  | none ↦ none
  | some d ↦ hex_number n (value * 16 + d) cs
]

abbrev pub eq_text : List ℕ → List ℕ → Bool
eq_text [] [] = true
eq_text (x ∷ xs) (y ∷ ys) = x == y && eq_text xs ys
eq_text _ _ = false

-- A non-empty text before a final `>:`. A `.` matches no line terminator.
unfoldable pub label : List ℕ → Option (List ℕ)
label [] = none
label (c ∷ cs) =
    let rest = label cs in
    if eq_text cs (b'>' ∷ b':' ∷ [])
    then (if c == 13 then none else some (c ∷ []))
    else if c == 13
    then none
    else elim rest [ none ↦ none | some name ↦ some (c ∷ name) ]

-- `([0-9a-f]{8}) <(.+)>:`
unfoldable pub match_func : List ℕ → Option (ℕ × List ℕ)
unfolding hex_number label
match_func line = elim (hex_number 8 0 line) [
  | some (addr, (space ∷ bracket ∷ cs)) ↦
      if space == b' ' && bracket == b'<'
      then elim (label cs) [ none ↦ none | some name ↦ some (addr, name) ]
      else none
  | _ ↦ none
]

-- `^([0-9a-f]{8})`, for the whole line.
unfoldable pub match_sp : List ℕ → Option ℕ
unfolding hex_number
match_sp line = elim (hex_number 8 0 line) [ some (value, []) ↦ some value | _ ↦ none ]

abbrev pub start_name : List ℕ
start_name = b'_' ∷ b's' ∷ b't' ∷ b'a' ∷ b'r' ∷ b't' ∷ []

-- The loop over the dump: the address of the first function, and that of `_start`, or 0.
unfoldable pub find_start : List (List ℕ) → ℕ → ℕ × ℕ
find_start [] text_addr = (text_addr, 0)
find_start (line ∷ lines) text_addr = elim (match_func line) [
  | none ↦ find_start lines text_addr
  | some (addr, name) ↦
      let text_addr' = (if text_addr == 0 then addr else text_addr) in
      elim (eq_text name start_name) [
        | true ↦ (text_addr', addr)
        | false ↦ find_start lines text_addr'
      ]
]

-- The words of the stack image.
unfoldable pub stack_words : List (List ℕ) → List ℕ
stack_words [] = []
stack_words (line ∷ lines) = elim (match_sp line) [
  | none ↦ stack_words lines
  | some w ↦ w ∷ stack_words lines
]

-- The words of the binary, on a little-endian host, without the bytes after the last whole word.
unfoldable pub binary_words : List ℕ → List ℕ
binary_words (b0 ∷ b1 ∷ b2 ∷ b3 ∷ bs) = lanes b3 b2 b1 b0 ∷ binary_words bs
binary_words _ = []
