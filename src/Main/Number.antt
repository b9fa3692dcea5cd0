-- ===== src/Main/Number.antt =====
-- `parse_scaled_number` of sim/main.cpp. `strtoll` is that of the C library, for base 10: a text
-- ends where the list does.
pub mod Laws
use veri_cross.Base.{ℕ, zero, suc, ◌+◌, ◌-◌, ◌*◌, ◌^◌, ◌==◌, ◌&&◌, ◌||◌, ltb, leb, if◌then◌else◌}
use veri_cross.Base.{Bool, true, false, Option, none, some, List, [], ◌∷◌}

abbrev pub is_digit : ℕ → Bool
is_digit c = leb b'0' c && leb c b'9'

abbrev pub is_space : ℕ → Bool
is_space c = c == 32 || (leb 9 c && leb c 13)

-- A number in a text: its sign, its magnitude, and what follows it.
pub record Scanned : Type 0 where
  pub negative : Bool
  pub magnitude : ℕ
  pub rest : List ℕ

-- The digits at the head of a text, behind a number.
unfoldable pub scan_digits : Bool → ℕ → List ℕ → Scanned
scan_digits negative value [] = record { negative = negative; magnitude = value; rest = [] }
scan_digits negative value (c ∷ cs) =
    if is_digit c
    then scan_digits negative (value * 10 + (c - b'0')) cs
    else record { negative = negative; magnitude = value; rest = c ∷ cs }

-- At least one digit.
unfoldable pub scan_unsigned : Bool → List ℕ → Option Scanned
unfolding scan_digits
scan_unsigned negative [] = none
scan_unsigned negative (c ∷ cs) =
    if is_digit c then some (scan_digits negative 0 (c ∷ cs)) else none

unfoldable pub scan_signed : List ℕ → Option Scanned
unfolding scan_unsigned
scan_signed [] = none
scan_signed (c ∷ cs) =
    if c == b'-'
    then scan_unsigned true cs
    else if c == b'+'
    then scan_unsigned false cs
    else scan_unsigned false (c ∷ cs)

-- The number that `strtoll` and `atoi` find; none is `endptr == str`.
unfoldable pub scan : List ℕ → Option Scanned
unfolding scan_signed
scan [] = none
scan (c ∷ cs) = let rest = scan cs in if is_space c then rest else scan_signed (c ∷ cs)

abbrev pub llong_max : ℕ
llong_max = 2 ^ 63 - 1

-- What becomes of `val < 0`, and of a value that `strtoll` cuts to the largest one.
abbrev pub is_negative : Scanned → Bool
is_negative s = s.negative && leb 1 s.magnitude

abbrev pub clamped : Scanned → ℕ
clamped s = if leb s.magnitude llong_max then s.magnitude else llong_max

-- `result` after a return of true, a return of false, and a signed overflow.
pub data Scaled : Type 0 where
  number : ℕ → Scaled
  invalid undefined : Scaled

-- `val *= factor`, and the test for other trailing characters.
unfoldable pub scaled : ℕ → ℕ → List ℕ → Scaled
scaled val factor [] = if leb (val * factor) llong_max then number (val * factor) else undefined
scaled val factor (c ∷ cs) = if leb (val * factor) llong_max then invalid else undefined

unfoldable pub with_suffix : ℕ → List ℕ → Scaled
unfolding scaled
with_suffix val [] = scaled val 1 []
with_suffix val (c ∷ cs) =
    if c == b'k' || c == b'K'
    then scaled val 1000 cs
    else if c == b'm' || c == b'M'
    then scaled val 1000000 cs
    else if c == b'g' || c == b'G'
    then scaled val 1000000000 cs
    else invalid

unfoldable pub of_scanned : Option Scanned → Scaled
unfolding with_suffix
of_scanned none = invalid
of_scanned (some s) = if is_negative s then invalid else with_suffix (clamped s) s.rest

unfoldable pub parse_scaled_number : List ℕ → Scaled
unfolding scan of_scanned
parse_scaled_number str = of_scanned (scan str)
