-- ===== src/Main/Number/Laws.antt =====
-- `parse_scaled_number` reads what is written with decimal digits and a suffix.
use veri_cross.Base.{
  ℕ, ◌+◌, ◌-◌, ◌*◌, ◌^◌, ◌<◌, ◌≡◌, refl, ap, ◌∙◌, arith, ◌==◌, ltb, if◌then◌else◌,
}
use veri_cross.Base.{true, false, some, List, [], ◌∷◌, ◌++◌}
use veri_cross.Main.Number.{
  clamped, is_digit, is_space, of_scanned, scan_digits, scan_unsigned, scan_signed, scan, number,
  undefined, scaled, with_suffix, parse_scaled_number,
}

-- A suffix, and the factor that it stands for.
pub data Suffix : Type 0 where
  unit kilo mega giga : Suffix

abbrev pub letter : Suffix → List ℕ
letter unit = []
letter kilo = b'k' ∷ []
letter mega = b'm' ∷ []
letter giga = b'g' ∷ []

abbrev pub factor : Suffix → ℕ
factor unit = 1
factor kilo = 1000
factor mega = 1000000
factor giga = 1000000000

abbrev pub AreDigits : List ℕ → Type 0
AreDigits [] = Unit
AreDigits (d ∷ ds) = (d < 10) × AreDigits ds

abbrev pub written : List ℕ → List ℕ
written [] = []
written (d ∷ ds) = (d + b'0') ∷ written ds

-- The value of decimal digits behind a number.
abbrev pub decimal : ℕ → List ℕ → ℕ
decimal value [] = value
decimal value (d ∷ ds) = decimal (value * 10 + d) ds

scan_digits-written :
    (value : ℕ) (ds : List ℕ) (u : Suffix)
    → AreDigits ds
    → scan_digits false value (written ds ++ letter u)
      ≡ record { negative = false; magnitude = decimal value ds; rest = letter u }
unfolding scan_digits
scan_digits-written value [] unit h = refl
scan_digits-written value [] kilo h = refl
scan_digits-written value [] mega h = refl
scan_digits-written value [] giga h = refl
scan_digits-written value (d ∷ ds) u h =
    let digit : is_digit (d + b'0') ≡ true = ground (arith, h.0) in
    let value_of : value * 10 + (d + b'0' - b'0') ≡ value * 10 + d = omega arith in
    rw (digit, value_of) (scan_digits-written (value * 10 + d) ds u h.1)

scan-written :
    (d : ℕ) (ds : List ℕ) (u : Suffix)
    → AreDigits (d ∷ ds)
    → scan (written (d ∷ ds) ++ letter u)
      ≡ some (record { negative = false; magnitude = decimal d ds; rest = letter u })
unfolding scan scan_signed scan_unsigned
scan-written d ds u h =
    let space : is_space (d + b'0') ≡ false = ground (arith, h.0) in
    let minus : (d + b'0' == b'-') ≡ false = ground (arith, h.0) in
    let plus : (d + b'0' == b'+') ≡ false = ground (arith, h.0) in
    let digit : is_digit (d + b'0') ≡ true = ground (arith, h.0) in
    let first : 0 * 10 + (d + b'0' - b'0') ≡ d = omega arith in
    rw (space, minus, plus, digit)
      (ap (λ x. some (scan_digits false x (written ds ++ letter u))) first
        ∙ ap some (scan_digits-written d ds u h.1))

-- A number below 2 ^ 63, in decimal digits and with a suffix, is read as the number times what the
-- suffix stands for, if this is below 2 ^ 63; otherwise the multiplication overflows.
pub parse_scaled_number-written :
    (d : ℕ) (ds : List ℕ) (u : Suffix)
    → AreDigits (d ∷ ds)
    → decimal d ds < 2 ^ 63
    → parse_scaled_number (written (d ∷ ds) ++ letter u) ≡ (
        if ltb (decimal d ds * factor u) (2 ^ 63)
        then number (decimal d ds * factor u)
        else undefined)
unfolding parse_scaled_number of_scanned with_suffix scaled
parse_scaled_number-written d ds u h small =
    ap of_scanned (scan-written d ds u h) ∙ ap (λ v. with_suffix v (letter u)) whole ∙ suffixed u
  where
    value : ℕ
    value = decimal d ds

    whole : clamped (record { negative = false; magnitude = value; rest = letter u }) ≡ value
    whole = ground arith

    scaled-by :
        (f : ℕ)
        → scaled value f [] ≡ (if ltb (value * f) (2 ^ 63) then number (value * f) else undefined)
    scaled-by f = ground arith

    suffixed :
        (u : Suffix)
        → with_suffix value (letter u)
          ≡ (if ltb (value * factor u) (2 ^ 63) then number (value * factor u) else undefined)
    suffixed unit = scaled-by 1
    suffixed kilo = scaled-by 1000
    suffixed mega = scaled-by 1000000
    suffixed giga = scaled-by 1000000000
