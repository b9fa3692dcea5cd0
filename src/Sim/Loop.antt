-- ===== src/Sim/Loop.antt =====
-- A `while` loop, for a number of rounds.
use veri_cross.Base.{ℕ, zero, suc, ◌<◌, ◌≡◌, ◌⊎◌, inl, inr, refl, arith}
use veri_cross.Base.{if◌then◌else◌, Bool, true, false, Bool-cases, Option, none, some}

-- How a loop comes out: at its end, at an operation whose behaviour is undefined, or not within
-- the rounds that it was given.
pub data Outcome (A : Type 0) : Type 0 where
  finished : A → Outcome A
  undefined unfinished : Outcome A

-- A condition on the end of a loop that comes to one within its rounds.
abbrev pub Ends : {A : Type 0} → (A → Type 0) → Outcome A → Type 0
Ends P (finished a) = P a
Ends P undefined = Unit
Ends P unfinished = ⊥

pub Ends-map :
    {A : Type 0} (P Q : A → Type 0) (o : Outcome A) → ((a : A) → P a → Q a) → Ends P o → Ends Q o
Ends-map P Q (finished a) f e = f a e
Ends-map P Q undefined f e = tt
Ends-map P Q unfinished f e = e

module _ {S : Type 0} (over : S → Bool) (round : S → Option S) where
  unfoldable pub while : ℕ → S → Outcome S
  while zero s = unfinished
  while (suc fuel) s =
      if over s then finished s else elim (round s) [ none ↦ undefined | some s' ↦ while fuel s' ]

  module _ (I : S → Type 0) (measure : S → ℕ)
      (keeps : (s s' : S)
        → I s
        → over s ≡ false
        → round s ≡ some s'
        → I s' × ((over s' ≡ true) ⊎ (measure s' < measure s))) where
    abbrev Result : S → Type 0
    Result s = (over s ≡ true) × I s

    while-over : (fuel : ℕ) (s : S) → I s → over s ≡ true → Ends Result (while (suc fuel) s)
    unfolding while
    while-over fuel s i e = rw e (e, i)

    while_from :
        (fuel : ℕ) (s s' : S)
        → ((s' : S) → I s' → measure s' < fuel → Ends Result (while (suc fuel) s'))
        → measure s < suc fuel
        → I s' × ((over s' ≡ true) ⊎ (measure s' < measure s))
        → Ends Result (while (suc fuel) s')
    while_from fuel s s' rest h (i', inl stopped) = while-over fuel s' i' stopped
    while_from fuel s s' rest h (i', inr lower) = rest s' i' (omega arith)

    -- A loop whose rounds keep `I`, and end it or lower a measure, ends with `I`.
    pub while-Ends : (fuel : ℕ) (s : S) → I s → measure s < fuel → Ends Result (while (suc fuel) s)
    unfolding while
    while-Ends zero s i h = elim h [ ]
    while-Ends (suc fuel) s i h =
        let rest = while-Ends fuel in
        elim (Bool-cases (over s)) [
          | inl e ↦ while-over (suc fuel) s i e
          | inr e ↦ rw e (after rest e (round s) refl)
        ]
      where
        after :
            ((s' : S) → I s' → measure s' < fuel → Ends Result (while (suc fuel) s'))
            → over s ≡ false
            → (r : Option S) → round s ≡ r
            → Ends Result (elim r [ none ↦ undefined | some s' ↦ while (suc fuel) s' ])
        after rest e none e' = tt
        after rest e (some s') e' = while_from fuel s s' rest h (keeps s s' i e e')

-- A step that goes on where another is defined.
pub then_some :
    {A B : Type 0} (d : Option A) (f : A → B) (b : B)
    → elim d [ none ↦ none | some a ↦ some (f a) ] ≡ some b
    → (a : A) × (d ≡ some a) × (b ≡ f a)
then_some {B} none f b e = absurd (clash e)
  where
    clash : ◌≡◌ {A = Option B} none (some b) → ⊥
    clash e = cc
then_some (some a) f b e = (a, refl, cc)

pub bind_some :
    {A B : Type 0} (d : Option A) (f : A → Option B) (b : B)
    → elim d [ none ↦ none | some a ↦ f a ] ≡ some b
    → (a : A) × (d ≡ some a) × (f a ≡ some b)
bind_some {B} none f b e = absurd (clash e)
  where
    clash : ◌≡◌ {A = Option B} none (some b) → ⊥
    clash e = cc
bind_some (some a) f b e = (a, refl, e)
