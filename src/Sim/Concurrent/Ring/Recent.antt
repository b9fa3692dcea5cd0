-- ===== src/Sim/Concurrent/Ring/Recent.antt =====
-- The ring buffer holds the last instructions, and the printing loop gives them in their order.
use veri_cross.Base.{
  ℕ, zero, suc, ◌+◌, ◌-◌, ◌%◌, ◌≤◌, ◌<◌, ◌≡◌, ◌≢◌, refl, sym, ap, ap₂, ◌∙◌, arith, inl, inr, Bool,
  true, false, leb, if◌then◌else◌, Bool-cases, Option, none, some, List, [], ◌∷◌, length, get_or,
  replicate, length-set, get_or-set_self, get_or-set_ne,
}
use native.Mathlib.Nat.{mod-lt, mod-add-mod, add-mod_right, mod-eq-sub-mod, mod-eq_of_lt}
use veri_cross.Sim.Concurrent.Ring.{RingBuffer, store, put, show_from, show}

mod_add-ne : (n r d : ℕ) → r < n → 0 < d → d < n → (r + d) % n ≢ r
mod_add-ne n r d hr pos hd e = elim (Bool-cases (leb n (r + d))) [
  | inl l ↦
      let big : n ≤ r + d = ground arith in
      let cut : (r + d) % n ≡ r + d - n = mod-eq-sub-mod big ∙ mod-eq_of_lt (omega arith) in
      omega (arith, cut, e)
  | inr l ↦ let small : r + d < n = ground arith in omega (arith, mod-eq_of_lt small, e)
]

-- Indices less than `n` apart are not the same modulo `n`.
mod-ne : (n a b : ℕ) → a < b → b < a + n → a % n ≢ b % n
mod-ne n a b lt near e =
    mod_add-ne n (a % n) (b - a) (mod-lt a (omega arith)) (omega arith) (omega arith)
      (mod-add-mod a n (b - a) ∙ ap (λ x. x % n) (omega arith) ∙ sym e)

module _ {A : Type 0} (n : ℕ) (pos : 0 < n) (log : ℕ → A) where
  -- The buffer after the instructions 1 to `k`.
  unfoldable pub filled : ℕ → RingBuffer A
  filled zero = replicate n none
  filled (suc k) = store n (suc k) (log (suc k)) (filled k)

  length-replicate : (m : ℕ) → length (replicate {A = Option A} m none) ≡ m
  length-replicate zero = refl
  length-replicate (suc m) = ap suc (length-replicate m)

  length-filled : (k : ℕ) → length (filled k) ≡ n
  unfolding filled store
  length-filled zero = length-replicate n
  length-filled (suc k) = length-set (filled k) (suc k % n) (some (log (suc k))) ∙ length-filled k

  none-replicate : (m i : ℕ) → get_or (replicate {A = Option A} m none) i none ≡ none
  none-replicate zero i = refl
  none-replicate (suc m) zero = refl
  none-replicate (suc m) (suc i) = none-replicate m i

  -- The entry at an index, counted on from the next instruction: the one `n` instructions before.
  get_or-filled :
      (k q : ℕ)
      → k < q
      → q < k + n + 1
      → get_or (filled k) (q % n) none ≡ (if leb (n + 1) q then some (log (q - n)) else none)
  unfolding filled store
  get_or-filled zero q lo hi = none-replicate n (q % n) ∙ ground arith
  get_or-filled (suc k) q lo hi = elim (Bool-cases (leb (k + 1 + n) q)) [
    | inl e ↦
        let last : q ≡ suc k + n = ground arith in
        ap (λ i. get_or (store n (suc k) (log (suc k)) (filled k)) i none)
          (ap (λ x. x % n) last ∙ add-mod_right (suc k) n)
        ∙ get_or-set_self (filled k) (suc k % n) (some (log (suc k))) none
            (rw (length-filled k) (mod-lt (suc k) pos))
        ∙ newest q last
    | inr e ↦
        get_or-set_ne (filled k) (suc k % n) (q % n) (some (log (suc k))) none
          (mod-ne n (suc k) q lo (ground arith))
        ∙ get_or-filled k q (omega arith) (ground arith)
  ]
    where
      newest :
          (q : ℕ)
          → q ≡ suc k + n
          → some (log (suc k)) ≡ (if leb (n + 1) q then some (log (q - n)) else none)
      newest q e =
          let reached : leb (n + 1) q ≡ true = ground arith in
          rw reached (ap (λ j. some (log j)) (omega arith))

  -- What is to be printed when instruction `k + 1` fails: the instructions at the distances from
  -- `d` down to 1, as far as there are that many.
  unfoldable pub recent : {L : Type 0} → (A → L) → ℕ → ℕ → List (ℕ × L)
  recent text k zero = []
  recent text k (suc d) =
      let rest = recent text k d in
      if leb (suc d) k then (suc d, text (log (k - d))) ∷ rest else rest

  put-if :
      {L : Type 0} (text : A → L) (b : Bool) (a : A) (d : ℕ) (rest : List (ℕ × L))
      → put text (if b then some a else none) d rest ≡ (if b then (d, text a) ∷ rest else rest)
  unfolding put
  put-if text true a d rest = refl
  put-if text false a d rest = refl

  -- The entry at the distance `suc d`.
  entry :
      (k d : ℕ)
      → suc d ≤ n
      → get_or (filled k) (((k + 1) % n + (n - suc d)) % n) none
        ≡ (if leb (suc d) k then some (log (k - d)) else none)
  entry k d h =
      let number : k + 1 + (n - suc d) - n ≡ k - d = omega arith in
      let reached : leb (n + 1) (k + 1 + (n - suc d)) ≡ leb (suc d) k = ground arith in
      ap (λ i. get_or (filled k) i none) (mod-add-mod (k + 1) n (n - suc d))
      ∙ get_or-filled k (k + 1 + (n - suc d)) (omega arith) (omega arith)
      ∙ ap₂ (λ b j. if b then some (log j) else none) reached number

  show_from-recent :
      {L : Type 0} (text : A → L) (k d i : ℕ)
      → d ≤ n
      → i ≡ n - d
      → show_from text n ((k + 1) % n) (filled k) d i ≡ recent text k d
  unfolding show_from recent
  show_from-recent text k zero i h e = refl
  show_from-recent text k (suc d) i h e =
      let here : get_or (filled k) (((k + 1) % n + i) % n) none
          ≡ (if leb (suc d) k then some (log (k - d)) else none) =
        ap (λ j. get_or (filled k) (((k + 1) % n + j) % n) none) e ∙ entry k d h in
      ap₂ (λ o r. put text o (n - i) r) here
        (show_from-recent text k d (i + 1) (omega arith) (omega arith))
      ∙ put-if text (leb (suc d) k) (log (k - d)) (n - i) (recent text k d)
      ∙ ap
          (λ x.
            if leb (suc d) k then (x, text (log (k - d))) ∷ recent text k d else recent text k d)
          (omega arith)

  -- With a buffer of `n > 0` entries, filled with the logs of the instructions 1 to `k`, the
  -- printing loop for instruction `k + 1` gives the logs of the last `n` instructions before it, or
  -- of all if there are fewer, the oldest first and each with its distance.
  pub show-recent :
      {L : Type 0} (text : A → L) (k : ℕ) → show text n (k + 1) (filled k) ≡ recent text k n
  unfolding show
  show-recent text k = show_from-recent text k n 0 (omega arith) (omega arith)
