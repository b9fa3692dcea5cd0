-- ===== src/Sim/Concurrent/Ring/Lines.antt =====
-- The ring buffer after a run, by the lines of its log.
use veri_cross.Base.{ℕ, zero, suc, ◌+◌, ◌-◌, ◌≤◌, ◌<◌, ◌≡◌, inl, inr, refl, ap, ap₂, ◌∙◌, arith}
use veri_cross.Base.{◌==◌, leb, Bool-cases, if◌then◌else◌}
use veri_cross.Base.{Option, none, some, List, [], ◌∷◌, length, get_or, replicate}
use veri_cross.Sim.Riscv.Log.{RiscVLogInfo, Line, empty, get_log}
use veri_cross.Sim.Concurrent.{Report}
use veri_cross.Sim.Concurrent.Ring.{RingBuffer, store, show}
use veri_cross.Sim.Concurrent.Ring.Recent.{filled, recent, show-recent}

-- The last lines of a log whose newest line stands first: those at the distances from `d` down to
-- 1, as far as there are that many.
unfoldable pub last_lines : ℕ → List Line → List (ℕ × Line)
last_lines zero lines = []
last_lines (suc d) lines =
    let rest = last_lines d lines in
    if leb (suc d) (length lines) then (suc d, get_or lines d empty) ∷ rest else rest

-- A report for the instruction behind the logged ones shows the last `n` lines of the log.
abbrev pub Shown : ℕ → Option Report → List Line → Type 0
Shown n none lines = Unit
Shown n (some r) lines =
    if r.instruction == length lines + 1 then r.recent ≡ last_lines n lines else Unit

unfoldable pub texts : List RiscVLogInfo → List Line
texts [] = []
texts (x ∷ xs) = get_log x ∷ texts xs

pub length-texts : (xs : List RiscVLogInfo) → length (texts xs) ≡ length xs
unfolding texts
length-texts [] = refl
length-texts (x ∷ xs) = ap suc (length-texts xs)

get_or-texts :
    (xs : List RiscVLogInfo) (d : ℕ) (x : RiscVLogInfo)
    → d < length xs
    → get_log (get_or xs d x) ≡ get_or (texts xs) d empty
unfolding texts
get_or-texts [] d x h = absurd (omega arith)
get_or-texts (y ∷ xs) zero x h = refl
get_or-texts (y ∷ xs) (suc d) x h = get_or-texts xs d x (omega arith)

module _ (n : ℕ) (pos : 0 < n) where
  filled_cong :
      (f g : ℕ → RiscVLogInfo) (k : ℕ)
      → ((i : ℕ) → i ≤ k → f i ≡ g i)
      → filled n pos f k ≡ filled n pos g k
  unfolding filled
  filled_cong f g zero e = refl
  filled_cong f g (suc k) e =
      ap₂ (λ x b. store n (suc k) x b) (e (suc k) (omega arith))
        (filled_cong f g k (λ i h. e i (omega arith)))

  -- The buffer after the logs of a list, the newest first.
  unfoldable pub buffer_of : List RiscVLogInfo → RingBuffer RiscVLogInfo
  buffer_of [] = replicate n none
  buffer_of (x ∷ xs) = store n (suc (length xs)) x (buffer_of xs)

  module _ (unknown : RiscVLogInfo) where
    log_of : List RiscVLogInfo → ℕ → RiscVLogInfo
    log_of xs i = get_or xs (length xs - i) unknown

    log_of-cons :
        (x : RiscVLogInfo) (xs : List RiscVLogInfo) (i : ℕ)
        → i ≤ length xs
        → log_of xs i ≡ log_of (x ∷ xs) i
    unfolding log_of
    log_of-cons x xs i h =
        let next : suc (length xs - i) ≡ suc (length xs) - i = omega arith in
        ap (λ j. get_or (x ∷ xs) j unknown) next

    buffer_of-filled :
        (xs : List RiscVLogInfo) → buffer_of xs ≡ filled n pos (log_of xs) (length xs)
    unfolding buffer_of filled log_of
    buffer_of-filled [] = refl
    buffer_of-filled (x ∷ xs) =
        ap₂ (λ y b. store n (suc (length xs)) y b) newest
          (buffer_of-filled xs
            ∙ filled_cong (log_of xs) (log_of (x ∷ xs)) (length xs) (log_of-cons x xs))
      where
        newest : x ≡ log_of (x ∷ xs) (suc (length xs))
        newest =
            let first : 0 ≡ suc (length xs) - suc (length xs) = omega arith in
            ap (λ j. get_or (x ∷ xs) j unknown) first

    recent-last_lines :
        (xs : List RiscVLogInfo) (d : ℕ)
        → recent n pos (log_of xs) get_log (length xs) d ≡ last_lines d (texts xs)
    unfolding recent last_lines log_of
    recent-last_lines xs zero = refl
    recent-last_lines xs (suc d) = elim (Bool-cases (leb (suc d) (length xs))) [
      | inl e ↦
          rw (length-texts xs, e)
            (ap₂ (λ t r. (suc d, t) ∷ r) (line (ground arith)) (recent-last_lines xs d))
      | inr e ↦ rw (length-texts xs, e) (recent-last_lines xs d)
    ]
      where
        line : d < length xs → get_log (log_of xs (length xs - d)) ≡ get_or (texts xs) d empty
        line h =
            let index : length xs - (length xs - d) ≡ d = omega arith in
            ap (λ j. get_log (get_or xs j unknown)) index ∙ get_or-texts xs d unknown h

    pub show-last_lines :
        (xs : List RiscVLogInfo)
        → show get_log n (length xs + 1) (buffer_of xs) ≡ last_lines n (texts xs)
    show-last_lines xs =
        ap (show get_log n (length xs + 1)) (buffer_of-filled xs)
        ∙ show-recent n pos (log_of xs) get_log (length xs)
        ∙ recent-last_lines xs n
