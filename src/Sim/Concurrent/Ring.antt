-- ===== src/Sim/Concurrent/Ring.antt =====
-- The ring buffer of sim/sim_concurrent.cpp, which keeps the recent instruction logs.
pub mod Recent
pub mod Lines
use veri_cross.Base.{ℕ, zero, suc, ◌+◌, ◌-◌, ◌%◌, Option, none, some, List, [], ◌∷◌, get_or, set}

-- `log_buffer`: a null pointer is none.
abbrev pub RingBuffer : Type 0 → Type 0
RingBuffer A = List (Option A)

-- `log_buffer[count % n] = new …`
unfoldable pub store : {A : Type 0} → ℕ → ℕ → A → RingBuffer A → RingBuffer A
store n count a ring = set ring (count % n) (some a)

module _ {A L : Type 0} (text : A → L) where
  -- The line of an entry at its distance, unless it is null.
  pub put : Option A → ℕ → List (ℕ × L) → List (ℕ × L)
  put none distance rest = rest
  put (some a) distance rest = (distance, text a) ∷ rest

  -- The loop that prints the entries from index `start` on, at `i` with `left` rounds to go.
  pub show_from : ℕ → ℕ → RingBuffer A → ℕ → ℕ → List (ℕ × L)
  unfolding put
  show_from n start ring zero i = []
  show_from n start ring (suc left) i =
      put (get_or ring ((start + i) % n) none) (n - i) (show_from n start ring left (i + 1))

  unfoldable pub show : ℕ → ℕ → RingBuffer A → List (ℕ × L)
  unfolding show_from
  show n count ring = show_from n (count % n) ring n 0
