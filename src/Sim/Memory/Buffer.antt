-- ===== src/Sim/Memory/Buffer.antt =====
-- `std::map<uint32_t, uint32_t>`, the type of a write buffer of sim/memory.cpp: entries in
-- ascending order of their keys.
use veri_cross.Base.{ℕ, suc, ◌<◌, ◌≡◌, refl, arith, ltb, ◌==◌, if◌then◌else◌}
use veri_cross.Base.{Bool, true, false, Option, none, some, List, [], ◌∷◌}

abbrev pub WriteBuffer : Type 0
WriteBuffer = List (ℕ × ℕ)

unfoldable pub lookup : ℕ → WriteBuffer → Option ℕ
lookup k [] = none
lookup k ((j, v) ∷ b) = if j == k then some v else lookup k b

-- `b.contains(k)`
unfoldable pub contains : ℕ → WriteBuffer → Bool
contains k [] = false
contains k ((j, v) ∷ b) = if j == k then true else contains k b

-- `b[k] = v`
unfoldable pub insert : ℕ → ℕ → WriteBuffer → WriteBuffer
insert k v [] = (k, v) ∷ []
insert k v ((j, w) ∷ b) =
    if j == k then (k, v) ∷ b else if ltb k j then (k, v) ∷ (j, w) ∷ b else (j, w) ∷ insert k v b

-- `b.erase(k)`
unfoldable pub erase : ℕ → WriteBuffer → WriteBuffer
erase k [] = []
erase k ((j, v) ∷ b) = if j == k then erase k b else (j, v) ∷ erase k b

-- Every key of the buffer is above `k`.
abbrev pub Above : ℕ → WriteBuffer → Type 0
Above k [] = Unit
Above k ((j, v) ∷ b) = (k < j) × Above k b

abbrev pub IsSorted : WriteBuffer → Type 0
IsSorted [] = Unit
IsSorted ((j, v) ∷ b) = Above j b × IsSorted b

pub lookup-insert :
    (k j v : ℕ) (b : WriteBuffer)
    → lookup j (insert k v b) ≡ (if k == j then some v else lookup j b)
unfolding lookup insert
lookup-insert k j v [] = refl
lookup-insert k j v ((i, w) ∷ b) = ground (arith, lookup-insert k j v b)

pub lookup-erase :
    (k j : ℕ) (b : WriteBuffer) → lookup j (erase k b) ≡ (if k == j then none else lookup j b)
unfolding lookup erase
lookup-erase k j [] = ground arith
lookup-erase k j ((i, w) ∷ b) = ground (arith, lookup-erase k j b)

-- A found key is contained, and the other way round.
pub contains-lookup :
    (k : ℕ) (b : WriteBuffer) → contains k b ≡ elim (lookup k b) [ none ↦ false | some v ↦ true ]
unfolding contains lookup
contains-lookup k [] = refl
contains-lookup k ((i, w) ∷ b) = ground (arith, contains-lookup k b)

pub lookup-Above : (k j : ℕ) (b : WriteBuffer) → Above k b → j < suc k → lookup j b ≡ none
unfolding lookup
lookup-Above k j [] a h = refl
lookup-Above k j ((i, w) ∷ b) a h = ground (arith, lookup-Above k j b)

Above-lt : (k j : ℕ) (b : WriteBuffer) → k < j → Above j b → Above k b
Above-lt k j [] h a = tt
Above-lt k j ((i, w) ∷ b) h a = (omega arith, Above-lt k j b h a.1)

Above-insert : (k j v : ℕ) (b : WriteBuffer) → k < j → Above k b → Above k (insert j v b)
unfolding insert
Above-insert k j v [] h a = ground arith
Above-insert k j v ((i, w) ∷ b) h a = ground (arith, Above-insert k j v b)

Above-erase : (k j : ℕ) (b : WriteBuffer) → Above k b → Above k (erase j b)
unfolding erase
Above-erase k j [] a = tt
Above-erase k j ((i, w) ∷ b) a = ground (arith, Above-erase k j b)

-- Both operations keep the entries in order, with no key twice.
pub insert-IsSorted : (k v : ℕ) (b : WriteBuffer) → IsSorted b → IsSorted (insert k v b)
unfolding insert
insert-IsSorted k v [] s = ground arith
insert-IsSorted k v ((j, w) ∷ b) s =
    ground (arith, insert-IsSorted k v b, Above-insert j k v b, Above-lt k j b)

pub erase-IsSorted : (k : ℕ) (b : WriteBuffer) → IsSorted b → IsSorted (erase k b)
unfolding erase
erase-IsSorted k [] s = tt
erase-IsSorted k ((j, w) ∷ b) s = ground (arith, erase-IsSorted k b, Above-erase j k b)
