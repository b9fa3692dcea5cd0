-- ===== src/Main/Args/Laws.antt =====
-- What a successful `checkarg` guarantees.
use veri_cross.Base.{ℕ, ◌≡◌, ◌⊎◌, inl, inr, refl, arith}
use veri_cross.Base.{Bool, true, false, ◌&&◌, Bool-cases, List, [], ◌∷◌}
use veri_cross.Main.Number.{Scaled, number, invalid, undefined, parse_scaled_number}
use veri_cross.Main.Args.{
  is_known_core, is_empty, Args, Opt, core, logfile, instruction, mismatch, list_core, log,
  proc_only, version, unknown, ArgResult, success, failed, info_printed, overflow, finish, Next,
  go_on, return, parse_mismatch, set_max, set_mismatch, option, options, checkarg, defaults,
}

-- A condition on the arguments of a success.
abbrev pub OnSuccess : (Args → Type 0) → ArgResult → Type 0
OnSuccess P (success args) = P args
OnSuccess P failed = Unit
OnSuccess P info_printed = Unit
OnSuccess P overflow = Unit

-- No core is named, or a known one.
abbrev pub IsKnown : List ℕ → Type 0
IsKnown name = (name ≡ []) ⊎ (is_known_core name ≡ true)

abbrev OnNext : (Args → Type 0) → Next → Type 0
OnNext P (go_on args) = P args
OnNext P (return r) = OnSuccess (λ args. ⊥) r

set_max-OnNext :
    (P : Args → Type 0) (args : Args) (x : Scaled)
    → ((n : ℕ) → P (record args { max_insts = n }))
    → OnNext P (set_max args x)
unfolding set_max
set_max-OnNext P args (number n) p = p n
set_max-OnNext P args invalid p = tt
set_max-OnNext P args undefined p = tt

set_mismatch-OnNext :
    (P : Args → Type 0) (args : Args) (x : Scaled)
    → ((n : ℕ) → P (record args { mismatch_insts = n }))
    → OnNext P (set_mismatch args x)
unfolding set_mismatch
set_mismatch-OnNext P args (number n) p = p n
set_mismatch-OnNext P args invalid p = tt
set_mismatch-OnNext P args undefined p = tt

abbrev Known : Args → Type 0
Known args = IsKnown args.core_type

option-Known : (args : Args) (o : Opt) → Known args → OnNext Known (option args o)
unfolding option
option-Known args (core name) k = elim (Bool-cases (is_known_core name)) [
  | inl e ↦ rw e (inr e)
  | inr e ↦ rw e tt
]
option-Known args (logfile file) k = k
option-Known args (instruction str) k = set_max-OnNext Known args (parse_scaled_number str) (λ n. k)
option-Known args (mismatch str) k = set_mismatch-OnNext Known args (parse_mismatch str) (λ n. k)
option-Known args list_core k = tt
option-Known args log k = k
option-Known args proc_only k = k
option-Known args version k = tt
option-Known args unknown k = tt

-- The core is known, and is named if it is simulated alone.
abbrev pub IsUsable : Args → Type 0
IsUsable args =
    IsKnown args.core_type × (args.proc_only ≡ true → is_known_core args.core_type ≡ true)

named :
    (proc : Bool) (name : List ℕ)
    → IsKnown name
    → (proc && is_empty name) ≡ false
    → proc ≡ true
    → is_known_core name ≡ true
named proc name (inr k) h e = k
named proc [] (inl k) h e = absurd (ground arith)
named proc (c ∷ cs) (inl k) h e = absurd (clash k)
  where
    clash : ◌≡◌ {A = List ℕ} (c ∷ cs) [] → ⊥
    clash k = cc

finish-IsUsable :
    (args : Args) (operands : List (List ℕ))
    → Known args
    → OnSuccess IsUsable (finish args operands)
unfolding finish
finish-IsUsable args [] k = tt
finish-IsUsable args (a ∷ []) k = tt
finish-IsUsable args (a ∷ b ∷ []) k = tt
finish-IsUsable args (a ∷ b ∷ c ∷ d ∷ rest) k = tt
finish-IsUsable args (base ∷ binary ∷ stack ∷ []) k =
    elim (Bool-cases (args.proc_only && is_empty args.core_type)) [
      | inl e ↦ rw e tt
      | inr e ↦ rw e (k, named args.proc_only args.core_type k e)
    ]

options-IsUsable :
    (args : Args) (os : List Opt) (operands : List (List ℕ))
    → Known args
    → OnSuccess IsUsable (options args os operands)
unfolding options
options-IsUsable args [] operands k = finish-IsUsable args operands k
options-IsUsable args (o ∷ os) operands k =
    let rest = λ (a : Args). options-IsUsable a os operands in
    after rest (option args o) (option-Known args o k)
  where
    after :
        ((a : Args) → Known a → OnSuccess IsUsable (options a os operands))
        → (n : Next) → OnNext Known n
        → OnSuccess IsUsable (elim n [ go_on a ↦ options a os operands | return r ↦ r ])
    after rest (go_on a) k = rest a k
    after rest (return failed) k = tt
    after rest (return info_printed) k = tt
    after rest (return overflow) k = tt
    after rest (return (success a)) k = absurd k

-- If `checkarg` succeeds, no core model is named or a known one, and one is named if the core is to
-- be simulated alone.
pub checkarg-IsUsable :
    (opts : List Opt) (operands : List (List ℕ)) → OnSuccess IsUsable (checkarg opts operands)
unfolding checkarg
checkarg-IsUsable opts operands = options-IsUsable defaults opts operands (inl refl)
