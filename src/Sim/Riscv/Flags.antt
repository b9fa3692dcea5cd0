-- ===== src/Sim/Riscv/Flags.antt =====
-- The attributes that the decoder gives a word are those of the instruction it recognises.
use veri_cross.Base.{ℕ, ◌^◌, ◌<◌, ◌≡◌, refl, ◌∙◌, arith, bit_and}
use veri_cross.Base.{Bool, true, false, not, ◌&&◌, ◌||◌, ◌==◌, Bool-cases, inl, inr, ==_iff}
use veri_cross.Base.{all_below}
use veri_cross.Sim.Common.{test}
use veri_cross.Sim.Riscv.{Inst, unknown, fmt_mask, log_load, log_store, log_rd}
use veri_cross.Sim.Riscv.Isa.{Format, format_of, immediate, is_known, is_load, is_store, writes_rd}
use veri_cross.Sim.Riscv.Imm.{
  get_imm, imm_of_i-eq, imm_of_s-eq, imm_of_b-eq, imm_of_j-eq, imm_of_u-eq,
}
use veri_cross.Sim.Riscv.Table.{agree, Rows, decode_table}
use veri_cross.Sim.Riscv.Decode.{decode_op, decode}

-- The value of the format field for each format.
abbrev pub fmt_code : Format → ℕ
fmt_code Format.r = 0
fmt_code Format.i = 1
fmt_code Format.s = 2
fmt_code Format.b = 3
fmt_code Format.u = 4
fmt_code Format.j = 5

abbrev consistent : Inst × ℕ → Bool
unfolding format_of
consistent (id, attr) =
    agree (is_load id) (test (bit_and attr log_load))
    && agree (is_store id) (test (bit_and attr log_store))
    && (not (is_known id)
        || (agree (writes_rd id) (test (bit_and attr log_rd))
            && bit_and attr fmt_mask == fmt_code (format_of id)))

consistent-Rows : (alt : Bool) → Rows consistent alt
unfolding all_below decode_op format_of consistent
consistent-Rows true = (refl, refl, refl, refl, refl)
consistent-Rows false = (refl, refl, refl, refl, refl)

decode-consistent : (pc ir : ℕ) → consistent ((decode pc ir).instr_id, (decode pc ir).attr) ≡ true
unfolding consistent
decode-consistent pc ir = decode_table consistent consistent-Rows refl pc ir

-- What `consistent` tests.
record IsConsistent (id : Inst) (attr : ℕ) : Type 0 where
  loads : test (bit_and attr log_load) ≡ is_load id
  stores : test (bit_and attr log_store) ≡ is_store id
  writes : is_known id ≡ true → test (bit_and attr log_rd) ≡ writes_rd id
  format : is_known id ≡ true → bit_and attr fmt_mask ≡ fmt_code (format_of id)

parts :
    (l tl s ts k w tw f : Bool)
    → (agree l tl && agree s ts && (not k || (agree w tw && f))) ≡ true
    → (tl ≡ l) × (ts ≡ s) × (k ≡ true → tw ≡ w) × (k ≡ true → f ≡ true)
parts l tl s ts k w tw f h = (ground arith, ground arith, λ e. ground arith, λ e. ground arith)

consistent_sound : (id : Inst) (attr : ℕ) → consistent (id, attr) ≡ true → IsConsistent id attr
unfolding consistent
consistent_sound id attr h =
    let p =
      parts (is_load id) (test (bit_and attr log_load)) (is_store id)
        (test (bit_and attr log_store)) (is_known id) (writes_rd id) (test (bit_and attr log_rd))
        (bit_and attr fmt_mask == fmt_code (format_of id)) h in
    record { loads = p.0; stores = p.1; writes = p.2; format = λ k. (==_iff _ _).0 (p.3 k) }

decode-IsConsistent : (pc ir : ℕ) → IsConsistent (decode pc ir).instr_id (decode pc ir).attr
decode-IsConsistent pc ir =
    consistent_sound (decode pc ir).instr_id (decode pc ir).attr (decode-consistent pc ir)

known_writes :
    (id : Inst) (w : Bool)
    → (is_known id ≡ true → w ≡ writes_rd id)
    → (is_known id && w) ≡ writes_rd id
known_writes unknown w h = refl
known_writes id w h = ground arith

-- For every word, the load and store flags that the decoder sets are those of the instruction it
-- recognises, and for a recognised word so is the flag for writing a register.
pub decode_flags :
    (pc ir : ℕ)
    → (test (bit_and (decode pc ir).attr log_load) ≡ is_load (decode pc ir).instr_id)
      × (test (bit_and (decode pc ir).attr log_store) ≡ is_store (decode pc ir).instr_id)
      × ((is_known (decode pc ir).instr_id && test (bit_and (decode pc ir).attr log_rd))
          ≡ writes_rd (decode pc ir).instr_id)
decode_flags pc ir =
    let c = decode-IsConsistent pc ir in
    (
      c.loads,
      c.stores,
      known_writes (decode pc ir).instr_id (test (bit_and (decode pc ir).attr log_rd)) c.writes,
    )

get_imm-eq :
    (attr ir : ℕ) (f : Format)
    → ir < 2 ^ 32
    → bit_and attr fmt_mask ≡ fmt_code f
    → get_imm attr ir ≡ immediate f ir
unfolding get_imm immediate
get_imm-eq attr ir Format.r h e = rw e
get_imm-eq attr ir Format.i h e = rw e (imm_of_i-eq ir h)
get_imm-eq attr ir Format.s h e = rw e (imm_of_s-eq ir h)
get_imm-eq attr ir Format.b h e = rw e (imm_of_b-eq ir h)
get_imm-eq attr ir Format.u h e = rw e (imm_of_u-eq ir h)
get_imm-eq attr ir Format.j h e = rw e (imm_of_j-eq ir h)

imm-decode :
    (pc ir : ℕ)
    → is_known (decode pc ir).instr_id ≡ true
    → (decode pc ir).imm ≡ get_imm (decode pc ir).attr ir
unfolding decode
imm-decode pc ir k = elim (Bool-cases (bit_and ir 0x3 == 0x3)) [
  | inl e ↦ rw e
  | inr e ↦ absurd (clash (rw e at k))
]
  where
    clash : false ≡ true → ⊥
    clash h = cc

-- For every recognised 32-bit word, the decoded immediate is the sign-extended number that the
-- format of its instruction composes of the word's bits.
pub decode-immediate :
    (pc ir : ℕ)
    → ir < 2 ^ 32
    → is_known (decode pc ir).instr_id ≡ true
    → (decode pc ir).imm ≡ immediate (format_of (decode pc ir).instr_id) ir
decode-immediate pc ir h k =
    imm-decode pc ir k
    ∙ get_imm-eq (decode pc ir).attr ir (format_of (decode pc ir).instr_id) h
        ((decode-IsConsistent pc ir).format k)
