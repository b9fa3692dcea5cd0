-- ===== src/Sim/Riscv/Log/Fields.antt =====
-- What the log reads off the attributes of a decoded load: its size and whether it is signed.
use veri_cross.Base.{ℕ, ◌*◌, ◌/◌, ◌%◌, ◌^◌, ◌<◌, ◌≡◌, refl, arith, bit_and, bit_or}
use veri_cross.Bits.{bit_and-ones, bit_and-field, disjoint-bit_or, bit_or-zero}
use veri_cross.Sim.Riscv.Imm.{sext}
use veri_cross.Sim.Riscv.Isa.{is_load, is_store}
use veri_cross.Sim.Riscv.Log.{loaded}
use veri_cross.Base.{if◌then◌else◌, Bool, true, false, ◌==◌, ◌&&◌, ◌||◌, all_below}
use veri_cross.Sim.Common.{test}
use veri_cross.Sim.Riscv.{
  Inst, lb, lh, lw, lbu, lhu, log_load, log_store, log_ld1b, log_ld2b, log_ld4b, log_ldsgn,
}
use veri_cross.Sim.Riscv.Decode.{decode, decode_op}
use veri_cross.Sim.Riscv.Table.{agree, Rows, decode_table}

abbrev pub size_code : Inst → ℕ
size_code lb = log_ld1b
size_code lh = log_ld2b
size_code lw = log_ld4b
size_code lbu = log_ld1b
size_code lhu = log_ld2b
size_code _ = 0

abbrev pub is_signed : Inst → Bool
is_signed lb = true
is_signed lh = true
is_signed _ = false

abbrev load_check : Inst × ℕ → Bool
load_check (id, attr) =
    bit_and attr log_load == size_code id
    && agree (is_signed id) (test (bit_and attr log_ldsgn))
    && bit_and attr log_ld1b == bit_and (size_code id) log_ld1b
    && bit_and attr log_ld2b == bit_and (size_code id) log_ld2b
    && agree (is_load id || is_store id) (test (bit_and attr (bit_or log_load log_store)))

load-Rows : (alt : Bool) → Rows load_check alt
unfolding all_below decode_op
load-Rows true = (refl, refl, refl, refl, refl)
load-Rows false = (refl, refl, refl, refl, refl)

load_parts :
    (a b c : ℕ) (sgn t u v : Bool) (a' b' c' : ℕ)
    → (a == a' && agree sgn t && b == b' && c == c' && agree u v) ≡ true
    → (a ≡ a') × (t ≡ sgn) × (b ≡ b') × (c ≡ c') × (v ≡ u)
load_parts a b c sgn t u v a' b' c' h =
    (ground arith, ground arith, ground arith, ground arith, ground arith)

pub decode_load_fields :
    (pc ir : ℕ)
    → (bit_and (decode pc ir).attr log_load ≡ size_code (decode pc ir).instr_id)
      × (test (bit_and (decode pc ir).attr log_ldsgn) ≡ is_signed (decode pc ir).instr_id)
      × (bit_and (decode pc ir).attr log_ld1b
          ≡ bit_and (size_code (decode pc ir).instr_id) log_ld1b)
      × (bit_and (decode pc ir).attr log_ld2b
          ≡ bit_and (size_code (decode pc ir).instr_id) log_ld2b)
      × (test (bit_and (decode pc ir).attr (bit_or log_load log_store))
          ≡ (is_load (decode pc ir).instr_id || is_store (decode pc ir).instr_id))
decode_load_fields pc ir =
    let id = (decode pc ir).instr_id in
    let attr = (decode pc ir).attr in
    load_parts (bit_and attr log_load) (bit_and attr log_ld1b) (bit_and attr log_ld2b)
      (is_signed id) (test (bit_and attr log_ldsgn)) (is_load id || is_store id)
      (test (bit_and attr (bit_or log_load log_store))) (size_code id)
      (bit_and (size_code id) log_ld1b) (bit_and (size_code id) log_ld2b)
      (decode_table load_check load-Rows refl pc ir)

abbrev pub is_half : Inst → Bool
is_half lh = true
is_half lhu = true
is_half _ = false

-- What the manual says that a load of `id` makes of the word, shifted to the accessed byte.
abbrev pub load_value : Inst → ℕ → ℕ
load_value lb v = sext 8 (v % 2 ^ 8)
load_value lh v = sext 16 (v % 2 ^ 16)
load_value lbu v = v % 2 ^ 8
load_value lhu v = v % 2 ^ 16
load_value _ v = v % 2 ^ 32

pub extend_byte :
    (b : ℕ) → b < 2 ^ 8 → bit_or b (if test (bit_and b 0x80) then 0xffffff00 else 0) ≡ sext 8 b
extend_byte b h = ground (arith, bit_and-field 7 1 b, disjoint-bit_or 8 0xffffff b, bit_or-zero b)

pub extend_half :
    (b : ℕ) → b < 2 ^ 16 → bit_or b (if test (bit_and b 0x8000) then 0xffff0000 else 0) ≡ sext 16 b
extend_half b h = ground (arith, bit_and-field 15 1 b, disjoint-bit_or 16 0xffff b, bit_or-zero b)

-- `loaded` by the fields of the attributes.
by_fields : ℕ → Bool → ℕ → ℕ → ℕ → ℕ
by_fields size sgn b1 b2 v =
    let result =
      bit_and v
        (if size == log_ld1b then 0xff else if size == log_ld2b then 0xffff else 0xffffffff) in
    if sgn
    then (let byte =
          (if test b1
            then bit_or result (if test (bit_and result 0x80) then 0xffffff00 else 0)
            else result) in
        if test b2
        then bit_or byte (if test (bit_and byte 0x8000) then 0xffff0000 else 0)
        else byte)
    else result

by_fields-load_value :
    (id : Inst) (v : ℕ)
    → is_load id ≡ true
    → by_fields
        (size_code id)
        (is_signed id)
        (bit_and (size_code id) log_ld1b)
        (bit_and (size_code id) log_ld2b)
        v
      ≡ load_value id v
unfolding by_fields
by_fields-load_value lb v l = rw (bit_and-ones 8 v) (extend_byte (v % 2 ^ 8) (omega arith))
by_fields-load_value lh v l = rw (bit_and-ones 16 v) (extend_half (v % 2 ^ 16) (omega arith))
by_fields-load_value lw v l = bit_and-ones 32 v
by_fields-load_value lbu v l = bit_and-ones 8 v
by_fields-load_value lhu v l = bit_and-ones 16 v
by_fields-load_value _ v l = absurd (ground arith)

pub loaded-load_value :
    (pc ir mem_data baddr : ℕ)
    → is_load (decode pc ir).instr_id ≡ true
    → loaded (decode pc ir).attr mem_data baddr
      ≡ load_value (decode pc ir).instr_id (mem_data / 2 ^ (baddr * 8))
unfolding loaded by_fields
loaded-load_value pc ir mem_data baddr l =
    let fields = decode_load_fields pc ir in
    rw (fields.0, fields.1, fields.2, fields.3)
      (by_fields-load_value (decode pc ir).instr_id (mem_data / 2 ^ (baddr * 8)) l)
