-- ===== src/Sim/Validator.antt =====
-- `class Validator` of sim/sim_concurrent.cpp: the comparison of the two cores' last
-- instructions.
use veri_cross.Base.{ℕ, ◌-◌, ◌^◌, ◌<◌, ◌≡◌, ◌≢◌, ◌↔◌, refl, arith, bit_and, bit_or}
use veri_cross.Base.{Bool, true, false, not, ◌&&◌, ◌||◌, ◌==◌, if◌then◌else◌}
use veri_cross.Base.{all_below, all_below_sound}
use veri_cross.Sim.Common.{CoreInstructionIf, test, expand_wmask}
use veri_cross.Bits.{zero-bit_and}
use veri_cross.Sim.Riscv.{Inst, log_load, log_store, log_rd}
use veri_cross.Sim.Riscv.Decode.{decode}
use veri_cross.Sim.Riscv.Isa.{is_load, is_store, is_known, writes_rd}
use veri_cross.Sim.Riscv.Flags.{decode_flags}
use veri_cross.Sim.Memory.{merge}

pub record Validator : Type 0 where
  pub address_mis : Bool
  pub write_data_mis : Bool
  pub faddr : ℕ
  pub vaddr : ℕ
  pub fdata : ℕ
  pub vdata : ℕ

-- The assignments at the head of `validate`.
abbrev pub cleared : Validator
cleared = record {
  address_mis = false;
  write_data_mis = false;
  faddr = 0;
  vaddr = 0;
  fdata = 0;
  vdata = 0;
}

-- `(d_addr & ~0x3) | d_baddr`
abbrev pub load_addr : CoreInstructionIf → ℕ
load_addr i = bit_or (bit_and i.d_addr (2 ^ 32 - 1 - 3)) i.d_baddr

abbrev pub store_data : CoreInstructionIf → ℕ
store_data i = bit_and i.d_wdata (expand_wmask i.d_wmask)

validate_load : CoreInstructionIf → CoreInstructionIf → Validator × Bool
validate_load f v =
    let mis = not (load_addr f == load_addr v) in
    (record cleared { faddr = load_addr f; vaddr = load_addr v; address_mis = mis }, not mis)

validate_store : CoreInstructionIf → CoreInstructionIf → Validator × Bool
validate_store f v =
    let amis = not (f.d_addr == v.d_addr) in
    let dmis = not (store_data f == store_data v) in
    (
      record {
        address_mis = amis;
        write_data_mis = dmis;
        faddr = f.d_addr;
        vaddr = v.d_addr;
        fdata = store_data f;
        vdata = store_data v;
      },
      not amis && not dmis,
    )

-- The branches on the attributes of the decoded word.
by_attr : ℕ → CoreInstructionIf → CoreInstructionIf → Validator × Bool
unfolding validate_load validate_store
by_attr attr f v =
    if test (bit_and attr log_load)
    then validate_load f v
    else if test (bit_and attr log_store)
    then validate_store f v
    else if test (bit_and attr log_rd)
    then (cleared, f.result == v.result)
    else (cleared, true)

unfoldable pub validate : CoreInstructionIf → CoreInstructionIf → Validator × Bool
unfolding by_attr
validate f v =
    if not (f.pc == v.pc) || not (f.ir == v.ir)
    then (cleared, false)
    else by_attr (decode f.pc f.ir).attr f v

-- What the verdict means for each kind of instruction.
abbrev pub Agree : CoreInstructionIf → CoreInstructionIf → Type 0
Agree f v =
    let id = (decode f.pc f.ir).instr_id in
    (f.pc ≡ v.pc)
    × (f.ir ≡ v.ir)
    × (is_load id ≡ true → load_addr f ≡ load_addr v)
    × (is_store id ≡ true → (f.d_addr ≡ v.d_addr) × (store_data f ≡ store_data v))
    × (is_known id ≡ true
        → is_load id ≡ false
        → is_store id ≡ false
        → writes_rd id ≡ true
        → f.result ≡ v.result)

-- An accepted pair agrees in what the decoded instruction does.
pub validate-Agree : (f v : CoreInstructionIf) → (validate f v).1 ≡ true → Agree f v
unfolding validate
validate-Agree f v h =
    let flags = decode_flags f.pc f.ir in
    (
      ground arith,
      ground arith,
      λ l. ground (arith, flags.0),
      λ s. (ground (arith, flags.1), ground (arith, flags.1)),
      λ k l s w. ground (arith, flags.0, flags.1, flags.2),
    )

-- The converse, for a word that the decoder recognises.
Agree-validate :
    (f v : CoreInstructionIf)
    → is_known (decode f.pc f.ir).instr_id ≡ true
    → Agree f v
    → (validate f v).1 ≡ true
unfolding validate
Agree-validate f v k a =
    let flags = decode_flags f.pc f.ir in
    ground (arith, flags.0, flags.1, flags.2, a.0, a.1, a.2, a.3, a.4 k)

-- For a recognised word, `validate` accepts exactly if the PCs and words are equal and so are: the
-- byte addresses of a load; the address and the masked data of a store; the result of another
-- instruction that writes a register.
pub validate_iff :
    (f v : CoreInstructionIf)
    → is_known (decode f.pc f.ir).instr_id ≡ true
    → ((validate f v).1 ≡ true) ↔ Agree f v
validate_iff f v k = (validate-Agree f v, Agree-validate f v k)

-- `validate` gives the same verdict with the cores exchanged.
validate_symm : (f v : CoreInstructionIf) → (validate f v).1 ≡ (validate v f).1
unfolding validate
validate_symm f v = ground arith

abbrev pub all_ones : ℕ
all_ones = 0xffffffff

mask_table :
    all_below 16 (λ a. all_below 16 (λ b.
      (a == b) || not (merge all_ones 0 (expand_wmask a) == merge all_ones 0 (expand_wmask b))))
    ≡ true
unfolding all_below expand_wmask
mask_table = refl

mask_matters :
    (a b : ℕ)
    → a < 16
    → b < 16
    → a ≢ b
    → merge all_ones 0 (expand_wmask a) ≢ merge all_ones 0 (expand_wmask b)
mask_matters a b ha hb ne = ground (
  arith,
  all_below_sound 16
      (λ y.
        (a == y) || not (merge all_ones 0 (expand_wmask a) == merge all_ones 0 (expand_wmask y)))
      b
      (all_below_sound 16
        (λ x. all_below 16 (λ y.
          (x == y) || not (merge all_ones 0 (expand_wmask x) == merge all_ones 0 (expand_wmask y))))
        a mask_table ha)
      hb,
)

store_known : (id : Inst) → is_store id ≡ true → (is_known id ≡ true) × (is_load id ≡ false)
store_known id h = ground arith

-- Two stores of zero at one address, of the same instruction but under different 4-bit masks, are
-- accepted, though over a word of ones they leave different words.
pub validate_mask_gap :
    (f v : CoreInstructionIf)
    → f.pc ≡ v.pc
    → f.ir ≡ v.ir
    → is_store (decode f.pc f.ir).instr_id ≡ true
    → f.d_addr ≡ v.d_addr
    → f.d_wdata ≡ 0
    → v.d_wdata ≡ 0
    → f.d_wmask < 16
    → v.d_wmask < 16
    → f.d_wmask ≢ v.d_wmask
    → ((validate f v).1 ≡ true)
      × (merge all_ones f.d_wdata (expand_wmask f.d_wmask)
          ≢ merge all_ones v.d_wdata (expand_wmask v.d_wmask))
validate_mask_gap f v pc ir st addr fz vz fm vm ne =
    let (known, no_load) = store_known (decode f.pc f.ir).instr_id st in
    let data_eq : store_data f ≡ store_data v =
      rw (fz, vz, zero-bit_and (expand_wmask f.d_wmask), zero-bit_and (expand_wmask v.d_wmask)) in
    (
      Agree-validate f v known (pc, ir, λ l. cc (no_load), λ s. (addr, data_eq), λ k l s w. cc),
      rw (fz, vz) (mask_matters f.d_wmask v.d_wmask fm vm ne),
    )
