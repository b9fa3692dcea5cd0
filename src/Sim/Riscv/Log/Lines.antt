-- ===== src/Sim/Riscv/Log/Lines.antt =====
-- The lines that `get_log` gives for the loads and stores of any core.
use veri_cross.Base.{
  ℕ, ◌-◌, ◌*◌, ◌/◌, ◌%◌, ◌^◌, ◌<◌, ◌==◌, ◌≡◌, sym, refl, ap, ◌∙◌, arith, bit_and, bit_or,
}
use veri_cross.Base.{leb, Bool, true, false, if◌then◌else◌, ◌||◌, ◌&&◌, some}
use veri_cross.Sim.Common.{CoreInstructionIf, test, expand_wmask}
use veri_cross.Sim.Memory.{Memory, primary, merge, word_addr, view, read_4b, write_mask}
use veri_cross.Sim.Memory.View.{view-write_4b, write_4b-HasShapeOf}
use veri_cross.Sim.Memory.Merge.{byte_mask, expand_wmask-eq, merge-lt, merge-byte_mask, byte-merge}
use veri_cross.Sim.Memory.Bytes.{read, read_words, word_of}
use veri_cross.Sim.Memory.Bytes.Single.{IsSized, write_4b-IsSized}
use veri_cross.Sim.Riscv.{Inst, log_load, log_store, log_rd}
use veri_cross.Sim.Riscv.Isa.{is_load, is_store, is_known, writes_rd}
use veri_cross.Sim.Riscv.Flags.{decode_flags}
use veri_cross.Sim.Riscv.Decode.{decode}
use veri_cross.Sim.Riscv.Log.{
  InstStr, Line, log_info, get_log, log_line, get_mnemonic, sets, stores,
}
use veri_cross.Sim.Riscv.Log.Fields.{load_value, loaded-load_value, decode_load_fields}

abbrev pub inst_str : ℕ → ℕ → InstStr
inst_str pc ir = record { pc = pc; ir = ir; mnemonic = get_mnemonic (decode pc ir) }

kind_of_load :
    (id : Inst) (l s w : Bool)
    → is_load id ≡ true
    → l ≡ is_load id
    → s ≡ is_store id
    → (is_known id && w) ≡ writes_rd id
    → (l ≡ true) × (s ≡ false) × (w ≡ true)
kind_of_load id l s w h hl hs hw = (ground arith, ground arith, ground arith)

or_true : (b : Bool) → (b || true) ≡ true
or_true b = ground arith

module _ (unset : ℕ) (iif : CoreInstructionIf) (m : Memory) (valid : iif.valid ≡ 1) where
  abbrev id : Inst
  id = (decode iif.pc iif.ir).instr_id

  abbrev attr : ℕ
  attr = (decode iif.pc iif.ir).attr

  get_log-valid :
      get_log (log_info unset iif (some m))
      ≡ log_line (decode iif.pc iif.ir) iif (
          if test (bit_and attr (bit_or log_load log_store))
          then word_of (read m iif.d_addr 4)
          else unset)
  unfolding get_log log_info
  get_log-valid = let on : (iif.valid == 0) ≡ false = rw valid in rw on (rw on refl)

  -- A valid load of a byte address below 4 is logged with its register and the value that the manual gives for the word in
  -- memory at the logged address, shifted to the logged byte address.
  pub get_log-load :
      is_load id ≡ true
      → iif.d_baddr < 4
      → get_log (log_info unset iif (some m))
        ≡ sets
            (inst_str iif.pc iif.ir)
            iif.rd
            (load_value id (word_of (read m iif.d_addr 4) / 2 ^ (iif.d_baddr * 8)))
  unfolding log_line
  get_log-load l small =
      let inside : leb 4 iif.d_baddr ≡ false = ground arith in
      let flags = decode_flags iif.pc iif.ir in
      let kind =
        kind_of_load id (test (bit_and attr log_load)) (test (bit_and attr log_store))
          (test (bit_and attr log_rd)) l flags.0 flags.1 flags.2 in
      let fetched : test (bit_and attr (bit_or log_load log_store)) ≡ true =
        (decode_load_fields iif.pc iif.ir).4 ∙ rw l in
      get_log-valid
      ∙ rw (fetched, kind.1, kind.2, kind.0, inside)
          (ap (sets (inst_str iif.pc iif.ir) iif.rd)
            (loaded-load_value iif.pc iif.ir (word_of (read m iif.d_addr 4)) iif.d_baddr l))

  log-store :
      is_store id ≡ true
      → get_log (log_info unset iif (some m))
        ≡ stores
            (inst_str iif.pc iif.ir)
            (iif.d_addr / 2 ^ 2)
            (merge (word_of (read m iif.d_addr 4)) iif.d_wdata (expand_wmask iif.d_wmask))
  unfolding log_line
  log-store st =
      let flags = decode_flags iif.pc iif.ir in
      let stored : test (bit_and attr log_store) ≡ true = flags.1 ∙ st in
      let fetched : test (bit_and attr (bit_or log_load log_store)) ≡ true =
        (decode_load_fields iif.pc iif.ir).4 ∙ rw st (or_true (is_load id)) in
      get_log-valid ∙ rw (fetched, stored)

merge_bytes_idem :
    (old v : ℕ) (d c b a : Bool)
    → old < 2 ^ 32
    → v < 2 ^ 32
    → merge (merge old v (byte_mask d c b a)) v (byte_mask d c b a)
      ≡ merge old v (byte_mask d c b a)
merge_bytes_idem old v d c b a ho hv =
    let bytes = byte-merge old v d c b a ho hv in
    merge-byte_mask (merge old v (byte_mask d c b a)) v d c b a (merge-lt old v d c b a ho hv) hv
    ∙ rw (bytes.0, bytes.1, bytes.2, bytes.3) (ground arith)
    ∙ sym (merge-byte_mask old v d c b a ho hv)

-- A masked write repeated leaves the word that the first one left.
merge_idem :
    (old v mask : ℕ)
    → old < 2 ^ 32
    → v < 2 ^ 32
    → merge (merge old v (expand_wmask mask)) v (expand_wmask mask)
      ≡ merge old v (expand_wmask mask)
merge_idem old v mask ho hv = rw (expand_wmask-eq mask) (
    merge_bytes_idem old v (test (bit_and mask 8)) (test (bit_and mask 4)) (test (bit_and mask 2))
      (test (bit_and mask 1)) ho hv)

module _ (m : Memory) (s : IsSized m) (addr v mask : ℕ) (h : addr < 2 ^ 32) (aligned : addr % 4 ≡ 0)
    (hv : v < 2 ^ 32) where
  abbrev after : Memory
  after = write_mask m primary addr v mask

  word_of-read : (n : Memory) → IsSized n → word_of (read n addr 4) ≡ read_4b n primary addr
  unfolding read read_words read_4b
  word_of-read n sn = ground (arith, sn.words primary (word_addr n addr))

  old-lt : read_4b m primary addr < 2 ^ 32
  unfolding read_4b
  old-lt = s.words primary (word_addr m addr)

  merged-lt : merge (read_4b m primary addr) v (expand_wmask mask) < 2 ^ 32
  unfolding read_4b
  merged-lt = rw (expand_wmask-eq mask) (
      merge-lt (view m primary (word_addr m addr)) v (test (bit_and mask 8)) (test (bit_and mask 4))
        (test (bit_and mask 2)) (test (bit_and mask 1)) (s.words primary (word_addr m addr)) hv)

  after-IsSized : IsSized after
  unfolding write_mask
  after-IsSized = write_4b-IsSized m primary addr _ s tt merged-lt

  read-after : read_4b after primary addr ≡ merge (read_4b m primary addr) v (expand_wmask mask)
  unfolding write_mask read_4b
  read-after =
      ap (λ n. view after primary (bit_and (addr / 2 ^ 2) (n - 1)))
        (write_4b-HasShapeOf m primary addr _).nwords
      ∙ view-write_4b m merged s.valid primary primary addr (word_addr m addr) tt
      ∙ ground arith
    where
      merged : ℕ
      merged = merge (view m primary (word_addr m addr)) v (expand_wmask mask)

  merge_again :
      merge (read_4b after primary addr) v (expand_wmask mask) ≡ read_4b after primary addr
  merge_again =
      ap (λ w. merge w v (expand_wmask mask)) read-after
      ∙ merge_idem (read_4b m primary addr) v mask old-lt hv
      ∙ sym read-after

module _ (unset : ℕ) (iif : CoreInstructionIf) (m : Memory) (valid : iif.valid ≡ 1) (s : IsSized m)
    (h : iif.d_addr < 2 ^ 32) (hv : iif.d_wdata < 2 ^ 32) (aligned : iif.d_addr % 4 ≡ 0)
    (st : is_store (decode iif.pc iif.ir).instr_id ≡ true) where
  abbrev pub stored : Memory
  stored = after m s iif.d_addr iif.d_wdata iif.d_wmask h aligned hv

  abbrev pub store_line : Line
  store_line =
      stores (inst_str iif.pc iif.ir) (iif.d_addr / 2 ^ 2) (read_4b stored primary iif.d_addr)

  -- For a memory of the program's size, a valid store of 32 bits to a word address below 2 ^ 32 is
  -- logged with the word that the primary core reads there once it has stored: the line is the same
  -- whether the log reads the memory before or after the store.
  pub get_log-store :
      (get_log (log_info unset iif (some m)) ≡ store_line)
      × (get_log (log_info unset iif (some stored)) ≡ store_line)
  get_log-store = (
    log-store unset iif m valid st
        ∙ ap line (
            ap merged (word_of-read m s iif.d_addr iif.d_wdata iif.d_wmask h aligned hv m s)
            ∙ sym (read-after m s iif.d_addr iif.d_wdata iif.d_wmask h aligned hv)),
    log-store unset iif stored valid st
        ∙ ap line (
            ap merged (
              word_of-read m s iif.d_addr iif.d_wdata iif.d_wmask h aligned hv stored
                (after-IsSized m s iif.d_addr iif.d_wdata iif.d_wmask h aligned hv))
            ∙ merge_again m s iif.d_addr iif.d_wdata iif.d_wmask h aligned hv),
  )
    where
      line : ℕ → Line
      line w = stores (inst_str iif.pc iif.ir) (iif.d_addr / 2 ^ 2) w

      merged : ℕ → ℕ
      merged w = merge w iif.d_wdata (expand_wmask iif.d_wmask)
