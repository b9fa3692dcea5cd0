-- ===== src/Sim/SysCall/Table.antt =====
-- The table of file descriptors: the guest's descriptors and the host's behind them.
use veri_cross.Base.{
  ℕ, zero, suc, ◌+◌, ◌<◌, ◌∙◌, ◌≤◌, ◌≡◌, ◌⊎◌, inl, inr, refl, arith, Bool-cases, Option-cases,
  ==_iff, true, false,
}
use veri_cross.Base.{◌==◌, if◌then◌else◌, Option, none, some}
use veri_cross.Sim.Memory.Buffer.{WriteBuffer, lookup, insert, lookup-insert}
use veri_cross.Sim.SysCall.{SysCall, init, touch, fd_of, fd_at}

abbrev pub IsMissing : Option ℕ → Type 0
IsMissing none = Unit
IsMissing (some fd) = fd ≡ 0

-- The guest's standard descriptors stay those of the simulator, and a descriptor that `open` has
-- not given yet is unknown, or was asked for and has become 0.
pub record IsTable (fd_in fd_out fd_err : ℕ) (s : SysCall) : Type 0 where
  pub input : lookup 0 s.fd_map ≡ some fd_in
  pub output : lookup 1 s.fd_map ≡ some fd_out
  pub errors : lookup 2 s.fd_map ≡ some fd_err
  pub next : 3 ≤ s.fd_next
  pub free : (k : ℕ) → s.fd_next ≤ k → IsMissing (lookup k s.fd_map)

pub lookup-touch :
    (fds : WriteBuffer) (k j : ℕ)
    → lookup j (touch fds k) ≡ (if k == j then some (fd_of fds k) else lookup j fds)
unfolding touch fd_of
lookup-touch fds k j = elim (Option-cases (lookup k fds)) [
  | inl e ↦ rw (touch, fd_of, e) (lookup-insert k j 0 fds)
  | inr (fd, e) ↦ rw (touch, fd_of, e) (found fd e (Bool-cases (k == j)))
]
  where
    found :
        (fd : ℕ)
        → lookup k fds ≡ some fd
        → ((k == j) ≡ true) ⊎ ((k == j) ≡ false)
        → lookup j fds ≡ (if k == j then some fd else lookup j fds)
    found fd e (inl q) = rw q (rw⁻¹ ((==_iff k j).0 q) e)
    found fd e (inr q) = rw q

pub fd_of-lookup : (fds : WriteBuffer) (k v : ℕ) → lookup k fds ≡ some v → fd_of fds k ≡ v
unfolding fd_of
fd_of-lookup fds k v e = rw (fd_of, e)

fd_of-missing : (fds : WriteBuffer) (k : ℕ) → IsMissing (lookup k fds) → fd_of fds k ≡ 0
unfolding fd_of
fd_of-missing fds k h = elim (Option-cases (lookup k fds)) [
  | inl e ↦ rw (fd_of, e)
  | inr (fd, e) ↦ rw (fd_of, e) (rw e at h)
]

pub fd_of-insert :
    (fds : WriteBuffer) (k v j : ℕ) → fd_of (insert k v fds) j ≡ (if k == j then v else fd_of fds j)
unfolding fd_of
fd_of-insert fds k v j = elim (Bool-cases (k == j)) [
  | inl e ↦ rw e (fd_of-lookup (insert k v fds) j v (lookup-insert k j v fds ∙ rw e))
  | inr e ↦ rw (fd_of, lookup-insert k j v fds, e)
]

-- The descriptors that `close` does not pass on.
pub fd_of-standard :
    (s : SysCall) (a : ℕ) → IsTable 0 1 2 s → (a < 3) ⊎ (s.fd_next ≤ a) → fd_of s.fd_map a < 3
fd_of-standard s a t (inr free) = omega (arith, fd_of-missing s.fd_map a (t.free a free))
fd_of-standard s zero t (inl h) = omega (arith, fd_of-lookup s.fd_map 0 0 t.input)
fd_of-standard s (suc zero) t (inl h) = omega (arith, fd_of-lookup s.fd_map 1 1 t.output)
fd_of-standard s (suc (suc zero)) t (inl h) = omega (arith, fd_of-lookup s.fd_map 2 2 t.errors)
fd_of-standard s (suc (suc (suc a))) t (inl h) = absurd (omega arith)

module _ (fd_in fd_out fd_err : ℕ) where
  pub init-IsTable : (brk : ℕ) → IsTable fd_in fd_out fd_err (init fd_in fd_out fd_err brk)
  unfolding init lookup insert
  init-IsTable brk = record {
    input = refl;
    output = refl;
    errors = refl;
    next = omega arith;
    free = λ k h. ground arith;
  }

  module _ (s : SysCall) (t : IsTable fd_in fd_out fd_err s) where
    pub fd_at-IsTable : (k : ℕ) → IsTable fd_in fd_out fd_err (fd_at s k).0
    unfolding fd_of
    fd_at-IsTable k = record {
      input = ground (arith, lookup-touch s.fd_map k 0, t.input);
      output = ground (arith, lookup-touch s.fd_map k 1, t.output);
      errors = ground (arith, lookup-touch s.fd_map k 2, t.errors);
      next = t.next;
      free = λ j h. ground (arith, lookup-touch s.fd_map k j, t.free j h);
    }

    pub open-IsTable :
        (fd : ℕ)
        → IsTable fd_in fd_out fd_err
            (record s { fd_map = insert s.fd_next fd s.fd_map; fd_next = s.fd_next + 1 })
    open-IsTable fd = record {
      input = ground (arith, lookup-insert s.fd_next 0 fd s.fd_map, t.input, t.next);
      output = ground (arith, lookup-insert s.fd_next 1 fd s.fd_map, t.output, t.next);
      errors = ground (arith, lookup-insert s.fd_next 2 fd s.fd_map, t.errors, t.next);
      next = ground (arith, t.next);
      free = λ j h. ground (arith, lookup-insert s.fd_next j fd s.fd_map, t.free j (ground arith));
    }
