-- ===== src/Bench/Dijkstra/Measure.antt =====
-- How far a search is from its end: the nodes to find, the distances to lower, the queue.
use veri_cross.Base.{ℕ, zero, suc, ◌+◌, ◌<◌, ◌≤◌, ◌≡◌, ◌≢◌, inl, inr, sym, refl, ap, length, arith}
use veri_cross.Base.{◌==◌, ==_iff, if◌then◌else◌, Bool-cases}
use veri_cross.Bench.Dijkstra.{no_cost, num_nodes, Node, Search, set_node}

-- The nodes that are not found, and the sum of the distances of the others.
pub unfound : ℕ → (ℕ → Node) → ℕ
unfound zero nodes = 0
unfound (suc k) nodes = unfound k nodes + (if (nodes k).i_dist == no_cost then 1 else 0)

pub total : ℕ → (ℕ → Node) → ℕ
total zero nodes = 0
total (suc k) nodes = total k nodes + (if (nodes k).i_dist == no_cost then 0 else (nodes k).i_dist)

module _ (i : ℕ) (n : Node) (nodes : ℕ → Node) (found : n.i_dist ≢ no_cost) where
  beyond :
      (k : ℕ)
      → k ≤ i
      → (unfound k (set_node i n nodes) ≡ unfound k nodes)
        × (total k (set_node i n nodes) ≡ total k nodes)
  unfolding unfound total
  beyond zero h = (refl, refl)
  beyond (suc k) h = let b = beyond k (omega arith) in (ground (arith, b.0), ground (arith, b.1))

  at_index : (k : ℕ) → i ≡ k → (nodes k).i_dist ≡ (nodes i).i_dist
  at_index k e = ap (λ (j : ℕ). (nodes j).i_dist) (sym e)

  pub newly :
      (k : ℕ)
      → i < k
      → (nodes i).i_dist ≡ no_cost
      → unfound k (set_node i n nodes) < unfound k nodes
  unfolding unfound
  newly zero h e = absurd (omega arith)
  newly (suc k) h e = elim (Bool-cases (i == k)) [
    | inl q ↦ rw q (ground (arith, (beyond k (ground arith)).0, at_index k ((==_iff i k).0 q)))
    | inr q ↦ rw q (ground (arith, newly k (ground arith) e))
  ]

  pub lower :
      (k : ℕ)
      → i < k
      → (nodes i).i_dist ≢ no_cost
      → n.i_dist < (nodes i).i_dist
      → (unfound k (set_node i n nodes) ≡ unfound k nodes)
        × (total k (set_node i n nodes) < total k nodes)
  unfolding unfound total
  lower zero h e l = absurd (omega arith)
  lower (suc k) h e l = elim (Bool-cases (i == k)) [
    | inl q ↦
        let b = beyond k (ground arith) in
        let same = at_index k ((==_iff i k).0 q) in
        rw q (ground (arith, b.0, same), ground (arith, b.1, same))
    | inr q ↦ let r = lower k (ground arith) e l in rw q (ground (arith, r.0), ground (arith, r.1))
  ]

-- A search has come closer to its end: it has found a node, or lowered a distance, or else it
-- has found and lowered nothing and its queue is as it was.
pub data Closer (s : Search) (s' : Search) : Type 0 where
  finds : unfound num_nodes s'.rgn_nodes < unfound num_nodes s.rgn_nodes → Closer s s'
  lowers :
      unfound num_nodes s'.rgn_nodes ≡ unfound num_nodes s.rgn_nodes
      → total num_nodes s'.rgn_nodes < total num_nodes s.rgn_nodes
      → Closer s s'
  stays :
      unfound num_nodes s'.rgn_nodes ≡ unfound num_nodes s.rgn_nodes
      → total num_nodes s'.rgn_nodes ≡ total num_nodes s.rgn_nodes
      → length s'.q_head ≡ length s.q_head
      → Closer s s'

pub Closer-trans : (s t u : Search) → Closer s t → Closer t u → Closer s u
Closer-trans s t u (finds a) (finds b) = finds (omega arith)
Closer-trans s t u (finds a) (lowers b c) = finds (omega arith)
Closer-trans s t u (finds a) (stays b c d) = finds (omega arith)
Closer-trans s t u (lowers a a') (finds b) = finds (omega arith)
Closer-trans s t u (lowers a a') (lowers b c) = lowers (omega arith) (omega arith)
Closer-trans s t u (lowers a a') (stays b c d) = lowers (omega arith) (omega arith)
Closer-trans s t u (stays a a' a'') (finds b) = finds (omega arith)
Closer-trans s t u (stays a a' a'') (lowers b c) = lowers (omega arith) (omega arith)
Closer-trans s t u (stays a a' a'') (stays b c d) = stays (omega arith) (omega arith) (omega arith)
