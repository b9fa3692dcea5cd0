-- ===== src/Bench/Dijkstra/Ends.antt =====
-- The search ends: each entry either finds a node or lowers a distance.
use veri_cross.Base.{
  ℕ, zero, suc, ◌+◌, ◌<◌, ◌≤◌, ◌≡◌, ◌≢◌, inl, inr, List, [], ◌∷◌, refl, ap, ◌∙◌, length, arith,
}
use veri_cross.Base.{◌==◌, ==_iff, ltb, false, Bool-cases}
use veri_cross.Bench.Dijkstra.{
  no_cost, num_nodes, Node, QItem, Search, enqueue, dequeue, qcount, relax, relax_from, round,
  rounds,
}
use veri_cross.Bench.Dijkstra.Measure.{
  unfound, total, newly, lower, Closer, finds, lowers, stays, Closer-trans,
}
use veri_cross.Bench.Dijkstra.Walks.{Walk, edge, IsSound}
use veri_cross.Bench.Dijkstra.Laws.{dequeue-IsSound, round-IsSound}

module _ (adj : ℕ → ℕ → ℕ) (start : ℕ) (apart : (v d : ℕ) → Walk adj start v d → d ≢ no_cost) where
  relax-Closer :
      (item : QItem) (i : ℕ) (s : Search)
      → i < num_nodes
      → Walk adj start item.i_node item.i_dist
      → Closer s (relax adj item i s)
  unfolding relax enqueue
  relax-Closer item i s lt w = elim (Bool-cases (adj item.i_node i == no_cost)) [
    | inl e ↦ rw e (stays refl refl refl)
    | inr e ↦ elim (Bool-cases ((s.rgn_nodes i).i_dist == no_cost)) [
      | inl f ↦
          rw (e, f)
            (finds (newly i new s.rgn_nodes (fresh (is_edge e)) num_nodes lt ((==_iff _ _).0 f)))
      | inr f ↦ elim (Bool-cases (ltb (adj item.i_node i + item.i_dist) (s.rgn_nodes i).i_dist)) [
        | inl g ↦
            let r =
              lower i new s.rgn_nodes (fresh (is_edge e)) num_nodes lt (ground arith)
                (ground arith) in
            rw (e, f, g) (lowers r.0 r.1)
        | inr g ↦ rw (e, f, g) (stays refl refl refl)
      ]
    ]
  ]
    where
      new : Node
      new = record { i_dist = item.i_dist + adj item.i_node i; i_prev = item.i_node }

      is_edge : (adj item.i_node i == no_cost) ≡ false → adj item.i_node i ≢ no_cost
      is_edge e = ground arith

      fresh : adj item.i_node i ≢ no_cost → item.i_dist + adj item.i_node i ≢ no_cost
      fresh ne = apart i (item.i_dist + adj item.i_node i) (edge item.i_node i item.i_dist w ne)

  relax_from-Closer :
      (item : QItem) (left i : ℕ) (s : Search)
      → i + left ≤ num_nodes
      → Walk adj start item.i_node item.i_dist
      → Closer s (relax_from adj item left i s)
  unfolding relax_from
  relax_from-Closer item zero i s le w = stays refl refl refl
  relax_from-Closer item (suc left) i s le w =
      Closer-trans s (relax adj item i s) (relax_from adj item left (i + 1) (relax adj item i s))
        (relax-Closer item i s (omega arith) w)
        (relax_from-Closer item left (i + 1) (relax adj item i s) (omega arith) w)

  abbrev Ends : Search → QItem → Type 0
  Ends s item = (n : ℕ) × (qcount (rounds adj n (s, item)).0 ≡ 0)

  Ends-round :
      (s : Search) (item : QItem)
      → qcount s ≢ 0
      → Ends (round adj (s, item)).0 (round adj (s, item)).1
      → Ends s item
  unfolding rounds
  Ends-round s item ne (n, e) = (suc n, rw (not_empty ne) e)
    where
      not_empty : qcount s ≢ 0 → (qcount s == 0) ≡ false
      not_empty ne = ground arith

  dequeue-shorter :
      (s : Search) (item : QItem)
      → qcount s ≢ 0
      → IsSound adj start s
      → (length (dequeue item s).0.q_head < length s.q_head)
        × ((dequeue item s).0.rgn_nodes ≡ s.rgn_nodes)
  unfolding dequeue qcount
  dequeue-shorter s item ne h = from s.q_head refl
    where
      from :
          (qs : List QItem)
          → s.q_head ≡ qs
          → (length (dequeue item s).0.q_head < length s.q_head)
            × ((dequeue item s).0.rgn_nodes ≡ s.rgn_nodes)
      from [] e = absurd (ne (h.count ∙ ap length e))
      from (q ∷ qs) e = rw e (omega arith, refl)

  -- One case of the induction, for bounds on the three measures.
  by_measure :
      (a b c : ℕ)
      → ((t : Search) (item : QItem)
          → IsSound adj start t
          → unfound num_nodes t.rgn_nodes < a
          → Ends t item)
      → ((t : Search) (item : QItem)
          → IsSound adj start t
          → unfound num_nodes t.rgn_nodes ≤ a
          → total num_nodes t.rgn_nodes < b
          → Ends t item)
      → ((t : Search) (item : QItem)
          → IsSound adj start t
          → unfound num_nodes t.rgn_nodes ≤ a
          → total num_nodes t.rgn_nodes ≤ b
          → length t.q_head < c
          → Ends t item)
      → (s : Search) (item : QItem) → IsSound adj start s
      → unfound num_nodes s.rgn_nodes ≤ a
      → total num_nodes s.rgn_nodes ≤ b
      → length s.q_head ≤ c
      → Ends s item
  unfolding round
  by_measure a b c ha hb hc s item h la lb lc = elim (Bool-cases (qcount s == 0)) [
    | inl e ↦ (0, unfold rounds in (==_iff (qcount s) 0).0 e)
    | inr e ↦ Ends-round s item (not_empty e) (continued (not_empty e))
  ]
    where
      not_empty : (qcount s == 0) ≡ false → qcount s ≢ 0
      not_empty e = ground arith

      continued : qcount s ≢ 0 → Ends (round adj (s, item)).0 (round adj (s, item)).1
      continued ne =
          let (d, w) = dequeue-IsSound adj start s item ne h in
          let (shorter, kept) = dequeue-shorter s item ne h in
          let sound = round-IsSound adj start s item ne h in
          let un = ap (unfound num_nodes) kept in
          let to = ap (total num_nodes) kept in
          elim (relax_from-Closer (dequeue item s).1 num_nodes 0 (dequeue item s).0 (omega arith)
            w) [
              | finds x ↦
                  ha (round adj (s, item)).0 (round adj (s, item)).1 sound (omega (arith, un))
              | lowers x y ↦
                  hb (round adj (s, item)).0 (round adj (s, item)).1 sound (omega (arith, un))
                    (omega (arith, to))
              | stays x y z ↦
                  hc (round adj (s, item)).0 (round adj (s, item)).1 sound (omega (arith, un))
                    (omega (arith, to)) (omega arith)
            ]

  abbrev Bounded : ℕ → ℕ → ℕ → Type 0
  Bounded a b c =
      (s : Search) (item : QItem)
      → IsSound adj start s
      → unfound num_nodes s.rgn_nodes ≤ a
      → total num_nodes s.rgn_nodes ≤ b
      → length s.q_head ≤ c
      → Ends s item

  below_queue :
      (a b : ℕ)
      → ((t : Search) (item : QItem)
          → IsSound adj start t
          → unfound num_nodes t.rgn_nodes < a
          → Ends t item)
      → ((t : Search) (item : QItem)
          → IsSound adj start t
          → unfound num_nodes t.rgn_nodes ≤ a
          → total num_nodes t.rgn_nodes < b
          → Ends t item)
      → (c : ℕ) → Bounded a b c
  below_queue a b ha hb zero = by_measure a b 0 ha hb (λ t item h la lb lc. absurd (omega arith))
  below_queue a b ha hb (suc c) =
      by_measure a b (suc c) ha hb
        (λ t item h la lb lc. below_queue a b ha hb c t item h la lb (omega arith))

  below_total :
      (a : ℕ)
      → ((t : Search) (item : QItem)
          → IsSound adj start t
          → unfound num_nodes t.rgn_nodes < a
          → Ends t item)
      → (b c : ℕ) → Bounded a b c
  below_total a ha zero = below_queue a 0 ha (λ t item h la lb. absurd (omega arith))
  below_total a ha (suc b) = below_queue a (suc b) ha (λ t item h la lb.
      below_total a ha b (length t.q_head) t item h la (omega arith) (omega arith))

  below_unfound : (a b c : ℕ) → Bounded a b c
  below_unfound zero = below_total 0 (λ t item h la. absurd (omega arith))
  below_unfound (suc a) = below_total (suc a) (λ t item h la.
      below_unfound a (total num_nodes t.rgn_nodes) (length t.q_head) t item h (omega arith)
        (omega arith) (omega arith))

  pub sound-Ends : (s : Search) (item : QItem) → IsSound adj start s → Ends s item
  sound-Ends s item h =
      below_unfound (unfound num_nodes s.rgn_nodes) (total num_nodes s.rgn_nodes) (length s.q_head)
        s item h (omega arith) (omega arith) (omega arith)
