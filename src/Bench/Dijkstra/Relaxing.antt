-- ===== src/Bench/Dijkstra/Relaxing.antt =====
-- One relaxation: what it does to the distances, the queue and the edges of the node at hand.
use veri_cross.Base.{
  ℕ, ◌+◌, ◌<◌, ◌≤◌, ◌≡◌, ◌≢◌, ◌⊎◌, inl, inr, List, [], ◌∷◌, ◌++◌, subst, sym, refl, ap, ◌∙◌, arith,
}
use veri_cross.Base.{◌==◌, ==_iff, ==_refl, ltb, ◌||◌, false, Bool-cases}
use veri_cross.Bench.Dijkstra.{no_cost, num_nodes, QItem, Search, enqueue, relax}
use veri_cross.Bench.Dijkstra.Walks.{Walk, edge}

abbrev pub Queued : ℕ → ℕ → List QItem → Type 0
Queued u d [] = ⊥
Queued u d (q ∷ qs) = ((q.i_node ≡ u) × (q.i_dist ≡ d)) ⊎ Queued u d qs

Queued-append : (u d : ℕ) (qs : List QItem) (q : QItem) → Queued u d qs → Queued u d (qs ++ q ∷ [])
Queued-append u d [] q h = absurd h
Queued-append u d (p ∷ qs) q (inl h) = inl h
Queued-append u d (p ∷ qs) q (inr h) = inr (Queued-append u d qs q h)

pub Queued-last : (qs : List QItem) (q : QItem) → Queued q.i_node q.i_dist (qs ++ q ∷ [])
Queued-last [] q = inl (refl, refl)
Queued-last (p ∷ qs) q = inr (Queued-last qs q)

abbrev pub dist : Search → ℕ → ℕ
dist s u = (s.rgn_nodes u).i_dist

-- A node is found at a cost of at most `d`.
abbrev pub Within : Search → ℕ → ℕ → Type 0
Within s u d = (dist s u ≢ no_cost) × (dist s u ≤ d)

-- What one relaxation does to the distances and the queue.
pub record Relaxes (item : QItem) (cost i : ℕ) (s s' : Search) : Type 0 where
  pub lowers : (u : ℕ) → dist s u ≢ no_cost → Within s' u (dist s u)
  pub queues : (u : ℕ) → (dist s' u ≡ dist s u) ⊎ Queued u (dist s' u) s'.q_head
  pub keeps : (u d : ℕ) → Queued u d s.q_head → Queued u d s'.q_head
  pub reaches : cost ≢ no_cost → Within s' i (item.i_dist + cost)

module _ (adj : ℕ → ℕ → ℕ) (start : ℕ) (apart : (v d : ℕ) → Walk adj start v d → d ≢ no_cost) where
  pub relax-Relaxes :
      (item : QItem) (i : ℕ) (s : Search)
      → Walk adj start item.i_node item.i_dist
      → Relaxes item (adj item.i_node i) i s (relax adj item i s)
  unfolding relax enqueue
  relax-Relaxes item i s w = elim (Bool-cases (adj item.i_node i == no_cost)) [
    | inl e ↦ rw e (record {
      lowers = λ u h. (h, omega arith);
      queues = λ u. inl refl;
      keeps = λ u d h. h;
      reaches = λ ne. absurd (ne ((==_iff _ _).0 e));
    })
    | inr e ↦
        elim (Bool-cases (
          (s.rgn_nodes i).i_dist == no_cost
          || ltb (adj item.i_node i + item.i_dist) (s.rgn_nodes i).i_dist)) [
            | inl f ↦
                rw (e, f)
                  (record {
                    lowers = λ u h. elim (Bool-cases (i == u)) [
                      | inl g ↦
                          let same = ap (dist s) ((==_iff i u).0 g) in
                          rw (g, dist) (fresh (is_edge e), ground (arith, same))
                      | inr g ↦ rw (g, dist) (h, omega arith)
                    ];
                    queues = λ u. elim (Bool-cases (i == u)) [
                      | inl g ↦
                          rw (g, dist)
                            (inr (
                              subst
                                (λ k.
                                  Queued k (item.i_dist + adj item.i_node i)
                                    (s.q_head ++ new_item ∷ []))
                                ((==_iff i u).0 g) (Queued-last s.q_head new_item)))
                      | inr g ↦ rw (g, dist) (inl refl)
                    ];
                    keeps = λ u d h. Queued-append u d s.q_head new_item h;
                    reaches = λ ne. rw (==_refl i, dist) (fresh ne, omega arith);
                  })
            | inr f ↦
                rw (e, f)
                  (record {
                    lowers = λ u h. (h, omega arith);
                    queues = λ u. inl refl;
                    keeps = λ u d h. h;
                    reaches = λ ne. (ground arith, ground arith);
                  })
          ]
  ]
    where
      new_item : QItem
      new_item = record {
        i_node = i;
        i_dist = item.i_dist + adj item.i_node i;
        i_prev = item.i_node;
      }

      is_edge : (adj item.i_node i == no_cost) ≡ false → adj item.i_node i ≢ no_cost
      is_edge e = ground arith

      fresh : adj item.i_node i ≢ no_cost → item.i_dist + adj item.i_node i ≢ no_cost
      fresh ne = apart i (item.i_dist + adj item.i_node i) (edge item.i_node i item.i_dist w ne)

  -- An edge that is relaxed, or that leaves the node at hand and is still to come.
  unfoldable pub Edge : QItem → ℕ → Search → ℕ → ℕ → Type 0
  Edge item i s u j =
      Within s j (dist s u + adj u j) ⊎ ((u ≡ item.i_node) × (dist s u ≡ item.i_dist) × (i ≤ j))

  unfoldable pub Settling : QItem → ℕ → Search → Type 0
  Settling item i s =
      (u : ℕ)
      → dist s u ≢ no_cost
      → Queued u (dist s u) s.q_head
        ⊎ ((j : ℕ) → j < num_nodes → adj u j ≢ no_cost → Edge item i s u j)

  pub Settling-relax :
      (item : QItem) (i : ℕ) (s s' : Search)
      → Relaxes item (adj item.i_node i) i s s'
      → Settling item i s
      → Settling item (i + 1) s'
  unfolding Settling Edge
  Settling-relax item i s s' r h u ne = elim (r.queues u) [
    | inr q ↦ inl q
    | inl same ↦ elim (h u (λ z. ne (same ∙ z))) [
      | inl q ↦ inl (subst (λ d. Queued u d s'.q_head) (sym same) (r.keeps u (dist s u) q))
      | inr edges ↦ inr (λ j lt c. elim (edges j lt c) [
        | inl wi ↦ let lo = r.lowers j wi.0 in inl (lo.0, omega (arith, lo.1, wi.1, same))
        | inr (eu, ed, le) ↦ elim (Bool-cases (i == j)) [
          | inl g ↦ inl (arrived j same eu ed c ((==_iff i j).0 g))
          | inr g ↦ inr (eu, same ∙ ed, ground arith)
        ]
      ])
    ]
  ]
    where
      arrived :
          (j : ℕ)
          → dist s' u ≡ dist s u
          → u ≡ item.i_node
          → dist s u ≡ item.i_dist
          → adj u j ≢ no_cost
          → i ≡ j
          → Within s' j (dist s' u + adj u j)
      arrived j same eu ed c e =
          let a = ap (λ (k : ℕ). adj k j) eu in
          let b = ap (λ (k : ℕ). adj item.i_node k) e in
          let t = r.reaches (λ z. c (a ∙ sym b ∙ z)) in
          let t' : Within s' j (item.i_dist + adj item.i_node i) =
            subst (λ k. Within s' k (item.i_dist + adj item.i_node i)) e t in
          (t'.0, omega (arith, t'.1, a, b, same, ed))
