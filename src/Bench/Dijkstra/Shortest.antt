-- ===== src/Bench/Dijkstra/Shortest.antt =====
-- What the search has settled: a node that is found is queued, or all its edges are relaxed.
use veri_cross.Base.{
  ℕ, zero, suc, ◌+◌, ◌<◌, ◌≡◌, ◌≢◌, ◌⊎◌, inl, inr, List, [], ◌∷◌, ◌++◌, subst, sym, refl, ap, ◌∙◌,
  length, arith,
}
use veri_cross.Base.{◌==◌, ==_iff, ==_refl, false, Bool-cases}
use veri_cross.Bench.Dijkstra.{
  no_cost, num_nodes, QItem, Search, enqueue, dequeue, qcount, relax, relax_from, round, rounds,
  begin_search,
}
use veri_cross.Bench.Dijkstra.Walks.{Walk, here, edge, IsSound, Found-Walk}
use veri_cross.Bench.Dijkstra.Laws.{
  dequeue-IsSound, round-IsSound, rounds-IsSound, begin_search-IsSound,
}
use veri_cross.Bench.Dijkstra.Ends.{sound-Ends}
use veri_cross.Bench.Dijkstra.Relaxing.{
  Queued, Queued-last, dist, Within, relax-Relaxes, Edge, Settling, Settling-relax,
}

module _ (adj : ℕ → ℕ → ℕ) (start : ℕ) (apart : (v d : ℕ) → Walk adj start v d → d ≢ no_cost) where
  Settling-relax_from :
      (item : QItem) (left i : ℕ) (s : Search)
      → Walk adj start item.i_node item.i_dist
      → Settling adj start apart item i s
      → Settling adj start apart item (i + left) (relax_from adj item left i s)
  unfolding relax_from
  Settling-relax_from item zero i s w h =
      subst (λ k. Settling adj start apart item k s) (omega arith) h
  Settling-relax_from item (suc left) i s w h =
      subst
        (λ k.
          Settling adj start apart item k (relax_from adj item left (i + 1) (relax adj item i s)))
        (omega arith)
        (Settling-relax_from item left (i + 1) (relax adj item i s) w (
          Settling-relax adj start apart item i s (relax adj item i s)
            (relax-Relaxes adj start apart item i s w) h))

  -- Between two rounds: a node that is found is queued, or its edges are relaxed.
  Settled : Search → Type 0
  Settled s =
      Within s start 0
      × ((u : ℕ)
          → dist s u ≢ no_cost
          → Queued u (dist s u) s.q_head
            ⊎ ((j : ℕ) → j < num_nodes → adj u j ≢ no_cost → Within s j (dist s u + adj u j)))

  Settling-dequeue :
      (s : Search) (item : QItem)
      → qcount s ≢ 0
      → IsSound adj start s
      → Settled s
      → Settling adj start apart (dequeue item s).1 0 (dequeue item s).0
  unfolding dequeue qcount Settling Settled Edge
  Settling-dequeue s item ne h z = from s.q_head refl
    where
      from :
          (qs : List QItem)
          → s.q_head ≡ qs
          → Settling adj start apart (dequeue item s).1 0 (dequeue item s).0
      from [] e = absurd (ne (h.count ∙ ap length e))
      from (q ∷ qs) e = rw e (λ u found. elim (z.1 u found) [
        | inl m ↦ elim (subst (Queued u (dist s u)) e m) [
          | inl (eu, ed) ↦ inr (λ j lt c. inr (sym eu, sym ed, omega arith))
          | inr m' ↦ inl m'
        ]
        | inr r ↦ inr (λ j lt c. inl (r j lt c))
      ])

  Within-relax_from :
      (item : QItem) (left i : ℕ) (s : Search) (u d : ℕ)
      → Walk adj start item.i_node item.i_dist
      → Within s u d
      → Within (relax_from adj item left i s) u d
  unfolding relax_from
  Within-relax_from item zero i s u d w h = h
  Within-relax_from item (suc left) i s u d w h =
      let lo = (relax-Relaxes adj start apart item i s w).lowers u h.0 in
      Within-relax_from item left (i + 1) (relax adj item i s) u d w
        (lo.0, omega (arith, lo.1, h.1))

  Within-dequeue :
      (s : Search) (item : QItem) (u d : ℕ) → Within s u d → Within (dequeue item s).0 u d
  unfolding dequeue
  Within-dequeue s item u d h = from s.q_head refl
    where
      from : (qs : List QItem) → s.q_head ≡ qs → Within (dequeue item s).0 u d
      from [] e = rw e h
      from (q ∷ qs) e = rw e h

  Settled-round :
      (s : Search) (item : QItem)
      → qcount s ≢ 0
      → IsSound adj start s
      → Settled s
      → Settled (round adj (s, item)).0
  unfolding round Settled Settling Edge
  Settled-round s item ne h z =
      let (d, w) = dequeue-IsSound adj start s item ne h in
      (
        Within-relax_from (dequeue item s).1 num_nodes 0 (dequeue item s).0 start 0 w
            (Within-dequeue s item start 0 z.0),
        λ u found.
            elim (Settling-relax_from (dequeue item s).1 num_nodes 0 (dequeue item s).0 w
              (Settling-dequeue s item ne h z) u found) [
                | inl m ↦ inl m
                | inr r ↦ inr (λ j lt c. elim (r j lt c) [
                  | inl v ↦ v
                  | inr (eu, ed, le) ↦ absurd (omega arith)
                ])
              ],
      )

  Settled-rounds :
      (n : ℕ) (s : Search) (item : QItem)
      → IsSound adj start s
      → Settled s
      → Settled (rounds adj n (s, item)).0
  unfolding rounds
  Settled-rounds zero s item h z = z
  Settled-rounds (suc n) s item h z = elim (Bool-cases (qcount s == 0)) [
    | inl e ↦ rw e z
    | inr e ↦ rw e (
        Settled-rounds n (round adj (s, item)).0 (round adj (s, item)).1
          (round-IsSound adj start s item (not_empty e) h) (Settled-round s item (not_empty e) h z))
  ]
    where
      not_empty : (qcount s == 0) ≡ false → qcount s ≢ 0
      not_empty e = ground arith

  begin_search-Settled : (s : Search) → s.q_head ≡ [] → Settled (begin_search start s)
  unfolding begin_search enqueue Settled
  begin_search-Settled s e = (
    rw (==_refl start, dist) (ground arith, omega arith),
    λ u found. elim (Bool-cases (start == u)) [
      | inl g ↦ rw (g, dist) (inl (at_start u ((==_iff start u).0 g)))
      | inr g ↦ absurd ((rw (g, dist) at found) refl)
    ],
  )
    where
      at_start :
          (u : ℕ)
          → start ≡ u
          → Queued u 0 (s.q_head ++ record { i_node = start; i_dist = 0; i_prev = no_cost } ∷ [])
      at_start u g =
          subst
            (λ k.
              Queued k 0 (s.q_head ++ record { i_node = start; i_dist = 0; i_prev = no_cost } ∷ []))
            g (Queued-last s.q_head (record { i_node = start; i_dist = 0; i_prev = no_cost }))

  -- With an empty queue, no walk is cheaper than the distance.
  no_cheaper :
      (s : Search)
      → ((u v : ℕ) → adj u v ≢ no_cost → v < num_nodes)
      → s.q_head ≡ []
      → Settled s
      → (v d : ℕ) → Walk adj start v d
      → Within s v d
  unfolding Settled
  no_cheaper s inside e z _ _ here = z.0
  no_cheaper s inside e z _ _ (edge u v d w c) =
      let r = no_cheaper s inside e z u d w in
      elim (z.1 u r.0) [
        | inl m ↦ absurd (subst (Queued u (dist s u)) e m)
        | inr f ↦ let t = f v (inside u v c) c in (t.0, omega (arith, t.1, r.1))
      ]

-- What a search is to find: each distance that was entered is the cost of a walk from the
-- start, and each node with a walk has a distance, which is at most the cost of the walk.
pub record IsShortest (adj : ℕ → ℕ → ℕ) (start : ℕ) (s : Search) : Type 0 where
  pub attained : (v : ℕ) → dist s v ≢ no_cost → Walk adj start v (dist s v)
  pub least : (v d : ℕ) → Walk adj start v d → Within s v d

-- From an empty queue, if the edges of the matrix lead to its nodes and no walk from the start
-- costs exactly 9999, the search ends: after some number of rounds its queue is empty, and then
-- the distances are those of the shortest walks from the start.
pub search-IsShortest :
    (adj : ℕ → ℕ → ℕ) (start : ℕ) (s : Search) (item : QItem)
    → s.q_head ≡ []
    → s.g_q_count ≡ 0
    → ((u v : ℕ) → adj u v ≢ no_cost → v < num_nodes)
    → ((v d : ℕ) → Walk adj start v d → d ≢ no_cost)
    → (n : ℕ) × (qcount (rounds adj n (begin_search start s, item)).0 ≡ 0)
      × IsShortest adj start (rounds adj n (begin_search start s, item)).0
search-IsShortest adj start s item e z inside apart =
    let sound = begin_search-IsSound adj start s e z in
    let (n, empty) = sound-Ends adj start apart (begin_search start s) item sound in
    let last = rounds-IsSound adj start n (begin_search start s) item sound in
    (
      n,
      empty,
      record {
        attained = λ v found. Found-Walk adj start v _ (last.nodes v found);
        least =
            no_cheaper adj start apart (rounds adj n (begin_search start s, item)).0 inside
              (no_items _ (sym last.count ∙ unfold qcount in empty))
              (Settled-rounds adj start apart n (begin_search start s) item sound
                (begin_search-Settled adj start apart s e));
      },
    )
  where
    no_items : (qs : List QItem) → length qs ≡ 0 → qs ≡ []
    no_items [] h = refl
    no_items (q ∷ qs) h = absurd (omega arith)
