-- ===== src/Bench/Dijkstra/Laws.antt =====
-- The search keeps its state sound.
use veri_cross.Base.{
  ℕ, zero, suc, ◌+◌, ◌≡◌, ◌≢◌, inl, inr, List, [], ◌∷◌, ◌++◌, subst, sym, refl, ap, ◌∙◌, length,
  arith,
}
use veri_cross.Base.{◌==◌, ==_iff, ltb, ◌||◌, false, Bool-cases}
use veri_cross.Bench.Dijkstra.{
  no_cost, num_nodes, Node, QItem, Search, enqueue, dequeue, qcount, set_node, relax, relax_from,
  round, rounds, begin_search,
}
use veri_cross.Bench.Dijkstra.Walks.{Walk, here, edge, Found, AllWalks, AllWalks-append, IsSound}

pub length-append : (qs : List QItem) (q : QItem) → length (qs ++ q ∷ []) ≡ length qs + 1
length-append [] q = refl
length-append (p ∷ qs) q = omega (arith, length-append qs q)

module _ (adj : ℕ → ℕ → ℕ) (start : ℕ) where
  enqueue-IsSound :
      (q : QItem) (s : Search)
      → IsSound adj start s
      → Walk adj start q.i_node q.i_dist
      → IsSound adj start (enqueue q s)
  unfolding enqueue
  enqueue-IsSound q s h w = record {
    count = omega (arith, h.count, length-append s.q_head q);
    queue = AllWalks-append adj start s.q_head q h.queue w;
    nodes = h.nodes;
  }

  set_node-Found :
      (i : ℕ) (n : Node) (s : Search)
      → IsSound adj start s
      → Found adj start i n
      → IsSound adj start (record s { rgn_nodes = set_node i n s.rgn_nodes })
  set_node-Found i n s h f = record {
    count = h.count;
    queue = h.queue;
    nodes = λ j ne. elim (Bool-cases (i == j)) [
      | inl e ↦ rw e (subst (λ k. Found adj start k n) ((==_iff i j).0 e) f)
      | inr e ↦ rw e (h.nodes j (rw e at ne))
    ];
  }

  pub relax-IsSound :
      (item : QItem) (i : ℕ) (s : Search)
      → Walk adj start item.i_node item.i_dist
      → IsSound adj start s
      → IsSound adj start (relax adj item i s)
  unfolding relax
  relax-IsSound item i s w h = elim (Bool-cases (adj item.i_node i == no_cost)) [
    | inl e ↦ rw e h
    | inr e ↦
        elim (Bool-cases (
          (s.rgn_nodes i).i_dist == no_cost
          || ltb (adj item.i_node i + item.i_dist) (s.rgn_nodes i).i_dist)) [
            | inl f ↦ rw (e, f) (improved (is_edge e))
            | inr f ↦ rw (e, f) h
          ]
  ]
    where
      is_edge : (adj item.i_node i == no_cost) ≡ false → adj item.i_node i ≢ no_cost
      is_edge e = ground arith

      improved :
          adj item.i_node i ≢ no_cost
          → IsSound adj start (
              enqueue
                (record {
                  i_node = i;
                  i_dist = item.i_dist + adj item.i_node i;
                  i_prev = item.i_node;
                })
                (record s {
                  rgn_nodes =
                      set_node i
                        (record { i_dist = item.i_dist + adj item.i_node i; i_prev = item.i_node })
                        s.rgn_nodes;
                }))
      improved ne =
          enqueue-IsSound
            (record { i_node = i; i_dist = item.i_dist + adj item.i_node i; i_prev = item.i_node })
            (record s {
              rgn_nodes =
                  set_node i
                    (record { i_dist = item.i_dist + adj item.i_node i; i_prev = item.i_node })
                    s.rgn_nodes;
            })
            (set_node-Found i
              (record { i_dist = item.i_dist + adj item.i_node i; i_prev = item.i_node }) s h
              (inr (item.i_dist, w, ne, refl)))
            (edge item.i_node i item.i_dist w ne)

  pub relax_from-IsSound :
      (item : QItem) (left i : ℕ) (s : Search)
      → Walk adj start item.i_node item.i_dist
      → IsSound adj start s
      → IsSound adj start (relax_from adj item left i s)
  unfolding relax_from
  relax_from-IsSound item zero i s w h = h
  relax_from-IsSound item (suc left) i s w h =
      relax_from-IsSound item left (i + 1) (relax adj item i s) w (relax-IsSound item i s w h)

  pub dequeue-IsSound :
      (s : Search) (item : QItem)
      → qcount s ≢ 0
      → IsSound adj start s
      → IsSound adj start (dequeue item s).0
        × Walk adj start (dequeue item s).1.i_node (dequeue item s).1.i_dist
  unfolding dequeue qcount
  dequeue-IsSound s item ne h = from s.q_head refl
    where
      from :
          (qs : List QItem)
          → s.q_head ≡ qs
          → IsSound adj start (dequeue item s).0
            × Walk adj start (dequeue item s).1.i_node (dequeue item s).1.i_dist
      from [] e = absurd (ne (h.count ∙ ap length e))
      from (q ∷ qs) e =
          let queue : AllWalks adj start (q ∷ qs) = subst (AllWalks adj start) e h.queue in
          rw e (
            record {
              count = omega (arith, h.count, ap length e);
              queue = queue.1;
              nodes = h.nodes;
            },
            queue.0,
          )

  pub round-IsSound :
      (s : Search) (item : QItem)
      → qcount s ≢ 0
      → IsSound adj start s
      → IsSound adj start (round adj (s, item)).0
  unfolding round
  round-IsSound s item ne h =
      let (h', w) = dequeue-IsSound s item ne h in
      relax_from-IsSound (dequeue item s).1 num_nodes 0 (dequeue item s).0 w h'

  pub rounds-IsSound :
      (n : ℕ) (s : Search) (item : QItem)
      → IsSound adj start s
      → IsSound adj start (rounds adj n (s, item)).0
  unfolding rounds
  rounds-IsSound zero s item h = h
  rounds-IsSound (suc n) s item h = elim (Bool-cases (qcount s == 0)) [
    | inl e ↦ rw e h
    | inr e ↦ rw e (
        rounds-IsSound n (round adj (s, item)).0 (round adj (s, item)).1
          (round-IsSound s item (not_empty e) h))
  ]
    where
      not_empty : (qcount s == 0) ≡ false → qcount s ≢ 0
      not_empty e = ground arith

  pub begin_search-IsSound :
      (s : Search) → s.q_head ≡ [] → s.g_q_count ≡ 0 → IsSound adj start (begin_search start s)
  unfolding begin_search
  begin_search-IsSound s e z =
      enqueue-IsSound (record { i_node = start; i_dist = 0; i_prev = no_cost })
        (record s {
          rgn_nodes =
              set_node start (record { i_dist = 0; i_prev = no_cost })
                (λ _. record { i_dist = no_cost; i_prev = no_cost });
        })
        (set_node-Found start (record { i_dist = 0; i_prev = no_cost })
          (record s { rgn_nodes = λ _. record { i_dist = no_cost; i_prev = no_cost } })
          (record {
            count = z ∙ sym (ap length e);
            queue = subst (AllWalks adj start) (sym e) tt;
            nodes = λ i ne. absurd (ne refl);
          })
          (inl (refl, refl)))
        here

-- From an empty queue, after any number of rounds of the search, the count is the length of the
-- queue, every queued item and every distance other than 9999 is the cost of a walk from the
-- start, and each such distance but the start's is that of a walk to the predecessor and an edge.
pub search-IsSound :
    (adj : ℕ → ℕ → ℕ) (start n : ℕ) (s : Search) (item : QItem)
    → s.q_head ≡ []
    → s.g_q_count ≡ 0
    → IsSound adj start (rounds adj n (begin_search start s, item)).0
search-IsSound adj start n s item e z =
    rounds-IsSound adj start n (begin_search start s) item (begin_search-IsSound adj start s e z)
