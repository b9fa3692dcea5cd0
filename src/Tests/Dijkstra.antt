-- ===== src/Tests/Dijkstra.antt =====
-- The search on a matrix with one edge.
use veri_cross.Base.{ℕ, ◌<◌, ◌≡◌, ◌≢◌, ◌⊎◌, inl, refl, arith, ◌==◌, ◌&&◌, if◌then◌else◌, []}
use veri_cross.Bench.Dijkstra.{
  no_cost, num_nodes, QItem, Search, qcount, rounds, begin_search, enqueue, dequeue, round,
  relax_from, relax,
}
use veri_cross.Bench.Dijkstra.Walks.{Walk, here, edge, IsSound}
use veri_cross.Bench.Dijkstra.Laws.{search-IsSound}
use veri_cross.Bench.Dijkstra.Shortest.{IsShortest, search-IsShortest}

-- An edge of cost 5 from node 0 to node 1.
abbrev one_edge : ℕ → ℕ → ℕ
one_edge u v = if u == 0 && v == 1 then 5 else no_cost

abbrev empty_search : Search
empty_search = record {
  q_head = [];
  g_q_count = 0;
  rgn_nodes = λ _. record { i_dist = 0; i_prev = 0 };
}

abbrev no_item : QItem
no_item = record { i_node = 0; i_dist = 0; i_prev = 0 }

walks : (v d : ℕ) → Walk one_edge 0 v d → ((v ≡ 0) × (d ≡ 0)) ⊎ ((v ≡ 1) × (d ≡ 5))
walks _ _ here = inl (refl, refl)
walks _ _ (edge u v d w c) = ground (arith, walks u d w, c)

apart : (v d : ℕ) → Walk one_edge 0 v d → d ≢ no_cost
apart v d w = ground (arith, walks v d w)

inside : (u v : ℕ) → one_edge u v ≢ no_cost → v < num_nodes
inside u v c = ground (arith, c)

search-IsSound_example :
    IsSound one_edge 0 (rounds one_edge 2 (begin_search 0 empty_search, no_item)).0
search-IsSound_example = search-IsSound one_edge 0 2 empty_search no_item refl refl

search-IsShortest_example :
    (n : ℕ) × (qcount (rounds one_edge n (begin_search 0 empty_search, no_item)).0 ≡ 0)
    × IsShortest one_edge 0 (rounds one_edge n (begin_search 0 empty_search, no_item)).0
search-IsShortest_example = search-IsShortest one_edge 0 empty_search no_item refl refl inside apart

-- Two rounds find node 1 at a cost of 5 and empty the queue.
two_rounds :
    (((rounds one_edge 2 (begin_search 0 empty_search, no_item)).0.rgn_nodes 1).i_dist ≡ 5)
    × (qcount (rounds one_edge 2 (begin_search 0 empty_search, no_item)).0 ≡ 0)
unfolding rounds begin_search enqueue dequeue round relax_from relax qcount
two_rounds = (refl, refl)
