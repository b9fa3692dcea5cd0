-- ===== src/Bench/Dijkstra/Walks.antt =====
-- What the numbers of the search stand for: walks along the edges of the matrix.
use veri_cross.Base.{ℕ, ◌+◌, ◌≡◌, ◌≢◌, ◌⊎◌, inl, inr, List, [], ◌∷◌, ◌++◌, subst, sym, length}
use veri_cross.Bench.Dijkstra.{no_cost, Node, QItem, Search}

module _ (adj : ℕ → ℕ → ℕ) (start : ℕ) where
  -- A walk from the start to a node, with its cost.
  pub data Walk : ℕ → ℕ → Type 0 where
    here : Walk start 0
    edge : (u v d : ℕ) → Walk u d → adj u v ≢ no_cost → Walk v (d + adj u v)

  -- A distance that was entered: that of the start, or that of a walk by the predecessor.
  abbrev pub Found : ℕ → Node → Type 0
  Found i n =
      ((i ≡ start) × (n.i_dist ≡ 0))
      ⊎ ((d : ℕ) × Walk n.i_prev d × (adj n.i_prev i ≢ no_cost) × (n.i_dist ≡ d + adj n.i_prev i))

  pub Found-Walk : (i : ℕ) (n : Node) → Found i n → Walk i n.i_dist
  Found-Walk i n (inl (e, z)) = subst (λ x. Walk i x) (sym z) (subst (λ x. Walk x 0) (sym e) here)
  Found-Walk i n (inr (d, w, c, e)) = subst (λ x. Walk i x) (sym e) (edge n.i_prev i d w c)

  abbrev pub AllWalks : List QItem → Type 0
  AllWalks [] = Unit
  AllWalks (q ∷ qs) = Walk q.i_node q.i_dist × AllWalks qs

  pub AllWalks-append :
      (qs : List QItem) (q : QItem) → AllWalks qs → Walk q.i_node q.i_dist → AllWalks (qs ++ q ∷ [])
  AllWalks-append [] q h w = (w, tt)
  AllWalks-append (p ∷ qs) q h w = (h.0, AllWalks-append qs q h.1 w)

  -- The state of a search: the count is that of the queue, each queued item is a walk, and so
  -- is each distance that was entered, through its predecessor.
  pub record IsSound (s : Search) : Type 0 where
    pub count : s.g_q_count ≡ length s.q_head
    pub queue : AllWalks s.q_head
    pub nodes : (i : ℕ) → (s.rgn_nodes i).i_dist ≢ no_cost → Found i (s.rgn_nodes i)
