-- ===== src/Bench/Dijkstra.antt =====
-- benchmark/source/dijkstra: the queue and the search. The two programs there differ in how many
-- searches `main` starts. A cost is a number that is not negative, small enough that no sum
-- leaves `int`; the globals of the search are its state.
pub mod Walks
pub mod Laws
mod Measure
mod Ends
pub mod Relaxing
pub mod Shortest
use veri_cross.Base.{ℕ, zero, suc, ◌+◌, ◌-◌, ◌==◌, ltb, ◌||◌, if◌then◌else◌, List, [], ◌∷◌, ◌++◌}

abbrev pub num_nodes : ℕ
num_nodes = 100

abbrev pub no_cost : ℕ
no_cost = 9999

pub record Node : Type 0 where
  pub i_dist : ℕ
  pub i_prev : ℕ

pub record QItem : Type 0 where
  pub i_node : ℕ
  pub i_dist : ℕ
  pub i_prev : ℕ

pub record Search : Type 0 where
  pub q_head : List QItem
  pub g_q_count : ℕ
  pub rgn_nodes : ℕ → Node

-- The walk to the last item and the link behind it.
unfoldable pub enqueue : QItem → Search → Search
enqueue item s = record s { q_head = s.q_head ++ item ∷ []; g_q_count = s.g_q_count + 1 }

-- `dequeue` leaves the three variables as they are if there is no item.
unfoldable pub dequeue : QItem → Search → Search × QItem
dequeue item s = elim s.q_head [
  | [] ↦ (s, item)
  | q ∷ rest ↦ (record s { q_head = rest; g_q_count = s.g_q_count - 1 }, q)
]

unfoldable pub qcount : Search → ℕ
qcount s = s.g_q_count

abbrev pub set_node : ℕ → Node → (ℕ → Node) → ℕ → Node
set_node i n nodes j = if i == j then n else nodes j

-- The body of the loop over the neighbours of the item's node.
unfoldable pub relax : (ℕ → ℕ → ℕ) → QItem → ℕ → Search → Search
relax adj item i s =
    let cost = adj item.i_node i in
    if cost == no_cost
    then s
    else if (s.rgn_nodes i).i_dist == no_cost || ltb (cost + item.i_dist) (s.rgn_nodes i).i_dist
    then enqueue (record { i_node = i; i_dist = item.i_dist + cost; i_prev = item.i_node })
        (record s {
          rgn_nodes =
              set_node i (record { i_dist = item.i_dist + cost; i_prev = item.i_node }) s.rgn_nodes;
        })
    else s

-- The loop from `i` on, with `left` rounds to go.
unfoldable pub relax_from : (ℕ → ℕ → ℕ) → QItem → ℕ → ℕ → Search → Search
relax_from adj item zero i s = s
relax_from adj item (suc left) i s = relax_from adj item left (i + 1) (relax adj item i s)

-- The body of `while (qcount() > 0)`, with the values that the variables had before.
unfoldable pub round : (ℕ → ℕ → ℕ) → Search × QItem → Search × QItem
round adj (s, item) =
    let (s', item') = dequeue item s in (relax_from adj item' num_nodes 0 s', item')

-- The first `n` rounds of the loop.
unfoldable pub rounds : (ℕ → ℕ → ℕ) → ℕ → Search × QItem → Search × QItem
rounds adj zero st = st
rounds adj (suc n) st = if qcount st.0 == 0 then st else rounds adj n (round adj st)

-- `dijkstra` up to its loop, for different ends.
unfoldable pub begin_search : ℕ → Search → Search
begin_search ch_start s =
    let cleared = record s { rgn_nodes = λ _. record { i_dist = no_cost; i_prev = no_cost } } in
    enqueue (record { i_node = ch_start; i_dist = 0; i_prev = no_cost })
      (record cleared {
        rgn_nodes = set_node ch_start (record { i_dist = 0; i_prev = no_cost }) cleared.rgn_nodes;
      })
