-- ===== src/Topo/Samples.antt =====
-- Small graphs in order.
use pidag.Base.{ℕ, ◌≤◌, ◌≡◌, refl, true, none, List, [], ◌∷◌, arith, if◌then◌else◌}
use pidag.Text.{Text, codes, same, contains, distinct}
use pidag.Map.{lookup, insert}
use pidag.Error.{ok, err, cycle}
use pidag.Dag.{Node, Dag, node_ids}
use pidag.Loop.Build.{collect, bump, bump_times, add_degrees, initial_degrees}
use pidag.Loop.Count.{count}
use pidag.Loop.Index.{gathered}
use pidag.Topo.{
  push_entries, add_adjacent, adjacency, unblocked, lower_all, sort_from, sorted_ids, topo_sort,
  ready_nodes,
}
use pidag.Topo.Ordered.{deps_of}
use pidag.Topo.Sorted.{topo_sort-order, topo_sort-permutes}
use pidag.Topo.Complete.{IsDescending, topo_sort_complete}

abbrev node : Text → List Text → Node
node id depends_on = record {
  id = id;
  prompt = codes "p";
  depends_on = depends_on;
  models = [];
  retry = record { attempts = 1; backoff_ms = 0 };
  validate = none;
  node_type = none;
  gate = none;
  timeout = none;
  mcp_call = none;
  after = [];
  verify = none;
  verify_pre = none;
  for_each = none;
  quorum = none;
}

-- `b` waits for `a`, and `c` for both.
abbrev triangle : Dag
triangle = record {
  nodes =
      node (codes "c") (codes "a" ∷ codes "b" ∷ [])
      ∷ node (codes "b") (codes "a" ∷ [])
      ∷ node (codes "a") []
      ∷ [];
  metadata = none;
}

-- `a` and `b` wait for each other.
abbrev circle : Dag
circle = record {
  nodes = node (codes "a") (codes "b" ∷ []) ∷ node (codes "b") (codes "a" ∷ []) ∷ [];
  metadata = none;
}

abbrev in_order : List Text
in_order = codes "a" ∷ codes "b" ∷ codes "c" ∷ []

triangle_sorts : topo_sort triangle ≡ ok in_order
unfolding topo_sort sorted_ids sort_from lower_all unblocked adjacency add_adjacent push_entries
    initial_degrees add_degrees bump_times bump collect lookup insert same
triangle_sorts = refl

circle_refused : topo_sort circle ≡ err cycle
unfolding topo_sort sorted_ids sort_from lower_all unblocked adjacency add_adjacent push_entries
    initial_degrees add_degrees bump_times bump collect lookup insert same
circle_refused = refl

triangle_ready : ready_nodes triangle ≡ ok (codes "a" ∷ [])
unfolding ready_nodes unblocked initial_degrees add_degrees bump_times bump collect lookup insert
    same
triangle_ready = refl

triangle_needs : contains (deps_of triangle (codes "c")) (codes "b") ≡ true
unfolding contains gathered same
triangle_needs = refl

topo_sort-order_example : contains (codes "a" ∷ codes "b" ∷ []) (codes "b") ≡ true
topo_sort-order_example =
    topo_sort-order triangle in_order (codes "a" ∷ codes "b" ∷ []) [] (codes "c") (codes "b")
      triangle_sorts refl triangle_needs

topo_sort-permutes_example :
    (count (codes "a") in_order ≡ count (codes "a") (node_ids triangle.nodes))
    × (count (codes "a") in_order ≤ 1)
topo_sort-permutes_example = topo_sort-permutes triangle in_order (codes "a") triangle_sorts

unfoldable rank : Text → ℕ
rank s = if same s (codes "a") then 0 else if same s (codes "b") then 1 else 2

triangle-IsDescending : IsDescending rank triangle.nodes
unfolding rank same contains
triangle-IsDescending = ground arith

triangle_distinct : distinct (node_ids triangle.nodes) ≡ true
unfolding distinct contains same
triangle_distinct = refl

topo_sort_complete_example : topo_sort triangle ≡ ok (sorted_ids triangle)
topo_sort_complete_example =
    topo_sort_complete rank triangle triangle-IsDescending triangle_distinct
