-- ===== src/Dag/Cycles.antt =====
-- `has_cycle` and `has_cycle_dfs` of src/core/dag.rs: depth-first search along `depends_on` and
-- `after`. A search goes at most one node deeper than the graph has nodes: `Cycles.Complete` shows
-- that the fuel does not run out on an acyclic graph.
pub mod Sound
pub mod Complete
use pidag.Base.{ℕ, zero, suc, Bool, true, false, Option, none, some, List, [], ◌∷◌, length}
use pidag.Text.{Text, contains, without}
use pidag.Dag.{Node, Dag, find_node}

-- The two sets that the search mutates.
pub record Search : Type 0 where
  pub visited : List Text
  pub rec_stack : List Text

-- A loop over the edges of one kind; `dfs` is the recursive call.
unfoldable pub visit_edges : (Text → Search → Bool × Search) → List Text → Search → Bool × Search
visit_edges dfs [] s = (false, s)
visit_edges dfs (d ∷ ds) s = elim (contains s.visited d) [
  | false ↦
      let (found, s') = dfs d s in elim found [ true ↦ (true, s') | false ↦ visit_edges dfs ds s' ]
  | true ↦ elim (contains s.rec_stack d) [ true ↦ (true, s) | false ↦ visit_edges dfs ds s ]
]

-- `visited.insert(id); rec_stack.insert(id)`.
abbrev pub enter : Text → Search → Search
enter id s = record { visited = id ∷ s.visited; rec_stack = id ∷ s.rec_stack }

-- `rec_stack.remove(id); false`.
abbrev pub leave : Text → Search → Bool × Search
leave id s = (false, record s { rec_stack = without s.rec_stack id })

-- The loop over `after`, behind the result of that over `depends_on`.
abbrev pub visit_after :
    (Text → Search → Bool × Search) → Text → Node → Bool × Search → Bool × Search
visit_after dfs id node r = elim r.0 [
  | true ↦ (true, r.1)
  | false ↦
      let (found, s') = visit_edges dfs node.after r.1 in
      elim found [ true ↦ (true, s') | false ↦ leave id s' ]
]

-- What follows the two insertions, for the node that `find` gave.
abbrev pub visit_node :
    (Text → Search → Bool × Search) → Text → Option Node → Search → Bool × Search
visit_node dfs id none s = leave id s
visit_node dfs id (some node) s = visit_after dfs id node (visit_edges dfs node.depends_on s)

unfoldable pub has_cycle_dfs : ℕ → List Node → Text → Search → Bool × Search
unfolding visit_edges
has_cycle_dfs zero nodes id s = (true, s)
has_cycle_dfs (suc fuel) nodes id s =
    visit_node (λ d t. has_cycle_dfs fuel nodes d t) id (find_node nodes id) (enter id s)

-- The loop over the nodes that starts a search at each one not yet visited.
unfoldable pub has_cycle_from : (Text → Search → Bool × Search) → List Node → Search → Bool
has_cycle_from dfs [] s = false
has_cycle_from dfs (n ∷ ns) s = elim (contains s.visited n.id) [
  | true ↦ has_cycle_from dfs ns s
  | false ↦
      let (found, s') = dfs n.id s in elim found [ true ↦ true | false ↦ has_cycle_from dfs ns s' ]
]

abbrev pub no_search : Search
no_search = record { visited = []; rec_stack = [] }

unfoldable pub has_cycle : Dag → Bool
unfolding has_cycle_from has_cycle_dfs
has_cycle dag =
    has_cycle_from (λ d t. has_cycle_dfs (suc (length dag.nodes)) dag.nodes d t) dag.nodes no_search
