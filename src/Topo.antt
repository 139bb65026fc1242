-- ===== src/Topo.antt =====
-- `topo_sort` and `ready_nodes` of src/core/dag.rs. The in-degrees are built as those of the loop; they
-- are plain numbers, since each entry of the adjacency lowers an in-degree that it has raised.
pub mod Adjacent
pub mod Ordered
mod Sorted
mod Complete
mod Samples
use pidag.Base.{
  ℕ, zero, suc, ◌-◌, Bool, true, false, Option, none, some, get_or, List, [], ◌∷◌, ◌++◌, ◌==◌,
  length, if◌then◌else◌,
}
use pidag.Text.{Text}
use pidag.Map.{Map, lookup, insert}
use pidag.Error.{Result, ok, err, cycle}
use pidag.Dag.{Node, Dag}
use pidag.Loop.Build.{collect, initial_degrees}

-- `adjacency.entry(dep).or_insert_with(Vec::new).push(id)` for each dependency.
unfoldable pub push_entries : Text → List Text → Map (List Text) → Map (List Text)
push_entries id [] m = m
push_entries id (dep ∷ deps) m =
    push_entries id deps (insert dep (get_or (lookup dep m) [] ++ id ∷ []) m)

unfoldable pub add_adjacent : List Node → Map (List Text) → Map (List Text)
add_adjacent [] m = m
add_adjacent (n ∷ ns) m = add_adjacent ns (push_entries n.id n.depends_on m)

unfoldable pub adjacency : List Node → Map (List Text)
adjacency ns = add_adjacent ns (collect (λ n. []) ns [])

-- `.iter().filter(|&(_, degree)| *degree == 0).map(|(id, _)| id)`.
unfoldable pub unblocked : Map ℕ → List Text
unblocked [] = []
unblocked ((id, degree) ∷ m) = let rest = unblocked m in if degree == 0 then id ∷ rest else rest

abbrev pub lowered : Text → Option ℕ → List Text → Map ℕ → List Text × Map ℕ
lowered id none queue m = (queue, m)
lowered id (some degree) queue m =
    (if degree - 1 == 0 then queue ++ id ∷ [] else queue, insert id (degree - 1) m)

-- The loop over the dependents of a node: the queue and the in-degrees behind it.
unfoldable pub lower_all : List Text → List Text × Map ℕ → List Text × Map ℕ
lower_all [] s = s
lower_all (id ∷ ids) (queue, m) = lower_all ids (lowered id (lookup id m) queue m)

-- `while let Some(node_id) = queue.pop_front()`; each pop uses one unit of fuel.
unfoldable pub sort_from : ℕ → Map (List Text) → List Text × Map ℕ → List Text → List Text
sort_from fuel adjacent ([], m) result = result
sort_from zero adjacent (id ∷ queue, m) result = result
sort_from (suc fuel) adjacent (id ∷ queue, m) result =
    sort_from fuel adjacent (lower_all (get_or (lookup id adjacent) []) (queue, m))
      (result ++ id ∷ [])

unfoldable pub sorted_ids : Dag → List Text
sorted_ids dag =
    let degrees = initial_degrees dag.nodes in
    sort_from (length dag.nodes) (adjacency dag.nodes) (unblocked degrees, degrees) []

unfoldable pub topo_sort : Dag → Result (List Text)
topo_sort dag =
    let result = sorted_ids dag in
    if length result == length dag.nodes then ok result else err cycle

unfoldable pub ready_nodes : Dag → Result (List Text)
ready_nodes dag = ok (unblocked (initial_degrees dag.nodes))
