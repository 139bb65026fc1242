-- ===== src/Loop/Build.antt =====
-- The maps that `execute` builds from the graph before it runs.
use pidag.Base.{ℕ, ◌+◌, none, get_or, List, [], ◌∷◌, ◌++◌, length}
use pidag.Text.{Text}
use pidag.Map.{Map, lookup, insert, modify}
use pidag.Dag.{Node, Dag}
use pidag.Scheduler.{NodeState, pending}
use pidag.Loop.{Plan, bare_state}

-- `nodes.iter().map(|n| (n.id.clone(), value(n))).collect()`.
unfoldable pub collect {ℓ} : {V : Type ℓ} → (Node → V) → List Node → Map V → Map V
collect value [] m = m
collect value (n ∷ ns) m = collect value ns (insert n.id (value n) m)

unfoldable pub initial_states : List Node → Map NodeState
initial_states ns = collect (λ n. bare_state n.id pending 0 none) ns []

-- `*in_degree.entry(id).or_insert(0) += 1`.
unfoldable pub bump : Text → Map ℕ → Map ℕ
bump id m = insert id (get_or (lookup id m) 0 + 1) m

unfoldable pub bump_times : Text → List Text → Map ℕ → Map ℕ
bump_times id [] m = m
bump_times id (dep ∷ deps) m = bump_times id deps (bump id m)

unfoldable pub add_degrees : List Node → Map ℕ → Map ℕ
add_degrees [] m = m
add_degrees (n ∷ ns) m = add_degrees ns (bump_times n.id n.depends_on m)

unfoldable pub initial_degrees : List Node → Map ℕ
initial_degrees ns = add_degrees ns (collect (λ n. 0) ns [])

-- `if let Some(list) = m.get_mut(edge) { list.push(id) }` for each edge.
unfoldable pub push_under : Text → List Text → Map (List Text) → Map (List Text)
push_under id [] m = m
push_under id (edge ∷ edges) m = push_under id edges (modify edge (λ l. l ++ id ∷ []) m)

unfoldable pub add_reverse : (Node → List Text) → List Node → Map (List Text) → Map (List Text)
add_reverse edges [] m = m
add_reverse edges (n ∷ ns) m = add_reverse edges ns (push_under n.id (edges n) m)

unfoldable pub reverse_index : (Node → List Text) → List Node → Map (List Text)
reverse_index edges ns = add_reverse edges ns (collect (λ n. []) ns [])

-- `after_pending.insert(id, after.len())`, if there are such edges.
abbrev pub pending_after : Node → List Text → Map ℕ → Map ℕ
pending_after n [] m = m
pending_after n (a ∷ as_) m = insert n.id (length (a ∷ as_)) m

unfoldable pub add_pending : List Node → Map ℕ → Map ℕ
add_pending [] m = m
add_pending (n ∷ ns) m = add_pending ns (pending_after n n.after m)

unfoldable pub initial_pending : List Node → Map ℕ
initial_pending ns = add_pending ns (collect (λ n. 0) ns [])

unfoldable pub plan_of : Dag → Plan
plan_of dag = record {
  dag = dag;
  dependents = reverse_index (λ n. n.depends_on) dag.nodes;
  after_dependents = reverse_index (λ n. n.after) dag.nodes;
}
