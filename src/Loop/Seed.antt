-- ===== src/Loop/Seed.antt =====
-- How `execute` applies the checkpoint of an interrupted run, and the first ready queue.
use pidag.Base.{
  ℕ, zero, suc, Bool, true, false, not, ◌&&◌, ◌||◌, Option, none, some, is_some, List, [], ◌∷◌, any,
  if◌then◌else◌,
}
use pidag.Text.{Text, codes, contains}
use pidag.Map.{Map, lookup, insert}
use pidag.Dag.{Node, get_node}
use pidag.Scheduler.{done, failed, blocked, is_failed, is_blocked, NodeState}
use pidag.Resume.{Checkpoint}
use pidag.Loop.{
  Event, node_done, node_failed, node_blocked, Plan, Board, emit, is_zero_or, entries, bare_state,
  make_terminal,
}

-- `if let Some(n) = m.get_mut(id) && *n > 0 { *n -= 1 }`.
abbrev pub decremented : Option ℕ → Text → Map ℕ → Map ℕ
decremented none id m = m
decremented (some zero) id m = m
decremented (some (suc left)) id m = insert id left m

unfoldable pub decrement_all : List Text → Map ℕ → Map ℕ
decrement_all [] m = m
decrement_all (id ∷ ids) m = decrement_all ids (decremented (lookup id m) id m)

-- A node that ended in the earlier run: its state, its event, and its `after` edges.
abbrev pub seed_terminal : Plan → Text → NodeState → Event → Board → Board
seed_terminal plan id state event b =
    let b' =
      emit event
        (make_terminal id state (record b { node_state = insert id state b.node_state })) in
    record b' {
      terminal_from_checkpoint = id ∷ b.terminal_from_checkpoint;
      after_pending = decrement_all (entries id plan.after_dependents) b.after_pending;
    }

-- Step 1, for one id.
unfoldable pub seed_completed : Plan → Checkpoint → Text → Board → Board
seed_completed plan cp id b =
    if is_some (get_node plan.dag id)
    then (let b' =
          seed_terminal plan id (bare_state id done 1 (lookup id cp.outputs)) (node_done id [] [])
            b in
        record b' { in_degree = decrement_all (entries id plan.dependents) b.in_degree })
    else b

-- Step 2.
unfoldable pub seed_failed : Plan → Checkpoint → Text → Board → Board
seed_failed plan cp id b =
    if is_some (get_node plan.dag id)
    then seed_terminal plan id (bare_state id failed 1 (lookup id cp.outputs))
        (node_failed id (codes "failed in prior run")) b
    else b

-- Step 3.
unfoldable pub seed_blocked : Plan → Checkpoint → Text → Board → Board
seed_blocked plan cp id b =
    if is_some (get_node plan.dag id)
    then seed_terminal plan id (bare_state id blocked 0 (lookup id cp.outputs)) (node_blocked id) b
    else b

abbrev pub is_failure : Option NodeState → Bool
is_failure none = false
is_failure (some s) = is_failed s.state || is_blocked s.state

abbrev pub has_terminal_fail : Node → Board → Bool
has_terminal_fail node b =
    any (λ dep. contains b.terminal_from_checkpoint dep && is_failure (lookup dep b.node_state))
      node.depends_on

-- Step 4, for one node.
unfoldable pub cascade_one : Node → Board → Board
cascade_one node b =
    let state = bare_state node.id blocked 0 none in
    let b' =
      emit (node_blocked node.id) (
        make_terminal node.id state
          (record b { node_state = insert node.id state b.node_state })) in
    if not (contains b.terminal_from_checkpoint node.id) && has_terminal_fail node b
    then record b' { terminal_from_checkpoint = node.id ∷ b.terminal_from_checkpoint }
    else b

-- A loop that changes the board for each element.
unfoldable pub for_each {ℓ} : {A : Type ℓ} → (A → Board → Board) → List A → Board → Board
for_each f [] b = b
for_each f (x ∷ xs) b = for_each f xs (f x b)

unfoldable pub apply_checkpoint : Plan → Option Checkpoint → Board → Board
apply_checkpoint plan none b = b
apply_checkpoint plan (some cp) b = for_each cascade_one plan.dag.nodes (
    for_each (seed_blocked plan cp) cp.blocked_nodes (
      for_each (seed_failed plan cp) cp.failed_nodes
        (for_each (seed_completed plan cp) cp.completed_nodes b)))

-- `in_degree.iter().filter(..)`.
unfoldable pub ready_ids : Board → Map ℕ → List Text
ready_ids b [] = []
ready_ids b ((id, degree) ∷ m) =
    let rest = ready_ids b m in
    if is_zero_or false (some degree)
      && (not (contains b.terminal_from_checkpoint id)
          && is_zero_or true (lookup id b.after_pending))
    then id ∷ rest
    else rest

unfoldable pub fill_ready : Board → Board
fill_ready b = let ready = ready_ids b b.in_degree in record b { ready = ready; enqueued = ready }
