-- ===== src/Loop/Drain.antt =====
-- The inner loop of `execute`: it takes nodes off the ready queue and spawns their tasks.
use pidag.Base.{
  Bool, true, false, not, ◌&&◌, Option, none, some, is_some, List, [], ◌∷◌, ◌++◌, if◌then◌else◌,
}
use pidag.Text.{Text, codes, same}
use pidag.Map.{lookup}
use pidag.Dag.{ModelRef, Node, get_node}
use pidag.Scheduler.{is_pending, NodeState}
use pidag.Scheduler.Budget.{BudgetBreach, BudgetInner, reserve}
use pidag.Scheduler.Interpolate.{interpolate_outputs}
use pidag.Loop.{budget_breached, Plan, Board, emit}

abbrev pub is_quorum : Option Text → Bool
is_quorum none = false
is_quorum (some node_type) = same node_type (codes "quorum")

abbrev pub has_models : List ModelRef → Bool
has_models [] = false
has_models (m ∷ ms) = true

abbrev pub consumes_model : Node → Bool
consumes_model node = not (is_quorum node.node_type) && has_models node.models

-- `gate_result`, and the budget behind it.
unfoldable pub gate_dispatch : Text → Node → BudgetInner → Option BudgetBreach × BudgetInner
gate_dispatch node_id node budget =
    if not (is_some budget.breach) && consumes_model node
    then reserve node_id budget
    else (budget.breach, budget)

-- A breach is announced once.
unfoldable pub announce : Text → Board → Board
announce message b =
    if b.breach_announced
    then b
    else record (emit (budget_breached message) b) { breach_announced = true }

unfoldable pub spawn : Text → Node → Board → Board
spawn node_id node b = record b {
  task_set =
      b.task_set
      ++ record {
        node_id = node_id;
        node = record node { prompt = interpolate_outputs node.prompt b.node_state };
        seen = b.node_state;
      }
        ∷ [];
  dispatched = node_id ∷ b.dispatched;
}

-- The state of the node is there and not `Pending`.
abbrev pub is_settled : Option NodeState → Bool
is_settled none = false
is_settled (some s) = not (is_pending s.state)

-- What the loop does with the node at the head of the queue, whose rest is `rest`: it drops it, it
-- spawns its task, or it puts it back and stops.
pub data Taken : Type 0 where
  dropped : Taken
  spawned : Node → BudgetInner → Taken
  refused : BudgetBreach → BudgetInner → Taken

abbrev pub taken_gated : Node → Option BudgetBreach × BudgetInner → Taken
taken_gated node (none, budget) = spawned node budget
taken_gated node (some breach, budget) = refused breach budget

abbrev pub taken_of : Text → Option Node → BudgetInner → Taken
taken_of node_id none budget = dropped
taken_of node_id (some node) budget = taken_gated node (gate_dispatch node_id node budget)

unfoldable pub take : Plan → Text → Board → Taken
take plan node_id b =
    if is_settled (lookup node_id b.node_state)
    then dropped
    else taken_of node_id (get_node plan.dag node_id) b.budget

abbrev pub after_take : (Board → Board) → Text → List Text → Board → Taken → Board
after_take next id rest b dropped = next b
after_take next id rest b (spawned node budget) =
    next (spawn id node (record b { budget = budget }))
after_take next id rest b (refused breach budget) =
    announce breach.message (record b { ready = id ∷ rest; budget = budget })

-- `while let Some(node_id) = ready.pop_front()`, with the queue as an argument.
unfoldable pub drain_from : Plan → List Text → Board → Board
drain_from plan [] b = record b { ready = [] }
drain_from plan (id ∷ rest) b =
    after_take (λ b'. drain_from plan rest b') id rest b (take plan id b)

unfoldable pub drain : Plan → Board → Board
drain plan b = drain_from plan b.ready b
