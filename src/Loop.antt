-- ===== src/Loop.antt =====
-- The state of `Scheduler::execute` of src/scheduler/execute.rs, and the small steps that several of
-- its branches share. A message on the event channel is an entry of `events`: the receiver lives as
-- long as the loop, so no send fails.
mod Samples
pub mod Build
pub mod Seed
pub mod Drain
pub mod Skip
pub mod Settle
pub mod Whole
pub mod Quiet
pub mod Acts
pub mod Moves
pub mod Drained
pub mod Count
pub mod Once
pub mod Start
pub mod Runs
pub mod Urged
pub mod Index
pub mod Missing
pub mod Waits
pub mod Ungated
pub mod Depends
pub mod Spawns
pub mod Returns
pub mod Fresh
pub mod Kept
pub mod Counted
pub mod Ends
pub mod Complete
pub mod Ceiling
pub mod Fuel
use pidag.Base.{
  ℕ, zero, suc, ◌-◌, Bool, true, false, not, ◌&&◌, Option, none, some, get_or, List, [], ◌∷◌, ◌++◌,
  ◌==◌, if◌then◌else◌,
}
use pidag.Text.{Text, codes, same, contains}
use pidag.Map.{Map, lookup, insert}
use pidag.Dag.{Node, Dag, get_node}
use pidag.Scheduler.{NodeStatus, pending, done, failed, blocked, NodeState}
use pidag.Scheduler.Budget.{BudgetInner}
use pidag.Scheduler.Awaiting.{Snapshot, record_terminal}

-- `Event` of src/core/event.rs.
pub data Event : Type 0 where
  dag_submitted : Event
  dag_done : (successful_nodes failed_nodes : ℕ) → Event
  node_dispatched : (node_id model : Text) (attempt : ℕ) → Event
  node_done : (node_id model output : Text) → Event
  node_failed : (node_id error : Text) → Event
  node_blocked : (node_id : Text) → Event
  node_retry : (node_id reason : Text) → Event
  provider_fallback : (node_id from_model to_model : Text) → Event
  node_skipped : (node_id reason : Text) → Event
  node_verify_failed : (node_id worker_claim verify_output : Text) → Event
  budget_updated : (model_calls total_tokens : ℕ) → Event
  budget_breached : (message : Text) → Event

-- What the loop only reads.
pub record Plan : Type 0 where
  pub dag : Dag
  pub dependents : Map (List Text)
  pub after_dependents : Map (List Text)

-- A spawned task: the node with its prompt interpolated, and the states that a quorum reads.
pub record Task : Type 0 where
  pub node_id : Text
  pub node : Node
  pub seen : Map NodeState

-- The variables of the loop. `dispatched` is the log of all spawns, the last one first.
pub record Board : Type 0 where
  pub node_state : Map NodeState
  pub in_degree : Map ℕ
  pub after_pending : Map ℕ
  pub ready : List Text
  pub enqueued : List Text
  pub terminal_nodes : List Text
  pub terminal_from_checkpoint : List Text
  pub snapshot : Snapshot
  pub events : List Event
  pub budget : BudgetInner
  pub breach_announced : Bool
  pub task_set : List Task
  pub dispatched : List Text

abbrev pub emit : Event → Board → Board
emit event b = record b { events = b.events ++ event ∷ [] }

-- `m.get(k).map(|v| *v == 0).unwrap_or(default)`.
abbrev pub is_zero_or : Bool → Option ℕ → Bool
is_zero_or default none = default
is_zero_or default (some n) = n == 0

-- The test of `try_enqueue!`.
abbrev pub is_ready : Text → Board → Bool
is_ready id b =
    not (contains b.enqueued id)
    && (is_zero_or false (lookup id b.in_degree) && is_zero_or true (lookup id b.after_pending))

unfoldable pub try_enqueue : Text → Board → Board
try_enqueue id b =
    if is_ready id b then record b { ready = b.ready ++ id ∷ []; enqueued = id ∷ b.enqueued } else b

-- `*pending -= 1; try_enqueue!(..)` where `pending` is there and not 0.
abbrev pub release_by : Option ℕ → Text → Board → Board
release_by none id b = b
release_by (some zero) id b = b
release_by (some (suc left)) id b =
    try_enqueue id (record b { after_pending = insert id left b.after_pending })

unfoldable pub release_all : List Text → Board → Board
release_all [] b = b
release_all (id ∷ ids) b = release_all ids (release_by (lookup id b.after_pending) id b)

-- The entry of a reverse index, empty where there is none.
abbrev pub entries : Text → Map (List Text) → List Text
entries id m = get_or (lookup id m) []

-- `*degree = degree.saturating_sub(1)`, and `try_enqueue!` at 0.
abbrev pub lower_by : Option ℕ → Text → Board → Board
lower_by none id b = b
lower_by (some degree) id b =
    let b' = record b { in_degree = insert id (degree - 1) b.in_degree } in
    if degree - 1 == 0 then try_enqueue id b' else b'

unfoldable pub lower : Text → Board → Board
lower id b = lower_by (lookup id b.in_degree) id b

-- A state that the loop gives without a worker.
abbrev pub bare_state : Text → NodeStatus → ℕ → Option Text → NodeState
bare_state id status attempts output = record {
  node_id = id;
  state = status;
  model = none;
  attempts = attempts;
  output = output;
}

abbrev pub is_gated_by : Text → Option Node → Bool
is_gated_by source none = false
is_gated_by source (some node) = elim node.gate [
  | none ↦ false
  | some gate ↦ same gate (source ++ codes ":fail")
]

-- `node.gate.as_deref() == Some(&format!("{source}:fail"))` for the node of this id.
unfoldable pub is_gated_on : Plan → Text → Text → Bool
is_gated_on plan source id = is_gated_by source (get_node plan.dag id)

-- `inner.tx.send_modify(|snap| snap.record_terminal(..))` and `terminal_nodes.insert(..)`.
abbrev pub make_terminal : Text → NodeState → Board → Board
make_terminal id state b = record b {
  snapshot = record_terminal id state b.snapshot;
  terminal_nodes = id ∷ b.terminal_nodes;
}
