-- ===== src/Scheduler/Awaiting.antt =====
-- `Snapshot` of src/scheduler/mod.rs and `next_terminal_node` of src/scheduler/await_loop.rs. The
-- outcome `Running` only stands for the time that is up, which is outside.
pub mod Transitions
pub mod Calls
pub mod HandsOut
use pidag.Base.{
  ℕ, zero, suc, Bool, true, false, not, Option, none, some, List, [], ◌∷◌, ◌++◌, if◌then◌else◌,
}
use pidag.Text.{Text, contains}
use pidag.Map.{Map, lookup, insert}
use pidag.Scheduler.{NodeStatus, pending, NodeState}
use pidag.Scheduler.Budget.{BudgetBreach}

pub record RunReport : Type 0 where
  pub node_states : List NodeState
  pub failed_nodes : List Text
  pub store_write_failures : ℕ
  pub model_calls : ℕ
  pub total_tokens : ℕ
  pub breach : Option BudgetBreach

pub record Snapshot : Type 0 where
  pub node_state : Map NodeState
  pub terminal_order : List Text
  pub dag_done : Bool
  pub report : Option RunReport

pub data AwaitOutcome : Type 0 where
  whole : RunReport → AwaitOutcome
  one :
      (node_id : Text) (state : NodeStatus) (output : Option Text) (still_running : List Text)
      → AwaitOutcome

unfoldable pub record_terminal : Text → NodeState → Snapshot → Snapshot
record_terminal node_id state snap = record snap {
  node_state = insert node_id state snap.node_state;
  terminal_order =
      if contains snap.terminal_order node_id
      then snap.terminal_order
      else snap.terminal_order ++ node_id ∷ [];
}

-- `all_node_ids.iter().filter(|id| !terminal_order.contains(id))`.
unfoldable pub still_running : List Text → List Text → List Text
still_running terminal_order [] = []
still_running terminal_order (id ∷ ids) =
    let rest = still_running terminal_order ids in
    if contains terminal_order id then rest else id ∷ rest

-- The loop over the terminal nodes, up to the first that is not handed back yet.
unfoldable pub unhanded : List Text → List Text → Option Text
unhanded consumed [] = none
unhanded consumed (id ∷ ids) =
    let rest = unhanded consumed ids in if contains consumed id then rest else some id

abbrev pub status_of : Option NodeState → NodeStatus
status_of none = pending
status_of (some s) = s.state

abbrev pub artifact_of : Option NodeState → Option Text
artifact_of none = none
artifact_of (some s) = s.output

abbrev pub node_outcome : List Text → Snapshot → Text → AwaitOutcome
node_outcome all_node_ids snap id =
    one id (status_of (lookup id snap.node_state)) (artifact_of (lookup id snap.node_state))
      (still_running snap.terminal_order all_node_ids)

abbrev pub whole_outcome : Bool → Option RunReport → Option AwaitOutcome
whole_outcome true (some report) = some (whole report)
whole_outcome true none = none
whole_outcome false report = none

abbrev pub outcome_of :
    List Text → Snapshot → List Text → Option Text → Option AwaitOutcome × List Text
outcome_of all_node_ids snap consumed none = (whole_outcome snap.dag_done snap.report, consumed)
outcome_of all_node_ids snap consumed (some id) =
    (some (node_outcome all_node_ids snap id), id ∷ consumed)

-- The outcome, and the new `consumed`.
unfoldable pub next_terminal_node :
    List Text → Snapshot → List Text → Option AwaitOutcome × List Text
next_terminal_node all_node_ids snap consumed =
    outcome_of all_node_ids snap consumed (unhanded consumed snap.terminal_order)
