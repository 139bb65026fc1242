-- ===== src/Loop/Whole.antt =====
-- `Scheduler::execute` of src/scheduler/execute.rs as a whole: its start, the steps of its loop, one
-- for each task that is joined, and its report.
use pidag.Base.{
  ℕ, suc, ◌≡◌, Bool, true, false, Option, none, some, List, [], ◌∷◌, ◌++◌, length, map,
  if◌then◌else◌,
}
use pidag.Text.{Text}
use pidag.Text.Order.{le_text}
use pidag.Error.{Result, ok, ◌>>=◌, ◌>>◌}
use pidag.Map.{Map}
use pidag.Dag.{ModelRef, Dag}
use pidag.Dag.Validate.{validate}
use pidag.Dag.Expand.Phases.{expand}
use pidag.Scheduler.{NodeState, is_done, is_failed}
use pidag.Scheduler.Budget.{BudgetCounters, BudgetLimits, BudgetInner, new_budget}
use pidag.Scheduler.Budget.Ceilings.{Op, apply_all}
use pidag.Scheduler.Verdict.{compute_quorum}
use pidag.Scheduler.Outside.{World, Run}
use pidag.Scheduler.Dispatch.{Dispatched}
use pidag.Scheduler.Dispatch.Whole.{dispatch_node}
use pidag.Scheduler.Awaiting.{RunReport}
use pidag.Scheduler.Awaiting.Transitions.{empty_snapshot}
use pidag.Resume.{Checkpoint}
use pidag.Loop.{dag_submitted, dag_done, Plan, Task, Board, emit}
use pidag.Loop.Build.{plan_of, initial_states, initial_degrees, initial_pending}
use pidag.Loop.Seed.{apply_checkpoint, fill_ready}
use pidag.Loop.Drain.{drain, is_quorum}
use pidag.Loop.Settle.{Outcome, settle}

abbrev pub budget_of : Option Checkpoint → BudgetCounters
budget_of none = record { model_calls = 0; total_tokens = 0 }
budget_of (some cp) = cp.budget

-- The board before the checkpoint is applied.
unfoldable pub fresh_board : Dag → BudgetInner → Board
fresh_board dag budget = record {
  node_state = initial_states dag.nodes;
  in_degree = initial_degrees dag.nodes;
  after_pending = initial_pending dag.nodes;
  ready = [];
  enqueued = [];
  terminal_nodes = [];
  terminal_from_checkpoint = [];
  snapshot = empty_snapshot;
  events = dag_submitted ∷ [];
  budget = budget;
  breach_announced = false;
  task_set = [];
  dispatched = [];
}

-- The board at the head of the loop, for a graph that is expanded and valid.
unfoldable pub seeded_board : Dag → Option Checkpoint → BudgetLimits → Board
seeded_board dag checkpoint limits = fill_ready (
    apply_checkpoint (plan_of dag) checkpoint
      (fresh_board dag (new_budget (budget_of checkpoint) limits)))

-- `execute` up to the first join.
unfoldable pub start : Dag → Option Checkpoint → BudgetLimits → Result (Dag × Board)
start authored checkpoint limits = do
  dag ← expand authored
  validate dag
  ok (dag, drain (plan_of dag) (seeded_board dag checkpoint limits))

abbrev pub first_model : List ModelRef → Option Text
first_model [] = none
first_model (m ∷ ms) = some m.name

-- What a quorum's task returns, and what another node's task does.
abbrev pub quorum_outcome : (ℕ → Bool) → Task → Outcome
quorum_outcome wide t = record {
  task_model = none;
  task_attempt = 1;
  state = compute_quorum wide t.node t.seen;
  model_used = none;
  dispatch_events = [];
  verify_failed = false;
}

abbrev pub dispatch_outcome : Task → Dispatched → Outcome
dispatch_outcome t d = record {
  task_model = first_model t.node.models;
  task_attempt = d.last_attempt;
  state = d.state;
  model_used = d.model_used;
  dispatch_events = d.events;
  verify_failed = d.verify_failed;
}

-- A task of a node that is no quorum may meet any outside.
abbrev pub IsOutcome : (ℕ → Bool) → Bool → Task → Outcome → Type 0
IsOutcome wide allow_paid t o =
    if is_quorum t.node.node_type
    then o ≡ quorum_outcome wide t
    else (w : World) × (s : Run) × (o
        ≡ dispatch_outcome t (dispatch_node wide w allow_paid t.node s))

-- The board without a joined task, with what the tasks did to the budget since the last join.
abbrev pub joined : List Task → List Op → Board → Board
joined tasks ops b = record b { task_set = tasks; budget = (apply_all ops b.budget).1 }

-- One round of the loop: any task of the set may be the next to end, by a return or by a panic.
pub data Step (wide : ℕ → Bool) (allow_paid : Bool) (plan : Plan) (b c : Board) : Type 0 where
  task_returns :
      (before after : List Task) (t : Task) (o : Outcome) (ops : List Op)
      → b.task_set ≡ before ++ t ∷ after
      → IsOutcome wide allow_paid t o
      → c ≡ drain plan (settle plan t.node_id o (joined (before ++ after) ops b))
      → Step wide allow_paid plan b c
  task_panics :
      (before after : List Task) (t : Task) (ops : List Op)
      → b.task_set ≡ before ++ t ∷ after
      → c ≡ drain plan (joined (before ++ after) ops b)
      → Step wide allow_paid plan b c

-- `n` rounds.
pub data Rounds (wide : ℕ → Bool) (allow_paid : Bool) (plan : Plan) (b : Board)
    : ℕ → Board → Type 0 where
  here : Rounds wide allow_paid plan b 0 b
  next :
      {n : ℕ} {c d : Board}
      → Rounds wide allow_paid plan b n c
      → Step wide allow_paid plan c d
      → Rounds wide allow_paid plan b (suc n) d

-- `sort_by` is stable, and so is the insertion of each state before the later ones.
unfoldable pub insert_state : NodeState → List NodeState → List NodeState
insert_state s [] = s ∷ []
insert_state s (t ∷ ts) =
    let rest = insert_state s ts in if le_text s.node_id t.node_id then s ∷ t ∷ ts else t ∷ rest

unfoldable pub sort_states : List NodeState → List NodeState
sort_states [] = []
sort_states (s ∷ ss) = insert_state s (sort_states ss)

unfoldable pub states_of : Map NodeState → List NodeState
states_of m = map (λ e. e.1) m

unfoldable pub failed_of : List NodeState → List Text
failed_of [] = []
failed_of (s ∷ ss) = let rest = failed_of ss in if is_failed s.state then s.node_id ∷ rest else rest

unfoldable pub count_done : List NodeState → ℕ
count_done [] = 0
count_done (s ∷ ss) = let rest = count_done ss in if is_done s.state then suc rest else rest

-- The report behind the loop, when no task is left; the sink failed to write `failures` events.
unfoldable pub report_of : ℕ → Board → RunReport
report_of failures b = record {
  node_states = sort_states (states_of b.node_state);
  failed_nodes = failed_of (states_of b.node_state);
  store_write_failures = failures;
  model_calls = b.budget.counters.model_calls;
  total_tokens = b.budget.counters.total_tokens;
  breach = b.budget.breach;
}

unfoldable pub finish_run : ℕ → Board → Board
finish_run failures b =
    let states = states_of b.node_state in
    let b' = emit (dag_done (count_done states) (length (failed_of states))) b in
    record b' {
      snapshot = record b'.snapshot { dag_done = true; report = some (report_of failures b') };
    }
