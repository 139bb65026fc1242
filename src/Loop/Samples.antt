-- ===== src/Loop/Samples.antt =====
-- Small runs of the loop.
mod Failures
mod Breach
use pidag.Base.{
  ℕ, ◌+◌, ◌≤◌, ◌≡◌, ◌↔◌, refl, Bool, true, false, Option, none, some, List, [], ◌∷◌, length, All,
}
use pidag.Text.{Text, codes, same, contains, without, distinct}
use pidag.Text.Placeholder.{next_placeholder, output_reference}
use pidag.Text.Search.{strip_prefix, find_split}
use pidag.Map.{lookup, insert, modify}
use pidag.Error.{ok}
use pidag.Dag.{Node, Dag, find_node, get_node}
use pidag.Dag.Cycles.{has_cycle, has_cycle_from, has_cycle_dfs, visit_edges}
use pidag.Dag.References.{validate_output_references}
use pidag.Dag.Validate.{validate}
use pidag.Dag.Expand.{expand_nodes, expand_output_refs, expand_ref_list, lookup_children}
use pidag.Dag.Expand.Phases.{expand}
use pidag.Scheduler.{NodeStatus, pending, done, failed, blocked}
use pidag.Scheduler.Budget.{BudgetLimits, new_budget, reserve, record_first_usage}
use pidag.Scheduler.Budget.Ceilings.{apply_all}
use pidag.Scheduler.Interpolate.{interpolate_outputs, interpolate_from, substitute, cap_output}
use pidag.Scheduler.Awaiting.{record_terminal}
use pidag.Scheduler.Outside.{World, Run, exited, run_with_node_timeout}
use pidag.Scheduler.Dispatch.{attempt_once, attempts_from, models_from, dispatch_with}
use pidag.Scheduler.Dispatch.Verification.{apply_verify_check}
use pidag.Scheduler.Dispatch.Whole.{dispatch_node}
use pidag.Loop.{Task, Board, try_enqueue, release_all, lower, is_gated_on}
use pidag.Loop.Build.{
  collect, initial_states, bump, bump_times, add_degrees, initial_degrees, push_under, add_reverse,
  reverse_index, add_pending, initial_pending, plan_of,
}
use pidag.Loop.Seed.{decrement_all, for_each, apply_checkpoint, ready_ids, fill_ready}
use pidag.Loop.Drain.{gate_dispatch, spawn, take, drain_from, drain, announce}
use pidag.Loop.Skip.{mark_skipped, pass_skip, skip_one, skip_from, edges_in, skip}
use pidag.Loop.Settle.{
  Outcome, report_event, report_events, report_state, block_one, pass_one, pass_all, record_return,
  settle,
}
use pidag.Loop.Whole.{
  task_returns, Rounds, here, next, joined, start, fresh_board, seeded_board, dispatch_outcome,
}
use pidag.Loop.Missing.{is_done_in}
use pidag.Loop.Runs.{dispatched_once, rounds_end}
use pidag.Loop.Complete.{dispatched_iff}
use pidag.Loop.Ceiling.{run-IsGuarded}
use pidag.Scheduler.Budget.Ceilings.{IsGuarded}
use pidag.Loop.Fresh.{dispatched_after_deps}

abbrev node : Text → List Text → Node
node id depends_on = record {
  id = id;
  prompt = codes "p";
  depends_on = depends_on;
  models = record { name = codes "free"; paid = false } ∷ [];
  retry = record { attempts = 1; backoff_ms = 0 };
  validate = none;
  node_type = none;
  gate = none;
  timeout = none;
  mcp_call = none;
  after = [];
  verify = none;
  verify_pre = none;
  for_each = none;
  quorum = none;
}

-- `b` waits for `a`.
abbrev pair : Dag
pair = record {
  nodes = node (codes "a") [] ∷ node (codes "b") (codes "a" ∷ []) ∷ [];
  metadata = none;
}

abbrev limits : BudgetLimits
limits = record { max_model_calls = some 5; max_tokens = none }

abbrev ascii : ℕ → Bool
ascii c = false

-- The worker always answers.
abbrev world : World
world = record {
  worker = λ clock request. record {
    took = 1;
    result =
        some (record { success = true; output = codes "out"; retryable = false; usage = none });
  };
  shell = λ clock command token. record { took = 1; ended = exited true [] [] };
  others = λ clock b. b;
}

loops : Unit {0}
unfolding expand expand_nodes contains expand_output_refs expand_ref_list find_split
    next_placeholder same lookup_children validate validate_output_references has_cycle
    has_cycle_from has_cycle_dfs visit_edges find_node get_node lookup insert modify collect
    initial_states bump bump_times add_degrees initial_degrees push_under add_reverse reverse_index
    add_pending initial_pending plan_of decrement_all for_each apply_checkpoint ready_ids fill_ready
    gate_dispatch spawn take drain_from drain announce new_budget reserve interpolate_outputs
    interpolate_from substitute cap_output output_reference strip_prefix record_terminal
    dispatch_node dispatch_with models_from attempts_from attempt_once run_with_node_timeout
    apply_verify_check try_enqueue release_all lower is_gated_on mark_skipped pass_skip skip_one
    skip_from edges_in skip report_event report_events report_state block_one without
    record_first_usage apply_all pass_one pass_all record_return settle start fresh_board
    seeded_board is_done_in distinct
loops = tt

abbrev begun : Board
begun = drain (plan_of pair) (seeded_board pair none limits)

start-pair : start pair none limits ≡ ok (pair, begun)
unfolding loops
start-pair = refl

abbrev first_task : Task
first_task = record {
  node_id = codes "a";
  node = node (codes "a") [];
  seen = initial_states pair.nodes;
}

abbrev idle : Run
idle = record {
  clock = 0;
  requests = [];
  budget = new_budget (record { model_calls = 0; total_tokens = 0 }) limits;
}

abbrev outcome : Outcome
outcome = dispatch_outcome first_task (dispatch_node ascii world false first_task.node idle)

abbrev second : Board
second = drain (plan_of pair) (settle (plan_of pair) (codes "a") outcome (joined [] [] begun))

one_round : Rounds ascii false (plan_of pair) begun 1 second
unfolding loops
one_round = next here (task_returns [] [] first_task outcome [] refl (world, idle, refl) refl)

dispatched_once_example : distinct second.dispatched ≡ true
dispatched_once_example = dispatched_once ascii false pair none limits start-pair one_round

rounds_end_example :
    (1 + length second.task_set ≡ length second.dispatched) × (length second.dispatched ≤ 2)
rounds_end_example = rounds_end ascii false pair none limits start-pair one_round

second_spawned : contains second.dispatched (codes "b") ≡ true
unfolding loops
second_spawned = refl

found_second : get_node pair (codes "b") ≡ some (node (codes "b") (codes "a" ∷ []))
unfolding loops
found_second = refl

dispatched_after_deps_example :
    All (λ dep. is_done_in second.node_state dep ≡ true) (codes "a" ∷ [])
dispatched_after_deps_example =
    dispatched_after_deps ascii false pair limits (codes "b") (node (codes "b") (codes "a" ∷ []))
      start-pair (refl, (refl, tt)) one_round second_spawned found_second

dispatched_iff_example :
    (contains second.dispatched (codes "b") ≡ true)
    ↔ All (λ dep. is_done_in second.node_state dep ≡ true) (codes "a" ∷ [])
unfolding loops
dispatched_iff_example =
    dispatched_iff ascii false pair limits start-pair (refl, (refl, tt)) one_round (codes "b")
      (node (codes "b") (codes "a" ∷ [])) refl found_second refl refl

run-IsGuarded_example : IsGuarded second.budget
run-IsGuarded_example = run-IsGuarded ascii false pair none limits start-pair one_round
