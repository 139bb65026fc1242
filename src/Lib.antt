-- ===== src/Lib.antt =====
-- pidag runs a graph of tasks: `src/core/dag.rs` holds the graph, checks it and expands its
-- fan-outs, and `src/scheduler/execute.rs` dispatches its nodes to workers under a budget.
--
-- The files, from the data up (Samples are small inputs):
--
-- - Base: names of the libraries passed on, Boolean tests on the native numbers (Base/Tests) and
--   lemmas on lists (Base/Lists).
-- - Text: Rust's `str` as the list of its characters, with search (Text/Search), sizes in UTF-8 and
--   cuts at character boundaries (Text/Bytes: `truncate_at_char_boundary`,
--   `find_char_boundary_after` of src/scheduler/execute.rs), trimming, decimal numbers and
--   `{{X.output}}` placeholders.
-- - Error: `PidagError` of src/core/error.rs and results.
-- - Map: hash maps with text keys, as association lists.
-- - Dag: the graph of src/core/dag.rs. Dag/References is `validate_output_references`, Dag/Cycles
--   is `has_cycle` and `has_cycle_dfs`, Dag/Validate is `validate`, Dag/Expand and
--   Dag/Expand/Phases are `expand` with its helpers.
-- - Scheduler: the node states of src/scheduler/mod.rs. Scheduler/Budget is `BudgetInner`,
--   Scheduler/Verdict is `parse_critic_verdict` and `compute_quorum`, Scheduler/Interpolate is
--   `interpolate_outputs`, all of src/scheduler/execute.rs.
-- - Scheduler/Outside: the worker, the shell and the other tasks as parameters, with
--   `run_with_node_timeout`. Scheduler/Dispatch, Dispatch/Verification and Dispatch/Whole are
--   `dispatch_node`, `apply_verify_check`, `eval_verify`, `eval_critic`, `run_verify` and
--   `run_verify_pre` of src/scheduler/execute.rs.
-- - Scheduler/Status: `NodeStatus::parse` and `as_str`. Scheduler/Awaiting: `Snapshot` of
--   src/scheduler/mod.rs and `next_terminal_node` of src/scheduler/await_loop.rs, for `wait_any`.
-- - Resume: `load_checkpoint` of src/sdd/resume.rs, with the answers of the store as a parameter.
-- - Loop: `Scheduler::execute` of src/scheduler/execute.rs. Loop/Build makes its maps, Loop/Seed
--   applies a checkpoint, Loop/Drain takes nodes off the ready queue, Loop/Settle and Loop/Skip
--   answer a task that ended, and Loop/Whole puts them together: `start`, one `Step` for each
--   joined task, and `finish_run`. The other files are proofs: Loop/Acts, Loop/Moves and
--   Loop/Drained see a round as a chain of small moves, Loop/Once and Loop/Start count what is
--   queued, Loop/Index, Loop/Missing, Loop/Waits, Loop/Ungated, Loop/Depends, Loop/Spawns and
--   Loop/Fresh count the edges that are missing, Loop/Returns is about what a task returns,
--   Loop/Urged, Loop/Kept, Loop/Counted, Loop/Ends and Loop/Complete are about what a run leaves
--   undone, Loop/Ceiling is about its budget, and Loop/Runs is about all rounds.
-- - Split: src/split/coverage.rs, whose report says which exit criteria the parts of a spec cover.
--   Split/Complete is about `is_complete`.
-- - Queue: the queue of a project's specs. Queue/State is src/queue/state.rs, Queue/Select is
--   `select_spec_for_project` of src/agent/select.rs; Queue/Merges and Queue/Choice are their
--   proofs. Text/Order is the order of strings.
-- - Topo: `topo_sort` and `ready_nodes` of src/core/dag.rs. Topo/Adjacent, Topo/Ordered,
--   Topo/Sorted and Topo/Complete are the proofs. The fuel is the number of nodes.
--
-- The graph is expanded by `expand`, then checked by `validate`, then run. The budget is shared by
-- all tasks of a run behind a lock: an interleaving is the sequence in which the tasks take the
-- lock. In the loop, what the other tasks do to the budget between two joins stands at the later
-- join, in front of the drain: an operation that falls between two reservations of one drain is not
-- placed there.
--
-- Sets that a function mutates are lists that it returns. Scans of a text run on the length of the
-- text as fuel, since each placeholder is longer than nothing (`contents_fuel` of
-- Text/Placeholder). The depth-first search runs on one unit of fuel more than the graph has nodes;
-- running out counts as a cycle, and `has_cycle_clear` shows that it does not happen on a graph
-- without one. The unsigned 64-bit counters wrap around, as a release build does.
--
-- Not modelled: serialization, the database, the network and the user interface, which are I/O
-- around the parts above; nor the turns and shares of the projects in src/queue/execute.rs, the
-- heuristics of src/split and the ranking of projects in src/agent. Which characters outside ASCII
-- are alphanumeric is a parameter.
pub mod Base
pub mod Text
pub mod Error
pub mod Map
pub mod Dag
pub mod Scheduler
pub mod Resume
pub mod Loop
pub mod Topo
pub mod Split
pub mod Queue
