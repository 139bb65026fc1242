-- ===== src/Resume.antt =====
-- `load_checkpoint` of src/sdd/resume.rs. The store is a parameter: what it answers for one run.
pub mod Sorts
mod Samples
use pidag.Base.{
  ◌≡◌, refl, Bool, true, false, Option, none, some, is_some, List, [], ◌∷◌, map, if◌then◌else◌,
}
use pidag.Text.{Text, codes, same}
use pidag.Error.{Result, ok, err, ◌>>=◌}
use pidag.Map.{Map, insert}
use pidag.Scheduler.{NodeStatus, pending, running, NodeState}
use pidag.Scheduler.Budget.{BudgetCounters}
use pidag.Scheduler.Status.{parse}
use pidag.Scheduler.Awaiting.{RunReport}

pub record RunMeta : Type 0 where
  pub completed_at : Option Text

-- What the store's `get_run`, `terminal_set`, `list_nodes`, `get_artifact` and `get_budget` answer.
pub record Store : Type 0 where
  pub get_run : Result (Option RunMeta)
  pub terminal_set : Result (List (Text × Text))
  pub list_nodes : Result (List (Text × NodeStatus))
  pub get_artifact : Text → Result (Option Text)
  pub get_budget : Result BudgetCounters

pub record Checkpoint : Type 0 where
  pub run_id : Text
  pub completed_nodes : List Text
  pub failed_nodes : List Text
  pub blocked_nodes : List Text
  pub stale_running : List Text
  pub outputs : Map Text
  pub budget : BudgetCounters

pub data ResumeDecision : Type 0 where
  fresh : (run_id : Text) → ResumeDecision
  already_done : (run_id : Text) → RunReport → ResumeDecision
  resume : Checkpoint → ResumeDecision

-- The sets that the loop over the terminal nodes fills.
pub record Sorted : Type 0 where
  pub completed : List Text
  pub failing : List Text
  pub blocking : List Text
  pub outputs : Map Text

-- `if let Ok(Some(output)) = ..`.
abbrev pub hydrate : Text → Result (Option Text) → Map Text → Map Text
hydrate id (ok (some output)) outputs = insert id output outputs
hydrate id (ok none) outputs = outputs
hydrate id (err e) outputs = outputs

-- The body of the loop.
unfoldable pub sort_one : Store → Bool → Text → Text → Sorted → Sorted
sort_one store retry_failed id state s =
    let outputs = hydrate id (store.get_artifact id) s.outputs in
    if same state (codes "Done")
    then record s { completed = id ∷ s.completed; outputs = outputs }
    else if same state (codes "Failed")
    then if retry_failed then s else record s { failing = id ∷ s.failing; outputs = outputs }
    else if same state (codes "Blocked")
    then record s { blocking = id ∷ s.blocking; outputs = outputs }
    else s

unfoldable pub sort_all : Store → Bool → List (Text × Text) → Sorted → Sorted
sort_all store retry_failed [] s = s
sort_all store retry_failed ((id, state) ∷ terminal) s =
    sort_all store retry_failed terminal (sort_one store retry_failed id state s)

abbrev pub is_running : NodeStatus → Bool
is_running running = true
is_running _ = false

unfoldable pub stale : List (Text × NodeStatus) → List Text
stale [] = []
stale ((id, state) ∷ nodes) = let rest = stale nodes in if is_running state then id ∷ rest else rest

abbrev pub status_or_pending : Option NodeStatus → NodeStatus
status_or_pending none = pending
status_or_pending (some status) = status

unfoldable pub failed_ids : List (Text × Text) → List Text
failed_ids [] = []
failed_ids ((id, state) ∷ terminal) =
    let rest = failed_ids terminal in if same state (codes "Failed") then id ∷ rest else rest

unfoldable pub cached_report : List (Text × Text) → BudgetCounters → RunReport
cached_report terminal budget = record {
  node_states =
      map
        (λ (t : Text × Text). record {
          node_id = t.0;
          state = status_or_pending (parse t.1);
          model = none;
          attempts = 1;
          output = none;
        })
        terminal;
  failed_nodes = failed_ids terminal;
  store_write_failures = 0;
  model_calls = budget.model_calls;
  total_tokens = budget.total_tokens;
  breach = none;
}

abbrev pub nothing_sorted : Sorted
nothing_sorted = record { completed = []; failing = []; blocking = []; outputs = [] }

unfoldable pub checkpoint_of :
    Store
    → Text
    → Bool
    → List (Text × Text)
    → List (Text × NodeStatus)
    → BudgetCounters
    → Checkpoint
checkpoint_of store run_id retry_failed terminal nodes budget =
    let sorted = sort_all store retry_failed terminal nothing_sorted in
    record {
      run_id = run_id;
      completed_nodes = sorted.completed;
      failed_nodes = sorted.failing;
      blocked_nodes = sorted.blocking;
      stale_running = stale nodes;
      outputs = sorted.outputs;
      budget = budget;
    }

-- The report of a run that is complete.
abbrev pub report_from :
    Text → Result (List (Text × Text)) → Result BudgetCounters → Result ResumeDecision
report_from run_id terminal_set get_budget = do
  terminal ← terminal_set
  budget ← get_budget
  ok (already_done run_id (cached_report terminal budget))

-- The checkpoint of a run that is not.
abbrev pub resume_from :
    Store
    → Text
    → Bool
    → Result (List (Text × Text))
    → Result (List (Text × NodeStatus))
    → Result BudgetCounters
    → Result ResumeDecision
resume_from store run_id retry_failed terminal_set list_nodes get_budget = do
  terminal ← terminal_set
  nodes ← list_nodes
  budget ← get_budget
  ok (resume (checkpoint_of store run_id retry_failed terminal nodes budget))

abbrev pub decide : Store → Text → Bool → Option RunMeta → Result ResumeDecision
decide store run_id retry_failed none = ok (fresh run_id)
decide store run_id retry_failed (some run) =
    if is_some run.completed_at
    then report_from run_id store.terminal_set store.get_budget
    else resume_from store run_id retry_failed store.terminal_set store.list_nodes store.get_budget

unfoldable pub load_checkpoint : Store → Text → Bool → Result ResumeDecision
load_checkpoint store run_id retry_failed =
    store.get_run >>= λ run. decide store run_id retry_failed run
