-- ===== src/Scheduler/Outside.antt =====
-- What a dispatch meets outside the program: the worker, the shell and the other tasks of the run.
-- `WorkerOutput` of src/worker/mod.rs, `DispatchEvent` and `run_with_node_timeout` of
-- src/scheduler/execute.rs. Times are in milliseconds. The outside is a parameter, and its answers
-- depend on how many times the task has met it, `clock`.
use pidag.Base.{ℕ, suc, Bool, true, false, Option, none, some, List, ◌∷◌, leb}
use pidag.Text.{Text}
use pidag.Dag.{Node}
use pidag.Scheduler.Budget.{TokenUsage, BudgetCounters, BudgetInner}

pub record WorkerOutput : Type 0 where
  pub success : Bool
  pub output : Text
  pub retryable : Bool
  pub usage : Option TokenUsage

-- The arguments of `Worker::run`.
pub record Request : Type 0 where
  pub node_id : Text
  pub prompt : Text
  pub model : Text
  pub attempt : ℕ

-- How long the worker takes, and what it returns: nothing for an error.
pub record Reply : Type 0 where
  pub took : ℕ
  pub result : Option WorkerOutput

-- How a `bash -c` ends.
pub data ProcessEnd : Type 0 where
  not_spawned process_error : (message : Text) → ProcessEnd
  exited : (success : Bool) (stdout stderr : Text) → ProcessEnd

pub record Process : Type 0 where
  pub took : ℕ
  pub ended : ProcessEnd

-- The worker, the shell with its command and `PIDAG_VERIFY_PRE`, and what the other tasks do to the
-- budget while this one waits for its lock.
pub record World : Type 0 where
  pub worker : ℕ → Request → Reply
  pub shell : ℕ → Text → Option Text → Process
  pub others : ℕ → BudgetInner → BudgetInner

-- The state of a dispatch: the requests to the worker, the last one first, and the budget.
pub record Run : Type 0 where
  pub clock : ℕ
  pub requests : List Request
  pub budget : BudgetInner

pub data DispatchEvent : Type 0 where
  retry backoff_retry : (attempt : ℕ) → DispatchEvent
  fallback : (previous next : Text) → DispatchEvent
  retry_exhausted critic_dispatched : (model : Text) → DispatchEvent
  budget_updated : BudgetCounters → DispatchEvent
  budget_breached : (message : Text) → DispatchEvent

-- `tokio::time::timeout`: the work is done by the deadline.
abbrev pub in_time : Option ℕ → ℕ → Bool
in_time none took = true
in_time (some deadline) took = leb took deadline

-- The results of `run_with_node_timeout`: `Ok(Some(_))`, `Ok(None)` and `Err(DispatchTimeout)`.
pub data Attempt : Type 0 where
  answered : WorkerOutput → Attempt
  unusable : Attempt
  timed_out : Attempt

abbrev pub attempt_of : Bool → Option WorkerOutput → Attempt
attempt_of true (some o) = answered o
attempt_of true none = unusable
attempt_of false result = timed_out

module _ (w : World) where
  unfoldable pub run_with_node_timeout : Node → Text → Text → ℕ → Run → Attempt × Run
  run_with_node_timeout node prompt model attempt s =
      let request : Request = record {
        node_id = node.id;
        prompt = prompt;
        model = model;
        attempt = attempt;
      } in
      let reply = w.worker s.clock request in
      (
        attempt_of (in_time node.timeout reply.took) reply.result,
        record s { clock = suc s.clock; requests = request ∷ s.requests },
      )

  abbrev pub run_shell : Text → Option Text → Run → Process × Run
  run_shell command token s = (w.shell s.clock command token, record s { clock = suc s.clock })

  -- `budget.lock()`.
  abbrev pub lock : Run → Run
  lock s = record s { clock = suc s.clock; budget = w.others s.clock s.budget }
