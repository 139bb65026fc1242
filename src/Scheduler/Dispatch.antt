-- ===== src/Scheduler/Dispatch.antt =====
-- The loops of `dispatch_node` of src/scheduler/execute.rs over models and attempts. What happens to
-- a worker's success is the argument `check`. The sleep before a backoff retry changes no state and
-- is only seen as its event.
pub mod Verification
pub mod Whole
pub mod Added
pub mod Sent
pub mod Requests
pub mod Limits
pub mod Settled
pub mod Proven
pub mod Done
pub mod Guarded
pub mod Accounts
mod Samples
use pidag.Base.{
  ℕ, zero, suc, ◌+◌, Bool, true, false, ◌&&◌, not, Option, none, some, is_some, List, [], ◌∷◌, ◌++◌,
  ltb, if◌then◌else◌,
}
use pidag.Text.{Text, codes, same}
use pidag.Text.Search.{find_split}
use pidag.Text.Decimal.{show_nat}
use pidag.Dag.{ModelRef, Node}
use pidag.Scheduler.{NodeState, done, failed}
use pidag.Scheduler.Budget.{
  TokenUsage, BudgetBreach, BudgetInner, record_first_usage, record_extra_call,
}
use pidag.Scheduler.Outside.{
  WorkerOutput, World, Run, DispatchEvent, retry, backoff_retry, fallback, retry_exhausted,
  budget_updated, budget_breached, Attempt, answered, unusable, timed_out, run_with_node_timeout,
  lock,
}

-- The tuple that `dispatch_node` returns, and the state of the outside behind it.
pub record Dispatched : Type 0 where
  pub state : NodeState
  pub model_used : Option Text
  pub events : List DispatchEvent
  pub last_attempt : ℕ
  pub verify_failed : Bool
  pub run : Run

-- What `apply_verify_check` returns.
pub record Checked : Type 0 where
  pub state : NodeState
  pub verify_failed : Bool
  pub events : List DispatchEvent
  pub run : Run

-- The variables that the loops change; `output` is `last_failure_output`, or `final_state.output` of
-- a shell node.
pub record Progress : Type 0 where
  pub events : List DispatchEvent
  pub last_attempt : ℕ
  pub output : Option Text
  pub is_first_call : Bool
  pub run : Run

-- How one attempt leaves the body of the loop: by `return`, to the next attempt, or by `break`.
pub data Step : Type 0 where
  stop : Dispatched → Step
  again advance : Progress → Step

pub data Attempts : Type 0 where
  returned : Dispatched → Attempts
  exhausted : Progress → Attempts

abbrev pub failed_state : Node → Option Text → NodeState
failed_state node output = record {
  node_id = node.id;
  state = failed;
  model = none;
  attempts = 0;
  output = output;
}

abbrev pub done_state : Node → Option Text → ℕ → Text → NodeState
done_state node model attempt output = record {
  node_id = node.id;
  state = done;
  model = model;
  attempts = attempt;
  output = some output;
}

abbrev pub note : List DispatchEvent → Progress → Progress
note events p = record p { events = p.events ++ events }

abbrev pub ended : Node → Option Text → Progress → Dispatched
ended node output p = record {
  state = failed_state node output;
  model_used = none;
  events = p.events;
  last_attempt = p.last_attempt;
  verify_failed = false;
  run = p.run;
}

abbrev pub ended_by : Checked → Option Text → Progress → Dispatched
ended_by c model p = record {
  state = c.state;
  model_used = model;
  events = p.events ++ c.events;
  last_attempt = p.last_attempt;
  verify_failed = c.verify_failed;
  run = c.run;
}

-- `node.validate` is absent, or stands in the output.
abbrev pub validates : Option Text → Text → Bool
validates none output = true
validates (some needle) output = is_some (find_split needle output)

abbrev pub retry_events : Node → ℕ → List DispatchEvent
retry_events node attempt = if ltb attempt node.retry.attempts then retry attempt ∷ [] else []

unfoldable pub model_timeout_message : Node → ModelRef → ℕ → Text
model_timeout_message node model attempt =
    codes "node "
    ++ (node.id
        ++ (codes " model "
            ++ (model.name ++ (codes " attempt " ++ (show_nat attempt ++ codes " timed out")))))

unfoldable pub shell_timeout_message : Node → ℕ → Text
shell_timeout_message node attempt =
    codes "node " ++ (node.id ++ (codes " attempt " ++ (show_nat attempt ++ codes " timed out")))

abbrev pub breach_events : Option BudgetBreach → List DispatchEvent
breach_events none = []
breach_events (some breach) = budget_breached breach.message ∷ []

-- B2 to B4b: the call is recorded, and the counters are read again.
abbrev pub account : World → Node → Option TokenUsage → Progress → Progress
account w node usage p =
    let locked = lock w p.run in
    let (new_breach, b) =
      if p.is_first_call
      then record_first_usage node.id usage locked.budget
      else record_extra_call node.id usage locked.budget in
    let seen = lock w (record locked { budget = b }) in
    record p {
      events = p.events ++ (budget_updated seen.budget.counters ∷ breach_events new_breach);
      is_first_call = false;
      run = seen;
    }

abbrev pub Check : Type 0
Check = NodeState → Text → Run → Checked

-- What follows an answer of the worker to a call of a model.
abbrev pub after_answer : Check → Node → ModelRef → ℕ → WorkerOutput → Progress → Step
after_answer check node model attempt o p =
    let failing = record p { output = some o.output } in
    if o.success
    then if validates node.validate o.output
      then stop (
          ended_by (check (done_state node (some model.name) attempt o.output) o.output p.run)
            (some model.name) p)
      else again (note (retry_events node attempt) p)
    else if o.retryable
    then if ltb attempt node.retry.attempts && ltb 0 node.retry.backoff_ms
      then again (note (backoff_retry attempt ∷ []) failing)
      else advance (note (retry_exhausted model.name ∷ []) failing)
    else again (note (retry_events node attempt) failing)

abbrev pub after_attempt : World → Check → Node → ModelRef → ℕ → Progress → Attempt → Step
after_attempt w check node model attempt p timed_out =
    stop (ended node (some (model_timeout_message node model attempt)) p)
after_attempt w check node model attempt p unusable = again p
after_attempt w check node model attempt p (answered o) =
    after_answer check node model attempt o (account w node o.usage p)

unfoldable pub attempt_once : World → Check → Node → ModelRef → ℕ → Progress → Step
attempt_once w check node model attempt p =
    let (got, s) = run_with_node_timeout w node node.prompt model.name attempt p.run in
    after_attempt w check node model attempt (record p { last_attempt = attempt; run = s }) got

-- The same for a node without models, which runs the shell.
abbrev pub after_shell_attempt : Check → Node → ℕ → Progress → Attempt → Step
after_shell_attempt check node attempt p timed_out =
    stop (ended node (some (shell_timeout_message node attempt)) p)
after_shell_attempt check node attempt p unusable = again p
after_shell_attempt check node attempt p (answered o) =
    if o.success
    then stop (ended_by (check (done_state node none attempt o.output) o.output p.run) none p)
    else again (note (retry_events node attempt) (record p { output = some o.output }))

unfoldable pub shell_attempt_once : World → Check → Node → ℕ → Progress → Step
shell_attempt_once w check node attempt p =
    let (got, s) = run_with_node_timeout w node node.prompt [] attempt p.run in
    after_shell_attempt check node attempt (record p { last_attempt = attempt; run = s }) got

abbrev pub after_step : (Progress → Attempts) → Step → Attempts
after_step next (stop d) = returned d
after_step next (again p) = next p
after_step next (advance p) = exhausted p

-- `for attempt in attempt..` with `left` attempts left.
unfoldable pub attempts_from : (ℕ → Progress → Step) → (left attempt : ℕ) → Progress → Attempts
attempts_from once zero attempt p = exhausted p
attempts_from once (suc left) attempt p =
    after_step (λ p'. attempts_from once left (suc attempt) p') (once attempt p)

abbrev pub fallback_events : Bool → Option Text → ModelRef → List DispatchEvent
fallback_events first none model = []
fallback_events first (some previous) model =
    if first then [] else fallback previous model.name ∷ []

abbrev pub after_model : (Progress → Attempts) → Attempts → Attempts
after_model next (returned d) = returned d
after_model next (exhausted p) = next p

-- `for model in &node.models`.
unfoldable pub models_from :
    World → Check → Bool → Node → List ModelRef → Bool → Option Text → Progress → Attempts
models_from w check allow_paid node [] first previous p = exhausted p
models_from w check allow_paid node (model ∷ models) first previous p =
    elim (model.paid && not allow_paid) [
      | true ↦ models_from w check allow_paid node models first previous p
      | false ↦
          after_model (λ p'. models_from w check allow_paid node models false (some model.name) p')
            (attempts_from (attempt_once w check node model) node.retry.attempts 1
              (note (fallback_events first previous model) p))
    ]

abbrev pub start : Run → Progress
start s = record { events = []; last_attempt = 0; output = none; is_first_call = true; run = s }

abbrev pub finish : Node → Attempts → Dispatched
finish node (returned d) = d
finish node (exhausted p) = ended node p.output p

abbrev pub is_shell : Option Text → Bool
is_shell none = false
is_shell (some node_type) = same node_type (codes "shell")

abbrev pub dispatch_models : World → Check → Bool → Node → List ModelRef → Run → Dispatched
dispatch_models w check allow_paid node [] s =
    if is_shell node.node_type
    then finish node
        (attempts_from (shell_attempt_once w check node) node.retry.attempts 1 (start s))
    else ended node (some (codes "no models specified for LLM node")) (start s)
dispatch_models w check allow_paid node (model ∷ models) s =
    finish node (models_from w check allow_paid node (model ∷ models) true none (start s))

-- `dispatch_node` behind `verify_pre`.
unfoldable pub dispatch_with : World → Check → Bool → Node → Run → Dispatched
dispatch_with w check allow_paid node s = dispatch_models w check allow_paid node node.models s
