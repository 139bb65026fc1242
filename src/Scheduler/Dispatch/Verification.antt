-- ===== src/Scheduler/Dispatch/Verification.antt =====
-- `run_verify_pre`, `run_verify`, `eval_critic`, `eval_verify` and `apply_verify_check` of
-- src/scheduler/execute.rs.
use pidag.Base.{
  ℕ, suc, ◌-◌, Bool, true, false, ◌||◌, not, Option, none, some, get_or, List, [], ◌∷◌, ◌++◌, ltb,
  leb, any, if◌then◌else◌,
}
use pidag.Text.{Text, codes}
use pidag.Text.Trim.{trim_end_matches, is_whitespace}
use pidag.Text.Decimal.{show_nat}
use pidag.Text.Bytes.{size, truncate_at_char_boundary}
use pidag.Dag.{ModelRef, Verify, shell, critic, all, Arms, nil, cons, Node}
use pidag.Scheduler.{NodeState, failed, is_done}
use pidag.Scheduler.Budget.{BudgetBreach, reserve}
use pidag.Scheduler.Verdict.{parse_critic_verdict}
use pidag.Scheduler.Interpolate.{interpolate_outputs}
use pidag.Scheduler.Outside.{
  World, Run, ProcessEnd, not_spawned, process_error, exited, DispatchEvent, critic_dispatched,
  budget_breached, run_shell, lock,
}
use pidag.Scheduler.Dispatch.{Checked, Check, done_state, dispatch_with}

-- `node.timeout.unwrap_or_else(|| Duration::from_secs(5))`.
abbrev pub shell_timeout : Node → ℕ
shell_timeout node = get_or node.timeout 5000

-- `Ok(token)` and `Err(message)` of `run_verify_pre`.
pub data Baseline : Type 0 where
  captured refused : Text → Baseline

abbrev pub max_token : ℕ
max_token = 4096

abbrev pub baseline_of : Bool → ProcessEnd → Baseline
baseline_of spawned (not_spawned message) = refused (codes "verify_pre spawn failed: " ++ message)
baseline_of false ended = refused (codes "verify_pre timed out")
baseline_of true (process_error message) = refused (codes "verify_pre process error: " ++ message)
baseline_of true (exited true stdout stderr) =
    captured (truncate_at_char_boundary (trim_end_matches is_whitespace stdout) max_token)
baseline_of true (exited false stdout []) = refused stdout
baseline_of true (exited false stdout (c ∷ stderr)) = refused (c ∷ stderr)

unfoldable pub run_verify_pre : World → Text → ℕ → Run → Baseline × Run
run_verify_pre w command timeout s =
    let (process, s') = run_shell w command none s in
    (baseline_of (leb process.took timeout) process.ended, s')

abbrev pub both_outputs : Text → Text → Text
both_outputs stdout [] = stdout
both_outputs [] (c ∷ stderr) = c ∷ stderr
both_outputs (d ∷ stdout) (c ∷ stderr) = d ∷ stdout ++ (codes "\n" ++ (c ∷ stderr))

abbrev pub verified_of : Bool → ProcessEnd → Bool × Text
verified_of spawned (not_spawned message) = (false, codes "verify spawn failed: " ++ message)
verified_of false ended = (false, codes "verify timed out")
verified_of true (process_error message) = (false, codes "verify process error: " ++ message)
verified_of true (exited success stdout stderr) = (success, both_outputs stdout stderr)

unfoldable pub run_verify : World → Text → ℕ → Option Text → Run → (Bool × Text) × Run
run_verify w command timeout token s =
    let (process, s') = run_shell w command token s in
    (verified_of (leb process.took timeout) process.ended, s')

-- `Ok(())`, which has no reason, or `Err(reason)`, and what the evaluation changed.
pub record Evaluated : Type 0 where
  pub reason : Option Text
  pub events : List DispatchEvent
  pub run : Run

abbrev pub is_eligible : Bool → ModelRef → Bool
is_eligible allow_paid m = not m.paid || allow_paid

abbrev pub blocked_by_gate : Bool → List ModelRef → Bool
blocked_by_gate allow_paid [] = false
blocked_by_gate allow_paid (m ∷ ms) = not (any (is_eligible allow_paid) (m ∷ ms))

-- The event for the first eligible model.
abbrev pub critic_events : Bool → List ModelRef → List DispatchEvent
critic_events allow_paid [] = []
critic_events allow_paid (m ∷ ms) =
    let later = critic_events allow_paid ms in
    if is_eligible allow_paid m then critic_dispatched m.name ∷ [] else later

abbrev pub verify_id : Node → Text
verify_id node = node.id ++ codes "::verify"

abbrev pub critic_node : Node → Text → List ModelRef → Node
critic_node node prompt models = record {
  id = verify_id node;
  prompt = prompt;
  depends_on = [];
  models = models;
  retry = node.retry;
  validate = none;
  node_type = none;
  gate = none;
  timeout = node.timeout;
  mcp_call = none;
  after = [];
  verify = none;
  verify_pre = none;
  for_each = none;
  quorum = none;
}

-- `apply_verify_check` of a node without `verify`.
abbrev pub accept : Check
accept state output s = record { state = state; verify_failed = false; events = []; run = s }

abbrev pub verdict_reason_of : Bool × Text → Option Text
verdict_reason_of (true, reason) = none
verdict_reason_of (false, reason) = some reason

-- The judgement of the critic's dispatch.
abbrev pub judge : (ℕ → Bool) → NodeState → Option Text
judge wide state =
    if is_done state.state
    then verdict_reason_of (parse_critic_verdict wide (get_or state.output []))
    else some (
        codes "critic dispatch failed: "
        ++ get_or state.output (codes "critic worker produced no output"))

-- The critic's dispatch, once a call is reserved.
unfoldable pub dispatch_critic :
    (ℕ → Bool) → World → Bool → Node → Text → List ModelRef → Text → Run → Evaluated
dispatch_critic wide w allow_paid node prompt models worker_output s =
    let critic_prompt =
      interpolate_outputs prompt ((node.id, done_state node none 0 worker_output) ∷ []) in
    let d = dispatch_with w accept allow_paid (critic_node node critic_prompt models) s in
    record {
      reason = judge wide d.state;
      events = critic_events allow_paid models ++ d.events;
      run = d.run;
    }

abbrev pub after_reserve :
    (ℕ → Bool)
    → World
    → Bool
    → Node
    → Text
    → List ModelRef
    → Text
    → Run
    → Option BudgetBreach
    → Evaluated
after_reserve wide w allow_paid node prompt models worker_output s (some breach) = record {
  reason =
      some (codes "critic blocked: budget ceiling exceeded (" ++ (breach.message ++ codes ")"));
  events = budget_breached breach.message ∷ [];
  run = s;
}
after_reserve wide w allow_paid node prompt models worker_output s none =
    dispatch_critic wide w allow_paid node prompt models worker_output s

unfoldable pub eval_critic :
    (ℕ → Bool) → World → Bool → Node → Text → List ModelRef → Text → Run → Evaluated
eval_critic wide w allow_paid node prompt models worker_output s =
    let locked = lock w s in
    let (refusal, b) = reserve (verify_id node) locked.budget in
    if blocked_by_gate allow_paid models
    then record {
      reason = some (
          codes "critic blocked: allow_paid is disabled and every configured critic model is paid");
      events = [];
      run = s;
    }
    else after_reserve wide w allow_paid node prompt models worker_output
        (record locked { budget = b }) refusal

abbrev pub kind : Verify → Text
kind (shell command) = codes "shell"
kind (critic prompt models) = codes "critic"
kind (all arms) = codes "all"

unfoldable pub arm_message : ℕ → Verify → Text → Text
arm_message i arm reason =
    codes "arm " ++ (show_nat i ++ (codes " (" ++ (kind arm ++ (codes ") failed: " ++ reason))))

-- Behind the first of the arms: a failure names it, and a pass leaves the result to the others.
abbrev pub after_arm : ℕ → Verify → Evaluated → Evaluated → Option Text → Evaluated
after_arm i arm first rest (some reason) = record {
  reason = some (arm_message i arm reason);
  events = first.events;
  run = first.run;
}
after_arm i arm first rest none = record {
  reason = rest.reason;
  events = first.events ++ rest.events;
  run = rest.run;
}

module _ (wide : ℕ → Bool) (w : World) (allow_paid : Bool) (node : Node) (worker_output : Text)
    (token : Option Text) where
  unfoldable mutual
    pub eval_verify : Verify → Run → Evaluated
    eval_verify (shell command) s =
        let ((passed, output), s') = run_verify w command (shell_timeout node) token s in
        record { reason = if passed then none else some output; events = []; run = s' }
    eval_verify (critic prompt models) s =
        eval_critic wide w allow_paid node prompt models worker_output s
    eval_verify (all arms) s = eval_arms 0 arms s

    pub eval_arms : ℕ → Arms → Run → Evaluated
    eval_arms i nil s = record { reason = none; events = []; run = s }
    eval_arms i (cons arm arms) s =
        let first = eval_verify arm s in
        let rest = eval_arms (suc i) arms first.run in after_arm i arm first rest first.reason

abbrev pub max_error_len : ℕ
max_error_len = 8192

-- The artifact of a node whose verification failed.
unfoldable pub failure_artifact : Text → Text → Text
failure_artifact worker_output reason =
    let combined = codes "worker: " ++ (worker_output ++ (codes "\nverify: " ++ reason)) in
    let truncated = truncate_at_char_boundary combined max_error_len in
    if ltb max_error_len (size combined)
    then truncated
      ++ (codes "… [truncated " ++ (show_nat (size combined - size truncated) ++ codes " bytes]"))
    else combined

abbrev pub checked_by : NodeState → Text → List DispatchEvent → Run → Option Text → Checked
checked_by state worker_output events s none = record {
  state = state;
  verify_failed = false;
  events = events;
  run = s;
}
checked_by state worker_output events s (some reason) = record {
  state = record state { state = failed; output = some (failure_artifact worker_output reason) };
  verify_failed = true;
  events = events;
  run = s;
}

-- The check by the node's own `verify`, if there is one.
abbrev pub check_by : (ℕ → Bool) → World → Bool → Node → Option Text → Option Verify → Check
check_by wide w allow_paid node token none state worker_output s = accept state worker_output s
check_by wide w allow_paid node token (some v) state worker_output s =
    let e = eval_verify wide w allow_paid node worker_output token v s in
    checked_by state worker_output e.events e.run e.reason

unfoldable pub apply_verify_check : (ℕ → Bool) → World → Bool → Node → Option Text → Check
apply_verify_check wide w allow_paid node token state worker_output s =
    check_by wide w allow_paid node token node.verify state worker_output s
