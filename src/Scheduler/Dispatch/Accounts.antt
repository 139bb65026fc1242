-- ===== src/Scheduler/Dispatch/Accounts.antt =====
-- A whole dispatch keeps the budget guarded, with its critics' calls.
use pidag.Base.{ℕ, suc, Bool, Option, none, some, List, [], ◌∷◌, if-intro}
use pidag.Text.{Text}
use pidag.Dag.{ModelRef, Verify, shell, critic, all, Arms, nil, cons, Node}
use pidag.Scheduler.{NodeState}
use pidag.Scheduler.Budget.{BudgetBreach}
use pidag.Scheduler.Budget.Ceilings.{IsGuarded, reserve-IsGuarded}
use pidag.Scheduler.Interpolate.{interpolate_outputs}
use pidag.Scheduler.Outside.{World, Run, DispatchEvent}
use pidag.Scheduler.Dispatch.{done_state, dispatch_with}
use pidag.Scheduler.Dispatch.Verification.{
  accept, blocked_by_gate, Evaluated, dispatch_critic, after_reserve, eval_critic, eval_verify,
  eval_arms, after_arm, verify_id, run_verify, run_verify_pre, critic_node, shell_timeout,
  checked_by, check_by, apply_verify_check, Baseline, captured, refused,
}
use pidag.Scheduler.Dispatch.Whole.{dispatch_behind, dispatch_after, dispatch_node}
use pidag.Scheduler.Dispatch.Guarded.{KeepsGuard, Guarded, CheckGuarded, dispatch_with-Guarded}

module _ (wide : ℕ → Bool) (w : World) (others : KeepsGuard w) (allow_paid : Bool)
    (node : Node) where
  dispatch_critic-Guarded :
      (prompt : Text) (models : List ModelRef) (output : Text) (s : Run)
      → Guarded s
      → Guarded (dispatch_critic wide w allow_paid node prompt models output s).run
  unfolding dispatch_critic
  dispatch_critic-Guarded prompt models output s g =
      dispatch_with-Guarded w others accept (λ state out t h. h)
        (critic_node node
          (interpolate_outputs prompt ((node.id, done_state node none 0 output) ∷ [])) models)
        allow_paid s g

  after_reserve-Guarded :
      (prompt : Text) (models : List ModelRef) (output : Text) (s : Run)
      (refusal : Option BudgetBreach)
      → Guarded s
      → Guarded (after_reserve wide w allow_paid node prompt models output s refusal).run
  after_reserve-Guarded prompt models output s none g =
      dispatch_critic-Guarded prompt models output s g
  after_reserve-Guarded prompt models output s (some breach) g = g

  eval_critic-Guarded :
      (prompt : Text) (models : List ModelRef) (output : Text) (s : Run)
      → Guarded s
      → Guarded (eval_critic wide w allow_paid node prompt models output s).run
  unfolding eval_critic
  eval_critic-Guarded prompt models output s g =
      if-intro (λ (e : Evaluated). Guarded e.run) (blocked_by_gate allow_paid models) (λ _. g)
        (λ _.
          after_reserve-Guarded prompt models output _ _
            (reserve-IsGuarded (verify_id node) _ (others s.clock s.budget g)))

  after_arm-Guarded :
      (i : ℕ) (arm : Verify) (first rest : Evaluated) (reason : Option Text)
      → Guarded first.run
      → Guarded rest.run
      → Guarded (after_arm i arm first rest reason).run
  after_arm-Guarded i arm first rest none m n = n
  after_arm-Guarded i arm first rest (some reason) m n = m

  module _ (output : Text) (token : Option Text) where
    mutual
      unfolding eval_verify run_verify

      eval_verify-Guarded :
          (v : Verify) (s : Run)
          → Guarded s
          → Guarded (eval_verify wide w allow_paid node output token v s).run
      eval_verify-Guarded (shell command) s g = g
      eval_verify-Guarded (critic prompt models) s g = eval_critic-Guarded prompt models output s g
      eval_verify-Guarded (all arms) s g = eval_arms-Guarded 0 arms s g

      eval_arms-Guarded :
          (i : ℕ) (arms : Arms) (s : Run)
          → Guarded s
          → Guarded (eval_arms wide w allow_paid node output token i arms s).run
      eval_arms-Guarded i nil s g = g
      eval_arms-Guarded i (cons arm arms) s g =
          let first = eval_verify wide w allow_paid node output token arm s in
          let now = eval_verify-Guarded arm s g in
          after_arm-Guarded i arm first _ first.reason now
            (eval_arms-Guarded (suc i) arms first.run now)

  checked_by-Guarded :
      (state : NodeState) (output : Text) (events : List DispatchEvent) (s : Run)
      (reason : Option Text)
      → Guarded s
      → Guarded (checked_by state output events s reason).run
  checked_by-Guarded state output events s none g = g
  checked_by-Guarded state output events s (some reason) g = g

  check_by-Guarded :
      (token : Option Text) (v : Option Verify)
      → CheckGuarded (check_by wide w allow_paid node token v)
  check_by-Guarded token none state output s g = g
  check_by-Guarded token (some v) state output s g =
      let e = eval_verify wide w allow_paid node output token v s in
      checked_by-Guarded state output e.events e.run e.reason
        (eval_verify-Guarded output token v s g)

  apply_verify_check-Guarded :
      (token : Option Text) → CheckGuarded (apply_verify_check wide w allow_paid node token)
  unfolding apply_verify_check
  apply_verify_check-Guarded token = check_by-Guarded token node.verify

  dispatch_checked-Guarded :
      (token : Option Text) (s : Run)
      → Guarded s
      → Guarded
          (dispatch_with w (apply_verify_check wide w allow_paid node token) allow_paid node s).run
  dispatch_checked-Guarded token s g =
      dispatch_with-Guarded w others (apply_verify_check wide w allow_paid node token)
        (apply_verify_check-Guarded token) node allow_paid s g

  dispatch_behind-Guarded :
      (b : Baseline) (s : Run)
      → Guarded s
      → Guarded (dispatch_behind wide w allow_paid node (b, s)).run
  dispatch_behind-Guarded (captured token) s g = dispatch_checked-Guarded (some token) s g
  dispatch_behind-Guarded (refused message) s g = g

  dispatch_after-Guarded :
      (pre : Option Text) (s : Run)
      → Guarded s
      → Guarded (dispatch_after wide w allow_paid node pre s).run
  unfolding run_verify_pre
  dispatch_after-Guarded none s g = dispatch_checked-Guarded none s g
  dispatch_after-Guarded (some command) s g =
      let (baseline, s') = run_verify_pre w command (shell_timeout node) s in
      dispatch_behind-Guarded baseline s' g

  -- If a counter above its ceiling means that the run is in breach before a dispatch, and the other
  -- tasks keep that, then the dispatch keeps it too, with all its attempts and its critics' calls.
  pub dispatch_node-IsGuarded :
      (s : Run) → IsGuarded s.budget → IsGuarded (dispatch_node wide w allow_paid node s).run.budget
  unfolding dispatch_node
  dispatch_node-IsGuarded s g = dispatch_after-Guarded node.verify_pre s g
