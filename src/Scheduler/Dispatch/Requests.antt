-- ===== src/Scheduler/Dispatch/Requests.antt =====
-- Which requests a dispatch sends to the worker, and how many at most.
use pidag.Base.{
  ℕ, suc, ◌+◌, ◌≤◌, ◌≡◌, refl, Bool, true, Option, none, some, List, [], ◌∷◌, ◌++◌, All, All-map,
  All-split, arith, if◌then◌else◌, if-intro, Bool-cases, inl, inr,
}
use pidag.Text.{Text}
use pidag.Dag.{ModelRef, Verify, shell, critic, all, Arms, nil, cons, Node}
use pidag.Scheduler.Budget.{BudgetBreach, reserve}
use pidag.Scheduler.Interpolate.{interpolate_outputs}
use pidag.Scheduler.Outside.{World, Run, Request, lock}
use pidag.Scheduler.Dispatch.{
  done_state, Check, shell_attempt_once, start, dispatch_models, dispatch_with, is_shell,
}
use pidag.Scheduler.Dispatch.Verification.{
  is_eligible, accept, blocked_by_gate, Evaluated, dispatch_critic, after_reserve, eval_critic,
  eval_verify, eval_arms, after_arm, run_verify, verify_id, critic_node,
}
use pidag.Scheduler.Dispatch.Added.{
  Calls, attempts_limit, Sent, Sent-same, Sent-from, Sent-more, Sent-trans, models_limit,
}
use pidag.Scheduler.Dispatch.Sent.{
  CheckSent, Asks, attempts_from-Sent, shell_attempt_once-StepSent, models_from-Sent, finish-Sent,
}

-- How many of the node's own calls are in the set, each made once.
pub own_limit : Calls → Bool → ℕ → Option Text → List ModelRef → ℕ
own_limit f allow_paid attempts node_type [] =
    if is_shell node_type then attempts_limit f [] attempts 1 else 0
own_limit f allow_paid attempts node_type (m ∷ ms) = models_limit f allow_paid attempts (m ∷ ms)

module _ (P : Request → Type 0) (f : Calls) (limit : ℕ) (w : World) (check : Check)
    (c : CheckSent P f limit check) (node : Node) where
  dispatch_models-Sent :
      (allow_paid : Bool) (models : List ModelRef) (s : Run)
      → All (λ m. is_eligible allow_paid m ≡ true → Asks P f limit w check c node m.name) models
      → (is_shell node.node_type ≡ true → models ≡ [] → Asks P f limit w check c node [])
      → Sent P f
          (own_limit f allow_paid node.retry.attempts node.node_type models + limit)
          s
          (dispatch_models w check allow_paid node models s).run
  unfolding own_limit
  dispatch_models-Sent allow_paid [] s h alone = elim (Bool-cases (is_shell node.node_type)) [
    | inl e ↦ rw e (
        finish-Sent P f limit w check c node (attempts_limit f [] node.retry.attempts 1) s _ (
          attempts_from-Sent P f limit w check c node [] (shell_attempt_once w check node)
            (shell_attempt_once-StepSent P f limit w check c node (alone e refl))
            node.retry.attempts 1 (start s)))
    | inr e ↦ rw e (Sent-same P f (0 + limit) s s refl)
  ]
  dispatch_models-Sent allow_paid (m ∷ ms) s h alone =
      finish-Sent P f limit w check c node (models_limit f allow_paid node.retry.attempts (m ∷ ms))
        s _ (models_from-Sent P f limit w check c node allow_paid (m ∷ ms) h true none (start s))

  pub dispatch_with-Sent :
      (allow_paid : Bool) (s : Run)
      → All
          (λ m. is_eligible allow_paid m ≡ true → Asks P f limit w check c node m.name)
          node.models
      → (is_shell node.node_type ≡ true → node.models ≡ [] → Asks P f limit w check c node [])
      → Sent P f
          (own_limit f allow_paid node.retry.attempts node.node_type node.models + limit)
          s
          (dispatch_with w check allow_paid node s).run
  unfolding dispatch_with
  dispatch_with-Sent allow_paid s h alone = dispatch_models-Sent allow_paid node.models s h alone

-- How many of the calls of a verification are in the set, each made once.
mutual
  pub verify_limit : Calls → Bool → ℕ → Verify → ℕ
  verify_limit f allow_paid attempts (shell command) = 0
  verify_limit f allow_paid attempts (critic prompt models) =
      models_limit f allow_paid attempts models
  verify_limit f allow_paid attempts (all arms) = arms_limit f allow_paid attempts arms

  arms_limit : Calls → Bool → ℕ → Arms → ℕ
  arms_limit f allow_paid attempts nil = 0
  arms_limit f allow_paid attempts (cons arm arms) =
      verify_limit f allow_paid attempts arm + arms_limit f allow_paid attempts arms

-- The models of its critics.
mutual
  pub critic_models : Verify → List ModelRef
  critic_models (shell command) = []
  critic_models (critic prompt models) = models
  critic_models (all arms) = arms_models arms

  arms_models : Arms → List ModelRef
  arms_models nil = []
  arms_models (cons arm arms) = critic_models arm ++ arms_models arms

module _ (P : Request → Type 0) (f : Calls) (wide : ℕ → Bool) (w : World) (allow_paid : Bool)
    (node : Node) where
  -- All that a critic of an eligible model may ask.
  abbrev pub Critics : List ModelRef → Type 0
  Critics models =
      All
        (λ m.
          is_eligible allow_paid m ≡ true
          → (prompt : Text) (attempt : ℕ)
          → P (record {
            node_id = verify_id node;
            prompt = prompt;
            model = m.name;
            attempt = attempt;
          }))
        models

  accept-CheckSent : CheckSent P f 0 accept
  accept-CheckSent state output s = Sent-same P f 0 s s refl

  own_limit-none :
      (models : List ModelRef)
      → own_limit f allow_paid node.retry.attempts none models + 0
        ≤ models_limit f allow_paid node.retry.attempts models
  unfolding own_limit
  own_limit-none [] = omega arith
  own_limit-none (m ∷ ms) = omega arith

  dispatch_critic-Sent :
      (prompt : Text) (models : List ModelRef) (output : Text) (s : Run)
      → Critics models
      → Sent P f
          (models_limit f allow_paid node.retry.attempts models)
          s
          (dispatch_critic wide w allow_paid node prompt models output s).run
  unfolding dispatch_critic
  dispatch_critic-Sent prompt models output s h =
      Sent-more P f (own_limit f allow_paid node.retry.attempts none models + 0)
        (models_limit f allow_paid node.retry.attempts models) (own_limit-none models)
        (dispatch_with-Sent P f 0 w accept accept-CheckSent
          (critic_node node
            (interpolate_outputs prompt ((node.id, done_state node none 0 output) ∷ [])) models)
          allow_paid s (All-map _ _ (λ m ask e attempt. ask e _ attempt) models h)
          (λ no. absurd (ground arith)))

  after_reserve-Sent :
      (prompt : Text) (models : List ModelRef) (output : Text) (s : Run)
      (refusal : Option BudgetBreach)
      → Critics models
      → Sent P f
          (models_limit f allow_paid node.retry.attempts models)
          s
          (after_reserve wide w allow_paid node prompt models output s refusal).run
  after_reserve-Sent prompt models output s none h = dispatch_critic-Sent prompt models output s h
  after_reserve-Sent prompt models output s (some breach) h = Sent-same P f _ s s refl

  eval_critic-Sent :
      (prompt : Text) (models : List ModelRef) (output : Text) (s : Run)
      → Critics models
      → Sent P f
          (models_limit f allow_paid node.retry.attempts models)
          s
          (eval_critic wide w allow_paid node prompt models output s).run
  unfolding eval_critic
  eval_critic-Sent prompt models output s h =
      if-intro
        (λ (e : Evaluated). Sent P f (models_limit f allow_paid node.retry.attempts models) s e.run)
        (blocked_by_gate allow_paid models) (λ _. Sent-same P f _ s s refl)
        (λ _.
          let locked = lock w s in
          let (refusal, b) = reserve (verify_id node) locked.budget in
          let s' : Run = record locked { budget = b } in
          Sent-from P f _ s s' refl (after_reserve-Sent prompt models output s' refusal h))

  module _ (output : Text) (token : Option Text) where
    after_arm-Sent :
        (i : ℕ) (arm : Verify) (first rest : Evaluated) (k l : ℕ) (s : Run) (reason : Option Text)
        → Sent P f k s first.run
        → Sent P f l first.run rest.run
        → Sent P f (k + l) s (after_arm i arm first rest reason).run
    after_arm-Sent i arm first rest k l s none m n = Sent-trans P f k l m n
    after_arm-Sent i arm first rest k l s (some reason) m n =
        Sent-more P f k (k + l) (omega arith) m

    mutual
      unfolding eval_verify run_verify verify_limit critic_models

      pub eval_verify-Sent :
          (v : Verify) (s : Run)
          → Critics (critic_models v)
          → Sent P f
              (verify_limit f allow_paid node.retry.attempts v)
              s
              (eval_verify wide w allow_paid node output token v s).run
      eval_verify-Sent (shell command) s h = Sent-same P f 0 s _ refl
      eval_verify-Sent (critic prompt models) s h = eval_critic-Sent prompt models output s h
      eval_verify-Sent (all arms) s h = eval_arms-Sent 0 arms s h

      eval_arms-Sent :
          (i : ℕ) (arms : Arms) (s : Run)
          → Critics (arms_models arms)
          → Sent P f
              (arms_limit f allow_paid node.retry.attempts arms)
              s
              (eval_arms wide w allow_paid node output token i arms s).run
      eval_arms-Sent i nil s h = Sent-same P f 0 s s refl
      eval_arms-Sent i (cons arm arms) s h =
          let (now, later) = All-split _ (critic_models arm) (arms_models arms) h in
          let first = eval_verify wide w allow_paid node output token arm s in
          after_arm-Sent i arm first _ _ _ s first.reason (eval_verify-Sent arm s now)
            (eval_arms-Sent (suc i) arms first.run later)
