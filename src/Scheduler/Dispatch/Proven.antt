-- ===== src/Scheduler/Dispatch/Proven.antt =====
-- A verification has no silent pass: what stands behind each pass, and behind each `Done`.
use pidag.Base.{
  ℕ, suc, ◌≡◌, refl, Bool, true, false, Option, none, some, get_or, List, [], ◌∷◌, leb, arith,
  if◌then◌else◌, if-intro, inl, inr, subst,
}
use pidag.Text.{Text}
use pidag.Dag.{ModelRef, Verify, shell, critic, all, Arms, nil, cons, Node}
use pidag.Scheduler.{NodeStatus, done, is_done, NodeState}
use pidag.Scheduler.Budget.{BudgetBreach}
use pidag.Scheduler.Verdict.{parse_critic_verdict}
use pidag.Scheduler.Verdict.FailClosed.{IsPass, parse_critic_verdict_iff}
use pidag.Scheduler.Interpolate.{interpolate_outputs}
use pidag.Scheduler.Outside.{
  World, Run, WorkerOutput, ProcessEnd, not_spawned, process_error, exited,
}
use pidag.Scheduler.Dispatch.{dispatch_with, done_state}
use pidag.Scheduler.Dispatch.Verification.{
  accept, blocked_by_gate, Evaluated, judge, verdict_reason_of, dispatch_critic, after_reserve,
  eval_critic, eval_verify, eval_arms, after_arm, run_verify, verified_of, critic_node,
  shell_timeout,
}
use pidag.Scheduler.Dispatch.Settled.{IsAnswer, CheckSettles, dispatch_with-Settled}

-- The command was run with the token, in time, and succeeded.
pub record IsShellPass (w : World) (node : Node) (token : Option Text) (command : Text)
    : Type 0 where
  pub clock : ℕ
  pub stdout : Text
  pub stderr : Text
  pub success : (w.shell clock command token).ended ≡ exited true stdout stderr
  pub punctual : leb (w.shell clock command token).took (shell_timeout node) ≡ true

-- The worker's answer to the critic's prompt, with this output put in, says `PASS`.
pub record IsCriticPass (wide : ℕ → Bool) (w : World) (node : Node) (prompt : Text)
    (models : List ModelRef) (output : Text) : Type 0 where
  pub answer : WorkerOutput
  pub from :
      IsAnswer w
        (critic_node node
          (interpolate_outputs prompt ((node.id, done_state node none 0 output) ∷ []))
          models)
        answer
  pub success : answer.success ≡ true
  pub verdict : IsPass wide answer.output

-- What each arm of a verification needs for a pass.
module _ (wide : ℕ → Bool) (w : World) (node : Node) (output : Text) (token : Option Text) where
  abbrev mutual
    pub Proven : Verify → Type 0
    Proven (shell command) = IsShellPass w node token command
    Proven (critic prompt models) = IsCriticPass wide w node prompt models output
    Proven (all arms) = ProvenArms arms

    pub ProvenArms : Arms → Type 0
    ProvenArms nil = Unit
    ProvenArms (cons arm arms) = Proven arm × ProvenArms arms

module _ (wide : ℕ → Bool) (w : World) (allow_paid : Bool) (node : Node) where
  accept-Settles : CheckSettles (λ _. Unit {0}) accept
  accept-Settles state output s = inr (refl, tt)

  verified_of-true :
      (timely : Bool) (ended : ProcessEnd)
      → (verified_of timely ended).0 ≡ true
      → (timely ≡ true) × (stdout stderr : Text) × (ended ≡ exited true stdout stderr)
  verified_of-true true (exited true stdout stderr) h = (refl, stdout, stderr, refl)
  verified_of-true true (exited false stdout stderr) h = cc h
  verified_of-true true (not_spawned message) h = cc h
  verified_of-true true (process_error message) h = cc h
  verified_of-true false (exited success stdout stderr) h = cc h
  verified_of-true false (not_spawned message) h = cc h
  verified_of-true false (process_error message) h = cc h

  is_done-true : (status : NodeStatus) → is_done status ≡ true → status ≡ done
  is_done-true status h = ground arith

  verdict_reason_of-none : (v : Bool × Text) → verdict_reason_of v ≡ none → v.0 ≡ true
  verdict_reason_of-none (true, reason) h = refl
  verdict_reason_of-none (false, reason) h = cc h

  judge-none :
      (state : NodeState)
      → judge wide state ≡ none
      → (state.state ≡ done) × IsPass wide (get_or state.output [])
  judge-none state h =
      if-intro
        (λ (r : Option Text).
          r ≡ none → (state.state ≡ done) × IsPass wide (get_or state.output []))
        (is_done state.state)
        (λ e reason. (
          is_done-true state.state e,
          (parse_critic_verdict_iff wide (get_or state.output [])).0
              (verdict_reason_of-none (parse_critic_verdict wide (get_or state.output [])) reason),
        ))
        (λ _ reason. absurd (ground (arith, reason))) h

  module _ (output : Text) where
    dispatch_critic-Proven :
        (prompt : Text) (models : List ModelRef) (s : Run)
        → (dispatch_critic wide w allow_paid node prompt models output s).reason ≡ none
        → IsCriticPass wide w node prompt models output
    unfolding dispatch_critic
    dispatch_critic-Proven prompt models s h =
        let n =
          critic_node node
            (interpolate_outputs prompt ((node.id, done_state node none 0 output) ∷ [])) models in
        let (finished, pass) = judge-none (dispatch_with w accept allow_paid n s).state h in
        elim (dispatch_with-Settled (λ _. Unit) w accept accept-Settles n allow_paid s) [
          | inl f ↦ cc (f, finished)
          | inr d ↦ record {
            answer = d.answer;
            from = d.from;
            success = d.success;
            verdict = subst (λ (o : Option Text). IsPass wide (get_or o [])) d.kept pass;
          }
        ]

    after_reserve-Proven :
        (prompt : Text) (models : List ModelRef) (s : Run) (refusal : Option BudgetBreach)
        → (after_reserve wide w allow_paid node prompt models output s refusal).reason ≡ none
        → IsCriticPass wide w node prompt models output
    after_reserve-Proven prompt models s none h = dispatch_critic-Proven prompt models s h
    after_reserve-Proven prompt models s (some breach) h = cc h

    eval_critic-Proven :
        (prompt : Text) (models : List ModelRef) (s : Run)
        → (eval_critic wide w allow_paid node prompt models output s).reason ≡ none
        → IsCriticPass wide w node prompt models output
    unfolding eval_critic
    eval_critic-Proven prompt models s h =
        if-intro
          (λ (e : Evaluated). e.reason ≡ none → IsCriticPass wide w node prompt models output)
          (blocked_by_gate allow_paid models) (λ _ k. absurd (cc k))
          (λ _ k. after_reserve-Proven prompt models _ _ k) h

    after_arm-none :
        (i : ℕ) (arm : Verify) (first rest : Evaluated) (reason : Option Text)
        → (after_arm i arm first rest reason).reason ≡ none
        → (reason ≡ none) × (rest.reason ≡ none)
    after_arm-none i arm first rest none h = (refl, h)
    after_arm-none i arm first rest (some reason) h = cc h

    reason_none :
        (passed : Bool) (text : Text) → (if passed then none else some text) ≡ none → passed ≡ true
    reason_none passed text h = ground arith

    module _ (token : Option Text) where
      mutual
        unfolding eval_verify run_verify

        eval_verify-Proven :
            (v : Verify) (s : Run)
            → (eval_verify wide w allow_paid node output token v s).reason ≡ none
            → Proven wide w node output token v
        eval_verify-Proven (shell command) s h =
            let process = w.shell s.clock command token in
            let (punctual, stdout, stderr, success) =
              verified_of-true (leb process.took (shell_timeout node)) process.ended
                (reason_none _ _ h) in
            record {
              clock = s.clock;
              stdout = stdout;
              stderr = stderr;
              success = success;
              punctual = punctual;
            }
        eval_verify-Proven (critic prompt models) s h = eval_critic-Proven prompt models s h
        eval_verify-Proven (all arms) s h = eval_arms-Proven 0 arms s h

        eval_arms-Proven :
            (i : ℕ) (arms : Arms) (s : Run)
            → (eval_arms wide w allow_paid node output token i arms s).reason ≡ none
            → ProvenArms wide w node output token arms
        eval_arms-Proven i nil s h = tt
        eval_arms-Proven i (cons arm arms) s h =
            let first = eval_verify wide w allow_paid node output token arm s in
            let (now, later) = after_arm-none i arm first _ first.reason h in
            (eval_verify-Proven arm s now, eval_arms-Proven (suc i) arms first.run later)

      -- A verification passes only where each of its arms is proven: a shell arm by its command, which
      -- succeeded in time, and a critic by a reply in time of the worker that says `PASS`.
      pub eval_verify_sound :
          (v : Verify) (s : Run)
          → (eval_verify wide w allow_paid node output token v s).reason ≡ none
          → Proven wide w node output token v
      eval_verify_sound v s h = eval_verify-Proven v s h
