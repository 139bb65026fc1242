-- ===== src/Scheduler/Dispatch/Guarded.antt =====
-- The loops of a dispatch keep the budget guarded, with all the calls of their attempts.
use pidag.Base.{
  ℕ, zero, suc, Bool, true, false, ◌&&◌, not, Option, none, some, List, [], ◌∷◌, ltb, if-intro,
  Bool-cases, inl, inr,
}
use pidag.Text.{Text}
use pidag.Dag.{ModelRef, Node}
use pidag.Scheduler.{NodeState}
use pidag.Scheduler.Budget.{TokenUsage, BudgetBreach, BudgetInner}
use pidag.Scheduler.Budget.Ceilings.{
  IsGuarded, record_first_usage-IsGuarded, record_extra_call-IsGuarded,
}
use pidag.Scheduler.Outside.{
  World, Run, WorkerOutput, Attempt, answered, unusable, timed_out, run_with_node_timeout,
}
use pidag.Scheduler.Dispatch.{
  Dispatched, Check, Progress, Step, stop, again, advance, Attempts, returned, exhausted,
  after_answer, account, after_step, after_model, after_attempt, after_shell_attempt, attempt_once,
  shell_attempt_once, attempts_from, models_from, fallback_events, note, start, finish,
  dispatch_models, dispatch_with, is_shell, validates,
}

-- The other tasks keep the guard.
abbrev pub KeepsGuard : World → Type 0
KeepsGuard w = (clock : ℕ) (b : BudgetInner) → IsGuarded b → IsGuarded (w.others clock b)

abbrev pub Guarded : Run → Type 0
Guarded s = IsGuarded s.budget

abbrev pub CheckGuarded : Check → Type 0
CheckGuarded check =
    (state : NodeState) (output : Text) (s : Run) → Guarded s → Guarded (check state output s).run

abbrev StepGuarded : Step → Type 0
StepGuarded (stop d) = Guarded d.run
StepGuarded (again p) = Guarded p.run
StepGuarded (advance p) = Guarded p.run

abbrev AttemptsGuarded : Attempts → Type 0
AttemptsGuarded (returned d) = Guarded d.run
AttemptsGuarded (exhausted p) = Guarded p.run

after_step-Guarded :
    (next : Progress → Attempts)
    → ((p : Progress) → Guarded p.run → AttemptsGuarded (next p))
    → (step : Step) → StepGuarded step
    → AttemptsGuarded (after_step next step)
after_step-Guarded next h (stop d) m = m
after_step-Guarded next h (again p) m = h p m
after_step-Guarded next h (advance p) m = m

after_model-Guarded :
    (next : Progress → Attempts)
    → ((p : Progress) → Guarded p.run → AttemptsGuarded (next p))
    → (a : Attempts) → AttemptsGuarded a
    → AttemptsGuarded (after_model next a)
after_model-Guarded next h (returned d) m = m
after_model-Guarded next h (exhausted p) m = h p m

attempts_from-Guarded :
    (once : ℕ → Progress → Step)
    → ((attempt : ℕ) (p : Progress) → Guarded p.run → StepGuarded (once attempt p))
    → (left attempt : ℕ) (p : Progress) → Guarded p.run
    → AttemptsGuarded (attempts_from once left attempt p)
unfolding attempts_from
attempts_from-Guarded once h zero attempt p g = g
attempts_from-Guarded once h (suc left) attempt p g =
    after_step-Guarded (λ p'. attempts_from once left (suc attempt) p')
      (λ p' g'. attempts_from-Guarded once h left (suc attempt) p' g') (once attempt p)
      (h attempt p g)

finish-Guarded : (node : Node) (a : Attempts) → AttemptsGuarded a → Guarded (finish node a).run
finish-Guarded node (returned d) m = m
finish-Guarded node (exhausted p) m = m

module _ (w : World) (others : KeepsGuard w) (check : Check) (c : CheckGuarded check)
    (node : Node) where
  account-Guarded :
      (usage : Option TokenUsage) (p : Progress)
      → Guarded p.run
      → Guarded (account w node usage p).run
  account-Guarded usage p g =
      let locked = others p.run.clock p.run.budget g in
      others _ _ (
        if-intro (λ (r : Option BudgetBreach × BudgetInner). IsGuarded r.1) p.is_first_call
          (λ _. record_first_usage-IsGuarded node.id usage _ locked)
          (λ _. record_extra_call-IsGuarded node.id usage _ locked))

  after_answer-Guarded :
      (model : ModelRef) (attempt : ℕ) (o : WorkerOutput) (p : Progress)
      → Guarded p.run
      → StepGuarded (after_answer check node model attempt o p)
  after_answer-Guarded model attempt o p g =
      if-intro StepGuarded o.success
        (λ _.
          if-intro StepGuarded (validates node.validate o.output) (λ _. c _ o.output p.run g)
            (λ _. g))
        (λ _.
          if-intro StepGuarded o.retryable
            (λ _.
              if-intro StepGuarded (ltb attempt node.retry.attempts && ltb 0 node.retry.backoff_ms)
                (λ _. g) (λ _. g))
            (λ _. g))

  after_attempt-Guarded :
      (model : ModelRef) (attempt : ℕ) (p : Progress) (got : Attempt)
      → Guarded p.run
      → StepGuarded (after_attempt w check node model attempt p got)
  after_attempt-Guarded model attempt p timed_out g = g
  after_attempt-Guarded model attempt p unusable g = g
  after_attempt-Guarded model attempt p (answered o) g =
      after_answer-Guarded model attempt o (account w node o.usage p) (account-Guarded o.usage p g)

  after_shell_attempt-Guarded :
      (attempt : ℕ) (p : Progress) (got : Attempt)
      → Guarded p.run
      → StepGuarded (after_shell_attempt check node attempt p got)
  after_shell_attempt-Guarded attempt p timed_out g = g
  after_shell_attempt-Guarded attempt p unusable g = g
  after_shell_attempt-Guarded attempt p (answered o) g =
      if-intro StepGuarded o.success (λ _. c _ o.output p.run g) (λ _. g)

  attempt_once-Guarded :
      (model : ModelRef) (attempt : ℕ) (p : Progress)
      → Guarded p.run
      → StepGuarded (attempt_once w check node model attempt p)
  unfolding attempt_once run_with_node_timeout
  attempt_once-Guarded model attempt p g = after_attempt-Guarded model attempt _ _ g

  shell_attempt_once-Guarded :
      (attempt : ℕ) (p : Progress)
      → Guarded p.run
      → StepGuarded (shell_attempt_once w check node attempt p)
  unfolding shell_attempt_once run_with_node_timeout
  shell_attempt_once-Guarded attempt p g = after_shell_attempt-Guarded attempt _ _ g

  models_from-Guarded :
      (allow_paid : Bool) (models : List ModelRef) (first : Bool) (previous : Option Text)
      (p : Progress)
      → Guarded p.run
      → AttemptsGuarded (models_from w check allow_paid node models first previous p)
  unfolding models_from
  models_from-Guarded allow_paid [] first previous p g = g
  models_from-Guarded allow_paid (m ∷ ms) first previous p g =
      elim (Bool-cases (m.paid && not allow_paid)) [
        | inl e ↦ rw (e, models_from) (models_from-Guarded allow_paid ms first previous p g)
        | inr e ↦
            rw (e, models_from)
              (after_model-Guarded _
                (λ p' g'. models_from-Guarded allow_paid ms false (some m.name) p' g') _
                (attempts_from-Guarded (attempt_once w check node m) (attempt_once-Guarded m)
                  node.retry.attempts 1 (note (fallback_events first previous m) p) g))
      ]

  dispatch_models-Guarded :
      (allow_paid : Bool) (models : List ModelRef) (s : Run)
      → Guarded s
      → Guarded (dispatch_models w check allow_paid node models s).run
  dispatch_models-Guarded allow_paid [] s g =
      if-intro (λ (d : Dispatched). Guarded d.run) (is_shell node.node_type)
        (λ _. finish-Guarded node _ (
          attempts_from-Guarded (shell_attempt_once w check node) shell_attempt_once-Guarded
            node.retry.attempts 1 (start s) g))
        (λ _. g)
  dispatch_models-Guarded allow_paid (m ∷ ms) s g =
      finish-Guarded node _ (models_from-Guarded allow_paid (m ∷ ms) true none (start s) g)

  pub dispatch_with-Guarded :
      (allow_paid : Bool) (s : Run)
      → Guarded s
      → Guarded (dispatch_with w check allow_paid node s).run
  unfolding dispatch_with
  dispatch_with-Guarded allow_paid s g = dispatch_models-Guarded allow_paid node.models s g
