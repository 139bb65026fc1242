-- ===== src/Scheduler/Dispatch/Settled.antt =====
-- A dispatch ends `Failed`, or `Done` on an answer of the worker.
use pidag.Base.{
  ℕ, zero, suc, ◌≡◌, ◌⊎◌, refl, ap, Bool, true, false, ◌&&◌, not, Option, none, some, List, [], ◌∷◌,
  ltb, if-intro, Bool-cases, inl, inr,
}
use pidag.Text.{Text}
use pidag.Dag.{ModelRef, Node}
use pidag.Scheduler.{done, failed, NodeState}
use pidag.Scheduler.Outside.{
  World, Run, Request, WorkerOutput, Attempt, answered, unusable, timed_out, run_with_node_timeout,
  attempt_of, in_time,
}
use pidag.Scheduler.Dispatch.{
  Dispatched, Check, Progress, Step, stop, again, advance, Attempts, returned, exhausted,
  after_answer, account, done_state, after_step, after_model, after_attempt, after_shell_attempt,
  attempt_once, shell_attempt_once, attempts_from, models_from, fallback_events, note, start,
  finish, dispatch_models, dispatch_with, is_shell, validates,
}

-- The worker returned `o` to a request of this node, and in time.
pub record IsAnswer (w : World) (node : Node) (o : WorkerOutput) : Type 0 where
  pub clock : ℕ
  pub request : Request
  pub own : request.node_id ≡ node.id
  pub asked : request.prompt ≡ node.prompt
  pub came : (w.worker clock request).result ≡ some o
  pub punctual : in_time node.timeout (w.worker clock request).took ≡ true

-- `Done` on a worker's success which holds what `validate` asks for, and which meets `Q`.
pub record IsDone (Q : Text → Type 0) (w : World) (node : Node) (state : NodeState) : Type 0 where
  pub finished : state.state ≡ done
  pub answer : WorkerOutput
  pub from : IsAnswer w node answer
  pub success : answer.success ≡ true
  pub valid : (validates node.validate answer.output ≡ true) ⊎ (node.models ≡ [])
  pub kept : state.output ≡ some answer.output
  pub met : Q answer.output

-- A check turns a state `Done` into `Failed`, or leaves it as it is where `Q` is met.
abbrev pub CheckSettles : (Text → Type 0) → Check → Type 0
CheckSettles Q check =
    (state : NodeState) (output : Text) (s : Run)
    → ((check state output s).state.state ≡ failed)
      ⊎ ((check state output s).state ≡ state) × Q output

attempt_of-answered :
    (timely : Bool) (result : Option WorkerOutput) (o : WorkerOutput)
    → attempt_of timely result ≡ answered o
    → (timely ≡ true) × (result ≡ some o)
attempt_of-answered true (some a) o h = (refl, cc h)
attempt_of-answered true none o h = cc h
attempt_of-answered false result o h = cc h

module _ (Q : Text → Type 0) (w : World) (check : Check) (c : CheckSettles Q check)
    (node : Node) where
  abbrev Settled : NodeState → Type 0
  Settled state = (state.state ≡ failed) ⊎ IsDone Q w node state

  abbrev StepSettled : Step → Type 0
  StepSettled (stop d) = Settled d.state
  StepSettled (again p) = Unit
  StepSettled (advance p) = Unit

  abbrev AttemptsSettled : Attempts → Type 0
  AttemptsSettled (returned d) = Settled d.state
  AttemptsSettled (exhausted p) = Unit

  run_with_node_timeout-IsAnswer :
      (model : Text) (attempt : ℕ) (s : Run) (o : WorkerOutput)
      → (run_with_node_timeout w node node.prompt model attempt s).0 ≡ answered o
      → IsAnswer w node o
  unfolding run_with_node_timeout
  run_with_node_timeout-IsAnswer model attempt s o h =
      let (punctual, came) = attempt_of-answered _ _ o h in
      record {
        clock = s.clock;
        request = _;
        own = refl;
        asked = refl;
        came = came;
        punctual = punctual;
      }

  check-Settled :
      (model : Option Text) (attempt : ℕ) (o : WorkerOutput) (s : Run)
      → IsAnswer w node o
      → o.success ≡ true
      → (validates node.validate o.output ≡ true) ⊎ (node.models ≡ [])
      → Settled (check (done_state node model attempt o.output) o.output s).state
  check-Settled model attempt o s answer success valid =
      elim (c (done_state node model attempt o.output) o.output s) [
        | inl f ↦ inl f
        | inr (same_state, met) ↦ inr (record {
          finished = ap (λ (t : NodeState). t.state) same_state;
          answer = o;
          from = answer;
          success = success;
          valid = valid;
          kept = ap (λ (t : NodeState). t.output) same_state;
          met = met;
        })
      ]

  after_answer-Settled :
      (model : ModelRef) (attempt : ℕ) (o : WorkerOutput) (p : Progress)
      → IsAnswer w node o
      → StepSettled (after_answer check node model attempt o p)
  after_answer-Settled model attempt o p answer =
      if-intro StepSettled o.success
        (λ success.
          if-intro StepSettled (validates node.validate o.output)
            (λ valid. check-Settled (some model.name) attempt o p.run answer success (inl valid))
            (λ _. tt))
        (λ _.
          if-intro StepSettled o.retryable
            (λ _.
              if-intro StepSettled (ltb attempt node.retry.attempts && ltb 0 node.retry.backoff_ms)
                (λ _. tt) (λ _. tt))
            (λ _. tt))

  after_attempt-Settled :
      (model : ModelRef) (attempt : ℕ) (p : Progress) (got : Attempt)
      → ((o : WorkerOutput) → got ≡ answered o → IsAnswer w node o)
      → StepSettled (after_attempt w check node model attempt p got)
  after_attempt-Settled model attempt p timed_out h = inl refl
  after_attempt-Settled model attempt p unusable h = tt
  after_attempt-Settled model attempt p (answered o) h =
      after_answer-Settled model attempt o (account w node o.usage p) (h o refl)

  after_shell_attempt-Settled :
      node.models ≡ []
      → (attempt : ℕ) (p : Progress) (got : Attempt)
      → ((o : WorkerOutput) → got ≡ answered o → IsAnswer w node o)
      → StepSettled (after_shell_attempt check node attempt p got)
  after_shell_attempt-Settled e attempt p timed_out h = inl refl
  after_shell_attempt-Settled e attempt p unusable h = tt
  after_shell_attempt-Settled e attempt p (answered o) h =
      if-intro StepSettled o.success
        (λ success. check-Settled none attempt o p.run (h o refl) success (inr e)) (λ _. tt)

  after_step-Settled :
      (next : Progress → Attempts)
      → ((p : Progress) → AttemptsSettled (next p))
      → (step : Step) → StepSettled step
      → AttemptsSettled (after_step next step)
  after_step-Settled next h (stop d) m = m
  after_step-Settled next h (again p) m = h p
  after_step-Settled next h (advance p) m = tt

  after_model-Settled :
      (next : Progress → Attempts)
      → ((p : Progress) → AttemptsSettled (next p))
      → (a : Attempts) → AttemptsSettled a
      → AttemptsSettled (after_model next a)
  after_model-Settled next h (returned d) m = m
  after_model-Settled next h (exhausted p) m = h p

  attempts_from-Settled :
      (once : ℕ → Progress → Step)
      → ((attempt : ℕ) (p : Progress) → StepSettled (once attempt p))
      → (left attempt : ℕ) (p : Progress) → AttemptsSettled (attempts_from once left attempt p)
  unfolding attempts_from
  attempts_from-Settled once h zero attempt p = tt
  attempts_from-Settled once h (suc left) attempt p =
      after_step-Settled (λ p'. attempts_from once left (suc attempt) p')
        (λ p'. attempts_from-Settled once h left (suc attempt) p') (once attempt p) (h attempt p)

  attempt_once-Settled :
      (model : ModelRef) (attempt : ℕ) (p : Progress)
      → StepSettled (attempt_once w check node model attempt p)
  unfolding attempt_once
  attempt_once-Settled model attempt p =
      after_attempt-Settled model attempt _ _
        (run_with_node_timeout-IsAnswer model.name attempt p.run)

  shell_attempt_once-Settled :
      node.models ≡ []
      → (attempt : ℕ) (p : Progress) → StepSettled (shell_attempt_once w check node attempt p)
  unfolding shell_attempt_once
  shell_attempt_once-Settled e attempt p =
      after_shell_attempt-Settled e attempt _ _ (run_with_node_timeout-IsAnswer [] attempt p.run)

  models_from-Settled :
      (allow_paid : Bool) (models : List ModelRef) (first : Bool) (previous : Option Text)
      (p : Progress)
      → AttemptsSettled (models_from w check allow_paid node models first previous p)
  unfolding models_from
  models_from-Settled allow_paid [] first previous p = tt
  models_from-Settled allow_paid (m ∷ ms) first previous p =
      elim (Bool-cases (m.paid && not allow_paid)) [
        | inl e ↦ rw (e, models_from) (models_from-Settled allow_paid ms first previous p)
        | inr e ↦
            rw (e, models_from)
              (after_model-Settled _
                (λ p'. models_from-Settled allow_paid ms false (some m.name) p') _
                (attempts_from-Settled (attempt_once w check node m) (attempt_once-Settled m)
                  node.retry.attempts 1 (note (fallback_events first previous m) p)))
      ]

  finish-Settled : (a : Attempts) → AttemptsSettled a → Settled (finish node a).state
  finish-Settled (returned d) m = m
  finish-Settled (exhausted p) m = inl refl

  dispatch_models-Settled :
      (allow_paid : Bool) (models : List ModelRef) (s : Run)
      → node.models ≡ models
      → Settled (dispatch_models w check allow_paid node models s).state
  dispatch_models-Settled allow_paid [] s e =
      if-intro (λ (d : Dispatched). Settled d.state) (is_shell node.node_type)
        (λ _. finish-Settled _ (
          attempts_from-Settled (shell_attempt_once w check node) (shell_attempt_once-Settled e)
            node.retry.attempts 1 (start s)))
        (λ _. inl refl)
  dispatch_models-Settled allow_paid (m ∷ ms) s e =
      finish-Settled _ (models_from-Settled allow_paid (m ∷ ms) true none (start s))

  pub dispatch_with-Settled :
      (allow_paid : Bool) (s : Run) → Settled (dispatch_with w check allow_paid node s).state
  unfolding dispatch_with
  dispatch_with-Settled allow_paid s = dispatch_models-Settled allow_paid node.models s refl
