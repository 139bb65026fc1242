-- ===== src/Scheduler/Dispatch/Sent.antt =====
-- The requests to the worker that a dispatch adds, with a bound on their number.
use pidag.Base.{
  ℕ, zero, suc, ◌+◌, ◌≤◌, ◌≡◌, refl, Bool, true, false, ◌&&◌, ◌||◌, not, Option, some, List, [],
  ◌∷◌, ltb, All, arith, if-intro, Bool-cases, inl, inr,
}
use pidag.Text.{Text}
use pidag.Dag.{ModelRef, Node}
use pidag.Scheduler.{NodeState}
use pidag.Scheduler.Outside.{
  World, Run, Request, WorkerOutput, Attempt, answered, unusable, timed_out, run_with_node_timeout,
}
use pidag.Scheduler.Dispatch.{
  Check, Progress, Step, stop, again, advance, Attempts, returned, exhausted, after_answer, account,
  after_step, after_model, after_attempt, after_shell_attempt, attempt_once, shell_attempt_once,
  attempts_from, models_from, fallback_events, note, finish, validates,
}
use pidag.Scheduler.Dispatch.Verification.{is_eligible}
use pidag.Scheduler.Dispatch.Added.{
  Calls, one_if, tally, Sent, attempts_limit, models_limit, Sent-same, Sent-more, Sent-trans,
}

module _ (P : Request → Type 0) (f : Calls) (limit : ℕ) where
  abbrev pub CheckSent : Check → Type 0
  CheckSent check =
      (state : NodeState) (output : Text) (s : Run) → Sent P f limit s (check state output s).run

  -- A step sends a request that counts `k`, and what the check of a success sends.
  abbrev pub StepSent : ℕ → Run → Step → Type 0
  StepSent k s (stop d) = Sent P f (k + limit) s d.run
  StepSent k s (again p) = Sent P f k s p.run
  StepSent k s (advance p) = Sent P f k s p.run

  abbrev pub AttemptsSent : ℕ → Run → Attempts → Type 0
  AttemptsSent k s (returned d) = Sent P f (k + limit) s d.run
  AttemptsSent k s (exhausted p) = Sent P f k s p.run

  AttemptsSent-trans :
      (k l n : ℕ)
      → k + l ≤ n
      → {s t : Run} → Sent P f k s t
      → (a : Attempts) → AttemptsSent l t a
      → AttemptsSent n s a
  AttemptsSent-trans k l n h m (returned d) r =
      Sent-more P f (k + (l + limit)) (n + limit) (omega (arith, h))
        (Sent-trans P f k (l + limit) m r)
  AttemptsSent-trans k l n h m (exhausted p) r = Sent-more P f (k + l) n h (Sent-trans P f k l m r)

  after_model-Sent :
      (k l : ℕ) (next : Progress → Attempts)
      → ((p : Progress) → AttemptsSent l p.run (next p))
      → (s : Run) (a : Attempts) → AttemptsSent k s a
      → AttemptsSent (k + l) s (after_model next a)
  after_model-Sent k l next h s (returned d) m =
      Sent-more P f (k + limit) (k + l + limit) (omega arith) m
  after_model-Sent k l next h s (exhausted p) m =
      AttemptsSent-trans k l (k + l) (omega arith) m (next p) (h p)

  after_step-Sent :
      (k left : ℕ) (next : Progress → Attempts)
      → ((p : Progress) → AttemptsSent left p.run (next p))
      → (s : Run) (step : Step) → StepSent k s step
      → AttemptsSent (k + left) s (after_step next step)
  after_step-Sent k left next h s (stop d) one =
      Sent-more P f (k + limit) (k + left + limit) (omega arith) one
  after_step-Sent k left next h s (again p) one =
      AttemptsSent-trans k left (k + left) (omega arith) one (next p) (h p)
  after_step-Sent k left next h s (advance p) one = Sent-more P f k (k + left) (omega arith) one

  after_answer-StepSent :
      (check : Check) (k : ℕ)
      → CheckSent check
      → (node : Node) (model : ModelRef) (attempt : ℕ) (o : WorkerOutput) (p : Progress) (s : Run)
      → Sent P f k s p.run
      → StepSent k s (after_answer check node model attempt o p)
  after_answer-StepSent check k c node model attempt o p s one =
      if-intro (StepSent k s) o.success
        (λ _.
          if-intro (StepSent k s) (validates node.validate o.output)
            (λ _. Sent-trans P f k limit one (c _ o.output p.run)) (λ _. one))
        (λ _.
          if-intro (StepSent k s) o.retryable
            (λ _.
              if-intro (StepSent k s)
                (ltb attempt node.retry.attempts && ltb 0 node.retry.backoff_ms) (λ _. one)
                (λ _. one))
            (λ _. one))

  module _ (w : World) (check : Check) (c : CheckSent check) (node : Node) where
    after_attempt-StepSent :
        (model : ModelRef) (attempt k : ℕ) (p : Progress) (s : Run) (got : Attempt)
        → Sent P f k s p.run
        → StepSent k s (after_attempt w check node model attempt p got)
    after_attempt-StepSent model attempt k p s timed_out one =
        Sent-more P f k (k + limit) (omega arith) one
    after_attempt-StepSent model attempt k p s unusable one = one
    after_attempt-StepSent model attempt k p s (answered o) one =
        after_answer-StepSent check k c node model attempt o (account w node o.usage p) s
          (record { added = one.added; made = one.made; each = one.each; few = one.few })

    after_shell_attempt-StepSent :
        (attempt k : ℕ) (p : Progress) (s : Run) (got : Attempt)
        → Sent P f k s p.run
        → StepSent k s (after_shell_attempt check node attempt p got)
    after_shell_attempt-StepSent attempt k p s timed_out one =
        Sent-more P f k (k + limit) (omega arith) one
    after_shell_attempt-StepSent attempt k p s unusable one = one
    after_shell_attempt-StepSent attempt k p s (answered o) one =
        if-intro (StepSent k s) o.success (λ _. Sent-trans P f k limit one (c _ o.output p.run))
          (λ _. one)

    -- The requests of this node's own calls of a model.
    abbrev pub Asks : Text → Type 0
    Asks model =
        (attempt : ℕ)
        → P (record { node_id = node.id; prompt = node.prompt; model = model; attempt = attempt })

    run_with_node_timeout-Sent :
        (model : Text) (attempt : ℕ) (s : Run)
        → Asks model
        → Sent P f
            (one_if (f model attempt))
            s
            (run_with_node_timeout w node node.prompt model attempt s).1
    unfolding run_with_node_timeout
    run_with_node_timeout-Sent model attempt s allowed = record {
      added = _ ∷ [];
      made = refl;
      each = (allowed attempt, tt);
      few = unfold tally in omega arith;
    }

    pub attempts_from-Sent :
        (model : Text) (once : ℕ → Progress → Step)
        → ((attempt : ℕ) (p : Progress)
            → StepSent (one_if (f model attempt)) p.run (once attempt p))
        → (left attempt : ℕ) (p : Progress)
        → AttemptsSent
            (attempts_limit f model left attempt)
            p.run
            (attempts_from once left attempt p)
    unfolding attempts_from attempts_limit
    attempts_from-Sent model once h zero attempt p = Sent-same P f 0 p.run p.run refl
    attempts_from-Sent model once h (suc left) attempt p =
        after_step-Sent (one_if (f model attempt)) (attempts_limit f model left (suc attempt))
          (λ p'. attempts_from once left (suc attempt) p')
          (λ p'. attempts_from-Sent model once h left (suc attempt) p') p.run (once attempt p)
          (h attempt p)

    pub attempt_once-StepSent :
        (model : ModelRef)
        → Asks model.name
        → (attempt : ℕ) (p : Progress)
        → StepSent (one_if (f model.name attempt)) p.run (attempt_once w check node model attempt p)
    unfolding attempt_once
    attempt_once-StepSent model asks attempt p =
        let (got, s) = run_with_node_timeout w node node.prompt model.name attempt p.run in
        after_attempt-StepSent model attempt _ (record p { last_attempt = attempt; run = s }) p.run
          got (run_with_node_timeout-Sent model.name attempt p.run asks)

    pub shell_attempt_once-StepSent :
        Asks []
        → (attempt : ℕ) (p : Progress)
        → StepSent (one_if (f [] attempt)) p.run (shell_attempt_once w check node attempt p)
    unfolding shell_attempt_once
    shell_attempt_once-StepSent asks attempt p =
        let (got, s) = run_with_node_timeout w node node.prompt [] attempt p.run in
        after_shell_attempt-StepSent attempt _ (record p { last_attempt = attempt; run = s }) p.run
          got (run_with_node_timeout-Sent [] attempt p.run asks)

    pub models_from-Sent :
        (allow_paid : Bool) (models : List ModelRef)
        → All (λ m. is_eligible allow_paid m ≡ true → Asks m.name) models
        → (first : Bool) (previous : Option Text) (p : Progress)
        → AttemptsSent
            (models_limit f allow_paid node.retry.attempts models)
            p.run
            (models_from w check allow_paid node models first previous p)
    unfolding models_from models_limit
    models_from-Sent allow_paid [] h first previous p = Sent-same P f 0 p.run p.run refl
    models_from-Sent allow_paid (m ∷ ms) h first previous p =
        elim (Bool-cases (is_eligible allow_paid m)) [
          | inl e ↦
              rw (e, skips_not m.paid allow_paid e, models_from)
                (after_model-Sent (attempts_limit f m.name node.retry.attempts 1)
                  (models_limit f allow_paid node.retry.attempts ms) _
                  (λ p'. models_from-Sent allow_paid ms h.1 false (some m.name) p') p.run _
                  (attempts_from-Sent m.name (attempt_once w check node m)
                    (attempt_once-StepSent m (h.0 e)) node.retry.attempts 1
                    (note (fallback_events first previous m) p)))
          | inr e ↦
              rw (e, skips m.paid allow_paid e, models_from)
                (models_from-Sent allow_paid ms h.1 first previous p)
        ]
      where
        skips_not : (paid allow : Bool) → (not paid || allow) ≡ true → (paid && not allow) ≡ false
        skips_not paid allow e = ground arith

        skips : (paid allow : Bool) → (not paid || allow) ≡ false → (paid && not allow) ≡ true
        skips paid allow e = ground arith

    pub finish-Sent :
        (k : ℕ) (s : Run) (a : Attempts)
        → AttemptsSent k s a
        → Sent P f (k + limit) s (finish node a).run
    finish-Sent k s (returned d) m = m
    finish-Sent k s (exhausted p) m = Sent-more P f k (k + limit) (omega arith) m
