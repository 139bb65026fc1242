-- ===== src/Scheduler/Dispatch/Done.antt =====
-- What stands behind a node that ends `Done`.
use pidag.Base.{
  ℕ, ◌≡◌, ◌⊎◌, refl, sym, Bool, true, false, Option, none, some, List, [], ◌∷◌, leb, inl, inr,
  subst,
}
use pidag.Text.{Text}
use pidag.Text.Trim.{trim_end_matches, is_whitespace}
use pidag.Text.Bytes.{truncate_at_char_boundary}
use pidag.Dag.{Verify, Node}
use pidag.Scheduler.{failed, NodeState}
use pidag.Scheduler.Outside.{
  World, Run, ProcessEnd, not_spawned, process_error, exited, DispatchEvent,
}
use pidag.Scheduler.Dispatch.{dispatch_with}
use pidag.Scheduler.Dispatch.Verification.{
  eval_verify, run_verify_pre, baseline_of, max_token, shell_timeout, checked_by, check_by,
  apply_verify_check, Baseline, captured, refused,
}
use pidag.Scheduler.Dispatch.Whole.{dispatch_behind, dispatch_after, dispatch_node}
use pidag.Scheduler.Dispatch.Settled.{IsDone, CheckSettles, dispatch_with-Settled}
use pidag.Scheduler.Dispatch.Proven.{IsShellPass, Proven, eval_verify_sound}

-- The token of a node with `verify_pre`: what that command, which succeeded in time, printed.
pub record IsToken (w : World) (node : Node) (command token : Text) : Type 0 where
  pub run : IsShellPass w node none command
  pub printed :
      token ≡ truncate_at_char_boundary (trim_end_matches is_whitespace run.stdout) max_token

abbrev pub IsBaseline : World → Node → Option Text → Option Text → Type 0
IsBaseline w node none token = token ≡ none
IsBaseline w node (some command) token = (t : Text) × (token ≡ some t) × IsToken w node command t

abbrev pub ProvenBy : (ℕ → Bool) → World → Node → Option Verify → Text → Option Text → Type 0
ProvenBy wide w node none output token = Unit
ProvenBy wide w node (some v) output token = Proven wide w node output token v

-- The output of a node passed its verification, behind its baseline.
pub record IsVerified (wide : ℕ → Bool) (w : World) (node : Node) (output : Text) : Type 0 where
  pub token : Option Text
  pub baseline : IsBaseline w node node.verify_pre token
  pub proven : ProvenBy wide w node node.verify output token

module _ (wide : ℕ → Bool) (w : World) (allow_paid : Bool) (node : Node) where
  checked_by-Settles :
      (Q : Text → Type 0) (state : NodeState) (output : Text) (events : List DispatchEvent)
      (s : Run) (reason : Option Text)
      → (reason ≡ none → Q output)
      → ((checked_by state output events s reason).state.state ≡ failed)
        ⊎ ((checked_by state output events s reason).state ≡ state) × Q output
  checked_by-Settles Q state output events s none h = inr (refl, h refl)
  checked_by-Settles Q state output events s (some reason) h = inl refl

  check_by-Settles :
      (token : Option Text) (v : Option Verify)
      → CheckSettles
          (λ output. ProvenBy wide w node v output token)
          (check_by wide w allow_paid node token v)
  check_by-Settles token none state output s = inr (refl, tt)
  check_by-Settles token (some v) state output s =
      let e = eval_verify wide w allow_paid node output token v s in
      checked_by-Settles (λ output. Proven wide w node output token v) state output e.events e.run
        e.reason (λ passed. eval_verify_sound wide w allow_paid node output token v s passed)

  apply_verify_check-Settles :
      (token : Option Text)
      → IsBaseline w node node.verify_pre token
      → CheckSettles (IsVerified wide w node) (apply_verify_check wide w allow_paid node token)
  unfolding apply_verify_check
  apply_verify_check-Settles token baseline state output s =
      elim (check_by-Settles token node.verify state output s) [
        | inl f ↦ inl f
        | inr (same_state, p) ↦
            inr (same_state, record { token = token; baseline = baseline; proven = p })
      ]

  abbrev Settled : NodeState → Type 0
  Settled state = (state.state ≡ failed) ⊎ IsDone (IsVerified wide w node) w node state

  dispatch_verified :
      (token : Option Text) (s : Run)
      → IsBaseline w node node.verify_pre token
      → Settled
          (dispatch_with w
            (apply_verify_check wide w allow_paid node token)
            allow_paid
            node
            s).state
  dispatch_verified token s baseline =
      dispatch_with-Settled (IsVerified wide w node) w
        (apply_verify_check wide w allow_paid node token)
        (apply_verify_check-Settles token baseline) node allow_paid s

  baseline_of-captured :
      (timely : Bool) (ended : ProcessEnd) (token : Text)
      → baseline_of timely ended ≡ captured token
      → (timely ≡ true)
        × (stdout stderr : Text) × (ended ≡ exited true stdout stderr)
        × (token ≡ truncate_at_char_boundary (trim_end_matches is_whitespace stdout) max_token)
  baseline_of-captured true (exited true stdout stderr) token h =
      (refl, stdout, stderr, refl, sym (cc h))
  baseline_of-captured true (exited false stdout []) token h = cc h
  baseline_of-captured true (exited false stdout (c ∷ stderr)) token h = cc h
  baseline_of-captured true (not_spawned message) token h = cc h
  baseline_of-captured true (process_error message) token h = cc h
  baseline_of-captured false (exited success stdout stderr) token h = cc h
  baseline_of-captured false (not_spawned message) token h = cc h
  baseline_of-captured false (process_error message) token h = cc h

  dispatch_behind-Settled :
      (b : Baseline) (s : Run)
      → ((token : Text) → b ≡ captured token → IsBaseline w node node.verify_pre (some token))
      → Settled (dispatch_behind wide w allow_paid node (b, s)).state
  dispatch_behind-Settled (captured token) s h = dispatch_verified (some token) s (h token refl)
  dispatch_behind-Settled (refused message) s h = inl refl

  captured-IsToken :
      (command : Text) (s : Run) (token : Text)
      → (run_verify_pre w command (shell_timeout node) s).0 ≡ captured token
      → IsToken w node command token
  unfolding run_verify_pre
  captured-IsToken command s token h =
      let process = w.shell s.clock command none in
      let (punctual, stdout, stderr, success, printed) =
        baseline_of-captured (leb process.took (shell_timeout node)) process.ended token h in
      record {
        run = record {
          clock = s.clock;
          stdout = stdout;
          stderr = stderr;
          success = success;
          punctual = punctual;
        };
        printed = printed;
      }

  dispatch_after-Settled :
      (pre : Option Text) (s : Run)
      → node.verify_pre ≡ pre
      → Settled (dispatch_after wide w allow_paid node pre s).state
  dispatch_after-Settled none s e =
      dispatch_verified none s (subst (λ pre. IsBaseline w node pre none) (sym e) refl)
  dispatch_after-Settled (some command) s e =
      let (baseline, s') = run_verify_pre w command (shell_timeout node) s in
      dispatch_behind-Settled baseline s' (λ token h.
        subst (λ pre. IsBaseline w node pre (some token)) (sym e)
          (token, refl, captured-IsToken command s token h))

  -- Whatever the worker, the shell and the other tasks do, a dispatch ends `Failed`, or it ends `Done`
  -- with the output of a worker's success: that came in time, holds the text that `validate` asks for
  -- unless the node has no models, and passed the node's `verify`, every arm of it, behind a
  -- `verify_pre` that succeeded.
  pub dispatch_node-IsDone :
      (s : Run)
      → ((dispatch_node wide w allow_paid node s).state.state ≡ failed)
        ⊎ IsDone (IsVerified wide w node) w node (dispatch_node wide w allow_paid node s).state
  unfolding dispatch_node
  dispatch_node-IsDone s = dispatch_after-Settled node.verify_pre s refl
