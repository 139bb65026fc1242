-- ===== src/Scheduler/Dispatch/Limits.antt =====
-- A whole dispatch keeps to the models it may ask, and to the attempts it may make.
use pidag.Base.{
  ℕ, ◌+◌, ◌≡◌, ◌⊎◌, refl, Bool, true, ◌&&◌, ◌||◌, Option, none, some, List, [], ◌∷◌, ◌++◌, any, All,
  All-map, arith, inl, inr,
}
use pidag.Text.{Text, same, same_refl}
use pidag.Dag.{ModelRef, Verify, Node}
use pidag.Scheduler.{NodeState}
use pidag.Scheduler.Outside.{World, Run, Request, DispatchEvent}
use pidag.Scheduler.Dispatch.{dispatch_with}
use pidag.Scheduler.Dispatch.Verification.{
  is_eligible, eval_verify, run_verify_pre, checked_by, check_by, apply_verify_check, captured,
  refused, Baseline, shell_timeout,
}
use pidag.Scheduler.Dispatch.Whole.{dispatch_behind, dispatch_after, dispatch_node}
use pidag.Scheduler.Dispatch.Added.{Calls, Sent, Sent-same, Sent-from}
use pidag.Scheduler.Dispatch.Sent.{CheckSent}
use pidag.Scheduler.Dispatch.Requests.{
  own_limit, verify_limit, critic_models, Critics, eval_verify-Sent, dispatch_with-Sent,
}

-- A model of that name which is free, or which may be paid for.
abbrev pub offered : Bool → List ModelRef → Text → Bool
offered allow_paid models name = any (λ m. is_eligible allow_paid m && same m.name name) models

abbrev pub models_of : Option Verify → List ModelRef
models_of none = []
models_of (some v) = critic_models v

abbrev pub limit_of : Calls → Bool → ℕ → Option Verify → ℕ
limit_of f allow_paid attempts none = 0
limit_of f allow_paid attempts (some v) = verify_limit f allow_paid attempts v

-- A request for an eligible model of the node or of its critics, or for none where it has no models.
abbrev pub IsAllowed : Bool → Node → Request → Type 0
IsAllowed allow_paid node q =
    (offered allow_paid (node.models ++ models_of node.verify) q.model ≡ true)
    ⊎ (node.models ≡ []) × (q.model ≡ [])

abbrev pub request_limit : Calls → Bool → Node → ℕ
request_limit f allow_paid node =
    own_limit f allow_paid node.retry.attempts node.node_type node.models
    + limit_of f allow_paid node.retry.attempts node.verify

offered-append :
    (allow_paid : Bool) (xs ys : List ModelRef) (name : Text)
    → offered allow_paid (xs ++ ys) name
      ≡ (offered allow_paid xs name || offered allow_paid ys name)
offered-append allow_paid [] ys name = refl
offered-append allow_paid (x ∷ xs) ys name = ground (arith, offered-append allow_paid xs ys name)

offered_self :
    (allow_paid : Bool) (ms : List ModelRef)
    → All (λ m. is_eligible allow_paid m ≡ true → offered allow_paid ms m.name ≡ true) ms
offered_self allow_paid [] = tt
offered_self allow_paid (m ∷ ms) = (
  λ e. ground (arith, same_refl m.name),
  All-map _ _ (λ x h e. ground (arith, h e)) ms (offered_self allow_paid ms),
)

module _ (wide : ℕ → Bool) (w : World) (allow_paid : Bool) (node : Node) (f : Calls) where
  abbrev Allowed : Request → Type 0
  Allowed = IsAllowed allow_paid node

  own_offered :
      All
        (λ m.
          is_eligible allow_paid m ≡ true
          → offered allow_paid (node.models ++ models_of node.verify) m.name ≡ true)
        node.models
  own_offered =
      All-map _ _
        (λ m h e.
          ground (arith, h e, offered-append allow_paid node.models (models_of node.verify) m.name))
        node.models (offered_self allow_paid node.models)

  critics_offered :
      All
        (λ m.
          is_eligible allow_paid m ≡ true
          → offered allow_paid (node.models ++ models_of node.verify) m.name ≡ true)
        (models_of node.verify)
  critics_offered =
      All-map _ _
        (λ m h e.
          ground (arith, h e, offered-append allow_paid node.models (models_of node.verify) m.name))
        (models_of node.verify) (offered_self allow_paid (models_of node.verify))

  checked_by-Sent :
      (limit : ℕ) (state : NodeState) (output : Text) (events : List DispatchEvent) (s t : Run)
      (reason : Option Text)
      → Sent Allowed f limit s t
      → Sent Allowed f limit s (checked_by state output events t reason).run
  checked_by-Sent limit state output events s t none m = m
  checked_by-Sent limit state output events s t (some reason) m = m

  check_by-CheckSent :
      (token : Option Text) (v : Option Verify)
      → Critics Allowed f wide w allow_paid node (models_of v)
      → CheckSent Allowed f
          (limit_of f allow_paid node.retry.attempts v)
          (check_by wide w allow_paid node token v)
  check_by-CheckSent token none h state output s = Sent-same Allowed f 0 s s refl
  check_by-CheckSent token (some v) h state output s =
      let e = eval_verify wide w allow_paid node output token v s in
      checked_by-Sent _ state output e.events s e.run e.reason
        (eval_verify-Sent Allowed f wide w allow_paid node output token v s h)

  apply_verify_check-CheckSent :
      (token : Option Text)
      → CheckSent Allowed f
          (limit_of f allow_paid node.retry.attempts node.verify)
          (apply_verify_check wide w allow_paid node token)
  unfolding apply_verify_check
  apply_verify_check-CheckSent token =
      check_by-CheckSent token node.verify
        (All-map _ _ (λ m h e prompt attempt. inl (h e)) (models_of node.verify) critics_offered)

  dispatch_checked :
      (token : Option Text) (s : Run)
      → Sent Allowed f
          (request_limit f allow_paid node)
          s
          (dispatch_with w (apply_verify_check wide w allow_paid node token) allow_paid node s).run
  dispatch_checked token s =
      dispatch_with-Sent Allowed f _ w (apply_verify_check wide w allow_paid node token)
        (apply_verify_check-CheckSent token) node allow_paid s
        (All-map _ _ (λ m h e attempt. inl (h e)) node.models own_offered)
        (λ no none_left attempt. inr (none_left, refl))

  dispatch_behind-Sent :
      (b : Baseline) (s : Run)
      → Sent Allowed f
          (request_limit f allow_paid node)
          s
          (dispatch_behind wide w allow_paid node (b, s)).run
  dispatch_behind-Sent (captured token) s = dispatch_checked (some token) s
  dispatch_behind-Sent (refused message) s = Sent-same Allowed f _ s s refl

  dispatch_after-Sent :
      (pre : Option Text) (s : Run)
      → Sent Allowed f
          (request_limit f allow_paid node)
          s
          (dispatch_after wide w allow_paid node pre s).run
  unfolding run_verify_pre
  dispatch_after-Sent none s = dispatch_checked none s
  dispatch_after-Sent (some command) s =
      let (baseline, s') = run_verify_pre w command (shell_timeout node) s in
      Sent-from Allowed f _ s s' refl (dispatch_behind-Sent baseline s')

  -- Whatever the worker, the shell and the other tasks do, a dispatch asks the worker only for models
  -- of the node and of its critics that are free or may be paid for, or for no model where the node
  -- has none. Each of these models is asked at most once for each attempt from 1 to the number of
  -- attempts of the node, as often as the node and its critics list it: of any set `f` of models and
  -- attempts, no more requests are sent than these calls have in the set.
  pub dispatch_node-Sent :
      (s : Run)
      → Sent
          (IsAllowed allow_paid node)
          f
          (request_limit f allow_paid node)
          s
          (dispatch_node wide w allow_paid node s).run
  unfolding dispatch_node
  dispatch_node-Sent s = dispatch_after-Sent node.verify_pre s
