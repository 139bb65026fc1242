-- ===== src/Loop/Returns.antt =====
-- What a task returns.
use pidag.Base.{◌≡◌, ap, ◌∙◌, inl, inr, ℕ, Bool, true, false, if◌then◌else◌, arith}
use pidag.Scheduler.Verdict.{compute_quorum}
use pidag.Scheduler.Outside.{World, Run}
use pidag.Scheduler.Dispatch.Whole.{dispatch_node}
use pidag.Scheduler.Dispatch.Done.{dispatch_node-IsDone}
use pidag.Loop.{Task}
use pidag.Loop.Drain.{is_quorum}
use pidag.Loop.Settle.{Outcome, is_end}
use pidag.Loop.Whole.{IsOutcome, quorum_outcome, dispatch_outcome}

compute_quorum_ends :
    (wide : ℕ → Bool) (t : Task) → is_end (compute_quorum wide t.node t.seen).state ≡ true
unfolding compute_quorum
compute_quorum_ends wide t = ground arith

dispatch_node_ends :
    (wide : ℕ → Bool) (w : World) (allow_paid : Bool) (t : Task) (s : Run)
    → is_end (dispatch_node wide w allow_paid t.node s).state.state ≡ true
dispatch_node_ends wide w allow_paid t s = elim (dispatch_node-IsDone wide w allow_paid t.node s) [
  | inl f ↦ ap is_end f
  | inr d ↦ ap is_end d.finished
]

outcome_ends_by :
    (wide : ℕ → Bool) (allow_paid : Bool) (t : Task) (o : Outcome) (quorum : Bool)
    → (if quorum
        then o ≡ quorum_outcome wide t
        else (w : World) × (s : Run) × (o
            ≡ dispatch_outcome t (dispatch_node wide w allow_paid t.node s)))
    → is_end o.state.state ≡ true
outcome_ends_by wide allow_paid t o true e =
    ap (λ (o' : Outcome). is_end o'.state.state) e ∙ compute_quorum_ends wide t
outcome_ends_by wide allow_paid t o false (w, s, e) =
    ap (λ (o' : Outcome). is_end o'.state.state) e ∙ dispatch_node_ends wide w allow_paid t s

-- A task returns a state that is `Done` or `Failed`.
pub outcome_ends :
    (wide : ℕ → Bool) (allow_paid : Bool) (t : Task) (o : Outcome)
    → IsOutcome wide allow_paid t o
    → is_end o.state.state ≡ true
outcome_ends wide allow_paid t o h =
    outcome_ends_by wide allow_paid t o (is_quorum t.node.node_type) h
