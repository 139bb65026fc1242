-- ===== src/Scheduler/Awaiting/HandsOut.antt =====
-- `wait_any` hands out each terminal node once.
use pidag.Base.{
  ◌≡◌, refl, subst, ◌∙◌, Bool, true, false, Option, none, some, List, [], ◌∷◌, length, is_some,
  if◌then◌else◌, All, All-map, arith,
}
use pidag.Text.{Text, same_refl, contains, distinct}
use pidag.Scheduler.{NodeState}
use pidag.Scheduler.Awaiting.{
  RunReport, Snapshot, AwaitOutcome, next_terminal_node, whole_outcome, status_of, artifact_of, one,
  whole, still_running,
}
use pidag.Scheduler.Awaiting.Transitions.{
  record_all, empty_snapshot, first_ids, last_state, unfinished, contains-first_ids,
  record_all-order, record_all-state,
}
use pidag.Map.{lookup}
use mathlib.Core.Option
use pidag.Scheduler.Awaiting.Calls.{hand_out, outcomes, record_all-distinct, hand_out_once}

-- The outcome that a node with this state has, if it has one.
abbrev pub outcome_at : List Text → Text → Option NodeState → Option AwaitOutcome
outcome_at running id none = none
outcome_at running id (some s) = some (one id s.state s.output running)

-- The outcomes of these nodes behind the transitions.
pub expected : List Text → List (Text × NodeState) → List Text → List (Option AwaitOutcome)
expected all_node_ids transitions [] = []
expected all_node_ids transitions (id ∷ ids) =
    outcome_at (unfinished transitions all_node_ids) id (last_state id transitions)
    ∷ expected all_node_ids transitions ids

-- The outcome behind all nodes.
abbrev pub last_outcome : Bool → Option RunReport → Option AwaitOutcome
last_outcome dag_done report = if dag_done then Option.map whole report else none

outcome_known :
    (running : List Text) (id : Text) (o : Option NodeState)
    → is_some o ≡ true
    → some (one id (status_of o) (artifact_of o) running) ≡ outcome_at running id o
outcome_known running id none h = absurd (ground arith)
outcome_known running id (some s) h = refl

last_outcome-whole :
    (dag_done : Bool) (report : Option RunReport)
    → whole_outcome dag_done report ≡ last_outcome dag_done report
last_outcome-whole true none = refl
last_outcome-whole true (some report) = refl
last_outcome-whole false report = refl

still_running-unfinished :
    (transitions : List (Text × NodeState)) (ids : List Text)
    → still_running (first_ids transitions) ids ≡ unfinished transitions ids
unfolding still_running unfinished
still_running-unfinished transitions [] = refl
still_running-unfinished transitions (id ∷ ids) =
    ground (arith, still_running-unfinished transitions ids, contains-first_ids id transitions)

All-contains : (ids : List Text) → All (λ id. contains ids id ≡ true) ids
unfolding contains
All-contains [] = tt
All-contains (id ∷ ids) = (
  ground (arith, same_refl id),
  All-map (λ u. contains ids u ≡ true) (λ u. contains (id ∷ ids) u ≡ true) (λ u h. ground arith) ids
      (All-contains ids),
)

module _ (all_node_ids : List Text) (transitions : List (Text × NodeState)) (snap : Snapshot) where
  outcomes-expected :
      snap.terminal_order ≡ first_ids transitions
      → ((id : Text) → lookup id snap.node_state ≡ last_state id transitions)
      → (ids : List Text) → All (λ id. contains (first_ids transitions) id ≡ true) ids
      → outcomes all_node_ids snap ids ≡ expected all_node_ids transitions ids
  unfolding expected
  outcomes-expected order state [] h = refl
  outcomes-expected order state (id ∷ ids) h =
      let head =
        outcome_known (unfinished transitions all_node_ids) id (last_state id transitions)
          (ground (arith, h.0, contains-first_ids id transitions)) in
      rw (state id, order, still_running-unfinished transitions all_node_ids)
        (cc (head, outcomes-expected order state ids h.1))

-- On the snapshot behind any sequence of terminal transitions, repeated ones among them, calls of
-- `wait_any` hand out each node of these transitions once, in the order of their first transitions,
-- with the state and the output of its last one, and with the nodes that had none as the running
-- ones, no node twice; the next call returns the report, if the run is done and has one.
pub wait_any_hands_out :
    (all_node_ids : List Text) (transitions : List (Text × NodeState)) (dag_done : Bool)
    (report : Option RunReport)
    → let snap : Snapshot = record (record_all transitions empty_snapshot) {
      dag_done = dag_done;
      report = report;
    } in
      let calls = hand_out (length (first_ids transitions)) all_node_ids snap [] in
      (calls.0 ≡ expected all_node_ids transitions (first_ids transitions))
      × ((next_terminal_node all_node_ids snap calls.1).0 ≡ last_outcome dag_done report)
      × (distinct (first_ids transitions) ≡ true)
unfolding distinct
wait_any_hands_out all_node_ids transitions dag_done report =
    let snap : Snapshot = record (record_all transitions empty_snapshot) {
      dag_done = dag_done;
      report = report;
    } in
    let order = record_all-order transitions in
    let d = record_all-distinct transitions empty_snapshot refl in
    let (handed, last) =
      subst
        (λ k.
          ((hand_out (length k) all_node_ids snap []).0 ≡ outcomes all_node_ids snap k)
          × ((next_terminal_node all_node_ids snap (hand_out (length k) all_node_ids snap []).1).0
              ≡ whole_outcome dag_done report))
        order (hand_out_once all_node_ids snap d) in
    (
      handed
          ∙ outcomes-expected all_node_ids transitions snap order
              (λ id. record_all-state id transitions) (first_ids transitions)
              (All-contains (first_ids transitions)),
      last ∙ last_outcome-whole dag_done report,
      subst (λ k. distinct k ≡ true) order d,
    )
