-- ===== src/Loop/Depends.antt =====
-- In a graph without gates, a node is spawned only when every node it depends on is `Done`.
use pidag.Base.{
  ◌||◌, not, refl, get_or, ◌≤◌, ◌≡◌, ap, ◌∙◌, Bool, true, false, List, [], ◌∷◌, All, arith,
  if◌then◌else◌, if-intro,
}
use pidag.Text.{Text, same_iff, same_refl, contains}
use pidag.Map.{Map, insert, lookup-insert}
use pidag.Dag.{Dag, node_ids}
use pidag.Scheduler.{NodeStatus, pending, running, done, failed, blocked, is_done, NodeState}
use pidag.Loop.{node_dispatched, Plan, Board, entries, emit}
use pidag.Loop.Build.{plan_of}
use pidag.Loop.Settle.{Outcome, pass_all, is_end, record_end, record_return, report_events, settle}
use pidag.Loop.Count.{count}
use pidag.Loop.Index.{count-reverse_index}
use pidag.Loop.Quiet.{Quiet, quiet, report_events-Quiet, report_state-Quiet}
use pidag.Loop.Missing.{
  is_done_in, is_done_in-insert, missing-insert, is_lost_status, is_lost_in, is_lost_in-insert,
  lost-le-insert, lost-settled, is_settled_in,
}
use pidag.Loop.Waits.{deps_in, Waiting, release_all-Waiting, release_all_states, Quiet-states}
use pidag.Loop.Ungated.{IsUngated, AllWaiting, pass_failed-Waiting, pass_done-Waiting}

unsettled-unlost :
    (states : Map NodeState) (t : Text) (s : NodeState)
    → is_settled_in states t ≡ false
    → (is_lost_status s.state || not (is_lost_in states t)) ≡ true
unsettled-unlost states t s h = ground (arith, h, lost-settled states t)

ended_status : (s : NodeStatus) → is_end s ≡ true → is_done s ≡ false → is_lost_status s ≡ true
ended_status pending e f = ground (arith, e)
ended_status running e f = refl
ended_status done e f = ground (arith, f)
ended_status failed e f = refl
ended_status blocked e f = refl

-- The nodes to count down when a node ends.
abbrev to_lower : Bool → List Text → List Text
to_lower true dependents = dependents
to_lower false dependents = []

Quiet-AllWaiting :
    (plan : Plan) (left tasks : List Text) {b c : Board}
    → Quiet b c
    → AllWaiting plan left tasks b
    → AllWaiting plan left tasks c
Quiet-AllWaiting plan left tasks (quiet _ _ _ _ _) h = h

module _ (dag : Dag) (tasks : List Text) (t : Text) (o : Outcome) where
  abbrev dependents : List Text
  dependents = entries t (plan_of dag).dependents

  joined-undone :
      (b : Board)
      → Waiting (plan_of dag) t [] b.ready (t ∷ tasks) b
      → is_done_in b.node_state t ≡ false
  unfolding count
  joined-undone b h = ground (arith, h.single, same_refl t)

  joined-unsettled :
      (b : Board)
      → Waiting (plan_of dag) t [] b.ready (t ∷ tasks) b
      → is_settled_in b.node_state t ≡ false
  unfolding count
  joined-unsettled b h = ground (arith, h.unsettled, same_refl t)

  -- The state of the joined node is written.
  mark-Waiting :
      (x : Text) (b : Board)
      → contains (node_ids dag.nodes) t ≡ true
      → is_done_in b.node_state t ≡ false
      → Waiting (plan_of dag) t [] b.ready (t ∷ tasks) b
      → Waiting (plan_of dag) x [] b.ready (t ∷ tasks) b
      → Waiting
          (plan_of dag)
          x
          (to_lower (is_done o.state.state) dependents)
          b.ready
          tasks
          (record b { node_state = insert t o.state b.node_state })
  unfolding count plan_of
  mark-Waiting x b known u own h =
      let deps = deps_in (plan_of dag) x in
      let turned = count-reverse_index (λ n. n.depends_on) x t dag.nodes known in
      let pending_before : is_settled_in b.node_state t ≡ false = joined-unsettled b own in
      let more =
        lost-le-insert b.node_state t o.state deps
          (unsettled-unlost b.node_state t o.state pending_before) in
      record {
        single = ground (arith, h.single, is_done_in-insert b.node_state t x o.state, same_iff t x);
        waits = ground (arith, h.waits, missing-insert b.node_state t o.state deps u, turned);
        released = h.released;
        unsettled = λ e. ground (
          arith,
          e,
          h.single,
          h.unsettled,
          own.single,
          same_iff t x,
          same_refl t,
          lookup-insert t x o.state b.node_state,
        );
        held = λ e q. ground (
          arith,
          e,
          q,
          h.held,
          own.single,
          more,
          same_iff t x,
          same_refl t,
          lookup-insert t x o.state b.node_state,
        );
      }

  record_return-Waiting :
      (b : Board)
      → contains (node_ids dag.nodes) t ≡ true
      → AllWaiting (plan_of dag) [] (t ∷ tasks) b
      → AllWaiting
          (plan_of dag)
          (to_lower (is_done o.state.state) dependents)
          tasks
          (record_return t o b)
  unfolding record_return
  record_return-Waiting b known h =
      let plan = plan_of dag in
      let b' =
        report_events t o.dispatch_events
          (emit (node_dispatched t (get_or o.task_model []) o.task_attempt) b) in
      let h' : AllWaiting plan [] (t ∷ tasks) b' =
        Quiet-AllWaiting plan [] (t ∷ tasks) (report_events-Quiet t o.dispatch_events _) h in
      λ x. mark-Waiting x b' known (joined-undone b' (h' t)) (h' t) (h' x)

  record_end-Waiting :
      (left : List Text) (b : Board)
      → AllWaiting (plan_of dag) left tasks b
      → AllWaiting (plan_of dag) left tasks (record_end (plan_of dag) t o b)
  record_end-Waiting left b h =
      let plan = plan_of dag in
      let h' = Quiet-AllWaiting plan left tasks (report_state-Quiet t o b) h in
      λ x. release_all-Waiting plan x left tasks (entries t plan.after_dependents) _ (h' x)

  record_end_states : (b : Board) → (record_end (plan_of dag) t o b).node_state ≡ b.node_state
  record_end_states b =
      release_all_states (entries t (plan_of dag).after_dependents) _
      ∙ Quiet-states (report_state-Quiet t o b)

  record_return-lost :
      (b : Board) → is_lost_in (record_return t o b).node_state t ≡ is_lost_status o.state.state
  unfolding record_return
  record_return-lost b = rw (is_lost_in-insert _ t t o.state, same_refl t)

  -- Each dependent of the node has it among its edges.
  dependents_depend :
      (l : List Text)
      → ((g : Text) → count g l ≤ count t (deps_in (plan_of dag) g))
      → All (λ g. 1 ≤ count t (deps_in (plan_of dag) g)) l
  unfolding count
  dependents_depend [] h = tt
  dependents_depend (g ∷ l) h =
      (ground (arith, h g, same_refl g), dependents_depend l (λ g'. omega (arith, h g')))

  -- The board before the dependents are visited.
  abbrev ended : Board → Board
  ended b = if is_end o.state.state then record_end (plan_of dag) t o b else b

  ended-Waiting :
      (b : Board)
      → contains (node_ids dag.nodes) t ≡ true
      → AllWaiting (plan_of dag) [] (t ∷ tasks) b
      → AllWaiting
          (plan_of dag)
          (to_lower (is_done o.state.state) dependents)
          tasks
          (ended (record_return t o b))
  ended-Waiting b known h =
      let left = to_lower (is_done o.state.state) dependents in
      let returned = record_return-Waiting b known h in
      if-intro (AllWaiting (plan_of dag) left tasks) (is_end o.state.state)
        (λ e. record_end-Waiting left (record_return t o b) returned) (λ e. returned)

  ended-lost :
      (b : Board)
      → is_lost_in (ended (record_return t o b)).node_state t ≡ is_lost_status o.state.state
  ended-lost b =
      if-intro (λ (c : Board). is_lost_in c.node_state t ≡ is_lost_status o.state.state)
        (is_end o.state.state)
        (λ e.
          ap (λ m. is_lost_in m t) (record_end_states (record_return t o b)) ∙ record_return-lost b)
        (λ e. record_return-lost b)

  pass_all-Waiting :
      (passed : Bool) (b : Board)
      → IsUngated (plan_of dag)
      → contains (node_ids dag.nodes) t ≡ true
      → AllWaiting (plan_of dag) (to_lower passed dependents) tasks b
      → (passed ≡ false → is_lost_in b.node_state t ≡ true)
      → AllWaiting (plan_of dag) [] tasks (pass_all (plan_of dag) t passed dependents b)
  unfolding plan_of
  pass_all-Waiting true b ungated known h e =
      pass_done-Waiting (plan_of dag) tasks t ungated dependents b h
  pass_all-Waiting false b ungated known h e =
      pass_failed-Waiting (plan_of dag) tasks t ungated dependents b h (e refl) (
        dependents_depend dependents
          (λ g. omega (arith, count-reverse_index (λ n. n.depends_on) g t dag.nodes known)))

  pub settle-Waiting :
      (b : Board)
      → IsUngated (plan_of dag)
      → contains (node_ids dag.nodes) t ≡ true
      → is_end o.state.state ≡ true
      → AllWaiting (plan_of dag) [] (t ∷ tasks) b
      → AllWaiting (plan_of dag) [] tasks (settle (plan_of dag) t o b)
  unfolding settle
  settle-Waiting b ungated known finished h =
      pass_all-Waiting (is_done o.state.state) (ended (record_return t o b)) ungated known
        (ended-Waiting b known h) (λ f. ended-lost b ∙ ended_status o.state.state finished f)
