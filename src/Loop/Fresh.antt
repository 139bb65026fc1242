-- ===== src/Loop/Fresh.antt =====
-- The runs of a graph without gates and without a checkpoint.
use pidag.Base.{
  if-intro, ℕ, ◌+◌, ◌≤◌, ◌≡◌, refl, ap, ◌∙◌, sym, subst, Bool, true, false, Option, none, some,
  List, [], ◌∷◌, ◌++◌, All, arith, Bool-cases, inl, inr,
}
use pidag.Text.{Text, same, same_refl, contains}
use pidag.Map.{Map, lookup}
use pidag.Error.{ok}
use pidag.Dag.{Node, Dag, find_node, get_node, node_ids}
use pidag.Scheduler.{NodeState}
use pidag.Scheduler.Budget.{new_budget, BudgetLimits}
use pidag.Scheduler.Budget.Ceilings.{Op}
use pidag.Loop.{Plan, Task, Board, is_gated_on, is_gated_by}
use pidag.Loop.Build.{initial_states, initial_degrees, plan_of}
use pidag.Loop.Seed.{fill_ready, apply_checkpoint}
use pidag.Loop.Drain.{drain}
use pidag.Loop.Settle.{Outcome, settle}
use pidag.Loop.Whole.{
  IsOutcome, budget_of, Step, task_returns, task_panics, Rounds, here, next, joined, start,
  fresh_board, seeded_board,
}
use pidag.Loop.Count.{count, contains-le-count}
use pidag.Loop.Index.{gathered, degree-initial_degrees}
use pidag.Loop.Drained.{drain-Drained}
use pidag.Loop.Once.{IsOnce}
use pidag.Loop.Start.{initial_degrees-Keyed, nodes-IsKnown, seeded_board-IsOnce}
use pidag.Loop.Runs.{run-IsOnce, Rounds-IsOnce, start-eq-ok}
use pidag.Loop.Missing.{is_done_in, is_settled_in, missing}
use pidag.Loop.Waits.{deps_in, Waiting, task_ids}
use pidag.Loop.Ungated.{IsUngated, AllWaiting}
use pidag.Loop.Spawns.{
  initial_states-unsettled, unsettled-undone, missing-undone, ready_ids_degree, joined_count,
  Spawned, Drained-Waiting, settle_tasks,
}
use pidag.Loop.Returns.{outcome_ends}
use pidag.Loop.Depends.{settle-Waiting}

pub count-contains : (x : Text) (l : List Text) → 1 ≤ count x l → contains l x ≡ true
unfolding count contains
count-contains x [] h = absurd (omega arith)
count-contains x (y ∷ l) h = ground (arith, count-contains x l)

joined-Waiting :
    (plan : Plan) (x : Text) (b : Board) (before after : List Task) (t : Task) (ops : List Op)
    → b.task_set ≡ before ++ t ∷ after
    → Waiting plan x [] b.ready (task_ids b.task_set) b
    → Waiting plan x [] b.ready
        (t.node_id ∷ task_ids (before ++ after))
        (joined (before ++ after) ops b)
joined-Waiting plan x b before after t ops e h =
    let moved : count x (task_ids b.task_set) ≡ count x (t.node_id ∷ task_ids (before ++ after)) =
      ap (λ ts. count x (task_ids ts)) e ∙ joined_count x before after t in
    record {
      single = subst (Spawned plan x b.ready b) moved h.single;
      waits = h.waits;
      released = h.released;
      unsettled = λ u. omega (arith, h.unsettled u, moved);
      held = h.held;
    }

task_known :
    (dag : Dag) (b : Board) (before after : List Task) (t : Task)
    → b.task_set ≡ before ++ t ∷ after
    → IsOnce (node_ids dag.nodes) t.node_id b.ready b
    → Waiting (plan_of dag) t.node_id [] b.ready (task_ids b.task_set) b
    → contains (node_ids dag.nodes) t.node_id ≡ true
unfolding count
task_known dag b before after t e once waiting =
    let x = t.node_id in
    let moved : count x (task_ids b.task_set) ≡ count x (x ∷ task_ids (before ++ after)) =
      ap (λ ts. count x (task_ids ts)) e ∙ joined_count x before after t in
    count-contains x (node_ids dag.nodes)
      (ground (arith, waiting.single, once.counted, once.known, moved, same_refl x))

abbrev pub IsSound : Dag → Board → Type 0
IsSound dag b = AllWaiting (plan_of dag) [] (task_ids b.task_set) b

drain-IsSound : (dag : Dag) (b : Board) → IsSound dag b → IsSound dag (drain (plan_of dag) b)
drain-IsSound dag b h =
    λ x. Drained-Waiting (plan_of dag) x b.ready b _ (drain-Drained (plan_of dag) b) (h x)

-- The boards behind a joined task, before the queue is emptied.
pub returned-IsSound :
    (wide : ℕ → Bool) (allow_paid : Bool) (dag : Dag) (b : Board) (before after : List Task)
    (t : Task) (o : Outcome) (ops : List Op)
    → b.task_set ≡ before ++ t ∷ after
    → IsOutcome wide allow_paid t o
    → IsUngated (plan_of dag)
    → ((x : Text) → IsOnce (node_ids dag.nodes) x b.ready b)
    → IsSound dag b
    → IsSound dag (settle (plan_of dag) t.node_id o (joined (before ++ after) ops b))
returned-IsSound wide allow_paid dag b before after t o ops e ends ungated once h =
    let plan = plan_of dag in
    let b' = joined (before ++ after) ops b in
    let known = task_known dag b before after t e (once t.node_id) (h t.node_id) in
    let settled =
      settle-Waiting dag (task_ids (before ++ after)) t.node_id o b' ungated known
        (outcome_ends wide allow_paid t o ends)
        (λ x. joined-Waiting plan x b before after t ops e (h x)) in
    subst (λ ts. AllWaiting plan [] (task_ids ts) (settle plan t.node_id o b'))
      (sym (settle_tasks plan t.node_id o b')) settled

pub panicked-IsSound :
    (dag : Dag) (b : Board) (before after : List Task) (t : Task) (ops : List Op)
    → b.task_set ≡ before ++ t ∷ after
    → IsSound dag b
    → IsSound dag (joined (before ++ after) ops b)
unfolding count
panicked-IsSound dag b before after t ops e h = λ x.
    let j = joined-Waiting (plan_of dag) x b before after t ops e (h x) in
    record {
      single = ground (arith, j.single);
      waits = j.waits;
      released = j.released;
      unsettled = λ u. ground (arith, j.unsettled u);
      held = j.held;
    }

Step-IsSound :
    (wide : ℕ → Bool) (allow_paid : Bool) (dag : Dag) (b c : Board)
    → IsUngated (plan_of dag)
    → Step wide allow_paid (plan_of dag) b c
    → ((x : Text) → IsOnce (node_ids dag.nodes) x b.ready b)
    → IsSound dag b
    → IsSound dag c
Step-IsSound wide allow_paid dag b c ungated (task_returns before after t o ops e ends e') once h =
    subst (IsSound dag) (sym e') (
      drain-IsSound dag _
        (returned-IsSound wide allow_paid dag b before after t o ops e ends ungated once h))
Step-IsSound wide allow_paid dag b c ungated (task_panics before after t ops e e') once h =
    subst (IsSound dag) (sym e')
      (drain-IsSound dag _ (panicked-IsSound dag b before after t ops e h))

pub Rounds-IsSound :
    (wide : ℕ → Bool) (allow_paid : Bool) (dag : Dag) (b : Board) {n : ℕ} {c : Board}
    → IsUngated (plan_of dag)
    → Rounds wide allow_paid (plan_of dag) b n c
    → ((x : Text) → IsOnce (node_ids dag.nodes) x b.ready b)
    → IsSound dag b
    → IsSound dag c
Rounds-IsSound wide allow_paid dag b ungated here once h = h
Rounds-IsSound wide allow_paid dag b ungated (next rounds step) once h =
    Step-IsSound wide allow_paid dag _ _ ungated step
      (λ x. Rounds-IsOnce wide allow_paid (plan_of dag) b (node_ids dag.nodes) x rounds (once x))
      (Rounds-IsSound wide allow_paid dag b ungated rounds once h)

-- The first board, without a checkpoint.
pub seeded_board-IsSound :
    (dag : Dag) (limits : BudgetLimits) → IsSound dag (seeded_board dag none limits)
unfolding seeded_board fill_ready apply_checkpoint fresh_board initial_states count lookup
    is_done_in plan_of
seeded_board-IsSound dag limits x =
    let once = seeded_board-IsOnce dag none limits x in
    let b = fresh_board dag (new_budget (budget_of none) limits) in
    let fresh : (y : Text) → is_settled_in (initial_states dag.nodes) y ≡ false =
      λ y. initial_states-unsettled dag.nodes [] y refl in
    let undone : (y : Text) → is_done_in (initial_states dag.nodes) y ≡ false =
      λ y. unsettled-undone (initial_states dag.nodes) y (fresh y) in
    let keyed = initial_degrees-Keyed (node_ids dag.nodes) x dag.nodes (nodes-IsKnown dag.nodes) in
    record {
      single = ground (arith, once.once, undone x);
      waits = ground (
        arith,
        degree-initial_degrees x dag.nodes,
        missing-undone (initial_states dag.nodes) (deps_in (plan_of dag) x) undone,
      );
      released = λ r. ready_ids_degree b (initial_degrees dag.nodes) x (ground (arith, keyed)) r;
      unsettled = λ e. absurd (ground (arith, e, fresh x));
      held = λ e f. absurd (ground (arith, e, fresh x));
    }

abbrev pub deps_of : Option Node → List Text
deps_of none = []
deps_of (some n) = n.depends_on

-- Every edge leads to a node that is `Done`.
abbrev AllDone : Map NodeState → List Text → Type 0
AllDone states deps = All (λ dep. is_done_in states dep ≡ true) deps

missing-AllDone :
    (states : Map NodeState) (deps : List Text) → missing states deps ≡ 0 → AllDone states deps
unfolding missing
missing-AllDone states [] h = tt
missing-AllDone states (dep ∷ deps) h = (ground arith, missing-AllDone states deps (omega arith))

pub missing-append :
    (states : Map NodeState) (deps more : List Text)
    → missing states (deps ++ more) ≡ missing states deps + missing states more
unfolding missing
missing-append states [] more = omega arith
missing-append states (dep ∷ deps) more = omega (arith, missing-append states deps more)

find_node-missing :
    (ns : List Node) (x : Text) (n : Node) (states : Map NodeState)
    → find_node ns x ≡ some n
    → missing states n.depends_on ≤ missing states (gathered (λ m. m.depends_on) x ns)
unfolding find_node gathered
find_node-missing [] x n states e = ground arith
find_node-missing (m ∷ ns) x n states e = elim (Bool-cases (same m.id x)) [
  | inl k ↦
      let found : some m ≡ some n = ground (arith, e, k) in
      ground (
        arith,
        ap (λ o. missing states (deps_of o)) found,
        k,
        missing-append states m.depends_on (gathered (λ m. m.depends_on) x ns),
      )
  | inr k ↦ ground (arith, k, find_node-missing ns x n states)
]

-- A graph in which no node has a gate.
abbrev pub HasNoGate : Node → Type 0
HasNoGate n = n.gate ≡ none

find_node-ungated :
    (ns : List Node) (source id : Text)
    → All HasNoGate ns
    → is_gated_by source (find_node ns id) ≡ false
unfolding find_node
find_node-ungated [] source id a = refl
find_node-ungated (n ∷ ns) source id a =
    if-intro (λ o. is_gated_by source o ≡ false) (same n.id id) (λ e. rw a.0)
      (λ e. find_node-ungated ns source id a.1)

pub plan_of-IsUngated : (dag : Dag) → All HasNoGate dag.nodes → IsUngated (plan_of dag)
unfolding is_gated_on get_node plan_of
plan_of-IsUngated dag a source id = find_node-ungated dag.nodes source id a

pub start-IsSound :
    (authored : Dag) (limits : BudgetLimits) {dag : Dag} {b : Board}
    → start authored none limits ≡ ok (dag, b)
    → IsSound dag b
start-IsSound authored limits {dag} started =
    subst (IsSound dag) (sym (start-eq-ok authored none limits started))
      (drain-IsSound dag _ (seeded_board-IsSound dag limits))

module _ (wide : ℕ → Bool) (allow_paid : Bool) (authored : Dag) (limits : BudgetLimits) {dag : Dag}
    {b : Board} {r : ℕ} {c : Board} where
  pub run-IsSound :
      start authored none limits ≡ ok (dag, b)
      → All HasNoGate dag.nodes
      → Rounds wide allow_paid (plan_of dag) b r c
      → IsSound dag c
  run-IsSound started gates rounds =
      Rounds-IsSound wide allow_paid dag b (plan_of-IsUngated dag gates) rounds
        (run-IsOnce wide allow_paid authored none limits started here)
        (start-IsSound authored limits started)

  -- In a run from the start, of a graph without gates: whatever the tasks return, and in whatever
  -- order, each spawned node has all its dependencies `Done`.
  pub dispatched_after_deps :
      (id : Text) (n : Node)
      → start authored none limits ≡ ok (dag, b)
      → All HasNoGate dag.nodes
      → Rounds wide allow_paid (plan_of dag) b r c
      → contains c.dispatched id ≡ true
      → get_node dag id ≡ some n
      → All (λ dep. is_done_in c.node_state dep ≡ true) n.depends_on
  unfolding get_node plan_of
  dispatched_after_deps id n started gates rounds spawned found =
      let sound = run-IsSound started gates rounds id in
      let once = run-IsOnce wide allow_paid authored none limits started rounds id in
      missing-AllDone c.node_state n.depends_on (
        ground (
          arith,
          sound.waits,
          sound.released,
          once.once,
          spawned,
          contains-le-count id c.dispatched,
          find_node-missing dag.nodes id n c.node_state found,
        ))
