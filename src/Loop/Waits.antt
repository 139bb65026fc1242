-- ===== src/Loop/Waits.antt =====
-- What the loop owes to `depends_on` in a graph without gates: a node is queued only when every node
-- it depends on is `Done`.
use pidag.Base.{
  ℕ, zero, suc, ◌+◌, ◌-◌, ◌≤◌, ◌≡◌, refl, ◌∙◌, true, false, Option, none, some, List, [], ◌∷◌, map,
  arith, if-intro, ◌==◌,
}
use pidag.Text.{Text, same_iff, contains}
use pidag.Map.{Map, lookup, insert, lookup-insert}
use pidag.Scheduler.{NodeState}
use pidag.Loop.{Plan, Task, Board, is_ready, try_enqueue, release_by, release_all, lower, lower_by}
use pidag.Loop.Count.{bit, count, count-append}
use pidag.Loop.Index.{gathered, degree_in}
use pidag.Loop.Quiet.{Quiet, quiet}
use pidag.Loop.Missing.{is_done_in, missing, lost, is_settled_in, lost-le-missing}

-- Of the node `x`, whose edges are `deps`: it is queued or running or `Done`, and that only if it is
-- in `enqueued`; its in-degree counts the missing edges and its place in `left`, the list of nodes
-- that are still to be counted down; it is in `enqueued` only at in-degree 0; it is queued or running
-- only while its state is `Pending`, and leaves that state outside `enqueued` only behind a lost node.
pub record IsWaiting (deps : List Text) (x : Text) (left q enqueued tasks : List Text)
    (in_degree : Map ℕ) (states : Map NodeState) : Type 0 where
  pub single : count x q + (count x tasks + bit (is_done_in states x)) ≤ bit (contains enqueued x)
  pub waits : degree_in in_degree x ≡ missing states deps + count x left
  pub released : contains enqueued x ≡ true → degree_in in_degree x ≡ 0
  pub unsettled : is_settled_in states x ≡ true → count x q + count x tasks ≡ 0
  pub held : is_settled_in states x ≡ true → contains enqueued x ≡ false → 1 ≤ lost states deps

abbrev pub task_ids : List Task → List Text
task_ids ts = map (λ t. t.node_id) ts

abbrev pub deps_in : Plan → Text → List Text
deps_in plan x = gathered (λ n. n.depends_on) x plan.dag.nodes

abbrev pub Waiting : Plan → Text → List Text → List Text → List Text → Board → Type 0
Waiting plan x left q tasks b =
    IsWaiting (deps_in plan x) x left q b.enqueued tasks b.in_degree b.node_state

module _ (plan : Plan) (x : Text) (left tasks : List Text) where
  try_enqueue-Waiting :
      (id : Text) (b : Board)
      → Waiting plan x left b.ready tasks b
      → Waiting plan x left (try_enqueue id b).ready tasks (try_enqueue id b)
  unfolding try_enqueue count contains
  try_enqueue-Waiting id b h =
      if-intro (λ c. Waiting plan x left c.ready tasks c) (is_ready id b)
        (λ e. record {
          single = ground (arith, h.single, same_iff id x, count-append x b.ready (id ∷ []));
          waits = h.waits;
          released = λ r. ground (arith, h.released, same_iff id x);
          unsettled = λ t. ground (
            arith,
            h.unsettled t,
            h.held t,
            h.waits,
            lost-le-missing b.node_state (deps_in plan x),
            same_iff id x,
            count-append x b.ready (id ∷ []),
          );
          held = λ t f. ground (arith, h.held t, same_iff id x);
        })
        (λ e. h)

  release_by-Waiting :
      (o : Option ℕ) (id : Text) (b : Board)
      → Waiting plan x left b.ready tasks b
      → Waiting plan x left (release_by o id b).ready tasks (release_by o id b)
  release_by-Waiting none id b h = h
  release_by-Waiting (some zero) id b h = h
  release_by-Waiting (some (suc n)) id b h = try_enqueue-Waiting id _ h

  pub release_all-Waiting :
      (ids : List Text) (b : Board)
      → Waiting plan x left b.ready tasks b
      → Waiting plan x left (release_all ids b).ready tasks (release_all ids b)
  unfolding release_all
  release_all-Waiting [] b h = h
  release_all-Waiting (id ∷ ids) b h =
      release_all-Waiting ids _ (release_by-Waiting (lookup id b.after_pending) id b h)

lower_by-Waiting :
    (plan : Plan) (x : Text) (left tasks : List Text) (id : Text) (o : Option ℕ) (b : Board)
    → lookup id b.in_degree ≡ o
    → Waiting plan x (id ∷ left) b.ready tasks b
    → Waiting plan x left (lower_by o id b).ready tasks (lower_by o id b)
unfolding count
lower_by-Waiting plan x left tasks id none b e h = record {
  single = h.single;
  waits = ground (arith, h.waits, same_iff id x);
  released = h.released;
  unsettled = h.unsettled;
  held = h.held;
}
lower_by-Waiting plan x left tasks id (some degree) b e h =
    let b' = record b { in_degree = insert id (degree - 1) b.in_degree } in
    let lowered : Waiting plan x left b'.ready tasks b' = record {
      single = h.single;
      waits = ground (arith, h.waits, same_iff id x, lookup-insert id x (degree - 1) b.in_degree);
      released = λ r.
          ground (arith, h.released r, same_iff id x, lookup-insert id x (degree - 1) b.in_degree);
      unsettled = h.unsettled;
      held = h.held;
    } in
    if-intro (λ c. Waiting plan x left c.ready tasks c) (degree - 1 == 0)
      (λ z. try_enqueue-Waiting plan x left tasks id b' lowered) (λ z. lowered)

-- A node is counted down.
pub lower-Waiting :
    (plan : Plan) (x : Text) (left tasks : List Text) (id : Text) (b : Board)
    → Waiting plan x (id ∷ left) b.ready tasks b
    → Waiting plan x left (lower id b).ready tasks (lower id b)
unfolding lower
lower-Waiting plan x left tasks id b h =
    lower_by-Waiting plan x left tasks id (lookup id b.in_degree) b refl h

try_enqueue_states : (id : Text) (b : Board) → (try_enqueue id b).node_state ≡ b.node_state
unfolding try_enqueue
try_enqueue_states id b =
    if-intro (λ (c : Board). c.node_state ≡ b.node_state) (is_ready id b) (λ e. refl) (λ e. refl)

release_by_states :
    (o : Option ℕ) (id : Text) (b : Board) → (release_by o id b).node_state ≡ b.node_state
release_by_states none id b = refl
release_by_states (some zero) id b = refl
release_by_states (some (suc n)) id b = try_enqueue_states id _

pub release_all_states :
    (ids : List Text) (b : Board) → (release_all ids b).node_state ≡ b.node_state
unfolding release_all
release_all_states [] b = refl
release_all_states (id ∷ ids) b =
    release_all_states ids _ ∙ release_by_states (lookup id b.after_pending) id b

pub Quiet-Waiting :
    (plan : Plan) (x : Text) (left q tasks : List Text) {b c : Board}
    → Quiet b c
    → Waiting plan x left q tasks b
    → Waiting plan x left q tasks c
Quiet-Waiting plan x left q tasks (quiet _ _ _ _ _) h = h

pub Quiet-states : {b c : Board} → Quiet b c → c.node_state ≡ b.node_state
Quiet-states (quiet _ _ _ _ _) = refl
