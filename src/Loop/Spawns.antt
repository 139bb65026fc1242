-- ===== src/Loop/Spawns.antt =====
-- The counting invariant of the waiting nodes over the inner loop, and on a board without a worker.
use pidag.Base.{
  ℕ, ◌+◌, ◌≤◌, ◌≡◌, refl, sym, subst, true, false, none, List, [], ◌∷◌, ◌++◌, length, arith,
}
use pidag.Text.{Text, same, contains}
use pidag.Map.{Map, lookup, lookup-insert}
use pidag.Dag.{Node}
use pidag.Scheduler.{NodeState, pending}
use pidag.Loop.{Plan, Task, Board, bare_state}
use pidag.Loop.Build.{collect}
use pidag.Loop.Seed.{ready_ids}
use pidag.Loop.Drain.{spawn}
use pidag.Loop.Settle.{Outcome, settle}
use pidag.Loop.Count.{bit, count, contains-le-count}
use pidag.Loop.Index.{degree_in}
use pidag.Loop.Quiet.{Quiet, announce-Quiet, quiet}
use pidag.Loop.Moves.{Move, notes, releases, lowers, enqueues, Moves-keep, settle-Moves}
use pidag.Loop.Drained.{Drained, empties, drops, spawns, refuses}
use pidag.Loop.Start.{keys, count-ready_ids}
use pidag.Loop.Missing.{is_settled_in, is_done_in, missing}
use pidag.Loop.Waits.{Waiting, task_ids}

-- No node of a fresh run has left `Pending`.
pub initial_states-unsettled :
    (ns : List Node) (m : Map NodeState) (x : Text)
    → is_settled_in m x ≡ false
    → is_settled_in (collect (λ n. bare_state n.id pending 0 none) ns m) x ≡ false
unfolding collect
initial_states-unsettled [] m x h = h
initial_states-unsettled (n ∷ ns) m x h =
    initial_states-unsettled ns _ x
      (ground (arith, h, lookup-insert n.id x (bare_state n.id pending 0 none) m))

pub unsettled-undone :
    (states : Map NodeState) (x : Text)
    → is_settled_in states x ≡ false
    → is_done_in states x ≡ false
unfolding is_done_in
unsettled-undone states x h = ground (arith, h)

pub missing-undone :
    (states : Map NodeState) (deps : List Text)
    → ((x : Text) → is_done_in states x ≡ false)
    → missing states deps ≡ length deps
unfolding missing
missing-undone states [] h = refl
missing-undone states (dep ∷ deps) h = ground (arith, h dep, missing-undone states deps h)

-- An id of the first queue has in-degree 0.
pub ready_ids_degree :
    (b : Board) (m : Map ℕ) (x : Text)
    → count x (keys m) ≤ 1
    → contains (ready_ids b m) x ≡ true
    → degree_in m x ≡ 0
unfolding count contains ready_ids lookup
ready_ids_degree b [] x few h = ground arith
ready_ids_degree b ((id, degree) ∷ m) x few h =
    ground
      (arith, ready_ids_degree b m x, count-ready_ids [] x b m, contains-le-count x (ready_ids b m))

pub joined_count :
    (x : Text) (before after : List Task) (t : Task)
    → count x (task_ids (before ++ t ∷ after)) ≡ count x (t.node_id ∷ task_ids (before ++ after))
unfolding count
joined_count x [] after t = refl
joined_count x (s ∷ before) after t = omega (arith, joined_count x before after t)

spawned_count :
    (x : Text) (ts : List Task) (t : Task)
    → count x (task_ids (ts ++ t ∷ [])) ≡ count x (task_ids ts) + bit (same t.node_id x)
unfolding count
spawned_count x [] t = omega arith
spawned_count x (s ∷ ts) t = omega (arith, spawned_count x ts t)

count-spawn :
    (x id : Text) (node : Node) (b : Board)
    → count x (task_ids (spawn id node b).task_set)
      ≡ count x (task_ids b.task_set) + bit (same id x)
unfolding spawn
count-spawn x id node b = spawned_count x b.task_set _

Quiet-Whole :
    (plan : Plan) (x : Text) {b c : Board}
    → Quiet b c
    → Waiting plan x [] b.ready (task_ids b.task_set) b
    → Waiting plan x [] c.ready (task_ids c.task_set) c
Quiet-Whole plan x (quiet _ _ _ _ _) h = h

-- Behind a spawn, for a count `n` of the tasks.
abbrev pub Spawned : Plan → Text → List Text → Board → ℕ → Type 0
Spawned plan x rest b n =
    count x rest + (n + bit (is_done_in b.node_state x)) ≤ bit (contains b.enqueued x)

pub spawn-Waiting :
    (plan : Plan) (x id : Text) (rest : List Text) (node : Node) (b : Board)
    → Waiting plan x [] (id ∷ rest) (task_ids b.task_set) b
    → Waiting plan x [] rest (task_ids (spawn id node b).task_set) (spawn id node b)
unfolding spawn count
spawn-Waiting plan x id rest node b h = record {
  single = subst (Spawned plan x rest b) (sym (count-spawn x id node b)) (ground (arith, h.single));
  waits = h.waits;
  released = h.released;
  unsettled = λ e. ground (arith, h.unsettled e, count-spawn x id node b);
  held = h.held;
}

-- Behind a drop.
pub drop-Waiting :
    (plan : Plan) (x id : Text) (rest : List Text) (b : Board)
    → Waiting plan x [] (id ∷ rest) (task_ids b.task_set) b
    → Waiting plan x [] rest (task_ids b.task_set) b
unfolding count
drop-Waiting plan x id rest b h = record {
  single = ground (arith, h.single);
  waits = h.waits;
  released = h.released;
  unsettled = λ e. ground (arith, h.unsettled e);
  held = h.held;
}

pub Drained-Waiting :
    (plan : Plan) (x : Text) (q : List Text) (b c : Board)
    → Drained plan q b c
    → Waiting plan x [] q (task_ids b.task_set) b
    → Waiting plan x [] c.ready (task_ids c.task_set) c
unfolding count
Drained-Waiting plan x _ b _ empties h = h
Drained-Waiting plan x _ b c (drops id rest e d) h =
    Drained-Waiting plan x rest b c d (drop-Waiting plan x id rest b h)
Drained-Waiting plan x _ b c (spawns id rest node budget e d) h =
    Drained-Waiting plan x rest _ c d
      (spawn-Waiting plan x id rest node (record b { budget = budget }) h)
Drained-Waiting plan x _ b _ (refuses id rest breach budget e) h =
    Quiet-Whole plan x
      (announce-Quiet breach.message (record b { ready = id ∷ rest; budget = budget })) h

Move-tasks : (ts : List Task) (b c : Board) → Move b c → b.task_set ≡ ts → c.task_set ≡ ts
Move-tasks ts b _ (notes _ _ _ _ _ _) h = h
Move-tasks ts b _ (releases _ _ _) h = h
Move-tasks ts b _ (lowers _ _ _) h = h
Move-tasks ts b _ (enqueues _ _) h = h

pub settle_tasks :
    (plan : Plan) (id : Text) (o : Outcome) (b : Board) → (settle plan id o b).task_set ≡ b.task_set
settle_tasks plan id o b =
    Moves-keep (λ c. c.task_set ≡ b.task_set) (Move-tasks b.task_set) (settle-Moves plan id o b)
      refl
