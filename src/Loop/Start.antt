-- ===== src/Loop/Start.antt =====
-- The board before the first round: what the graph and the checkpoint put on it.
use pidag.Base.{
  ℕ, zero, suc, ◌≤◌, ◌≡◌, refl, true, not, ◌&&◌, Option, none, some, is_some, List, [], ◌∷◌, map,
  length, All, All-map, arith, if◌then◌else◌, if-intro, ◌==◌,
}
use pidag.Text.{Text, same, same_iff, same_refl, contains}
use pidag.Map.{Map, lookup, insert}
use pidag.Dag.{Node, Dag, get_node, node_ids}
use pidag.Scheduler.Budget.{BudgetLimits, BudgetInner, new_budget}
use pidag.Resume.{Checkpoint}
use pidag.Loop.{Plan, Board, entries}
use pidag.Loop.Build.{collect, bump, bump_times, add_degrees, initial_degrees, plan_of}
use pidag.Loop.Seed.{
  decremented, decrement_all, seed_completed, seed_failed, seed_blocked, cascade_one,
  has_terminal_fail, for_each, apply_checkpoint, ready_ids, fill_ready,
}
use pidag.Loop.Whole.{budget_of, fresh_board, seeded_board}
use pidag.Loop.Count.{bit, count, contains-le-count}
use pidag.Loop.Once.{IsOnce}

abbrev pub keys : Map ℕ → List Text
keys m = map (λ e. e.0) m

count-keys-insert :
    (x k : Text) (v : ℕ) (m : Map ℕ)
    → count x (keys (insert k v m))
      ≡ (if same k x && (count x (keys m) == 0) then 1 else count x (keys m))
unfolding count insert
count-keys-insert x k v [] = ground arith
count-keys-insert x k v ((j, w) ∷ m) =
    ground (arith, same_iff j k, same_iff j x, same_iff k x, count-keys-insert x k v m)

pub lookup-le-count : (x : Text) (m : Map ℕ) → bit (is_some (lookup x m)) ≤ count x (keys m)
unfolding count lookup
lookup-le-count x [] = omega arith
lookup-le-count x ((j, w) ∷ m) = ground (arith, lookup-le-count x m)

abbrev pub IsKnown : List Text → Node → Type 0
IsKnown ids n = contains ids n.id ≡ true

pub nodes-IsKnown : (ns : List Node) → All (IsKnown (node_ids ns)) ns
unfolding contains
nodes-IsKnown [] = tt
nodes-IsKnown (n ∷ ns) = (
  ground (arith, same_refl n.id),
  All-map (IsKnown (node_ids ns)) (IsKnown (node_ids (n ∷ ns))) (λ m h. ground arith) ns
      (nodes-IsKnown ns),
)

-- What each step of a loop keeps, the loop keeps.
pub for_each-keep {ℓ} :
    {A : Type ℓ} (P : Board → Type 0) (f : A → Board → Board)
    → ((a : A) (b : Board) → P b → P (f a b))
    → (l : List A) (b : Board) → P b
    → P (for_each f l b)
unfolding for_each
for_each-keep P f keep [] b h = h
for_each-keep P f keep (a ∷ l) b h = for_each-keep P f keep l (f a b) (keep a b h)

module _ (ids : List Text) (x : Text) where
  -- The keys are ids, and each stands once.
  abbrev pub Keyed : Map ℕ → Type 0
  Keyed m = count x (keys m) ≤ bit (contains ids x)

  insert-Keyed :
      (k : Text) (v : ℕ) (m : Map ℕ) → contains ids k ≡ true → Keyed m → Keyed (insert k v m)
  insert-Keyed k v m e h = ground (arith, count-keys-insert x k v m, same_iff k x)

  collect-Keyed :
      (ns : List Node) (m : Map ℕ) → All (IsKnown ids) ns → Keyed m → Keyed (collect (λ n. 0) ns m)
  unfolding collect
  collect-Keyed [] m a h = h
  collect-Keyed (n ∷ ns) m a h = collect-Keyed ns _ a.1 (insert-Keyed n.id 0 m a.0 h)

  bump_times-Keyed :
      (k : Text) (deps : List Text) (m : Map ℕ)
      → contains ids k ≡ true
      → Keyed m
      → Keyed (bump_times k deps m)
  unfolding bump_times bump
  bump_times-Keyed k [] m e h = h
  bump_times-Keyed k (dep ∷ deps) m e h = bump_times-Keyed k deps _ e (insert-Keyed k _ m e h)

  add_degrees-Keyed :
      (ns : List Node) (m : Map ℕ) → All (IsKnown ids) ns → Keyed m → Keyed (add_degrees ns m)
  unfolding add_degrees
  add_degrees-Keyed [] m a h = h
  add_degrees-Keyed (n ∷ ns) m a h =
      add_degrees-Keyed ns _ a.1 (bump_times-Keyed n.id n.depends_on m a.0 h)

  decremented-Keyed :
      (o : Option ℕ) (k : Text) (m : Map ℕ) → lookup k m ≡ o → Keyed m → Keyed (decremented o k m)
  decremented-Keyed none k m e h = h
  decremented-Keyed (some zero) k m e h = h
  decremented-Keyed (some (suc left)) k m e h =
      ground (arith, count-keys-insert x k left m, lookup-le-count k m, same_iff k x)

  decrement_all-Keyed : (l : List Text) (m : Map ℕ) → Keyed m → Keyed (decrement_all l m)
  unfolding decrement_all
  decrement_all-Keyed [] m h = h
  decrement_all-Keyed (k ∷ l) m h =
      decrement_all-Keyed l _ (decremented-Keyed (lookup k m) k m refl h)

  -- No node is spawned yet.
  record IsUnstarted (b : Board) : Type 0 where
    keyed : Keyed b.in_degree
    unspawned : b.dispatched ≡ []
    idle : b.task_set ≡ []

  seed_completed-IsUnstarted :
      (plan : Plan) (cp : Checkpoint) (id : Text) (b : Board)
      → IsUnstarted b
      → IsUnstarted (seed_completed plan cp id b)
  unfolding seed_completed
  seed_completed-IsUnstarted plan cp id b h =
      if-intro IsUnstarted (is_some (get_node plan.dag id))
        (λ e. record {
          keyed = decrement_all-Keyed (entries id plan.dependents) b.in_degree h.keyed;
          unspawned = h.unspawned;
          idle = h.idle;
        })
        (λ e. h)

  seed_failed-IsUnstarted :
      (plan : Plan) (cp : Checkpoint) (id : Text) (b : Board)
      → IsUnstarted b
      → IsUnstarted (seed_failed plan cp id b)
  unfolding seed_failed
  seed_failed-IsUnstarted plan cp id b h =
      if-intro IsUnstarted (is_some (get_node plan.dag id))
        (λ e. record { keyed = h.keyed; unspawned = h.unspawned; idle = h.idle }) (λ e. h)

  seed_blocked-IsUnstarted :
      (plan : Plan) (cp : Checkpoint) (id : Text) (b : Board)
      → IsUnstarted b
      → IsUnstarted (seed_blocked plan cp id b)
  unfolding seed_blocked
  seed_blocked-IsUnstarted plan cp id b h =
      if-intro IsUnstarted (is_some (get_node plan.dag id))
        (λ e. record { keyed = h.keyed; unspawned = h.unspawned; idle = h.idle }) (λ e. h)

  cascade_one-IsUnstarted : (n : Node) (b : Board) → IsUnstarted b → IsUnstarted (cascade_one n b)
  unfolding cascade_one
  cascade_one-IsUnstarted n b h =
      if-intro IsUnstarted (not (contains b.terminal_from_checkpoint n.id) && has_terminal_fail n b)
        (λ e. record { keyed = h.keyed; unspawned = h.unspawned; idle = h.idle }) (λ e. h)

  apply_checkpoint-IsUnstarted :
      (plan : Plan) (cp : Option Checkpoint) (b : Board)
      → IsUnstarted b
      → IsUnstarted (apply_checkpoint plan cp b)
  unfolding apply_checkpoint
  apply_checkpoint-IsUnstarted plan none b h = h
  apply_checkpoint-IsUnstarted plan (some cp) b h =
      for_each-keep IsUnstarted cascade_one cascade_one-IsUnstarted plan.dag.nodes _ (
        for_each-keep IsUnstarted _ (seed_blocked-IsUnstarted plan cp) cp.blocked_nodes _ (
          for_each-keep IsUnstarted _ (seed_failed-IsUnstarted plan cp) cp.failed_nodes _ (
            for_each-keep IsUnstarted _ (seed_completed-IsUnstarted plan cp) cp.completed_nodes b
              h)))

  pub count-ready_ids : (b : Board) (m : Map ℕ) → count x (ready_ids b m) ≤ count x (keys m)
  unfolding count ready_ids
  count-ready_ids b [] = omega arith
  count-ready_ids b ((id, degree) ∷ m) = ground (arith, count-ready_ids b m)

  count-keys-le-lookup :
      (m : Map ℕ) → count x (keys m) ≤ 1 → count x (keys m) ≤ bit (is_some (lookup x m))
  unfolding count lookup
  count-keys-le-lookup [] h = omega arith
  count-keys-le-lookup ((j, w) ∷ m) h = ground (arith, count-keys-le-lookup m)

  count-le-contains : (l : List Text) → count x l ≤ 1 → count x l ≤ bit (contains l x)
  unfolding count contains
  count-le-contains [] h = omega arith
  count-le-contains (y ∷ l) h = ground (arith, count-le-contains l)

  fill_ready-IsOnce : (b : Board) → IsUnstarted b → IsOnce ids x (fill_ready b).ready (fill_ready b)
  unfolding fill_ready count
  fill_ready-IsOnce b h =
      let single : count x (keys b.in_degree) ≤ 1 = ground (arith, h.keyed) in
      let queued = count-ready_ids b b.in_degree in
      let few = count-le-contains (ready_ids b b.in_degree) (ground (arith, h.keyed, queued)) in
      record {
        once = ground (arith, few, h.unspawned);
        counted = ground (
          arith,
          queued,
          contains-le-count x (ready_ids b b.in_degree),
          count-keys-le-lookup b.in_degree single,
        );
        known = ground (arith, lookup-le-count x b.in_degree, h.keyed, contains-le-count x ids);
      }

  pub initial_degrees-Keyed : (ns : List Node) → All (IsKnown ids) ns → Keyed (initial_degrees ns)
  unfolding initial_degrees count
  initial_degrees-Keyed ns a = add_degrees-Keyed ns _ a (collect-Keyed ns [] a (omega arith))

checkpoint-IsUnstarted :
    (dag : Dag) (cp : Option Checkpoint) (budget : BudgetInner) (x : Text)
    → IsUnstarted
        (node_ids dag.nodes)
        x
        (apply_checkpoint (plan_of dag) cp (fresh_board dag budget))
unfolding fresh_board
checkpoint-IsUnstarted dag cp budget x =
    let ids = node_ids dag.nodes in
    apply_checkpoint-IsUnstarted ids x (plan_of dag) cp _ (record {
      keyed = initial_degrees-Keyed ids x dag.nodes (nodes-IsKnown dag.nodes);
      unspawned = refl;
      idle = refl;
    })

-- At the head of the loop a node is queued at most once, and only a node of the graph.
pub seeded_board-IsOnce :
    (dag : Dag) (cp : Option Checkpoint) (limits : BudgetLimits) (x : Text)
    → let b = seeded_board dag cp limits in IsOnce (node_ids dag.nodes) x b.ready b
unfolding seeded_board
seeded_board-IsOnce dag cp limits x =
    fill_ready-IsOnce (node_ids dag.nodes) x _ (checkpoint-IsUnstarted dag cp _ x)

-- No task runs yet.
pub seeded_board_idle :
    (dag : Dag) (cp : Option Checkpoint) (limits : BudgetLimits)
    → let b = seeded_board dag cp limits in length b.task_set ≡ length b.dispatched
unfolding seeded_board fill_ready
seeded_board_idle dag cp limits =
    let h = checkpoint-IsUnstarted dag cp (new_budget (budget_of cp) limits) [] in
    ground (arith, h.unspawned, h.idle)
