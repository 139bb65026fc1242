-- ===== src/Loop/Kept.antt =====
-- In a graph without gates, the inner loop drops no node: what it queued it spawns, or leaves in the
-- queue behind a breach.
use pidag.Base.{
  ℕ, ◌+◌, ◌≤◌, ◌≡◌, refl, sym, subst, Bool, true, false, Option, none, some, is_some, List, [], ◌∷◌,
  ◌++◌, arith, Bool-cases, inl, inr,
}
use pidag.Text.{Text, same, same→eq, contains}
use pidag.Dag.{Node, Dag, get_node, node_ids}
use pidag.Scheduler.Budget.{BudgetBreach, BudgetInner}
use pidag.Loop.{Plan, Board}
use pidag.Loop.Build.{plan_of}
use pidag.Loop.Drain.{dropped, taken_gated, taken_of, take, gate_dispatch, spawn, drain}
use pidag.Loop.Drained.{Drained, empties, drops, spawns, refuses, drain-Drained}
use pidag.Loop.Quiet.{Quiet, quiet, announce-Quiet}
use pidag.Loop.Count.{bit, count, count-append}
use pidag.Loop.Moves.{Move, notes, releases, lowers, enqueues, Moves-keep, settle-Moves}
use pidag.Loop.Once.{IsOnce}
use pidag.Loop.Whole.{Step, task_returns, task_panics, Rounds, here, next, joined}
use pidag.Loop.Runs.{Rounds-IsOnce}
use pidag.Loop.Missing.{is_settled_in}
use pidag.Loop.Waits.{Waiting, task_ids}
use pidag.Loop.Spawns.{spawn-Waiting, drop-Waiting}
use pidag.Loop.Ungated.{IsUngated}
use pidag.Loop.Fresh.{IsSound, returned-IsSound, panicked-IsSound, Rounds-IsSound}

taken_gated-spawns :
    (node : Node) (r : Option BudgetBreach × BudgetInner) → taken_gated node r ≡ dropped → ⊥
taken_gated-spawns node (none, budget) e = ground (arith, e)
taken_gated-spawns node (some breach, budget) e = ground (arith, e)

taken_of-dropped :
    (id : Text) (o : Option Node) (budget : BudgetInner)
    → taken_of id o budget ≡ dropped
    → is_some o ≡ false
taken_of-dropped id none budget e = refl
taken_of-dropped id (some node) budget e =
    absurd (taken_gated-spawns node (gate_dispatch id node budget) e)

-- Only a node that left `Pending`, or that is not in the graph, is dropped.
take-dropped :
    (plan : Plan) (id : Text) (b : Board)
    → take plan id b ≡ dropped
    → is_settled_in b.node_state id ≡ false
    → is_some (get_node plan.dag id) ≡ false
unfolding take
take-dropped plan id b e u = taken_of-dropped id (get_node plan.dag id) b.budget (rw (u, take) at e)

-- What is in `enqueued` is queued or was spawned.
abbrev pub IsKept : Text → List Text → Board → Type 0
IsKept x q b = bit (contains b.enqueued x) ≤ count x q + count x b.dispatched

Move-IsKept : (x : Text) (b c : Board) → Move b c → IsKept x b.ready b → IsKept x c.ready c
unfolding contains count
Move-IsKept x b _ (notes _ _ _ _ _ _) h = h
Move-IsKept x b _ (releases _ _ _) h = h
Move-IsKept x b _ (lowers _ _ _) h = h
Move-IsKept x b _ (enqueues id e) h = ground (arith, h, count-append x b.ready (id ∷ []))

Quiet-IsKept : (x : Text) {b c : Board} → Quiet b c → IsKept x b.ready b → IsKept x c.ready c
Quiet-IsKept x (quiet _ _ _ _ _) h = h

dropped_other :
    (plan : Plan) (x id : Text) (rest : List Text) (b : Board)
    → is_some (get_node plan.dag x) ≡ true
    → take plan id b ≡ dropped
    → Waiting plan x [] (id ∷ rest) (task_ids b.task_set) b
    → same id x ≡ false
unfolding count
dropped_other plan x id rest b known e w = elim (Bool-cases (same id x)) [
  | inr k ↦ k
  | inl k ↦
      let own = same→eq id x k in
      let gone : is_settled_in b.node_state x ≡ false = ground (arith, w.unsettled, k) in
      let unknown = take-dropped plan x b (subst (λ y. take plan y b ≡ dropped) own e) gone in
      absurd (ground (arith, known, unknown))
]

Drained-IsKept :
    (plan : Plan) (x : Text) (q : List Text) (b c : Board)
    → is_some (get_node plan.dag x) ≡ true
    → Drained plan q b c
    → Waiting plan x [] q (task_ids b.task_set) b
    → IsKept x q b
    → IsKept x c.ready c
unfolding count spawn
Drained-IsKept plan x _ b _ known empties w h = h
Drained-IsKept plan x _ b c known (drops id rest e d) w h =
    Drained-IsKept plan x rest b c known d (drop-Waiting plan x id rest b w)
      (ground (arith, h, dropped_other plan x id rest b known e w))
Drained-IsKept plan x _ b c known (spawns id rest node budget e d) w h =
    Drained-IsKept plan x rest _ c known d
      (spawn-Waiting plan x id rest node (record b { budget = budget }) w) (ground (arith, h))
Drained-IsKept plan x _ b _ known (refuses id rest breach budget e) w h =
    Quiet-IsKept x (announce-Quiet breach.message (record b { ready = id ∷ rest; budget = budget }))
      h

pub drain-IsKept :
    (dag : Dag) (x : Text) (b : Board)
    → is_some (get_node dag x) ≡ true
    → IsSound dag b
    → IsKept x b.ready b
    → IsKept x (drain (plan_of dag) b).ready (drain (plan_of dag) b)
unfolding plan_of
drain-IsKept dag x b known w h =
    Drained-IsKept (plan_of dag) x b.ready b _ known (drain-Drained (plan_of dag) b) (w x) h

Step-IsKept :
    (wide : ℕ → Bool) (allow_paid : Bool) (dag : Dag) (x : Text) (b c : Board)
    → is_some (get_node dag x) ≡ true
    → IsUngated (plan_of dag)
    → Step wide allow_paid (plan_of dag) b c
    → ((y : Text) → IsOnce (node_ids dag.nodes) y b.ready b)
    → IsSound dag b
    → IsKept x b.ready b
    → IsKept x c.ready c
Step-IsKept wide allow_paid dag x b c known ungated (task_returns before after t o ops e ends e')
      once w h =
    subst (λ d. IsKept x d.ready d) (sym e')
      (drain-IsKept dag x _ known
        (returned-IsSound wide allow_paid dag b before after t o ops e ends ungated once w)
        (Moves-keep (λ d. IsKept x d.ready d) (Move-IsKept x)
          (settle-Moves (plan_of dag) t.node_id o (joined (before ++ after) ops b)) h))
Step-IsKept wide allow_paid dag x b c known ungated (task_panics before after t ops e e') once w h =
    subst (λ d. IsKept x d.ready d) (sym e')
      (drain-IsKept dag x _ known (panicked-IsSound dag b before after t ops e w) h)

pub Rounds-IsKept :
    (wide : ℕ → Bool) (allow_paid : Bool) (dag : Dag) (x : Text) (b : Board) {n : ℕ} {c : Board}
    → is_some (get_node dag x) ≡ true
    → IsUngated (plan_of dag)
    → Rounds wide allow_paid (plan_of dag) b n c
    → ((y : Text) → IsOnce (node_ids dag.nodes) y b.ready b)
    → IsSound dag b
    → IsKept x b.ready b
    → IsKept x c.ready c
Rounds-IsKept wide allow_paid dag x b known ungated here once w h = h
Rounds-IsKept wide allow_paid dag x b known ungated (next rounds step) once w h =
    Step-IsKept wide allow_paid dag x _ _ known ungated step
      (λ y. Rounds-IsOnce wide allow_paid (plan_of dag) b (node_ids dag.nodes) y rounds (once y))
      (Rounds-IsSound wide allow_paid dag b ungated rounds once w)
      (Rounds-IsKept wide allow_paid dag x b known ungated rounds once w h)
