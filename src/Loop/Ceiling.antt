-- ===== src/Loop/Ceiling.antt =====
-- The budget over a whole run.
use pidag.Base.{
  ℕ, ◌≡◌, refl, sym, subst, Bool, not, ◌&&◌, Option, none, some, is_some, List, ◌∷◌, arith,
  if-intro,
}
use pidag.Text.{Text}
use pidag.Map.{lookup}
use pidag.Error.{ok}
use pidag.Resume.{Checkpoint}
use pidag.Dag.{Node, Dag, get_node}
use pidag.Scheduler.Budget.{BudgetBreach, BudgetInner, BudgetLimits, new_budget}
use pidag.Scheduler.Budget.Ceilings.{
  IsGuarded, apply_all_breached, apply_all-IsGuarded_from, reserve-IsGuarded, new_budget-IsGuarded,
}
use pidag.Loop.{Plan, Board}
use pidag.Loop.Build.{plan_of}
use pidag.Loop.Drain.{
  Taken, dropped, spawned, refused, taken_gated, taken_of, take, gate_dispatch, spawn, is_settled,
  consumes_model,
}
use pidag.Loop.Drained.{Drained, empties, drops, spawns, refuses, drain-Drained}
use pidag.Loop.Quiet.{Quiet, quiet, announce-Quiet}
use pidag.Loop.Moves.{Move, notes, releases, lowers, enqueues}
use pidag.Loop.Whole.{Rounds, start, budget_of, seeded_board, fresh_board}
use pidag.Loop.Seed.{
  apply_checkpoint, seed_completed, seed_failed, seed_blocked, cascade_one, fill_ready,
}
use pidag.Loop.Start.{for_each-keep}
use pidag.Loop.Runs.{Rounds-keep, start-eq-ok}

-- What a taken node means for the budget: `S` where it is spawned, `R` where it is refused.
abbrev Left : (BudgetInner → Type 0) → (BudgetInner → Type 0) → Taken → Type 0
Left S R dropped = Unit
Left S R (spawned node budget) = S budget
Left S R (refused breach budget) = R budget

-- The budget behind the gate.
abbrev Gated :
    (BudgetInner → Type 0) → (BudgetInner → Type 0) → Option BudgetBreach × BudgetInner → Type 0
Gated S R (none, budget) = S budget
Gated S R (some breach, budget) = R budget

module _ (S R : BudgetInner → Type 0) (b : Board)
    (gate : (id : Text) (node : Node) → Gated S R (gate_dispatch id node b.budget)) where
  taken_gated-Left :
      (node : Node) (r : Option BudgetBreach × BudgetInner)
      → Gated S R r
      → Left S R (taken_gated node r)
  taken_gated-Left node (none, budget) h = h
  taken_gated-Left node (some breach, budget) h = h

  taken_of-Left : (id : Text) (o : Option Node) → Left S R (taken_of id o b.budget)
  taken_of-Left id none = tt
  taken_of-Left id (some node) =
      taken_gated-Left node (gate_dispatch id node b.budget) (gate id node)

  take-Left : (plan : Plan) (id : Text) → Left S R (take plan id b)
  unfolding take
  take-Left plan id =
      if-intro (Left S R) (is_settled (lookup id b.node_state)) (λ e. tt)
        (λ e. taken_of-Left id (get_node plan.dag id))

-- A run in breach, which has spawned `log`.
record IsStopped (x : BudgetBreach) (log : List Text) (b : Board) : Type 0 where
  breached : b.budget.breach ≡ some x
  spawned_before : b.dispatched ≡ log

module _ (x : BudgetBreach) (log : List Text) where
  gate_dispatch_same :
      (b : BudgetInner)
      → b.breach ≡ some x
      → (id : Text) (node : Node) → gate_dispatch id node b ≡ (some x, b)
  unfolding gate_dispatch
  gate_dispatch_same b e id node = ground (arith, e)

  gate_dispatch-breached :
      (b : BudgetInner)
      → b.breach ≡ some x
      → (id : Text) (node : Node)
      → Gated (λ k. ⊥) (λ k. k.breach ≡ some x) (gate_dispatch id node b)
  gate_dispatch-breached b e id node =
      subst (Gated (λ k. ⊥) (λ k. k.breach ≡ some x)) (sym (gate_dispatch_same b e id node)) e

  Quiet-IsStopped : {b c : Board} → Quiet b c → IsStopped x log b → IsStopped x log c
  Quiet-IsStopped (quiet _ _ _ _ _) h = record {
    breached = h.breached;
    spawned_before = h.spawned_before;
  }

  Drained-IsStopped :
      (plan : Plan) (q : List Text) (b c : Board)
      → Drained plan q b c
      → IsStopped x log b
      → IsStopped x log c
  Drained-IsStopped plan _ b _ empties h = record {
    breached = h.breached;
    spawned_before = h.spawned_before;
  }
  Drained-IsStopped plan _ b c (drops id rest e d) h = Drained-IsStopped plan rest b c d h
  Drained-IsStopped plan _ b c (spawns id rest node budget e d) h = absurd (
      subst (Left (λ k. ⊥) (λ k. k.breach ≡ some x)) e
        (take-Left _ _ b (gate_dispatch-breached b.budget h.breached) plan id))
  Drained-IsStopped plan _ b _ (refuses id rest breach budget e) h =
      Quiet-IsStopped
        (announce-Quiet breach.message (record b { ready = id ∷ rest; budget = budget }))
        (record {
          breached =
              subst (Left (λ k. ⊥) (λ k. k.breach ≡ some x)) e
                (take-Left _ _ b (gate_dispatch-breached b.budget h.breached) plan id);
          spawned_before = h.spawned_before;
        })

  Move-IsStopped : (b c : Board) → Move b c → IsStopped x log b → IsStopped x log c
  Move-IsStopped b _ (notes _ _ _ _ _ _) h = record {
    breached = h.breached;
    spawned_before = h.spawned_before;
  }
  Move-IsStopped b _ (releases _ _ _) h = record {
    breached = h.breached;
    spawned_before = h.spawned_before;
  }
  Move-IsStopped b _ (lowers _ _ _) h = record {
    breached = h.breached;
    spawned_before = h.spawned_before;
  }
  Move-IsStopped b _ (enqueues _ _) h = record {
    breached = h.breached;
    spawned_before = h.spawned_before;
  }

-- Once a run is in breach, it spawns no further node, however many of its tasks still end, and the
-- breach that it reports stays the same.
pub breached_stops :
    (wide : ℕ → Bool) (allow_paid : Bool) (plan : Plan) (b : Board) (x : BudgetBreach) {n : ℕ}
    {c : Board}
    → Rounds wide allow_paid plan b n c
    → b.budget.breach ≡ some x
    → (c.budget.breach ≡ some x) × (c.dispatched ≡ b.dispatched)
breached_stops wide allow_paid plan b x rounds e =
    let log = b.dispatched in
    let h : IsStopped x log _ =
      Rounds-keep wide allow_paid plan (λ n c. IsStopped x log c)
        (λ n d before after t ops _ h. record {
          breached = (apply_all_breached ops d.budget x h.breached).0;
          spawned_before = h.spawned_before;
        })
        (λ n d d' m h. Move-IsStopped x log d d' m h)
        (λ n d h. Drained-IsStopped x log plan d.ready d _ (drain-Drained plan d) h) rounds
        (record { breached = e; spawned_before = refl }) in
    (h.breached, h.spawned_before)

Gated-both :
    (Q : BudgetInner → Type 0) (r : Option BudgetBreach × BudgetInner) → Q r.1 → Gated Q Q r
Gated-both Q (none, budget) h = h
Gated-both Q (some breach, budget) h = h

gate_dispatch-IsGuarded :
    (b : BudgetInner)
    → IsGuarded b
    → (id : Text) (node : Node) → Gated IsGuarded IsGuarded (gate_dispatch id node b)
unfolding gate_dispatch
gate_dispatch-IsGuarded b g id node = Gated-both IsGuarded (gate_dispatch id node b) (
    if-intro (λ (r : Option BudgetBreach × BudgetInner). IsGuarded r.1)
      (not (is_some b.breach) && consumes_model node) (λ e. reserve-IsGuarded id b g) (λ e. g))

Quiet-IsGuarded : {b c : Board} → Quiet b c → IsGuarded b.budget → IsGuarded c.budget
Quiet-IsGuarded (quiet _ _ _ _ _) h = h

Drained-IsGuarded :
    (plan : Plan) (q : List Text) (b c : Board)
    → Drained plan q b c
    → IsGuarded b.budget
    → IsGuarded c.budget
unfolding spawn
Drained-IsGuarded plan _ b _ empties g = g
Drained-IsGuarded plan _ b c (drops id rest e d) g = Drained-IsGuarded plan rest b c d g
Drained-IsGuarded plan _ b c (spawns id rest node budget e d) g =
    Drained-IsGuarded plan rest _ c d (
      subst (Left IsGuarded IsGuarded) e
        (take-Left _ _ b (gate_dispatch-IsGuarded b.budget g) plan id))
Drained-IsGuarded plan _ b _ (refuses id rest breach budget e) g =
    Quiet-IsGuarded
      (announce-Quiet breach.message (record b { ready = id ∷ rest; budget = budget }))
      (subst (Left IsGuarded IsGuarded) e
        (take-Left _ _ b (gate_dispatch-IsGuarded b.budget g) plan id))

Move-IsGuarded : (b c : Board) → Move b c → IsGuarded b.budget → IsGuarded c.budget
Move-IsGuarded b _ (notes _ _ _ _ _ _) g = g
Move-IsGuarded b _ (releases _ _ _) g = g
Move-IsGuarded b _ (lowers _ _ _) g = g
Move-IsGuarded b _ (enqueues _ _) g = g

-- The checkpoint leaves the budget alone.
abbrev Funded : BudgetInner → Board → Type 0
Funded budget b = b.budget ≡ budget

apply_checkpoint_budget :
    (plan : Plan) (cp : Option Checkpoint) (budget : BudgetInner) (b : Board)
    → Funded budget b
    → Funded budget (apply_checkpoint plan cp b)
unfolding apply_checkpoint seed_completed seed_failed seed_blocked cascade_one
apply_checkpoint_budget plan none budget b h = h
apply_checkpoint_budget plan (some cp) budget b h =
    for_each-keep (Funded budget) cascade_one
      (λ n b' h'. if-intro (Funded budget) _ (λ e. h') (λ e. h')) plan.dag.nodes _
      (for_each-keep (Funded budget) (seed_blocked plan cp)
        (λ id b' h'. if-intro (Funded budget) _ (λ e. h') (λ e. h')) cp.blocked_nodes _
        (for_each-keep (Funded budget) (seed_failed plan cp)
          (λ id b' h'. if-intro (Funded budget) _ (λ e. h') (λ e. h')) cp.failed_nodes _
          (for_each-keep (Funded budget) (seed_completed plan cp)
            (λ id b' h'. if-intro (Funded budget) _ (λ e. h') (λ e. h')) cp.completed_nodes b h)))

seeded_board_budget :
    (dag : Dag) (cp : Option Checkpoint) (limits : BudgetLimits)
    → Funded (new_budget (budget_of cp) limits) (seeded_board dag cp limits)
unfolding seeded_board fill_ready fresh_board
seeded_board_budget dag cp limits = apply_checkpoint_budget (plan_of dag) cp _ _ refl

-- At the head of every round of every run, resumed or not, with all that its tasks spend: a counter
-- above its ceiling means that the run is in breach.
pub run-IsGuarded :
    (wide : ℕ → Bool) (allow_paid : Bool) (authored : Dag) (cp : Option Checkpoint)
    (limits : BudgetLimits) {dag : Dag} {b : Board} {n : ℕ} {c : Board}
    → start authored cp limits ≡ ok (dag, b)
    → Rounds wide allow_paid (plan_of dag) b n c
    → IsGuarded c.budget
run-IsGuarded wide allow_paid authored cp limits {dag} started rounds =
    let seeded = seeded_board dag cp limits in
    let guarded : IsGuarded seeded.budget =
      subst IsGuarded (sym (seeded_board_budget dag cp limits))
        (new_budget-IsGuarded (budget_of cp) limits) in
    Rounds-keep wide allow_paid (plan_of dag) (λ n c. IsGuarded c.budget)
      (λ n d before after t ops _ g. apply_all-IsGuarded_from ops d.budget g)
      (λ n d d' m g. Move-IsGuarded d d' m g)
      (λ n d g. Drained-IsGuarded (plan_of dag) d.ready d _ (drain-Drained (plan_of dag) d) g)
      rounds
      (subst (λ (d : Board). IsGuarded d.budget) (sym (start-eq-ok authored cp limits started))
        (Drained-IsGuarded (plan_of dag) seeded.ready seeded _ (drain-Drained (plan_of dag) seeded)
          guarded))
