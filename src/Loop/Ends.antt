-- ===== src/Loop/Ends.antt =====
-- How a run ends.
use pidag.Base.{
  ℕ, ◌≡◌, refl, ap, ◌∙◌, sym, subst, Bool, true, false, Option, none, some, List, [], ◌∷◌, arith,
  Bool-cases, inl, inr,
}
use pidag.Text.{Text, contains}
use pidag.Map.{lookup}
use pidag.Error.{ok}
use pidag.Dag.{Node, Dag, find_node, get_node, node_ids}
use pidag.Scheduler.Budget.{BudgetLimits, BudgetBreach, BudgetInner, reserve}
use pidag.Loop.{Plan, Board}
use pidag.Loop.Build.{plan_of}
use pidag.Loop.Seed.{fill_ready}
use pidag.Loop.Drain.{refused, taken_gated, taken_of, take, gate_dispatch, drain, is_settled}
use pidag.Loop.Drained.{Drained, empties, drops, spawns, refuses, drain-Drained}
use pidag.Loop.Quiet.{Quiet, quiet, announce-Quiet}
use pidag.Loop.Whole.{task_returns, task_panics, Rounds, here, next, start, seeded_board}
use pidag.Loop.Count.{contains-le-count}
use pidag.Loop.Index.{gathered}
use pidag.Loop.Runs.{start-eq-ok}
use pidag.Loop.Kept.{IsKept}

gate_dispatch-breach :
    (id : Text) (node : Node) (b : BudgetInner) (r : BudgetBreach)
    → (gate_dispatch id node b).0 ≡ some r
    → (gate_dispatch id node b).1.breach ≡ some r
unfolding gate_dispatch reserve
gate_dispatch-breach id node b r e = ground (arith, e)

taken_gated-breach :
    (node : Node) (r : Option BudgetBreach × BudgetInner) (breach : BudgetBreach)
    (budget : BudgetInner)
    → taken_gated node r ≡ refused breach budget
    → (r.0 ≡ some breach) × (r.1 ≡ budget)
taken_gated-breach node (none, b) breach budget e = ground (arith, e)
taken_gated-breach node (some r, b) breach budget e = (cc e, cc e)

taken_of-breach :
    (id : Text) (o : Option Node) (b : BudgetInner) (breach : BudgetBreach) (budget : BudgetInner)
    → taken_of id o b ≡ refused breach budget
    → budget.breach ≡ some breach
taken_of-breach id none b breach budget e = ground (arith, e)
taken_of-breach id (some node) b breach budget e =
    let (held, left) = taken_gated-breach node (gate_dispatch id node b) breach budget e in
    ap (λ (k : BudgetInner). k.breach) (sym left) ∙ gate_dispatch-breach id node b breach held

take-breach :
    (plan : Plan) (id : Text) (b : Board) (breach : BudgetBreach) (budget : BudgetInner)
    → take plan id b ≡ refused breach budget
    → budget.breach ≡ some breach
unfolding take
take-breach plan id b breach budget e = elim (Bool-cases (is_settled (lookup id b.node_state))) [
  | inl s ↦ ground (arith, rw (s, take) at e)
  | inr s ↦ taken_of-breach id (get_node plan.dag id) b.budget breach budget (rw (s, take) at e)
]

Quiet-breach :
    {b c : Board} (breach : BudgetBreach)
    → Quiet b c
    → b.budget.breach ≡ some breach
    → c.budget.breach ≡ none
    → ⊥
Quiet-breach breach (quiet _ _ _ _ _) h e = ground (arith, h, e)

-- The inner loop leaves a node in the queue only behind a breach.
Drained-empty :
    (plan : Plan) (q : List Text) (b c : Board)
    → Drained plan q b c
    → c.budget.breach ≡ none
    → c.ready ≡ []
Drained-empty plan _ b _ empties n = refl
Drained-empty plan _ b c (drops id rest e d) n = Drained-empty plan rest b c d n
Drained-empty plan _ b c (spawns id rest node budget e d) n = Drained-empty plan rest _ c d n
Drained-empty plan _ b _ (refuses id rest breach budget e) n = absurd (
    Quiet-breach breach
      (announce-Quiet breach.message (record b { ready = id ∷ rest; budget = budget }))
      (take-breach plan id b breach budget e) n)

drain-empty :
    (plan : Plan) (b : Board) → (drain plan b).budget.breach ≡ none → (drain plan b).ready ≡ []
drain-empty plan b n = Drained-empty plan b.ready b _ (drain-Drained plan b) n

Rounds-empty :
    (wide : ℕ → Bool) (allow_paid : Bool) (plan : Plan) (b : Board) {n : ℕ} {c : Board}
    → (b.budget.breach ≡ none → b.ready ≡ [])
    → Rounds wide allow_paid plan b n c
    → c.budget.breach ≡ none
    → c.ready ≡ []
Rounds-empty wide allow_paid plan b first here = first
Rounds-empty wide allow_paid plan b first (next rounds (task_returns _ _ _ _ _ _ _ e)) =
    subst (λ (d : Board). d.budget.breach ≡ none → d.ready ≡ []) (sym e) (drain-empty plan _)
Rounds-empty wide allow_paid plan b first (next rounds (task_panics _ _ _ _ _ e)) =
    subst (λ (d : Board). d.budget.breach ≡ none → d.ready ≡ []) (sym e) (drain-empty plan _)

pub run-empty :
    (wide : ℕ → Bool) (allow_paid : Bool) (authored : Dag) (limits : BudgetLimits) {dag : Dag}
    {b : Board} {n : ℕ} {c : Board}
    → start authored none limits ≡ ok (dag, b)
    → Rounds wide allow_paid (plan_of dag) b n c
    → c.budget.breach ≡ none
    → c.ready ≡ []
run-empty wide allow_paid authored limits {dag} {b} started rounds =
    Rounds-empty wide allow_paid (plan_of dag) b
      (subst (λ (d : Board). d.budget.breach ≡ none → d.ready ≡ [])
        (sym (start-eq-ok authored none limits started))
        (drain-empty (plan_of dag) (seeded_board dag none limits)))
      rounds

pub seeded_board-IsKept :
    (dag : Dag) (limits : BudgetLimits) (x : Text)
    → let b = seeded_board dag none limits in IsKept x b.ready b
unfolding seeded_board fill_ready
seeded_board-IsKept dag limits x =
    ground (arith, contains-le-count x (seeded_board dag none limits).ready)

pub find_node-known :
    (ns : List Node) (x : Text) (n : Node)
    → find_node ns x ≡ some n
    → contains (node_ids ns) x ≡ true
unfolding find_node contains
find_node-known [] x n e = ground (arith, e)
find_node-known (m ∷ ns) x n e = ground (arith, e, find_node-known ns x n)

pub gathered-unknown :
    (ns : List Node) (x : Text)
    → contains (node_ids ns) x ≡ false
    → gathered (λ n. n.depends_on) x ns ≡ []
unfolding gathered contains
gathered-unknown [] x h = refl
gathered-unknown (n ∷ ns) x h = ground (arith, h, gathered-unknown ns x)
