-- ===== src/Loop/Complete.antt =====
-- Which nodes a run has spawned, while no ceiling of its budget is passed.
use pidag.Base.{
  ℕ, ◌≡◌, ◌↔◌, refl, ap, sym, subst, Bool, true, false, none, some, is_some, List, [], ◌∷◌, All,
  arith, Bool-cases, inl, inr,
}
use pidag.Text.{Text, same, same→eq, contains, distinct}
use pidag.Map.{Map, lookup}
use pidag.Error.{ok}
use pidag.Dag.{Node, Dag, find_node, get_node, node_ids}
use pidag.Scheduler.{NodeState}
use pidag.Scheduler.Budget.{BudgetLimits}
use pidag.Loop.{Board, is_zero_or}
use pidag.Loop.Build.{plan_of}
use pidag.Loop.Whole.{Rounds, here, start, seeded_board}
use pidag.Loop.Count.{count}
use pidag.Loop.Index.{gathered}
use pidag.Loop.Runs.{run-IsOnce, start-eq-ok}
use pidag.Loop.Urged.{run-IsUrged}
use pidag.Loop.Counted.{run-IsCounted}
use pidag.Loop.Missing.{is_done_in, missing}
use pidag.Loop.Fresh.{
  count-contains, deps_of, HasNoGate, run-IsSound, start-IsSound, plan_of-IsUngated,
  dispatched_after_deps, seeded_board-IsSound, missing-append,
}
use pidag.Loop.Kept.{IsKept, Rounds-IsKept, drain-IsKept}
use pidag.Loop.Ends.{run-empty, seeded_board-IsKept, find_node-known, gathered-unknown}

-- The edges of a node whose id no other node has.
missing-gathered :
    (ns : List Node) (x : Text) (n : Node) (states : Map NodeState)
    → distinct (node_ids ns) ≡ true
    → find_node ns x ≡ some n
    → missing states (gathered (λ m. m.depends_on) x ns) ≡ missing states n.depends_on
unfolding find_node gathered distinct missing
missing-gathered [] x n states d e = ground (arith, e)
missing-gathered (m ∷ ns) x n states d e = elim (Bool-cases (same m.id x)) [
  | inl k ↦
      let found : some m ≡ some n = ground (arith, e, k) in
      let own = same→eq m.id x k in
      let alone : contains (node_ids ns) x ≡ false =
        subst (λ y. contains (node_ids ns) y ≡ false) own (ground (arith, d)) in
      ground (
        arith,
        k,
        ap (λ o. missing states (deps_of o)) found,
        ap (missing states) (gathered-unknown ns x alone),
        missing-append states m.depends_on (gathered (λ l. l.depends_on) x ns),
      )
  | inr k ↦
      ground (arith, k, missing-gathered ns x n states (ground (arith, d)) (ground (arith, e, k)))
]

AllDone-missing :
    (states : Map NodeState) (deps : List Text)
    → All (λ dep. is_done_in states dep ≡ true) deps
    → missing states deps ≡ 0
unfolding missing
AllDone-missing states [] h = refl
AllDone-missing states (dep ∷ deps) h = ground (arith, h.0, AllDone-missing states deps h.1)

module _ (wide : ℕ → Bool) (allow_paid : Bool) (authored : Dag) (limits : BudgetLimits) {dag : Dag}
    {b : Board} {r : ℕ} {c : Board} (started : start authored none limits ≡ ok (dag, b))
    (gates : All HasNoGate dag.nodes) (rounds : Rounds wide allow_paid (plan_of dag) b r c) where
  run-IsKept : (x : Text) → is_some (get_node dag x) ≡ true → IsKept x c.ready c
  run-IsKept x known =
      let seeded = seeded_board dag none limits in
      Rounds-IsKept wide allow_paid dag x b known (plan_of-IsUngated dag gates) rounds
        (run-IsOnce wide allow_paid authored none limits started here)
        (start-IsSound authored limits started)
        (subst (λ (d : Board). IsKept x d.ready d) (sym (start-eq-ok authored none limits started))
          (drain-IsKept dag x seeded known (seeded_board-IsSound dag limits)
            (seeded_board-IsKept dag limits x)))

  -- In a run from the start, of a graph without gates and with distinct ids, while the budget is not
  -- breached: a node that waits for no `after` edge has been spawned exactly if all its dependencies
  -- are `Done`.
  pub dispatched_iff :
      (id : Text) (n : Node)
      → distinct (node_ids dag.nodes) ≡ true
      → get_node dag id ≡ some n
      → c.budget.breach ≡ none
      → is_zero_or true (lookup id c.after_pending) ≡ true
      → (contains c.dispatched id ≡ true)
        ↔ All (λ dep. is_done_in c.node_state dep ≡ true) n.depends_on
  unfolding get_node plan_of count
  dispatched_iff id n unique found calm clear = (
    λ h. dispatched_after_deps wide allow_paid authored limits id n started gates rounds h found,
    λ h.
        let sound = run-IsSound wide allow_paid authored limits started gates rounds id in
        let known = find_node-known dag.nodes id n found in
        let counted = run-IsCounted id wide allow_paid authored limits started known rounds in
        let urged = run-IsUrged id wide allow_paid authored limits started rounds in
        let kept = run-IsKept id (ground (arith, found)) in
        let empty = run-empty wide allow_paid authored limits started rounds calm in
        let met = AllDone-missing c.node_state n.depends_on h in
        let own = missing-gathered dag.nodes id n c.node_state unique found in
        let queued : contains c.enqueued id ≡ true =
          ground (arith, sound.waits, met, own, counted, urged, clear) in
        count-contains id c.dispatched (ground (arith, kept, queued, empty)),
  )
