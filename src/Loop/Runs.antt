-- ===== src/Loop/Runs.antt =====
-- What holds at the head of the loop of `execute`, behind any sequence of rounds.
use pidag.Base.{
  ℕ, suc, ◌+◌, ◌≤◌, ◌≡◌, ap, sym, subst, Bool, true, Option, List, [], ◌∷◌, ◌++◌, length,
  length-append, length-map, arith,
}
use pidag.Text.{Text, distinct}
use pidag.Dag.{Node, Dag, node_ids}
use pidag.Resume.{Checkpoint}
use pidag.Error.{ok}
use pidag.Scheduler.Budget.{BudgetLimits}
use pidag.Scheduler.Budget.Ceilings.{Op}
use pidag.Loop.{Plan, Task, Board}
use pidag.Loop.Build.{plan_of}
use pidag.Loop.Drain.{drain, spawn}
use pidag.Loop.Drained.{Drained, empties, drops, spawns, refuses, drain-Drained}
use pidag.Loop.Whole.{
  Step, task_returns, task_panics, Rounds, here, next, joined, start, seeded_board,
}
use pidag.Loop.Count.{count, count-distinct, count-length}
use pidag.Loop.Quiet.{announce-Quiet}
use pidag.Loop.Moves.{
  Move, notes, releases, lowers, enqueues, Moves-keep, settle-Moves, Quiet-Moves,
}
use pidag.Loop.Once.{IsOnce, Move-IsOnce, Drained-IsOnce}
use pidag.Loop.Start.{seeded_board-IsOnce, seeded_board_idle}

-- What a join, each small move and the inner loop keep, `n` rounds keep.
module _ {ℓ} (wide : ℕ → Bool) (allow_paid : Bool) (plan : Plan) (P : ℕ → Board → Type ℓ)
    (keep_join : (n : ℕ) (b : Board) (before after : List Task) (t : Task) (ops : List Op)
      → b.task_set ≡ before ++ t ∷ after
      → P n b
      → P (suc n) (joined (before ++ after) ops b))
    (keep_move : (n : ℕ) (b c : Board) → Move b c → P n b → P n c)
    (keep_drain : (n : ℕ) (b : Board) → P n b → P n (drain plan b)) where
  Step-keep : {n : ℕ} {b c : Board} → Step wide allow_paid plan b c → P n b → P (suc n) c
  Step-keep {n} {b} (task_returns before after t o ops e _ e') h = subst (P (suc n)) (sym e') (
      keep_drain (suc n) _ (
        Moves-keep (P (suc n)) (keep_move (suc n)) (settle-Moves plan t.node_id o _)
          (keep_join n b before after t ops e h)))
  Step-keep {n} {b} (task_panics before after t ops e e') h =
      subst (P (suc n)) (sym e') (keep_drain (suc n) _ (keep_join n b before after t ops e h))

  pub Rounds-keep :
      {b : Board} {n : ℕ} {c : Board} → Rounds wide allow_paid plan b n c → P 0 b → P n c
  Rounds-keep here h = h
  Rounds-keep (next rounds step) h = Step-keep step (Rounds-keep rounds h)

-- The rounds are the tasks that ended: each spawned task is joined once.
abbrev IsTallied : ℕ → Board → Type 0
IsTallied n b = n + length b.task_set ≡ length b.dispatched

Move-IsTallied : (n : ℕ) (b c : Board) → Move b c → IsTallied n b → IsTallied n c
Move-IsTallied n b _ (notes _ _ _ _ _ _) h = h
Move-IsTallied n b _ (releases _ _ _) h = h
Move-IsTallied n b _ (lowers _ _ _) h = h
Move-IsTallied n b _ (enqueues _ _) h = h

Drained-IsTallied :
    (n : ℕ) (plan : Plan) (q : List Text) (b c : Board)
    → Drained plan q b c
    → IsTallied n b
    → IsTallied n c
unfolding spawn
Drained-IsTallied n plan _ b _ empties h = h
Drained-IsTallied n plan _ b c (drops id rest e d) h = Drained-IsTallied n plan rest b c d h
Drained-IsTallied n plan _ b c (spawns id rest node budget e d) h =
    Drained-IsTallied n plan rest _ c d (omega (arith, h, length-append b.task_set (_ ∷ [])))
Drained-IsTallied n plan _ b _ (refuses id rest breach budget e) h =
    Moves-keep (IsTallied n) (Move-IsTallied n) (Quiet-Moves (announce-Quiet breach.message _)) h

-- What one authored run starts from.
pub start-eq-ok :
    (authored : Dag) (cp : Option Checkpoint) (limits : BudgetLimits) {dag : Dag} {b : Board}
    → start authored cp limits ≡ ok (dag, b)
    → b ≡ drain (plan_of dag) (seeded_board dag cp limits)
unfolding start
start-eq-ok authored cp limits e = ground (arith, e)

Rounds-IsTallied :
    (wide : ℕ → Bool) (allow_paid : Bool) (plan : Plan) (b : Board) {n : ℕ} {c : Board}
    → Rounds wide allow_paid plan b n c
    → IsTallied 0 b
    → IsTallied n c
Rounds-IsTallied wide allow_paid plan b rounds h =
    Rounds-keep wide allow_paid plan IsTallied
      (λ n b before after t ops e h'.
        omega
          (arith, h', ap length e, length-append before (t ∷ after), length-append before after))
      Move-IsTallied (λ n b h'. Drained-IsTallied n plan b.ready b _ (drain-Drained plan b) h')
      rounds h

pub Rounds-IsOnce :
    (wide : ℕ → Bool) (allow_paid : Bool) (plan : Plan) (b : Board) (ids : List Text) (x : Text)
    {n : ℕ} {c : Board}
    → Rounds wide allow_paid plan b n c
    → IsOnce ids x b.ready b
    → IsOnce ids x c.ready c
Rounds-IsOnce wide allow_paid plan b ids x rounds h =
    Rounds-keep wide allow_paid plan (λ n c. IsOnce ids x c.ready c)
      (λ n b before after t ops e h'. record {
        once = h'.once;
        counted = h'.counted;
        known = h'.known;
      })
      (λ n b c m h'. Move-IsOnce ids x b c m h')
      (λ n b h'. Drained-IsOnce ids x plan b.ready b _ (drain-Drained plan b) h') rounds h

module _ (wide : ℕ → Bool) (allow_paid : Bool) (authored : Dag) (cp : Option Checkpoint)
    (limits : BudgetLimits) {dag : Dag} {b : Board} {n : ℕ} {c : Board}
    (started : start authored cp limits ≡ ok (dag, b))
    (rounds : Rounds wide allow_paid (plan_of dag) b n c) where
  pub run-IsOnce : (x : Text) → IsOnce (node_ids dag.nodes) x c.ready c
  run-IsOnce x =
      let seeded = seeded_board dag cp limits in
      Rounds-IsOnce wide allow_paid (plan_of dag) b (node_ids dag.nodes) x rounds (
        subst (λ b'. IsOnce (node_ids dag.nodes) x b'.ready b')
          (sym (start-eq-ok authored cp limits started))
          (Drained-IsOnce (node_ids dag.nodes) x (plan_of dag) seeded.ready seeded _
            (drain-Drained (plan_of dag) seeded) (seeded_board-IsOnce dag cp limits x)))

  count-dispatched : (x : Text) → count x c.dispatched ≤ count x (node_ids dag.nodes)
  count-dispatched x = let h = run-IsOnce x in omega (arith, h.once, h.counted, h.known)

  -- However the tasks of a run interleave, panic or fail, with or without a checkpoint: no node is
  -- spawned twice.
  pub dispatched_once : distinct c.dispatched ≡ true
  dispatched_once =
      count-distinct c.dispatched (λ x. let h = run-IsOnce x in ground (arith, h.once))

  -- The rounds done and the tasks that still run are together the spawned tasks, and these are no
  -- more than the nodes of the expanded graph: the loop ends.
  pub rounds_end :
      (n + length c.task_set ≡ length c.dispatched) × (length c.dispatched ≤ length dag.nodes)
  rounds_end =
      let seeded = seeded_board dag cp limits in
      (
        Rounds-IsTallied wide allow_paid (plan_of dag) b rounds (
            subst (IsTallied 0) (sym (start-eq-ok authored cp limits started)) (
              Drained-IsTallied 0 (plan_of dag) seeded.ready seeded _
                (drain-Drained (plan_of dag) seeded)
                (omega (arith, seeded_board_idle dag cp limits)))),
        omega (
          arith,
          count-length c.dispatched (node_ids dag.nodes) count-dispatched,
          length-map (λ (m : Node). m.id) dag.nodes,
        ),
      )
