-- ===== src/Loop/Urged.antt =====
-- No node that could be queued is left out of the queue.
use pidag.Base.{
  ℕ, ◌-◌, ◌≡◌, refl, sym, subst, Bool, true, false, ◌&&◌, none, List, [], ◌∷◌, ◌++◌, ◌==◌, arith,
  if-intro,
}
use pidag.Text.{Text, same, same_iff, contains}
use pidag.Map.{Map, lookup, insert, lookup-insert}
use pidag.Error.{ok}
use pidag.Dag.{Dag}
use pidag.Scheduler.Budget.{BudgetLimits}
use pidag.Loop.{Plan, Board, is_ready, is_zero_or, try_enqueue}
use pidag.Loop.Build.{plan_of}
use pidag.Loop.Seed.{ready_ids, fill_ready, apply_checkpoint}
use pidag.Loop.Drain.{drain, spawn}
use pidag.Loop.Whole.{
  Step, task_returns, task_panics, Rounds, here, next, joined, start, fresh_board, seeded_board,
}
use pidag.Loop.Acts.{Act, notes, releases, lowers, Acts-keep, settle-Acts}
use pidag.Loop.Quiet.{Quiet, quiet, announce-Quiet}
use pidag.Loop.Drained.{Drained, empties, drops, spawns, refuses, drain-Drained}
use pidag.Loop.Runs.{start-eq-ok}

module _ (x : Text) where
  -- `x` is in `enqueued`, or an edge of it is still counted.
  abbrev pub IsUrged : Board → Type 0
  IsUrged b = is_ready x b ≡ false

  try_enqueue-IsUrged :
      (id : Text) (b : Board) → (same id x ≡ false → IsUrged b) → IsUrged (try_enqueue id b)
  unfolding try_enqueue contains
  try_enqueue-IsUrged id b h =
      if-intro IsUrged (is_ready id b) (λ e. ground (arith, h, same_iff id x))
        (λ e. ground (arith, h, same_iff id x))

  Act-IsUrged : (b c : Board) → Act b c → IsUrged b → IsUrged c
  Act-IsUrged b _ (notes _ _ _ _ _ _) h = h
  Act-IsUrged b _ (releases id left e) h =
      try_enqueue-IsUrged id _ (λ k. ground (arith, h, k, lookup-insert id x left b.after_pending))
  Act-IsUrged b _ (lowers id degree e) h =
      let b' = record b { in_degree = insert id (degree - 1) b.in_degree } in
      let others : same id x ≡ false → IsUrged b' =
        λ k. ground (arith, h, k, lookup-insert id x (degree - 1) b.in_degree) in
      if-intro IsUrged (degree - 1 == 0) (λ z. try_enqueue-IsUrged id b' others)
        (λ z. ground (arith, others, z, lookup-insert id x (degree - 1) b.in_degree))

  Quiet-IsUrged : {b c : Board} → Quiet b c → IsUrged b → IsUrged c
  Quiet-IsUrged (quiet _ _ _ _ _) h = h

  Drained-IsUrged :
      (plan : Plan) (q : List Text) (b c : Board) → Drained plan q b c → IsUrged b → IsUrged c
  unfolding spawn
  Drained-IsUrged plan _ b _ empties h = h
  Drained-IsUrged plan _ b c (drops id rest e d) h = Drained-IsUrged plan rest b c d h
  Drained-IsUrged plan _ b c (spawns id rest node budget e d) h = Drained-IsUrged plan rest _ c d h
  Drained-IsUrged plan _ b _ (refuses id rest breach budget e) h =
      Quiet-IsUrged
        (announce-Quiet breach.message (record b { ready = id ∷ rest; budget = budget })) h

  drain-IsUrged : (plan : Plan) (b : Board) → IsUrged b → IsUrged (drain plan b)
  drain-IsUrged plan b h = Drained-IsUrged plan b.ready b _ (drain-Drained plan b) h

  Step-IsUrged :
      (wide : ℕ → Bool) (allow_paid : Bool) (plan : Plan) (b c : Board)
      → Step wide allow_paid plan b c
      → IsUrged b
      → IsUrged c
  Step-IsUrged wide allow_paid plan b c (task_returns before after t o ops e _ e') h =
      subst IsUrged (sym e') (
        drain-IsUrged plan _ (
          Acts-keep IsUrged Act-IsUrged
            (settle-Acts plan t.node_id o (joined (before ++ after) ops b)) h))
  Step-IsUrged wide allow_paid plan b c (task_panics before after t ops e e') h =
      subst IsUrged (sym e') (drain-IsUrged plan (joined (before ++ after) ops b) h)

  Rounds-IsUrged :
      (wide : ℕ → Bool) (allow_paid : Bool) (plan : Plan) (b : Board) {n : ℕ} {c : Board}
      → Rounds wide allow_paid plan b n c
      → IsUrged b
      → IsUrged c
  Rounds-IsUrged wide allow_paid plan b here h = h
  Rounds-IsUrged wide allow_paid plan b (next rounds step) h =
      Step-IsUrged wide allow_paid plan _ _ step (Rounds-IsUrged wide allow_paid plan b rounds h)

  -- The first queue holds every node without a counted edge.
  contains-ready_ids :
      (b : Board) (m : Map ℕ)
      → b.terminal_from_checkpoint ≡ []
      → (is_zero_or false (lookup x m) && is_zero_or true (lookup x b.after_pending)) ≡ true
      → contains (ready_ids b m) x ≡ true
  unfolding ready_ids contains lookup
  contains-ready_ids b [] t h = ground (arith, h)
  contains-ready_ids b ((id, degree) ∷ m) t h =
      ground (arith, t, h, contains-ready_ids b m t, same_iff id x)

  fill_ready-IsUrged : (b : Board) → b.terminal_from_checkpoint ≡ [] → IsUrged (fill_ready b)
  unfolding fill_ready
  fill_ready-IsUrged b t = ground (arith, contains-ready_ids b b.in_degree t)

  seeded_board-IsUrged :
      (dag : Dag) (limits : BudgetLimits) → IsUrged (seeded_board dag none limits)
  unfolding seeded_board apply_checkpoint fresh_board
  seeded_board-IsUrged dag limits = fill_ready-IsUrged _ refl

  -- In a run from the start, at the head of the loop: every node that is not in `enqueued` still waits
  -- for a counted edge.
  pub run-IsUrged :
      (wide : ℕ → Bool) (allow_paid : Bool) (authored : Dag) (limits : BudgetLimits) {dag : Dag}
      {b : Board} {n : ℕ} {c : Board}
      → start authored none limits ≡ ok (dag, b)
      → Rounds wide allow_paid (plan_of dag) b n c
      → IsUrged c
  run-IsUrged wide allow_paid authored limits {dag} started rounds =
      Rounds-IsUrged wide allow_paid (plan_of dag) _ rounds (
        subst IsUrged (sym (start-eq-ok authored none limits started))
          (drain-IsUrged (plan_of dag) _ (seeded_board-IsUrged dag limits)))
