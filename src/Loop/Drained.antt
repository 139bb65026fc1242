-- ===== src/Loop/Drained.antt =====
-- What the inner loop of `execute` does to the ready queue, as a relation: by induction on it an
-- invariant is kept.
use pidag.Base.{◌≡◌, refl, List, [], ◌∷◌}
use pidag.Text.{Text}
use pidag.Dag.{Node}
use pidag.Scheduler.Budget.{BudgetBreach, BudgetInner}
use pidag.Loop.{Plan, Board}
use pidag.Loop.Drain.{
  Taken, dropped, spawned, refused, take, after_take, announce, spawn, drain_from, drain,
}

-- From the queue `q` and the first board, the loop reaches the second.
pub data Drained (plan : Plan) : List Text → Board → Board → Type 0 where
  empties : {b : Board} → Drained plan [] b (record b { ready = [] })
  drops :
      (id : Text) (rest : List Text) {b c : Board}
      → take plan id b ≡ dropped
      → Drained plan rest b c
      → Drained plan (id ∷ rest) b c
  spawns :
      (id : Text) (rest : List Text) (node : Node) (budget : BudgetInner) {b c : Board}
      → take plan id b ≡ spawned node budget
      → Drained plan rest (spawn id node (record b { budget = budget })) c
      → Drained plan (id ∷ rest) b c
  refuses :
      (id : Text) (rest : List Text) (breach : BudgetBreach) (budget : BudgetInner) {b : Board}
      → take plan id b ≡ refused breach budget
      → Drained plan
          (id ∷ rest)
          b
          (announce breach.message (record b { ready = id ∷ rest; budget = budget }))

after_take-Drained :
    (plan : Plan) (id : Text) (rest : List Text) (b : Board) (t : Taken)
    → take plan id b ≡ t
    → ((c : Board) → Drained plan rest c (drain_from plan rest c))
    → Drained plan (id ∷ rest) b (after_take (drain_from plan rest) id rest b t)
after_take-Drained plan id rest b dropped e next = drops id rest e (next b)
after_take-Drained plan id rest b (spawned node budget) e next =
    spawns id rest node budget e (next (spawn id node (record b { budget = budget })))
after_take-Drained plan id rest b (refused breach budget) e next = refuses id rest breach budget e

drain_from-Drained :
    (plan : Plan) (q : List Text) (b : Board) → Drained plan q b (drain_from plan q b)
unfolding drain_from
drain_from-Drained plan [] b = empties
drain_from-Drained plan (id ∷ rest) b =
    after_take-Drained plan id rest b (take plan id b) refl (drain_from-Drained plan rest)

pub drain-Drained : (plan : Plan) (b : Board) → Drained plan b.ready b (drain plan b)
unfolding drain
drain-Drained plan b = drain_from-Drained plan b.ready b
