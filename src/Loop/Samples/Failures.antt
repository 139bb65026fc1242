-- ===== src/Loop/Samples/Failures.antt =====
-- What the loop does with the nodes behind a failed one.
use pidag.Base.{◌≡◌, refl, true, false, Option, none, some, [], ◌∷◌}
use pidag.Text.{Text, codes, contains}
use pidag.Map.{lookup}
use pidag.Dag.{Dag}
use pidag.Scheduler.{NodeStatus, pending, done, failed, blocked}
use pidag.Loop.{Board}
use pidag.Loop.Build.{plan_of}
use pidag.Loop.Drain.{drain}
use pidag.Loop.Settle.{Outcome, settle}
use pidag.Loop.Whole.{seeded_board}
use pidag.Loop.Samples.{node, limits, loops}

abbrev ends : Text → NodeStatus → Outcome
ends id status = record {
  task_model = none;
  task_attempt = 1;
  state = record { node_id = id; state = status; model = none; attempts = 1; output = none };
  model_used = none;
  dispatch_events = [];
  verify_failed = false;
}

abbrev behind : Dag → Text → NodeStatus → Board → Board
behind dag id status b = drain (plan_of dag) (settle (plan_of dag) id (ends id status) b)

abbrev at_start : Dag → Board
at_start dag = drain (plan_of dag) (seeded_board dag none limits)

abbrev status_in : Board → Text → Option NodeStatus
status_in b id = elim (lookup id b.node_state) [ none ↦ none | some s ↦ some s.state ]

abbrev line : Dag
line = record {
  nodes =
      node (codes "a") []
      ∷ node (codes "b") (codes "a" ∷ [])
      ∷ node (codes "c") (codes "b" ∷ [])
      ∷ [];
  metadata = none;
}

abbrev line_failed : Board
line_failed = behind line (codes "a") failed (at_start line)

-- The node behind a blocked node is not blocked: it is never spawned, and it ends as `Pending`.
behind-line :
    (status_in line_failed (codes "b") ≡ some blocked)
    × (status_in line_failed (codes "c") ≡ some pending)
    × (line_failed.ready ≡ [])
unfolding loops
behind-line = (refl, refl, refl)

-- `f` mends `x`, and needs `y` too; `g` waits for `f`.
abbrev mended : Dag
mended = record {
  nodes =
      node (codes "x") []
      ∷ node (codes "y") []
      ∷ record (node (codes "f") (codes "x" ∷ codes "y" ∷ [])) { gate = some (codes "x:fail") }
      ∷ node (codes "g") (codes "f" ∷ [])
      ∷ [];
  metadata = none;
}

-- `y` fails and `x` passes: `f` stays `Blocked`, and `g` is spawned all the same.
abbrev mended_first : Board
mended_first = behind mended (codes "x") done (behind mended (codes "y") failed (at_start mended))

behind-mended :
    (status_in mended_first (codes "f") ≡ some blocked)
    × (contains mended_first.dispatched (codes "g") ≡ true)
unfolding loops
behind-mended = (refl, refl)

-- In the other order `f` is skipped, `g` is spawned, and `f` becomes `Blocked` behind it.
abbrev mended_late : Board
mended_late = behind mended (codes "y") failed (behind mended (codes "x") done (at_start mended))

behind-mended_late :
    (status_in mended_late (codes "f") ≡ some blocked)
    × (contains mended_late.dispatched (codes "g") ≡ true)
unfolding loops
behind-mended_late = (refl, refl)
