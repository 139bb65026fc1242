-- ===== src/Loop/Samples/Breach.antt =====
-- A run whose budget allows one call.
use pidag.Base.{◌≡◌, refl, false, none, some, [], ◌∷◌}
use pidag.Text.{codes}
use pidag.Dag.{Dag}
use pidag.Scheduler.Budget.{BudgetLimits}
use pidag.Scheduler.Outside.{Run}
use pidag.Scheduler.Dispatch.Whole.{dispatch_node}
use pidag.Loop.{Task, Board}
use pidag.Loop.Build.{initial_states, plan_of}
use pidag.Loop.Drain.{drain}
use pidag.Loop.Settle.{Outcome, settle}
use pidag.Loop.Whole.{task_returns, Rounds, here, next, joined, seeded_board, dispatch_outcome}
use pidag.Scheduler.Budget.{BudgetBreach, refused_message}
use pidag.Loop.Ceiling.{breached_stops}
use pidag.Loop.Samples.{node, ascii, world, loops}

abbrev both : Dag
both = record { nodes = node (codes "a") [] ∷ node (codes "b") [] ∷ []; metadata = none }

abbrev tight : BudgetLimits
tight = record { max_model_calls = some 1; max_tokens = none }

abbrev stopped : Board
stopped = drain (plan_of both) (seeded_board both none tight)

abbrev breach : BudgetBreach
breach = record { message = refused_message 1 (some 1) (codes "b") }

stopped_breach : stopped.budget.breach ≡ some breach
unfolding loops
stopped_breach = refl

abbrev task : Task
task = record { node_id = codes "a"; node = node (codes "a") []; seen = initial_states both.nodes }

abbrev alone : Run
alone = record { clock = 0; requests = []; budget = stopped.budget }

abbrev answered : Outcome
answered = dispatch_outcome task (dispatch_node ascii world false task.node alone)

abbrev later : Board
later = drain (plan_of both) (settle (plan_of both) (codes "a") answered (joined [] [] stopped))

one_round : Rounds ascii false (plan_of both) stopped 1 later
unfolding loops
one_round = next here (task_returns [] [] task answered [] refl (world, alone, refl) refl)

breached_stops_example :
    (later.budget.breach ≡ some breach) × (later.dispatched ≡ stopped.dispatched)
breached_stops_example =
    breached_stops ascii false (plan_of both) stopped breach one_round stopped_breach
