-- ===== src/Scheduler/Dispatch/Whole.antt =====
-- `dispatch_node` of src/scheduler/execute.rs.
use pidag.Base.{ℕ, Bool, Option, none, some, ◌++◌}
use pidag.Text.{Text, codes}
use pidag.Dag.{Node}
use pidag.Scheduler.Outside.{World, Run}
use pidag.Scheduler.Dispatch.{Dispatched, ended, start, dispatch_with}
use pidag.Scheduler.Dispatch.Verification.{
  Baseline, captured, refused, run_verify_pre, shell_timeout, apply_verify_check,
}

unfoldable pub pre_failed_message : Node → Text → Text
pre_failed_message node message =
    codes "verify_pre failed for node " ++ (node.id ++ (codes ": " ++ message))

-- The dispatch behind the baseline.
abbrev pub dispatch_behind : (ℕ → Bool) → World → Bool → Node → Baseline × Run → Dispatched
dispatch_behind wide w allow_paid node (captured token, s) =
    dispatch_with w (apply_verify_check wide w allow_paid node (some token)) allow_paid node s
dispatch_behind wide w allow_paid node (refused message, s) =
    ended node (some (pre_failed_message node message)) (start s)

abbrev pub dispatch_after : (ℕ → Bool) → World → Bool → Node → Option Text → Run → Dispatched
dispatch_after wide w allow_paid node none s =
    dispatch_with w (apply_verify_check wide w allow_paid node none) allow_paid node s
dispatch_after wide w allow_paid node (some command) s =
    dispatch_behind wide w allow_paid node (run_verify_pre w command (shell_timeout node) s)

unfoldable pub dispatch_node : (ℕ → Bool) → World → Bool → Node → Run → Dispatched
dispatch_node wide w allow_paid node s = dispatch_after wide w allow_paid node node.verify_pre s
