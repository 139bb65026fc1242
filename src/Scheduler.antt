-- ===== src/Scheduler.antt =====
-- src/scheduler/mod.rs: the states of a node and the reports of a run. `usize` counters that the
-- length of a list bounds are plain numbers.
pub mod Budget
pub mod Verdict
pub mod Interpolate
pub mod Status
pub mod Outside
pub mod Awaiting
pub mod Dispatch
mod Samples
use pidag.Base.{ℕ, Bool, true, false, Option, List}
use pidag.Text.{Text}

pub data NodeStatus : Type 0 where
  pending running done failed blocked : NodeStatus

-- `state` of `NodeState`, `==` against one status.
abbrev pub is_done : NodeStatus → Bool
is_done done = true
is_done _ = false

abbrev pub is_failed : NodeStatus → Bool
is_failed failed = true
is_failed _ = false

abbrev pub is_blocked : NodeStatus → Bool
is_blocked blocked = true
is_blocked _ = false

abbrev pub is_pending : NodeStatus → Bool
is_pending pending = true
is_pending _ = false

pub record NodeState : Type 0 where
  pub node_id : Text
  pub state : NodeStatus
  pub model : Option Text
  pub attempts : ℕ
  pub output : Option Text
