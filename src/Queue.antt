-- ===== src/Queue.antt =====
-- src/queue: the specs of a project and how far each has come. `u8` priorities are plain numbers, and
-- the weight, which is only carried, is the text of its `f64`.
pub mod State
pub mod Merges
pub mod Select
pub mod Choice
mod Samples
use pidag.Base.{ℕ, Bool, true, false, Option, none, List}
use pidag.Text.{Text}

pub data SpecState : Type 0 where
  pending running done failed skipped : SpecState

pub record QueueEntry : Type 0 where
  pub spec_name : Text
  pub spec_file : Text
  pub state : SpecState
  pub priority : ℕ
  pub last_run_at : Option Text
  pub run_id : Option Text
  pub error : Option Text

pub record ProjectQueue : Type 0 where
  pub project_root : Text
  pub entries : List QueueEntry
  pub updated_at : Text
  pub weight : Text

-- `==` and `matches!` on a state.
abbrev pub is_pending : SpecState → Bool
is_pending pending = true
is_pending _ = false

abbrev pub is_failed : SpecState → Bool
is_failed failed = true
is_failed _ = false

abbrev pub is_interrupted : SpecState → Bool
is_interrupted running = true
is_interrupted failed = true
is_interrupted _ = false
