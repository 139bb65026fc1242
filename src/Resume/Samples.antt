-- ===== src/Resume/Samples.antt =====
-- A small store.
use pidag.Base.{◌≡◌, refl, true, false, not, ◌&&◌, none, some, List, [], ◌∷◌}
use pidag.Text.{Text, codes, contains, same}
use pidag.Error.{ok}
use pidag.Scheduler.{NodeStatus, done, failed, running}
use pidag.Scheduler.Budget.{BudgetCounters}
use pidag.Resume.{
  Store, Checkpoint, resume, load_checkpoint, checkpoint_of, sort_all, sort_one, stale,
}
use pidag.Resume.Sorts.{recorded, load_checkpoint-resume}

abbrev terminal : List (Text × Text)
terminal = (codes "a", codes "Done") ∷ (codes "b", codes "Failed") ∷ []

abbrev nodes : List (Text × NodeStatus)
nodes = (codes "a", done) ∷ (codes "b", failed) ∷ (codes "c", running) ∷ []

abbrev spent : BudgetCounters
spent = record { model_calls = 3; total_tokens = 40 }

abbrev store : Store
store = record {
  get_run = ok (some (record { completed_at = none }));
  terminal_set = ok terminal;
  list_nodes = ok nodes;
  get_artifact = λ id. ok none;
  get_budget = ok spent;
}

load_checkpoint-store :
    load_checkpoint store (codes "r") true
    ≡ ok (
        resume (record {
          run_id = codes "r";
          completed_nodes = codes "a" ∷ [];
          failed_nodes = [];
          blocked_nodes = [];
          stale_running = codes "c" ∷ [];
          outputs = [];
          budget = spent;
        }))
unfolding load_checkpoint checkpoint_of sort_all sort_one stale same
load_checkpoint-store = refl

load_checkpoint-resume_example :
    (cp : Checkpoint) × (load_checkpoint store (codes "r") false ≡ ok (resume cp))
    × (cp.budget ≡ spent)
    × ((u : Text)
        → (contains cp.completed_nodes u ≡ recorded terminal (codes "Done") u)
          × (contains cp.failed_nodes u ≡ (not false && recorded terminal (codes "Failed") u))
          × (contains cp.blocked_nodes u ≡ recorded terminal (codes "Blocked") u))
load_checkpoint-resume_example =
    load_checkpoint-resume store false (codes "r") (record { completed_at = none }) terminal nodes
      spent refl refl refl refl refl
