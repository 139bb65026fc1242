-- ===== src/Queue/Select.antt =====
-- `select_spec_for_project` and `merged_specs` of src/agent/select.rs. What the project's folder, its
-- state file and its handoff hold are arguments.
use pidag.Base.{
  ℕ, zero, suc, Bool, ◌&&◌, Option, none, some, List, [], ◌∷◌, any, length, if◌then◌else◌,
}
use mathlib.Core.List.{reverse}
use pidag.Text.{Text, codes, same}
use pidag.Text.Search.{strip_prefix}
use pidag.Error.{Result, ok, err}
use pidag.Queue.{SpecState, QueueEntry, ProjectQueue, is_pending, is_interrupted}
use pidag.Queue.State.{merge_queues}

abbrev pub merged_with :
    Text → Text → List QueueEntry → Result (Option ProjectQueue) → List QueueEntry
merged_with now project_root discovered (ok none) = discovered
merged_with now project_root discovered (ok (some cached)) =
    (merge_queues now cached discovered project_root).entries
merged_with now project_root discovered (err failure) = discovered

-- No queue is read where no spec is discovered.
unfoldable pub merged_specs :
    Text → Text → List QueueEntry → Result (Option ProjectQueue) → List QueueEntry
merged_specs now project_root [] queue = []
merged_specs now project_root (d ∷ discovered) queue =
    merged_with now project_root (d ∷ discovered) queue

-- The file of the first entry in such a state.
unfoldable pub first_file : (SpecState → Bool) → List QueueEntry → Option Text
first_file p [] = none
first_file p (e ∷ es) = let rest = first_file p es in if p e.state then some e.spec_file else rest

-- `trim_start_matches` of a text: it is removed as often as it stands there.
unfoldable pub trim_start_text : ℕ → Text → Text → Text
trim_start_text zero pattern_text t = t
trim_start_text (suc fuel) pattern_text t = elim (strip_prefix pattern_text t) [
  | none ↦ t
  | some rest ↦ trim_start_text fuel pattern_text rest
]

-- `trim_start_matches("specs/")` and `trim_end_matches(".md")`.
unfoldable pub stem_of : Text → Text
stem_of nominated =
    let name = trim_start_text (length nominated) (codes "specs/") nominated in
    reverse (trim_start_text (length name) (reverse (codes ".md")) (reverse name))

unfoldable pub is_nominated : Text → QueueEntry → Bool
is_nominated stem e = same e.spec_name stem && is_pending e.state

abbrev pub nominated_or : List QueueEntry → Option Text → Option Text → Option Text
nominated_or specs none next = next
nominated_or specs (some nominated) next =
    if any (is_nominated (stem_of nominated)) specs then some nominated else next

abbrev pub interrupted_or : Option Text → Option Text → Option Text
interrupted_or (some file) next = some file
interrupted_or none next = next

-- `nominated` is what the handoff nominates.
unfoldable pub select_spec : List QueueEntry → Option Text → Option Text
select_spec specs nominated =
    interrupted_or (first_file is_interrupted specs)
      (nominated_or specs nominated (first_file is_pending specs))
