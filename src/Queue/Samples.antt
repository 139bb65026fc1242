-- ===== src/Queue/Samples.antt =====
-- A small queue.
use mathlib.Core.List.{Perm}
use pidag.Base.{ℕ, ◌≡◌, ◌↔◌, ◌⊎◌, refl, false, none, some, List, [], ◌∷◌, map}
use pidag.Text.{Text, codes, same}
use pidag.Text.Order.{le_text}
use pidag.Text.Search.{strip_prefix}
use pidag.Map.{lookup, insert}
use pidag.Error.{ok}
use pidag.Queue.{
  SpecState, pending, done, failed, QueueEntry, ProjectQueue, is_pending, is_interrupted,
}
use pidag.Queue.State.{
  by_file, precedes, insert_entry, sort_entries, merged, merge_queues, reset_all_to_pending,
  retry_failed_only,
}
use pidag.Queue.Merges.{IsSorted, AllMerged, merge_queues_lem}
use pidag.Queue.Select.{
  merged_specs, first_file, trim_start_text, stem_of, is_nominated, select_spec,
}
use pidag.Queue.Choice.{has_state, IsFirst, IsNext, select_spec-none, select_spec_sound}

abbrev entry : Text → ℕ → SpecState → QueueEntry
entry name priority state = record {
  spec_name = name;
  spec_file = name;
  state = state;
  priority = priority;
  last_run_at = none;
  run_id = none;
  error = none;
}

abbrev cached : ProjectQueue
cached = record {
  project_root = [];
  entries = entry (codes "a") 1 done ∷ entry (codes "c") 3 failed ∷ [];
  updated_at = [];
  weight = codes "2.0";
}

abbrev found : List QueueEntry
found = entry (codes "c") 3 pending ∷ entry (codes "b") 2 pending ∷ entry (codes "a") 1 pending ∷ []

queues : Unit {0}
unfolding by_file precedes insert_entry sort_entries merged merge_queues reset_all_to_pending
    retry_failed_only merged_specs first_file trim_start_text stem_of is_nominated select_spec
    le_text strip_prefix lookup insert same
queues = tt

abbrev states : List QueueEntry → List SpecState
states es = map (λ (e : QueueEntry). e.state) es

merge_queues-found : states (merge_queues [] cached found []).entries ≡ done ∷ pending ∷ failed ∷ []
unfolding queues
merge_queues-found = refl

retry_failed_only-cached :
    (states (retry_failed_only [] cached).entries ≡ done ∷ pending ∷ [])
    × (states (reset_all_to_pending [] cached).entries ≡ pending ∷ pending ∷ [])
unfolding queues
retry_failed_only-cached = (refl, refl)

-- The failed spec is retried first.
select_spec-found :
    select_spec (merged_specs [] [] found (ok (some cached))) none ≡ some (codes "c")
unfolding queues
select_spec-found = refl

-- A nominated spec that is still pending goes before the others that are.
select_spec-nominated : select_spec found (some (codes "specs/b.md")) ≡ some (codes "specs/b.md")
unfolding queues
select_spec-nominated = refl

merge_queues_lem_example :
    let queue = merge_queues [] cached found [] in
    IsSorted queue.entries
    × ((es : List QueueEntry) × AllMerged cached.entries found es × Perm queue.entries es)
merge_queues_lem_example = merge_queues_lem [] cached found []

select_spec-none_example :
    (select_spec found none ≡ none)
    ↔ ((has_state is_interrupted found ≡ false) × (has_state is_pending found ≡ false))
select_spec-none_example = select_spec-none found none

select_spec_sound_example :
    IsFirst is_interrupted (codes "c") found
    ⊎ ((has_state is_interrupted found ≡ false) × IsNext found none (codes "c"))
unfolding queues
select_spec_sound_example = select_spec_sound found none (codes "c") refl
