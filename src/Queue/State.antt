-- ===== src/Queue/State.antt =====
-- src/queue/state.rs: `merge_queues` and the resets. The time is an argument.
use pidag.Base.{Bool, true, false, Option, none, some, List, [], ◌∷◌, map, ltb, if◌then◌else◌}
use pidag.Text.{Text}
use pidag.Text.Order.{le_text}
use pidag.Map.{Map, lookup, insert}
use pidag.Queue.{pending, QueueEntry, ProjectQueue, is_failed}

-- `cached_by_file`: of two entries with one file, the later stands.
unfoldable pub by_file : List QueueEntry → Map QueueEntry → Map QueueEntry
by_file [] m = m
by_file (e ∷ es) m = by_file es (insert e.spec_file e m)

abbrev pub merge_entry : QueueEntry → Option QueueEntry → QueueEntry
merge_entry d none = d
merge_entry d (some prev) = record d {
  state = prev.state;
  last_run_at = prev.last_run_at;
  run_id = prev.run_id;
  error = prev.error;
}

-- `a.priority.cmp(&b.priority).then_with(|| a.spec_file.cmp(&b.spec_file))` is not `Greater`.
unfoldable pub precedes : QueueEntry → QueueEntry → Bool
precedes a b =
    if ltb a.priority b.priority
    then true
    else if ltb b.priority a.priority
    then false
    else le_text a.spec_file b.spec_file

-- `sort_by` is stable, and so is the insertion of each entry before the later ones.
unfoldable pub insert_entry : QueueEntry → List QueueEntry → List QueueEntry
insert_entry e [] = e ∷ []
insert_entry e (f ∷ es) =
    let rest = insert_entry e es in if precedes e f then e ∷ f ∷ es else f ∷ rest

unfoldable pub sort_entries : List QueueEntry → List QueueEntry
sort_entries [] = []
sort_entries (e ∷ es) = insert_entry e (sort_entries es)

unfoldable pub merged : Map QueueEntry → List QueueEntry → List QueueEntry
merged cached_by_file discovered =
    map (λ d. merge_entry d (lookup d.spec_file cached_by_file)) discovered

unfoldable pub merge_queues : Text → ProjectQueue → List QueueEntry → Text → ProjectQueue
merge_queues now cached discovered project_root = record {
  project_root = project_root;
  entries = sort_entries (merged (by_file cached.entries []) discovered);
  updated_at = now;
  weight = cached.weight;
}

unfoldable pub reset_all_to_pending : Text → ProjectQueue → ProjectQueue
reset_all_to_pending now queue = record queue {
  entries =
      map
        (λ (e : QueueEntry). record e {
          state = pending;
          last_run_at = none;
          run_id = none;
          error = none;
        })
        queue.entries;
  updated_at = now;
}

abbrev pub retry_entry : QueueEntry → QueueEntry
retry_entry e = if is_failed e.state then record e { state = pending; error = none } else e

unfoldable pub retry_failed_only : Text → ProjectQueue → ProjectQueue
retry_failed_only now queue = record queue {
  entries = map retry_entry queue.entries;
  updated_at = now;
}
