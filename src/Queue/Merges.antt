-- ===== src/Queue/Merges.antt =====
-- What merging a project's queue keeps.
use mathlib.Core.List.Perm
use mathlib.Core.List.{Perm, append-nil, append_assoc}
use pidag.Base.{
  ◌<◌, ◌⊎◌, ◌≡◌, refl, sym, ap, ◌∙◌, subst, All-append, true, false, Option, none, some, List, [],
  ◌∷◌, ◌++◌, All, All-map, arith, if-intro,
}
use pidag.Text.{Text, same, same→eq}
use pidag.Text.Order.{le_text, le_text_total, le_text_trans}
use pidag.Queue.{QueueEntry, ProjectQueue}
use pidag.Map.{Map, lookup, insert, lookup-insert}
use pidag.Queue.State.{
  merge_entry, precedes, insert_entry, sort_entries, merged, by_file, merge_queues,
}

precedes_total : (a b : QueueEntry) → precedes a b ≡ false → precedes b a ≡ true
unfolding precedes
precedes_total a b h = ground (arith, h, le_text_total a.spec_file b.spec_file)

precedes_trans :
    (a b c : QueueEntry) → precedes a b ≡ true → precedes b c ≡ true → precedes a c ≡ true
unfolding precedes
precedes_trans a b c h k = ground (arith, h, k, le_text_trans a.spec_file b.spec_file c.spec_file)

-- Each entry precedes all behind it.
abbrev IsChain : List QueueEntry → Type 0
IsChain [] = Unit
IsChain (e ∷ es) = All (λ f. precedes e f ≡ true) es × IsChain es

All-insert_entry {κ} :
    (P : QueueEntry → Type κ) (e : QueueEntry) (es : List QueueEntry)
    → P e
    → All P es
    → All P (insert_entry e es)
unfolding insert_entry
All-insert_entry P e [] p a = (p, tt)
All-insert_entry P e (f ∷ es) p a =
    if-intro (All P) (precedes e f) (λ _. (p, a)) (λ _. (a.0, All-insert_entry P e es p a.1))

insert_entry-IsChain :
    (e : QueueEntry) (es : List QueueEntry) → IsChain es → IsChain (insert_entry e es)
unfolding insert_entry
insert_entry-IsChain e [] h = (tt, tt)
insert_entry-IsChain e (f ∷ es) h =
    if-intro IsChain (precedes e f)
      (λ first. (
        (
          first,
          All-map (λ g. precedes f g ≡ true) (λ g. precedes e g ≡ true)
              (λ g k. precedes_trans e f g first k) es h.0,
        ),
        h,
      ))
      (λ later. (
        All-insert_entry (λ g. precedes f g ≡ true) e es (precedes_total e f later) h.0,
        insert_entry-IsChain e es h.1,
      ))

sort_entries-IsChain : (es : List QueueEntry) → IsChain (sort_entries es)
unfolding sort_entries
sort_entries-IsChain [] = tt
sort_entries-IsChain (e ∷ es) = insert_entry-IsChain e (sort_entries es) (sort_entries-IsChain es)

-- By the priority, and where that is the same, by the file.
abbrev pub IsBefore : QueueEntry → QueueEntry → Type 0
IsBefore e f =
    (e.priority < f.priority)
    ⊎ ((e.priority ≡ f.priority) × (le_text e.spec_file f.spec_file ≡ true))

abbrev pub IsSorted : List QueueEntry → Type 0
IsSorted [] = Unit
IsSorted (e ∷ es) = All (IsBefore e) es × IsSorted es

precedes-IsBefore : (e f : QueueEntry) → precedes e f ≡ true → IsBefore e f
unfolding precedes
precedes-IsBefore e f h = ground (arith, h)

IsChain-IsSorted : (es : List QueueEntry) → IsChain es → IsSorted es
IsChain-IsSorted [] h = tt
IsChain-IsSorted (e ∷ es) h =
    (All-map _ (IsBefore e) (precedes-IsBefore e) es h.0, IsChain-IsSorted es h.1)

insert_entry-Perm : (e : QueueEntry) (es : List QueueEntry) → Perm (insert_entry e es) (e ∷ es)
unfolding insert_entry
insert_entry-Perm e [] = Perm.refl (e ∷ [])
insert_entry-Perm e (f ∷ es) =
    if-intro (λ l. Perm l (e ∷ f ∷ es)) (precedes e f) (λ _. Perm.refl (e ∷ f ∷ es))
      (λ _. Perm.trans (Perm.cons f (insert_entry-Perm e es)) (Perm.swap e f es))

sort_entries-Perm : (es : List QueueEntry) → Perm (sort_entries es) es
unfolding sort_entries
sort_entries-Perm [] = Perm.nil
sort_entries-Perm (e ∷ es) =
    Perm.trans (insert_entry-Perm e (sort_entries es)) (Perm.cons e (sort_entries-Perm es))

-- The last entry of a queue with this file.
abbrev pub IsLast : Text → List QueueEntry → Option QueueEntry → Type 0
IsLast file es none = All (λ e. same e.spec_file file ≡ false) es
IsLast file es (some last) =
    (before : List QueueEntry) × (after : List QueueEntry) × (es ≡ before ++ last ∷ after)
    × (last.spec_file ≡ file)
    × All (λ e. same e.spec_file file ≡ false) after

-- A discovered spec with the progress of an earlier entry for its file, if there is one.
abbrev pub Refreshed : QueueEntry → Option QueueEntry → QueueEntry → Type 0
Refreshed d none e = e ≡ d
Refreshed d (some prev) e =
    (e.spec_name ≡ d.spec_name)
    × (e.spec_file ≡ d.spec_file)
    × (e.priority ≡ d.priority)
    × (e.state ≡ prev.state)
    × (e.last_run_at ≡ prev.last_run_at)
    × (e.run_id ≡ prev.run_id)
    × (e.error ≡ prev.error)

-- The entry `e` is the discovered spec `d`, with what the queue's last entry for its file knows.
abbrev pub IsMerged : List QueueEntry → QueueEntry → QueueEntry → Type 0
IsMerged cached d e =
    (prev : Option QueueEntry) × IsLast d.spec_file cached prev × Refreshed d prev e

abbrev pub AllMerged : List QueueEntry → List QueueEntry → List QueueEntry → Type 0
AllMerged cached [] [] = Unit
AllMerged cached (d ∷ ds) (e ∷ es) = IsMerged cached d e × AllMerged cached ds es
AllMerged cached _ _ = ⊥

IsLast-later :
    (file : Text) (e : QueueEntry) (done : List QueueEntry) (o : Option QueueEntry)
    → same e.spec_file file ≡ false
    → IsLast file done o
    → IsLast file (done ++ e ∷ []) o
IsLast-later file e done none k h = All-append _ done (e ∷ []) h (k, tt)
IsLast-later file e done (some last) k (before, after, split, own, none_after) = (
  before,
  after ++ e ∷ [],
  ap (λ l. l ++ e ∷ []) split ∙ append_assoc before (last ∷ after) (e ∷ []),
  own,
  All-append _ after (e ∷ []) none_after (k, tt),
)

IsLast-insert :
    (file : Text) (e : QueueEntry) (done : List QueueEntry) (m : Map QueueEntry)
    → IsLast file done (lookup file m)
    → IsLast file (done ++ e ∷ []) (lookup file (insert e.spec_file e m))
IsLast-insert file e done m h = rw (lookup-insert e.spec_file file e m) (
    if-intro (IsLast file (done ++ e ∷ [])) (same e.spec_file file)
      (λ k. (done, [], refl, same→eq e.spec_file file k, tt))
      (λ k. IsLast-later file e done (lookup file m) k h))

lookup-by_file :
    (file : Text) (done es : List QueueEntry) (m : Map QueueEntry)
    → IsLast file done (lookup file m)
    → IsLast file (done ++ es) (lookup file (by_file es m))
unfolding by_file
lookup-by_file file done [] m h =
    subst (λ l. IsLast file l (lookup file m)) (sym (append-nil done)) h
lookup-by_file file done (e ∷ es) m h =
    subst (λ l. IsLast file l (lookup file (by_file es (insert e.spec_file e m))))
      (append_assoc done (e ∷ []) es)
      (lookup-by_file file (done ++ e ∷ []) es _ (IsLast-insert file e done m h))

merge_entry-Refreshed :
    (d : QueueEntry) (prev : Option QueueEntry) → Refreshed d prev (merge_entry d prev)
merge_entry-Refreshed d none = refl
merge_entry-Refreshed d (some prev) = (refl, refl, refl, refl, refl, refl, refl)

merged-AllMerged :
    (cached discovered : List QueueEntry)
    → AllMerged cached discovered (merged (by_file cached []) discovered)
unfolding merged
merged-AllMerged cached [] = tt
merged-AllMerged cached (d ∷ ds) = (
  (
    lookup d.spec_file (by_file cached []),
    lookup-by_file d.spec_file [] cached [] (unfold lookup in tt),
    merge_entry-Refreshed d (lookup d.spec_file (by_file cached [])),
  ),
  merged-AllMerged cached ds,
)

-- A merged queue holds the discovered specs, each once, in the order of their priorities and files.
-- Each has the state, the time and the id of the last run and the error of the last entry that the
-- cached queue has for its file, and is as discovered where there is none.
pub merge_queues_lem :
    (now : Text) (cached : ProjectQueue) (discovered : List QueueEntry) (project_root : Text)
    → let queue = merge_queues now cached discovered project_root in
      IsSorted queue.entries
      × ((es : List QueueEntry) × AllMerged cached.entries discovered es × Perm queue.entries es)
unfolding merge_queues
merge_queues_lem now cached discovered project_root =
    let es = merged (by_file cached.entries []) discovered in
    (
      IsChain-IsSorted _ (sort_entries-IsChain es),
      (es, merged-AllMerged cached.entries discovered, sort_entries-Perm es),
    )
