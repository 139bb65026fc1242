-- ===== src/Resume/Sorts.antt =====
-- A checkpoint sorts the terminal nodes by their recorded state.
use pidag.Base.{
  ◌≡◌, refl, sym, ap, ◌∙◌, Bool, true, false, not, ◌&&◌, ◌||◌, Option, none, some, is_some, List,
  [], ◌∷◌, any, arith, if◌then◌else◌, subst, Bool-cases, inl, inr,
}
use pidag.Text.{Text, codes, same, same→eq, contains}
use pidag.Error.{ok, ◌>>=◌}
use pidag.Scheduler.{NodeStatus}
use pidag.Scheduler.Budget.{BudgetCounters}
use pidag.Resume.{
  Store, Checkpoint, resume, RunMeta, Sorted, sort_one, sort_all, nothing_sorted, checkpoint_of,
  load_checkpoint, decide, report_from, resume_from,
}

-- The terminal set records this state of the node.
abbrev pub recorded : List (Text × Text) → Text → Text → Bool
recorded terminal state id = any (λ t. same t.0 id && same t.1 state) terminal

done_only :
    (s : Text)
    → same s (codes "Done") ≡ true
    → (same s (codes "Failed") ≡ false) × (same s (codes "Blocked") ≡ false)
unfolding same
done_only s h =
    subst (λ (t : Text). (same t (codes "Failed") ≡ false) × (same t (codes "Blocked") ≡ false))
      (sym (same→eq s (codes "Done") h)) (refl, refl)

failed_only : (s : Text) → same s (codes "Failed") ≡ true → same s (codes "Blocked") ≡ false
unfolding same
failed_only s h =
    subst (λ (t : Text). same t (codes "Blocked") ≡ false) (sym (same→eq s (codes "Failed") h)) refl

-- What a step on the node `id` puts into the three sets.
sort_one-sets :
    (store : Store) (retry_failed : Bool) (id state : Text) (s : Sorted) (u : Text)
    → (contains (sort_one store retry_failed id state s).completed u
        ≡ ((same id u && same state (codes "Done")) || contains s.completed u))
      × (contains (sort_one store retry_failed id state s).failing u ≡ (
          (not retry_failed && (same id u && same state (codes "Failed"))) || contains s.failing u))
      × (contains (sort_one store retry_failed id state s).blocking u
          ≡ ((same id u && same state (codes "Blocked")) || contains s.blocking u))
unfolding sort_one contains
sort_one-sets store retry_failed id state s u = elim (Bool-cases (same state (codes "Done"))) [
  | inl d ↦ let (f, b) = done_only state d in rw (d, f, b) (ground arith)
  | inr d ↦ elim (Bool-cases (same state (codes "Failed"))) [
    | inl f ↦ elim (Bool-cases retry_failed) [
      | inl r ↦ let b = failed_only state f in rw (d, f, b, r) (ground arith)
      | inr r ↦ let b = failed_only state f in rw (d, f, b, r) (ground arith)
    ]
    | inr f ↦ elim (Bool-cases (same state (codes "Blocked"))) [
      | inl b ↦ rw (d, f, b) (ground arith)
      | inr b ↦ rw (d, f, b) (ground arith)
    ]
  ]
]

module _ (store : Store) (retry_failed : Bool) where
  sort_all-sets :
      (terminal : List (Text × Text)) (s : Sorted) (u : Text)
      → (contains (sort_all store retry_failed terminal s).completed u
          ≡ (recorded terminal (codes "Done") u || contains s.completed u))
        × (contains (sort_all store retry_failed terminal s).failing u
            ≡ ((not retry_failed && recorded terminal (codes "Failed") u) || contains s.failing u))
        × (contains (sort_all store retry_failed terminal s).blocking u
            ≡ (recorded terminal (codes "Blocked") u || contains s.blocking u))
  unfolding sort_all
  sort_all-sets [] s u = ground arith
  sort_all-sets ((id, state) ∷ terminal) s u =
      let (one_c, one_f, one_b) = sort_one-sets store retry_failed id state s u in
      let (c, f, b) = sort_all-sets terminal (sort_one store retry_failed id state s) u in
      ground (arith, one_c, one_f, one_b, c, f, b)

  -- Of an unfinished run, a node is taken over as completed, or as blocked, exactly when the store
  -- recorded it so, and as failed exactly when it is recorded so and failed nodes are not retried;
  -- the budget counters go on from those stored.
  pub load_checkpoint-resume :
      (run_id : Text) (run : RunMeta) (terminal : List (Text × Text))
      (nodes : List (Text × NodeStatus)) (budget : BudgetCounters)
      → store.get_run ≡ ok (some run)
      → run.completed_at ≡ none
      → store.terminal_set ≡ ok terminal
      → store.list_nodes ≡ ok nodes
      → store.get_budget ≡ ok budget
      → (cp : Checkpoint) × (load_checkpoint store run_id retry_failed ≡ ok (resume cp))
        × (cp.budget ≡ budget)
        × ((u : Text)
            → (contains cp.completed_nodes u ≡ recorded terminal (codes "Done") u)
              × (contains cp.failed_nodes u
                  ≡ (not retry_failed && recorded terminal (codes "Failed") u))
              × (contains cp.blocked_nodes u ≡ recorded terminal (codes "Blocked") u))
  unfolding load_checkpoint checkpoint_of contains
  load_checkpoint-resume run_id run terminal nodes budget is_run open_run is_terminal is_nodes
        is_budget =
      (
        checkpoint_of store run_id retry_failed terminal nodes budget,
        ap (λ r. r >>= λ run. decide store run_id retry_failed run) is_run
            ∙ (ap
                  (λ (o : Option Text).
                    if is_some o
                    then report_from run_id store.terminal_set store.get_budget
                    else resume_from store run_id retry_failed store.terminal_set store.list_nodes
                        store.get_budget)
                  open_run
                ∙ λ i.
                    resume_from store run_id retry_failed (is_terminal i) (is_nodes i)
                      (is_budget i)),
        refl,
        λ u. let (c, f, b) = sort_all-sets terminal nothing_sorted u in ground (arith, c, f, b),
      )
