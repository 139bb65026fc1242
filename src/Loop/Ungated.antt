-- ===== src/Loop/Ungated.antt =====
-- What the loop does with the dependents of a node, in a graph without gates.
use pidag.Base.{
  ◌≤◌, ◌≡◌, refl, ap, ◌∙◌, subst, true, false, Option, none, some, List, [], ◌∷◌, All, arith,
}
use pidag.Text.{Text, contains, same_iff}
use pidag.Map.{lookup, insert, lookup-insert}
use pidag.Scheduler.{blocked, NodeState}
use pidag.Loop.{Plan, Board, entries, lower, is_gated_on}
use pidag.Loop.Settle.{blocked_entry, block_one, pass_one, pass_all}
use pidag.Loop.Count.{count}
use pidag.Loop.Missing.{
  is_done_in, is_done_in-insert, missing-insert, count-le-missing, lost, is_lost_in,
  is_lost_in-insert, lost-le-insert, count-le-lost, lost-settled,
}
use pidag.Loop.Waits.{deps_in, Waiting, release_all-Waiting, lower-Waiting, release_all_states}

-- No node is gated on another.
abbrev pub IsUngated : Plan → Type 0
IsUngated plan = (source id : Text) → is_gated_on plan source id ≡ false

-- All ids satisfy the invariant, while the nodes of `left` are still to be counted down.
abbrev pub AllWaiting : Plan → List Text → List Text → Board → Type 0
AllWaiting plan left tasks b = (x : Text) → Waiting plan x left b.ready tasks b

blocked_entry-blocked : (id : Text) (o : Option NodeState) → (blocked_entry id o).state ≡ blocked
blocked_entry-blocked id none = refl
blocked_entry-blocked id (some s) = refl

module _ (plan : Plan) (tasks : List Text) (t : Text) where
  -- A node that depends on `t`, which is not `Done`, was never queued.
  dependent-unqueued :
      (g : Text) (b : Board)
      → Waiting plan g [] b.ready tasks b
      → is_done_in b.node_state t ≡ false
      → 1 ≤ count t (deps_in plan g)
      → contains b.enqueued g ≡ false
  unfolding count
  dependent-unqueued g b h u d =
      ground (arith, h.waits, h.released, count-le-missing b.node_state t (deps_in plan g) u)

  -- Such a node becomes `Blocked` behind a lost node.
  block-Waiting :
      (x g : Text) (b : Board)
      → Waiting plan x [] b.ready tasks b
      → contains b.enqueued g ≡ false
      → is_done_in b.node_state g ≡ false
      → 1 ≤ lost b.node_state (deps_in plan g)
      → Waiting plan x [] b.ready tasks (record b {
        node_state = insert g (blocked_entry g (lookup g b.node_state)) b.node_state;
      })
  unfolding count
  block-Waiting x g b h f u l =
      let s = blocked_entry g (lookup g b.node_state) in
      let is_blocked_now = blocked_entry-blocked g (lookup g b.node_state) in
      let more =
        lost-le-insert b.node_state g s (deps_in plan x) (ground (arith, is_blocked_now)) in
      record {
        single = ground (arith, h.single, is_blocked_now, is_done_in-insert b.node_state g x s);
        waits =
            ground
              (arith, h.waits, is_blocked_now, missing-insert b.node_state g s (deps_in plan x) u);
        released = h.released;
        unsettled = λ e.
            ground
              (arith, e, h.single, h.unsettled, f, same_iff g x, lookup-insert g x s b.node_state);
        held = λ e q.
            ground (arith, e, q, h.held, l, more, same_iff g x, lookup-insert g x s b.node_state);
      }

  block_one-Waiting :
      (g : Text) (b : Board)
      → AllWaiting plan [] tasks b
      → is_lost_in b.node_state t ≡ true
      → 1 ≤ count t (deps_in plan g)
      → AllWaiting plan [] tasks (block_one plan g b)
        × (is_lost_in (block_one plan g b).node_state t ≡ true)
  unfolding block_one
  block_one-Waiting g b h u d =
      let s = blocked_entry g (lookup g b.node_state) in
      let undone = (lost-settled b.node_state t u).1 in
      let unqueued = dependent-unqueued g b (h g) undone d in
      let own = h g in
      let own_undone : is_done_in b.node_state g ≡ false = ground (arith, own.single, unqueued) in
      let behind = count-le-lost b.node_state t (deps_in plan g) u in
      (
        λ x.
            release_all-Waiting plan x [] tasks (entries g plan.after_dependents) _
              (block-Waiting x g b (h x) unqueued own_undone (omega (arith, behind, d))),
        ap (λ m. is_lost_in m t) (release_all_states (entries g plan.after_dependents) _)
            ∙ ground (
              arith,
              u,
              is_lost_in-insert b.node_state g t s,
              blocked_entry-blocked g (lookup g b.node_state),
            ),
      )

  pub pass_failed-Waiting :
      (ungated : IsUngated plan) (l : List Text) (b : Board)
      → AllWaiting plan [] tasks b
      → is_lost_in b.node_state t ≡ true
      → All (λ g. 1 ≤ count t (deps_in plan g)) l
      → AllWaiting plan [] tasks (pass_all plan t false l b)
  unfolding pass_all pass_one
  pass_failed-Waiting ungated [] b h u a = h
  pass_failed-Waiting ungated (g ∷ l) b h u a =
      let (h', u') = block_one-Waiting g b h u a.0 in
      subst (λ c. AllWaiting plan [] tasks (pass_all plan t false l c)) (rw (ungated t g))
        (pass_failed-Waiting ungated l (block_one plan g b) h' u' a.1)

  pub pass_done-Waiting :
      (ungated : IsUngated plan) (l : List Text) (b : Board)
      → AllWaiting plan l tasks b
      → AllWaiting plan [] tasks (pass_all plan t true l b)
  unfolding pass_all pass_one
  pass_done-Waiting ungated [] b h = h
  pass_done-Waiting ungated (g ∷ l) b h =
      subst (λ c. AllWaiting plan [] tasks (pass_all plan t true l c)) (rw (ungated t g))
        (pass_done-Waiting ungated l (lower g b) (λ x. lower-Waiting plan x l tasks g b (h x)))
