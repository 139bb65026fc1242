-- ===== src/Loop/Acts.antt =====
-- The acts that the branches behind a joined task are made of: an abstract view of `execute` that
-- forgets which node causes which act.
use pidag.Base.{
  ℕ, zero, suc, ◌≡◌, refl, Bool, Option, none, some, List, [], ◌∷◌, Bool-cases, inl, inr, if-intro,
}
use pidag.Text.{Text, contains}
use pidag.Map.{Map, lookup}
use pidag.Scheduler.{NodeState, is_done}
use pidag.Scheduler.Awaiting.{Snapshot}
use pidag.Loop.{Event, Plan, Board, release_by, release_all, entries, lower, lower_by, is_gated_on}
use pidag.Loop.Quiet.{Quiet, quiet, report_events-Quiet, report_state-Quiet}
use pidag.Loop.Skip.{mark_skipped, pass_skip, skip_one, skip_from, skip, is_open}
use pidag.Loop.Settle.{
  Outcome, block_one, pass_one, pass_all, record_return, settle, record_end, is_end,
}

-- A node that is counted down is queued at once if it can be.
pub data Act (b : Board) : Board → Type 0 where
  notes :
      (node_state : Map NodeState) (snapshot : Snapshot) (events : List Event)
      (terminal_nodes terminal_from_checkpoint : List Text) (breach_announced : Bool)
      → Act b (record b {
        node_state = node_state;
        snapshot = snapshot;
        events = events;
        terminal_nodes = terminal_nodes;
        terminal_from_checkpoint = terminal_from_checkpoint;
        breach_announced = breach_announced;
      })
  releases :
      (id : Text) (left : ℕ)
      → lookup id b.after_pending ≡ some (suc left)
      → Act b (release_by (some (suc left)) id b)
  lowers :
      (id : Text) (degree : ℕ)
      → lookup id b.in_degree ≡ some degree
      → Act b (lower_by (some degree) id b)

pub data Acts (b : Board) : Board → Type 0 where
  rests : Acts b b
  acts : {c d : Board} → Acts b c → Act c d → Acts b d

-- What each act keeps, a chain of acts keeps.
pub Acts-keep {ℓ} :
    (P : Board → Type ℓ)
    → ((b c : Board) → Act b c → P b → P c)
    → {b c : Board} → Acts b c
    → P b
    → P c
Acts-keep P keep rests p = p
Acts-keep P keep (acts m step) p = keep _ _ step (Acts-keep P keep m p)

Acts-trans : {b c d : Board} → Acts b c → Acts c d → Acts b d
Acts-trans m rests = m
Acts-trans m (acts n step) = acts (Acts-trans m n) step

release_by-Acts :
    (o : Option ℕ) (id : Text) (b : Board)
    → lookup id b.after_pending ≡ o
    → Acts b (release_by o id b)
release_by-Acts none id b e = rests
release_by-Acts (some zero) id b e = rests
release_by-Acts (some (suc left)) id b e = acts rests (releases id left e)

release_all-Acts : (ids : List Text) (b : Board) → Acts b (release_all ids b)
unfolding release_all
release_all-Acts [] b = rests
release_all-Acts (id ∷ ids) b =
    Acts-trans (release_by-Acts (lookup id b.after_pending) id b refl) (release_all-Acts ids _)

lower_by-Acts :
    (o : Option ℕ) (id : Text) (b : Board) → lookup id b.in_degree ≡ o → Acts b (lower_by o id b)
lower_by-Acts none id b e = rests
lower_by-Acts (some degree) id b e = acts rests (lowers id degree e)

lower-Acts : (id : Text) (b : Board) → Acts b (lower id b)
unfolding lower
lower-Acts id b = lower_by-Acts (lookup id b.in_degree) id b refl

mark_skipped-Acts : (id : Text) (b : Board) → Acts b (mark_skipped id b)
unfolding mark_skipped
mark_skipped-Acts id b =
    if-intro (Acts b) (contains b.terminal_nodes id) (λ e. rests)
      (λ e. acts rests (notes _ _ _ _ _ _))

pass_skip-Acts :
    (plan : Plan) (id : Text) (nested : List Text) (r : List Text × Board)
    → Acts r.1 (pass_skip plan id nested r).1
unfolding pass_skip
pass_skip-Acts plan id [] r = rests
pass_skip-Acts plan id (g ∷ nested) (work, b) =
    Acts-trans
      (if-intro (λ (s : List Text × Board). Acts b s.1) (is_open (lookup g b.node_state))
        (λ o.
          if-intro (λ (s : List Text × Board). Acts b s.1) (is_gated_on plan id g) (λ e. rests)
            (λ e. lower-Acts g b))
        (λ o. rests))
      (pass_skip-Acts plan id nested _)

skip_one-Acts :
    (plan : Plan) (id : Text) (work : List Text) (b : Board) → Acts b (skip_one plan id work b).1
unfolding skip_one
skip_one-Acts plan id work b = Acts-trans (mark_skipped-Acts id b) (
    Acts-trans (release_all-Acts (entries id plan.after_dependents) _)
      (pass_skip-Acts plan id _ (work, _)))

skip_from-Acts :
    (fuel : ℕ) (plan : Plan) (processed work : List Text) (b : Board)
    → Acts b (skip_from fuel plan processed work b)
unfolding skip_from
skip_from-Acts zero plan processed work b = rests
skip_from-Acts (suc fuel) plan processed [] b = rests
skip_from-Acts (suc fuel) plan processed (id ∷ work) b = elim (Bool-cases (contains processed id)) [
  | inl e ↦ rw (e, skip_from) (skip_from-Acts fuel plan processed work b)
  | inr e ↦
      rw (e, skip_from)
        (Acts-trans (skip_one-Acts plan id work b) (skip_from-Acts fuel plan (id ∷ processed) _ _))
]

skip-Acts : (plan : Plan) (root : Text) (b : Board) → Acts b (skip plan root b)
unfolding skip
skip-Acts plan root b = skip_from-Acts _ plan [] (root ∷ []) b

block_one-Acts : (plan : Plan) (id : Text) (b : Board) → Acts b (block_one plan id b)
unfolding block_one
block_one-Acts plan id b =
    Acts-trans (acts rests (notes _ _ _ _ _ _))
      (release_all-Acts (entries id plan.after_dependents) _)

pass_one-Acts :
    (plan : Plan) (source : Text) (passed : Bool) (id : Text) (b : Board)
    → Acts b (pass_one plan source passed id b)
unfolding pass_one
pass_one-Acts plan source passed id b =
    if-intro (Acts b) (is_gated_on plan source id)
      (λ g. if-intro (Acts b) passed (λ p. skip-Acts plan id b) (λ p. lower-Acts id b))
      (λ g. if-intro (Acts b) passed (λ p. lower-Acts id b) (λ p. block_one-Acts plan id b))

pass_all-Acts :
    (plan : Plan) (source : Text) (passed : Bool) (ids : List Text) (b : Board)
    → Acts b (pass_all plan source passed ids b)
unfolding pass_all
pass_all-Acts plan source passed [] b = rests
pass_all-Acts plan source passed (id ∷ ids) b =
    Acts-trans (pass_one-Acts plan source passed id b) (pass_all-Acts plan source passed ids _)

pub Quiet-Acts : {b c : Board} → Quiet b c → Acts b c
Quiet-Acts (quiet _ _ _ _ _) = acts rests (notes _ _ _ _ _ _)

record_end-Acts :
    (plan : Plan) (id : Text) (o : Outcome) (b : Board) → Acts b (record_end plan id o b)
record_end-Acts plan id o b = Acts-trans (Quiet-Acts (report_state-Quiet id o b)) (
    Acts-trans (acts rests (notes _ _ _ _ _ _))
      (release_all-Acts (entries id plan.after_dependents) _))

record_return-Acts : (id : Text) (o : Outcome) (b : Board) → Acts b (record_return id o b)
unfolding record_return
record_return-Acts id o b = Acts-trans (acts rests (notes _ _ _ _ _ _)) (
    Acts-trans (Quiet-Acts (report_events-Quiet id o.dispatch_events _))
      (acts rests (notes _ _ _ _ _ _)))

-- Whatever a task returned, the loop answers it by a chain of acts.
pub settle-Acts : (plan : Plan) (id : Text) (o : Outcome) (b : Board) → Acts b (settle plan id o b)
unfolding settle
settle-Acts plan id o b = Acts-trans (record_return-Acts id o b) (
    Acts-trans
      (if-intro (Acts (record_return id o b)) (is_end o.state.state)
        (λ e. record_end-Acts plan id o _) (λ e. rests))
      (pass_all-Acts plan id (is_done o.state.state) (entries id plan.dependents) _))
