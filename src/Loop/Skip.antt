-- ===== src/Loop/Skip.antt =====
-- The skip cascade of `execute`: a node gated on the failure of a source that passed is skipped, and
-- so are the nodes gated on it. The work list is a stack, and each pop uses one unit of fuel.
use pidag.Base.{
  ℕ, zero, suc, ◌+◌, Bool, true, false, Option, none, some, List, [], ◌∷◌, length, if◌then◌else◌,
}
use pidag.Text.{Text, contains}
use pidag.Map.{Map, lookup, insert}
use pidag.Scheduler.{done, is_pending, NodeState}
use pidag.Loop.{
  node_done, Plan, Board, emit, entries, bare_state, make_terminal, release_all, lower, is_gated_on,
}

-- The node is recorded as a `Done` without output, unless it is terminal.
unfoldable pub mark_skipped : Text → Board → Board
mark_skipped id b =
    let state = bare_state id done 0 none in
    let b' =
      emit (node_done id [] [])
        (make_terminal id state (record b { node_state = insert id state b.node_state })) in
    if contains b.terminal_nodes id
    then b
    else record b' { terminal_from_checkpoint = id ∷ b.terminal_from_checkpoint }

-- `node_state.get(g).map(|s| s.state == Pending).unwrap_or(true)`.
abbrev pub is_open : Option NodeState → Bool
is_open none = true
is_open (some s) = is_pending s.state

-- The loop over the dependents of a skipped node: the work list and the board behind it.
unfoldable pub pass_skip : Plan → Text → List Text → List Text × Board → List Text × Board
pass_skip plan to_skip [] r = r
pass_skip plan to_skip (g ∷ nested) (work, b) = pass_skip plan to_skip nested (
    if is_open (lookup g b.node_state)
    then if is_gated_on plan to_skip g then (g ∷ work, b) else (work, lower g b)
    else (work, b))

-- The body of the work-list loop for a node that is not processed yet.
unfoldable pub skip_one : Plan → Text → List Text → Board → List Text × Board
skip_one plan to_skip work b =
    pass_skip plan to_skip (entries to_skip plan.dependents)
      (work, release_all (entries to_skip plan.after_dependents) (mark_skipped to_skip b))

unfoldable pub skip_from : ℕ → Plan → List Text → List Text → Board → Board
skip_from zero plan processed work b = b
skip_from (suc fuel) plan processed [] b = b
skip_from (suc fuel) plan processed (id ∷ work) b = elim (contains processed id) [
  | true ↦ skip_from fuel plan processed work b
  | false ↦
      let (work', b') = skip_one plan id work b in skip_from fuel plan (id ∷ processed) work' b'
]

-- One pop for the root, and one for each edge to a dependent.
unfoldable pub edges_in : Map (List Text) → ℕ
edges_in [] = 0
edges_in ((id, l) ∷ m) = length l + edges_in m

unfoldable pub skip : Plan → Text → Board → Board
skip plan root b = skip_from (suc (suc (edges_in plan.dependents))) plan [] (root ∷ []) b
