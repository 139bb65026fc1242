-- ===== src/Scheduler/Awaiting/Transitions.antt =====
-- What the snapshot of a run holds behind a sequence of terminal transitions, said of the sequence.
use pidag.Base.{
  ◌≡◌, refl, ap, sym, ◌∙◌, true, false, Option, none, some, is_some, List, [], ◌∷◌, ◌++◌, arith,
  if◌then◌else◌, Bool-cases, inl, inr,
}
use mathlib.Core.List.{append-nil, append_assoc}
use pidag.Text.{Text, same, same_iff, contains, without, contains-without, contains-append}
use pidag.Map.{lookup, lookup-insert}
use pidag.Scheduler.{NodeState}
use pidag.Scheduler.Awaiting.{Snapshot, record_terminal}

-- The snapshot behind a sequence of terminal transitions.
unfoldable pub record_all : List (Text × NodeState) → Snapshot → Snapshot
record_all [] snap = snap
record_all ((id, state) ∷ transitions) snap = record_all transitions (record_terminal id state snap)

abbrev pub empty_snapshot : Snapshot
empty_snapshot = record { node_state = []; terminal_order = []; dag_done = false; report = none }

-- The nodes of the transitions, each at its first one.
unfoldable pub first_ids : List (Text × NodeState) → List Text
first_ids [] = []
first_ids ((id, state) ∷ transitions) = id ∷ without (first_ids transitions) id

-- The state of the last transition of a node.
unfoldable pub last_state : Text → List (Text × NodeState) → Option NodeState
last_state id [] = none
last_state id ((j, state) ∷ transitions) =
    let rest = last_state id transitions in
    if is_some rest then rest else if same j id then some state else none

-- The nodes without a transition.
unfoldable pub unfinished : List (Text × NodeState) → List Text → List Text
unfinished transitions [] = []
unfinished transitions (id ∷ ids) =
    let rest = unfinished transitions ids in
    if is_some (last_state id transitions) then rest else id ∷ rest

-- The texts of a list that do not stand in `seen`.
unfoldable unseen : List Text → List Text → List Text
unseen seen [] = []
unseen seen (id ∷ ids) = let rest = unseen seen ids in if contains seen id then rest else id ∷ rest

unseen-nothing : (ids : List Text) → unseen [] ids ≡ ids
unfolding unseen contains
unseen-nothing [] = refl
unseen-nothing (id ∷ ids) = ap (λ l. id ∷ l) (unseen-nothing ids)

unseen-snoc :
    (seen : List Text) (id : Text) (ids : List Text)
    → unseen (seen ++ id ∷ []) ids ≡ unseen seen (without ids id)
unfolding unseen without contains
unseen-snoc seen id [] = refl
unseen-snoc seen id (u ∷ ids) =
    ground (
      arith,
      unseen-snoc seen id ids,
      contains-append seen (id ∷ []) u,
      same_iff u id,
      same_iff id u,
    )

unseen-without :
    (seen : List Text) (id : Text) (ids : List Text)
    → contains seen id ≡ true
    → unseen seen (without ids id) ≡ unseen seen ids
unfolding unseen without
unseen-without seen id [] h = refl
unseen-without seen id (u ∷ ids) h = ground (arith, h, unseen-without seen id ids h, same_iff u id)

order_step :
    (order : List Text) (id : Text) (ids : List Text)
    → let order' = if contains order id then order else order ++ id ∷ [] in
      order' ++ unseen order' ids ≡ order ++ unseen order (id ∷ without ids id)
unfolding unseen
order_step order id ids = elim (Bool-cases (contains order id)) [
  | inl e ↦ rw e (ap (λ l. order ++ l) (sym (unseen-without order id ids e)))
  | inr e ↦ rw (e, unseen-snoc order id ids) (append_assoc order (id ∷ []) _)
]

order-record_all :
    (transitions : List (Text × NodeState)) (snap : Snapshot)
    → (record_all transitions snap).terminal_order
      ≡ snap.terminal_order ++ unseen snap.terminal_order (first_ids transitions)
unfolding record_all first_ids unseen record_terminal
order-record_all [] snap = sym (append-nil snap.terminal_order)
order-record_all ((id, state) ∷ transitions) snap =
    order-record_all transitions (record_terminal id state snap)
    ∙ order_step snap.terminal_order id (first_ids transitions)

state-record_all :
    (id : Text) (transitions : List (Text × NodeState)) (snap : Snapshot)
    → lookup id (record_all transitions snap).node_state ≡ (
        if is_some (last_state id transitions)
        then last_state id transitions
        else lookup id snap.node_state)
unfolding record_all last_state record_terminal
state-record_all id [] snap = refl
state-record_all id ((j, state) ∷ transitions) snap = ground (
  arith,
  state-record_all id transitions (record_terminal j state snap),
  lookup-insert j id state snap.node_state,
)

pub contains-first_ids :
    (id : Text) (transitions : List (Text × NodeState))
    → contains (first_ids transitions) id ≡ is_some (last_state id transitions)
unfolding first_ids last_state contains
contains-first_ids id [] = refl
contains-first_ids id ((j, state) ∷ transitions) =
    ground (arith, contains-first_ids id transitions, contains-without (first_ids transitions) j id)

-- The nodes in the order of their first transitions.
pub record_all-order :
    (transitions : List (Text × NodeState))
    → (record_all transitions empty_snapshot).terminal_order ≡ first_ids transitions
record_all-order transitions =
    order-record_all transitions empty_snapshot ∙ unseen-nothing (first_ids transitions)

-- Each node in the state of its last transition.
pub record_all-state :
    (id : Text) (transitions : List (Text × NodeState))
    → lookup id (record_all transitions empty_snapshot).node_state ≡ last_state id transitions
unfolding lookup
record_all-state id transitions = ground (arith, state-record_all id transitions empty_snapshot)
