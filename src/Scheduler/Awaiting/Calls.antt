-- ===== src/Scheduler/Awaiting/Calls.antt =====
-- Calls of `wait_any` on one snapshot, one after the other.
use mathlib.Core.List.{append_assoc}
use pidag.Base.{
  ℕ, zero, suc, ◌≡◌, refl, sym, ap, ◌∙◌, true, false, ◌||◌, Option, none, some, List, [], ◌∷◌, ◌++◌,
  length, All, All-map, All-append, arith, Bool-cases, inl, inr,
}
use pidag.Text.{Text, same, same_iff, same_refl, contains, distinct, distinct-snoc}
use pidag.Scheduler.{NodeState}
use pidag.Scheduler.Awaiting.{
  Snapshot, AwaitOutcome, record_terminal, unhanded, outcome_of, next_terminal_node, node_outcome,
  whole_outcome,
}
use pidag.Scheduler.Awaiting.Transitions.{record_all}

-- The ids of the nodes that `n` calls on one snapshot hand out, and the new `consumed`.
pub hand_out : ℕ → List Text → Snapshot → List Text → List (Option AwaitOutcome) × List Text
hand_out zero all_node_ids snap consumed = ([], consumed)
hand_out (suc n) all_node_ids snap consumed =
    let (outcome, consumed') = next_terminal_node all_node_ids snap consumed in
    let (rest, consumed'') = hand_out n all_node_ids snap consumed' in (outcome ∷ rest, consumed'')

abbrev pub outcomes : List Text → Snapshot → List Text → List (Option AwaitOutcome)
outcomes all_node_ids snap [] = []
outcomes all_node_ids snap (id ∷ ids) =
    some (node_outcome all_node_ids snap id) ∷ outcomes all_node_ids snap ids

record_terminal-distinct :
    (id : Text) (state : NodeState) (snap : Snapshot)
    → distinct snap.terminal_order ≡ true
    → distinct (record_terminal id state snap).terminal_order ≡ true
unfolding record_terminal
record_terminal-distinct id state snap h = elim (Bool-cases (contains snap.terminal_order id)) [
  | inl e ↦ rw e h
  | inr e ↦ rw e (distinct-snoc snap.terminal_order id h e)
]

pub record_all-distinct :
    (transitions : List (Text × NodeState)) (snap : Snapshot)
    → distinct snap.terminal_order ≡ true
    → distinct (record_all transitions snap).terminal_order ≡ true
unfolding record_all
record_all-distinct [] snap h = h
record_all-distinct ((id, state) ∷ transitions) snap h =
    record_all-distinct transitions (record_terminal id state snap)
      (record_terminal-distinct id state snap h)

abbrev Consumed : List Text → Text → Type 0
Consumed consumed id = contains consumed id ≡ true

abbrev Fresh : List Text → Text → Type 0
Fresh consumed id = contains consumed id ≡ false

unhanded_skip :
    (consumed done rest : List Text)
    → All (Consumed consumed) done
    → unhanded consumed (done ++ rest) ≡ unhanded consumed rest
unfolding unhanded
unhanded_skip consumed [] rest h = refl
unhanded_skip consumed (id ∷ done) rest h = rw h.0 (unhanded_skip consumed done rest h.1)

unhanded_first :
    (consumed : List Text) (id : Text) (rest : List Text)
    → Fresh consumed id
    → unhanded consumed (id ∷ rest) ≡ some id
unfolding unhanded
unhanded_first consumed id rest h = rw h

contains-cons :
    (consumed : List Text) (id u : Text)
    → contains (id ∷ consumed) u ≡ (same id u || contains consumed u)
unfolding contains
contains-cons consumed id u = refl

Fresh-cons :
    (consumed : List Text) (id : Text) (ids : List Text)
    → contains ids id ≡ false
    → All (Fresh consumed) ids
    → All (Fresh (id ∷ consumed)) ids
unfolding contains
Fresh-cons consumed id [] e h = tt
Fresh-cons consumed id (u ∷ ids) e h = (
  ground (arith, h.0, same_iff u id, same_iff id u),
  Fresh-cons consumed id ids (ground (arith, e)) h.1,
)

Consumed-cons :
    (consumed : List Text) (id : Text) (ids : List Text)
    → All (Consumed consumed) ids
    → All (Consumed (id ∷ consumed)) ids
Consumed-cons consumed id ids h =
    All-map (Consumed consumed) (Consumed (id ∷ consumed))
      (λ u e. ground (arith, contains-cons consumed id u, e)) ids h

distinct_parts :
    (id : Text) (ids : List Text)
    → distinct (id ∷ ids) ≡ true
    → (contains ids id ≡ false) × (distinct ids ≡ true)
unfolding distinct
distinct_parts id ids h = ground arith

-- `consumed` after these nodes are handed out.
consume : List Text → List Text → List Text
consume [] consumed = consumed
consume (id ∷ ids) consumed = consume ids (id ∷ consumed)

module _ (all_node_ids : List Text) (snap : Snapshot) where
  next_terminal_node-some :
      (consumed : List Text) (id : Text)
      → unhanded consumed snap.terminal_order ≡ some id
      → next_terminal_node all_node_ids snap consumed
        ≡ (some (node_outcome all_node_ids snap id), id ∷ consumed)
  unfolding next_terminal_node
  next_terminal_node-some consumed id h = ap (outcome_of all_node_ids snap consumed) h

  hand_out_rest :
      (done rest consumed : List Text)
      → snap.terminal_order ≡ done ++ rest
      → All (Consumed consumed) done
      → All (Fresh consumed) rest
      → distinct rest ≡ true
      → hand_out (length rest) all_node_ids snap consumed
        ≡ (outcomes all_node_ids snap rest, consume rest consumed)
  unfolding hand_out consume
  hand_out_rest done [] consumed e used fresh d = refl
  hand_out_rest done (id ∷ rest) consumed e used fresh d =
      let (new, d') = distinct_parts id rest d in
      let first : unhanded consumed snap.terminal_order ≡ some id =
        ap (unhanded consumed) e
        ∙ (unhanded_skip consumed done (id ∷ rest) used
            ∙ unhanded_first consumed id rest fresh.0) in
      let used' : All (Consumed (id ∷ consumed)) (done ++ id ∷ []) =
        All-append (Consumed (id ∷ consumed)) done (id ∷ []) (Consumed-cons consumed id done used)
          (ground (arith, contains-cons consumed id id, same_refl id), tt) in
      rw (
        next_terminal_node-some consumed id first,
        hand_out_rest (done ++ id ∷ []) rest (id ∷ consumed)
            (e ∙ sym (append_assoc done (id ∷ []) rest)) used'
            (Fresh-cons consumed id rest new fresh.1) d',
      )

consume_keeps :
    (ids consumed : List Text) (u : Text) → Consumed consumed u → Consumed (consume ids consumed) u
unfolding consume
consume_keeps [] consumed u h = h
consume_keeps (id ∷ ids) consumed u h =
    consume_keeps ids (id ∷ consumed) u (ground (arith, contains-cons consumed id u, h))

consume-Consumed : (ids consumed : List Text) → All (Consumed (consume ids consumed)) ids
unfolding consume
consume-Consumed [] consumed = tt
consume-Consumed (id ∷ ids) consumed = (
  consume_keeps ids (id ∷ consumed) id (ground (arith, contains-cons consumed id id, same_refl id)),
  consume-Consumed ids (id ∷ consumed),
)

unhanded-none :
    (consumed ids : List Text) → All (Consumed consumed) ids → unhanded consumed ids ≡ none
unfolding unhanded
unhanded-none consumed [] h = refl
unhanded-none consumed (id ∷ ids) h = rw h.0 (unhanded-none consumed ids h.1)

none-Fresh : (ids : List Text) → All (Fresh []) ids
unfolding contains
none-Fresh [] = tt
none-Fresh (id ∷ ids) = (refl, none-Fresh ids)

-- Where the terminal nodes are all different, as many calls as there are such nodes hand them out in
-- the order in which they became terminal, and a further call finds the whole outcome.
pub hand_out_once :
    (all_node_ids : List Text) (snap : Snapshot)
    → distinct snap.terminal_order ≡ true
    → ((hand_out (length snap.terminal_order) all_node_ids snap []).0
        ≡ outcomes all_node_ids snap snap.terminal_order)
      × ((next_terminal_node all_node_ids snap
            (hand_out (length snap.terminal_order) all_node_ids snap []).1).0
          ≡ whole_outcome snap.dag_done snap.report)
unfolding next_terminal_node
hand_out_once all_node_ids snap d =
    let order = snap.terminal_order in
    let handed = hand_out_rest all_node_ids snap [] order [] refl tt (none-Fresh order) d in
    rw handed (
      refl,
      ap (λ o. (outcome_of all_node_ids snap (consume order []) o).0)
          (unhanded-none (consume order []) order (consume-Consumed order [])),
    )
