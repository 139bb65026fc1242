-- ===== src/Dag/Expand.antt =====
-- `Dag::expand` of src/core/dag.rs and its helpers: the fan-out of `for_each` nodes at load.
pub mod Phases
pub mod Fixpoint
pub mod ChildIds
use pidag.Base.{
  ℕ, zero, suc, ◌+◌, ◌≡◌, refl, Bool, true, false, ◌||◌, Option, none, some, List, [], ◌∷◌, ◌++◌,
  map, is_some, if◌then◌else◌, length, leb,
}
use pidag.Text.{Text, codes, same, contains}
use pidag.Text.Search.{find_split}
use pidag.Text.Trim.{is_ascii_alphanumeric}
use pidag.Text.Decimal.{show_nat}
use pidag.Text.Placeholder.{
  Placeholder, next_placeholder, absent, unclosed, found, output_reference, opening, braced,
}
use pidag.Error.{Result, ok, err, validation, ◌>>=◌, ◌>>◌}
use pidag.Dag.{ModelRef, Verify, shell, critic, all, Arms, nil, cons, QuorumConfig, Node, Dag}

-- `c.to_ascii_lowercase()`, at an ASCII letter or digit.
abbrev to_ascii_lowercase : ℕ → ℕ
to_ascii_lowercase c = if leb b'A' c then (if leb c b'Z' then c + 32 else c) else c

unfoldable pub slugify : Text → Text
unfolding is_ascii_alphanumeric
slugify s = map (λ c. if is_ascii_alphanumeric c then to_ascii_lowercase c else b'-') s

-- `s.replace("{{item}}", item)`: each round takes at least the eight characters of the pattern.
replace_from : ℕ → Text → Text → Text
replace_from zero s item = s
replace_from (suc fuel) s item = elim (find_split (codes "{{item}}") s) [
  | none ↦ s
  | some (before, behind) ↦ before ++ (item ++ replace_from fuel behind item)
]

substitute_item : Text → Text → Text
unfolding replace_from
substitute_item s item = replace_from (length s) s item

abbrev substitute_item_model : Text → ModelRef → ModelRef
substitute_item_model item m = record m { name = substitute_item m.name item }

mutual
  unfolding substitute_item

  substitute_item_verify : Verify → Text → Verify
  substitute_item_verify (shell s) item = shell (substitute_item s item)
  substitute_item_verify (critic prompt models) item =
      critic (substitute_item prompt item) (map (substitute_item_model item) models)
  substitute_item_verify (all arms) item = all (substitute_item_arms arms item)

  substitute_item_arms : Arms → Text → Arms
  substitute_item_arms nil item = nil
  substitute_item_arms (cons a arms) item =
      cons (substitute_item_verify a item) (substitute_item_arms arms item)

abbrev pub map_option {ℓ κ} : {A : Type ℓ} {B : Type κ} → (A → B) → Option A → Option B
map_option f none = none
map_option f (some a) = some (f a)

substitute_item_in_node : Node → Text → Node
unfolding substitute_item_verify
substitute_item_in_node node item = record node {
  prompt = substitute_item node.prompt item;
  models = map (substitute_item_model item) node.models;
  gate = map_option (λ g. substitute_item g item) node.gate;
  verify = map_option (λ v. substitute_item_verify v item) node.verify;
}

-- The map from a removed parent's id to the ids of its children; the last insertion stands first.
abbrev pub Children : Type 0
Children = List (Text × List Text)

unfoldable pub lookup_children : Text → Children → Option (List Text)
lookup_children id [] = none
lookup_children id ((parent, kids) ∷ rest) =
    let found_later = lookup_children id rest in if same parent id then some kids else found_later

unfoldable pub candidate_id : Text → ℕ → Text → Text
unfolding slugify
candidate_id base_id idx item = elim (slugify item) [
  | [] ↦ base_id ++ (b'-' ∷ show_nat idx)
  | c ∷ slug ↦ base_id ++ (b'-' ∷ c ∷ slug)
]

unfoldable pub indexed_id : Text → ℕ → Text
indexed_id base_id idx = base_id ++ (b'-' ∷ show_nat idx)

unfoldable pub child_id : Text → ℕ → Text → List Text → Text
unfolding candidate_id indexed_id
child_id base_id idx item used_ids =
    if contains used_ids (candidate_id base_id idx item)
    then indexed_id base_id idx
    else candidate_id base_id idx item

unfoldable pub child : Node → Text → Text → Node
unfolding substitute_item_in_node
child node item id = substitute_item_in_node (record node { for_each = none; id = id }) item

-- The loop over the items of one `for_each` node.
unfoldable pub expand_items : Node → ℕ → List Text → List Text → List Node
unfolding child child_id
expand_items node idx used_ids [] = []
expand_items node idx used_ids (item ∷ items) =
    let id = child_id node.id idx item used_ids in
    child node item id ∷ expand_items node (suc idx) (id ∷ used_ids) items

empty_for_each_message : Text → Text
empty_for_each_message id = codes "node '" ++ (id ++ codes "': for_each list is empty")

-- The round of phase 1 for one node, whose `for_each` is given; `rest` goes on with the other nodes.
-- `kids` is `parent_to_children`.
unfoldable pub expand_node :
    Children
    → Node
    → Option (List Text)
    → (Children → Result (List Node × Children))
    → Result (List Node × Children)
unfolding expand_items empty_for_each_message
expand_node kids node none rest = rest kids >>= λ (nodes, kids'). ok (node ∷ nodes, kids')
expand_node kids node (some []) rest = err (validation (empty_for_each_message node.id))
expand_node kids node (some (item ∷ items)) rest =
    let made = expand_items node 0 [] (item ∷ items) in
    rest ((node.id, map (λ n. n.id) made) ∷ kids) >>= λ (nodes, kids'). ok (made ++ nodes, kids')

-- Phase 1, the loop over `self.nodes.drain(..)`.
unfoldable pub expand_nodes : Children → List Node → Result (List Node × Children)
unfolding expand_node
expand_nodes kids [] = ok ([], kids)
expand_nodes kids (node ∷ nodes) =
    expand_node kids node node.for_each (λ kids'. expand_nodes kids' nodes)

unfoldable pub expand_ref_list : List Text → Children → List Text
expand_ref_list [] kids = []
expand_ref_list (id ∷ ids) kids = elim (lookup_children id kids) [
  | some children ↦ children ++ expand_ref_list ids kids
  | none ↦ id ∷ expand_ref_list ids kids
]

output_placeholders : List Text → Text
output_placeholders [] = []
output_placeholders (c ∷ cs) = opening ++ (c ++ (codes ".output}}" ++ output_placeholders cs))

-- What the loop writes for one placeholder.
rewritten : Children → Text → Text
unfolding output_placeholders
rewritten kids content = elim (output_reference content) [
  | none ↦ braced content
  | some node_ref ↦ elim (lookup_children node_ref kids) [
    | none ↦ braced content
    | some children ↦ output_placeholders children
  ]
]

unfoldable pub expand_output_refs_from : ℕ → Text → Children → Text
unfolding rewritten
expand_output_refs_from zero prompt kids = prompt
expand_output_refs_from (suc fuel) prompt kids = elim (next_placeholder prompt) [
  | absent ↦ prompt
  | unclosed ↦ prompt
  | found before content behind ↦
      before ++ (rewritten kids content ++ expand_output_refs_from fuel behind kids)
]

unfoldable pub expand_output_refs : Text → Children → Text
unfolding expand_output_refs_from
expand_output_refs prompt [] = prompt
expand_output_refs prompt (k ∷ kids) = expand_output_refs_from (length prompt) prompt (k ∷ kids)
