-- ===== src/Dag/Samples.antt =====
-- Small graphs, and what validation and expansion do on them.
use pidag.Base.{
  ℕ, ◌≡◌, ◌↔◌, refl, true, false, ◌&&◌, none, some, List, [], ◌∷◌, map, length, All, arith,
  if◌then◌else◌,
}
use pidag.Text.{distinct, Text, codes, contains, without, same}
use pidag.Text.Placeholder.{contents, next_placeholder}
use pidag.Error.{ok}
use pidag.Dag.{Node, Dag, node_ids, find_node}
use pidag.Dag.References.{
  validate_output_references, validate_output_references_iff, IsWaitedReference,
}
use pidag.Dag.Cycles.{has_cycle, has_cycle_from, has_cycle_dfs, visit_edges}
use pidag.Dag.Cycles.Sound.{has_cycle-Ordered, Ordered, In}
use pidag.Dag.Cycles.Complete.{has_cycle_clear, IsRanked}
use pidag.Dag.Validate.{validate}
use pidag.Dag.Validate.Accepts.{validate_iff, IsSoundNode}
use pidag.Dag.Expand.{
  expand_items, child_id, candidate_id, indexed_id, slugify, expand_nodes, expand_output_refs,
  expand_ref_list, lookup_children,
}
use pidag.Text.Search.{find_split}
use pidag.Dag.Expand.Phases.{expand}
use pidag.Dag.Expand.Fixpoint.{expand-IsExpanded, expand_idem, IsExpanded}
use pidag.Dag.Expand.ChildIds.{contains-child_id, expand_items_collide, expand_items-distinct}
use pidag.Text.Decimal.{show_nat}

abbrev node : Text → Text → List Text → List Text → Node
node id prompt depends_on after = record {
  id = id;
  prompt = prompt;
  depends_on = depends_on;
  models = record { name = codes "small"; paid = false } ∷ [];
  retry = record { attempts = 2; backoff_ms = 0 };
  validate = none;
  node_type = none;
  gate = none;
  timeout = none;
  mcp_call = none;
  after = after;
  verify = none;
  verify_pre = none;
  for_each = none;
  quorum = none;
}

abbrev review : Node
review = node (codes "r") (codes "Read {{b.output}}") (codes "b" ∷ []) (codes "a" ∷ [])

abbrev chain : Dag
chain = record {
  nodes =
      node (codes "a") (codes "A") [] []
      ∷ node (codes "b") (codes "B") (codes "a" ∷ []) []
      ∷ review
      ∷ [];
  metadata = none;
}

abbrev loop : Dag
loop = record {
  nodes = node (codes "a") [] (codes "b" ∷ []) [] ∷ node (codes "b") [] [] (codes "a" ∷ []) ∷ [];
  metadata = none;
}

abbrev ballot : Dag
ballot = record {
  nodes =
      record (node (codes "v") (codes "Vote") [] []) {
        for_each = some (codes "x" ∷ codes "y" ∷ []);
      }
      ∷ record (node (codes "q") [] [] []) {
        quorum = some (record { of = codes "v" ∷ []; min_pass = 2 });
      }
      ∷ [];
  metadata = none;
}

cycles : Unit {0}
unfolding has_cycle has_cycle_from has_cycle_dfs visit_edges find_node contains without same
cycles = tt

has_cycle-chain : has_cycle chain ≡ false
unfolding cycles
has_cycle-chain = refl

has_cycle-loop : has_cycle loop ≡ true
unfolding cycles
has_cycle-loop = refl

rank : Text → ℕ
rank id = if same id (codes "a") then 0 else if same id (codes "b") then 1 else 2

validate_iff_example :
    (validate chain ≡ ok tt)
    ↔ (All (IsSoundNode (node_ids chain.nodes)) chain.nodes × (has_cycle chain ≡ false))
validate_iff_example = validate_iff chain

validate_output_references_iff_example :
    (validate_output_references review (node_ids chain.nodes) ≡ ok tt)
    ↔ All
        (IsWaitedReference review (node_ids chain.nodes))
        (contents (length review.prompt) review.prompt)
validate_output_references_iff_example =
    validate_output_references_iff review (node_ids chain.nodes)

has_cycle-Ordered_example :
    (order : List Text) × Ordered chain.nodes order × All (λ n. In order n.id) chain.nodes
has_cycle-Ordered_example = has_cycle-Ordered chain has_cycle-chain

rank-chain : IsRanked rank chain.nodes
unfolding rank same
rank-chain = ground arith

has_cycle_clear_example : has_cycle chain ≡ false
has_cycle_clear_example = has_cycle_clear rank chain rank-chain

abbrev voter : Text → Node
voter id = node id (codes "Vote") [] []

-- `ballot` with its vote split in two.
abbrev ballot_expanded : Dag
ballot_expanded = record {
  nodes =
      voter (codes "v-x")
      ∷ voter (codes "v-y")
      ∷ record (node (codes "q") [] [] (codes "v-x" ∷ codes "v-y" ∷ [])) {
        quorum = some (record { of = codes "v-x" ∷ codes "v-y" ∷ []; min_pass = 2 });
      }
      ∷ [];
  metadata = none;
}

expand-ballot : expand ballot ≡ ok ballot_expanded
unfolding expand expand_nodes contains expand_output_refs expand_ref_list find_split
    next_placeholder same lookup_children
expand-ballot = refl

expand-IsExpanded_example : All IsExpanded ballot_expanded.nodes
expand-IsExpanded_example = expand-IsExpanded ballot ballot_expanded expand-ballot

expand_idem_example : expand ballot_expanded ≡ ok ballot_expanded
expand_idem_example = expand_idem ballot ballot_expanded expand-ballot

contains-child_id_example :
    contains (codes "v-x" ∷ []) (child_id (codes "v") 1 (codes "x") (codes "v-x" ∷ [])) ≡ (
      contains (codes "v-x" ∷ []) (candidate_id (codes "v") 1 (codes "x"))
      && contains (codes "v-x" ∷ []) (indexed_id (codes "v") 1))
contains-child_id_example = contains-child_id (codes "v") 1 (codes "x") (codes "v-x" ∷ [])

slugify-one : slugify (codes "1") ≡ show_nat 1
unfolding slugify show_nat
slugify-one = refl

expand_items_collide_example :
    (rest : List Text) × (map
        (λ n. n.id)
        (expand_items (voter (codes "v")) 0 [] (codes "1" ∷ codes "1" ∷ []))
      ≡ indexed_id (voter (codes "v")).id 1 ∷ indexed_id (voter (codes "v")).id 1 ∷ rest)
expand_items_collide_example =
    expand_items_collide (voter (codes "v")) (codes "1") (codes "1") [] slugify-one slugify-one

expand_items-distinct_example :
    distinct (map (λ n. n.id) (expand_items (voter (codes "v")) 0 [] (codes "x" ∷ codes "X!" ∷ [])))
    ≡ true
unfolding slugify
expand_items-distinct_example =
    expand_items-distinct (voter (codes "v")) (codes "x" ∷ codes "X!" ∷ []) (refl, (refl, tt))
