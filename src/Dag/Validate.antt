-- ===== src/Dag/Validate.antt =====
-- `Dag::validate` of src/core/dag.rs.
pub mod Accepts
use pidag.Base.{
  ℕ, ◌≤◌, ◌<◌, ◌≡◌, ◌↔◌, refl, Bool, true, false, not, Option, none, some, List, [], ◌∷◌, ◌++◌, ltb,
  ◌==◌, length, any, All, All-map, arith, ◌||◌,
}
use pidag.Text.{Text, codes, contains}
use pidag.Text.Decimal.{show_nat}
use pidag.Text.Placeholder.{contents}
use pidag.Error.{
  Result, ok, err, validation, cycle, unknown_dependency, ◌>>=◌, ◌>>◌, fail_if, fail_if-eq-ok,
  for_each_ok, for_each_ok-All, for_each_ok_of_All, >>-eq-ok,
}
use pidag.Dag.{QuorumConfig, Node, Dag, node_ids}
use pidag.Dag.Cycles.{has_cycle}
use pidag.Dag.References.{
  validate_output_references, validate_output_references_iff, IsWaitedReference,
}

-- `node.id.contains(':')`.
pub has_separator : Text → Bool
has_separator id = any (λ c. c == b':') id

separator_message : Text → Text
separator_message id =
    codes "node id '"
    ++ (id ++ codes "' contains reserved delimiter ':' (reserved for gate syntax)")

unknown_of_message : Text → Text → Text
unknown_of_message id of_id =
    codes "node '"
    ++ (id ++ (codes "': quorum.of references unknown node '" ++ (of_id ++ codes "'")))

min_pass_zero_message : Text → Text
min_pass_zero_message id =
    codes "node '"
    ++ (id
        ++ codes
            "': quorum.min_pass is 0 -- a quorum that cannot fail is a configuration mistake, not a runtime condition")

min_pass_large_message : Text → QuorumConfig → Text
min_pass_large_message id q =
    codes "node '"
    ++ (id
        ++ (codes "': quorum.min_pass ("
            ++ (show_nat q.min_pass
                ++ (codes ") exceeds quorum.of length ("
                    ++ (show_nat (length q.of)
                        ++ codes
                            ") -- a quorum that cannot pass is a configuration mistake, not a runtime condition")))))

-- F9 and F11 for one quorum configuration.
check_quorum : List Text → Text → Option QuorumConfig → Result (Unit {0})
unfolding unknown_of_message min_pass_zero_message min_pass_large_message
check_quorum ids id none = ok tt
check_quorum ids id (some q) = do
  for_each_ok
      (λ of_id. fail_if (not (contains ids of_id)) (validation (unknown_of_message id of_id))) q.of
  fail_if (q.min_pass == 0) (validation (min_pass_zero_message id))
  fail_if (ltb (length q.of) q.min_pass) (validation (min_pass_large_message id q))

-- The loop over the names in one list of edges.
check_edges : List Text → List Text → Result (Unit {0})
check_edges ids edges = for_each_ok (λ d. fail_if (not (contains ids d)) unknown_dependency) edges

unfoldable pub validate : Dag → Result (Unit {0})
unfolding separator_message has_separator check_quorum check_edges
validate dag = do
  for_each_ok (λ n. fail_if (has_separator n.id) (validation (separator_message n.id))) dag.nodes
  for_each_ok (λ n. check_quorum (node_ids dag.nodes) n.id n.quorum) dag.nodes
  for_each_ok
      (λ n.
        check_edges (node_ids dag.nodes) n.depends_on >> check_edges (node_ids dag.nodes) n.after)
      dag.nodes
  fail_if (has_cycle dag) cycle
  for_each_ok (λ n. validate_output_references n (node_ids dag.nodes)) dag.nodes
