-- ===== src/Dag/Expand/Phases.antt =====
-- Phases 2 and 3 of `Dag::expand`, and the whole function.
use pidag.Base.{Option, none, some, List, [], ◌∷◌, ◌++◌, map, if◌then◌else◌, length}
use pidag.Text.{Text, codes, contains, join}
use pidag.Text.Search.{find_split}
use pidag.Text.Decimal.{show_nat}
use pidag.Error.{Result, ok, err, validation, ◌>>=◌, ◌>>◌}
use pidag.Dag.{QuorumConfig, Node, Dag}
use pidag.Dag.Expand.{
  map_option, Children, lookup_children, expand_nodes, expand_ref_list, expand_output_refs,
}

gate_message : Node → Text → Text → List Text → Text
gate_message node g id_part children =
    codes "node '"
    ++ (node.id
        ++ (codes "': gate '"
            ++ (g
                ++ (codes "' references '"
                    ++ (id_part
                        ++ (codes "', which is a for_each fan-out expanded into "
                            ++ (show_nat (length children)
                                ++ (codes " children ("
                                    ++ (join (codes ", ") children
                                        ++ (codes
                                              ") -- a gate cannot pick one arbitrary child of an ensemble to stand for the whole. Add a `quorum` node that counts '"
                                            ++ (id_part
                                                ++ codes
                                                    "'s children and gate on the quorum node instead.")))))))))))

-- The id that a gate `"<id>:<suffix>"` names.
unfoldable pub gate_source : Text → Text
gate_source g = elim (find_split (codes ":") g) [ none ↦ g | some (id_part, suffix) ↦ id_part ]

unfoldable pub check_gate_of : Children → Node → Option Text → Result (Unit {0})
unfolding gate_message gate_source
check_gate_of kids node none = ok tt
check_gate_of kids node (some g) = elim (lookup_children (gate_source g) kids) [
  | none ↦ ok tt
  | some children ↦ err (validation (gate_message node g (gate_source g) children))
]

-- F4': a gate may not name a parent that was fanned out.
unfoldable pub check_gate : Children → Node → Result (Unit {0})
unfolding check_gate_of
check_gate kids node = check_gate_of kids node node.gate

unfoldable pub rewrite_quorum : Children → QuorumConfig → QuorumConfig
rewrite_quorum kids q = record q { of = expand_ref_list q.of kids }

-- F4, for one node.
unfoldable pub rewrite_references : Children → Node → Node
unfolding rewrite_quorum
rewrite_references kids node = record node {
  depends_on = expand_ref_list node.depends_on kids;
  after = expand_ref_list node.after kids;
  quorum = map_option (rewrite_quorum kids) node.quorum;
  prompt = expand_output_refs node.prompt kids;
}

-- Phase 2, the loop over all nodes.
unfoldable pub rewrite_nodes : Children → List Node → Result (List Node)
unfolding check_gate rewrite_references
rewrite_nodes kids [] = ok []
rewrite_nodes kids (node ∷ nodes) =
    let rest = rewrite_nodes kids nodes in
    check_gate kids node >> (rest >>= λ done. ok (rewrite_references kids node ∷ done))

-- `if !node.after.contains(id) { node.after.push(id.clone()) }` for each `id`.
unfoldable pub push_missing : List Text → List Text → List Text
push_missing after [] = after
push_missing after (id ∷ ids) =
    push_missing (if contains after id then after else after ++ id ∷ []) ids

unfoldable pub after_with_quorum : List Text → Option QuorumConfig → List Text
unfolding push_missing
after_with_quorum after none = after
after_with_quorum after (some q) = push_missing after q.of

-- Phase 3, for one node.
unfoldable pub add_quorum_edges : Node → Node
unfolding after_with_quorum
add_quorum_edges node = record node { after = after_with_quorum node.after node.quorum }

unfoldable pub expand : Dag → Result Dag
unfolding rewrite_nodes add_quorum_edges
expand dag = expand_nodes [] dag.nodes >>= λ made. rewrite_nodes made.1 made.0 >>= λ nodes.
    ok (record { nodes = map add_quorum_edges nodes; metadata = dag.metadata })
