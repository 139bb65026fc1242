-- ===== src/Dag/Expand/Fixpoint.antt =====
-- What an expanded graph looks like, and that expanding it again changes nothing.
use pidag.Base.{
  ℕ, suc, ◌≡◌, refl, ap, ◌∙◌, true, Option, none, some, List, [], ◌∷◌, ◌++◌, map, if◌then◌else◌,
  arith, All, All-append, All-map, Bool-cases, inl, inr,
}
use pidag.Text.{Text, contains, contains-append, contains-snoc}
use pidag.Error.{Result, ok, OnOk, OnOk->>=, OnOk->>, OnOk-ok}
use pidag.Dag.{QuorumConfig, Node, Dag}
use pidag.Dag.Expand.{
  map_option, Children, lookup_children, expand_items, expand_node, expand_nodes, expand_ref_list,
  expand_output_refs,
}
use pidag.Dag.Expand.Phases.{
  check_gate, check_gate_of, after_with_quorum, rewrite_quorum, rewrite_references, rewrite_nodes,
  push_missing, add_quorum_edges, expand,
}

abbrev pub Waits : Option QuorumConfig → List Text → Type 0
Waits none after = Unit
Waits (some q) after = All (λ id. contains after id ≡ true) q.of

-- No fan-out is left, and a quorum node waits for all that it counts.
pub record IsExpanded (n : Node) : Type 0 where
  pub flat : n.for_each ≡ none
  pub waits : Waits n.quorum n.after

abbrev IsFlat : Node → Type 0
IsFlat n = n.for_each ≡ none

expand_items-IsFlat :
    (n : Node) (idx : ℕ) (used items : List Text) → All IsFlat (expand_items n idx used items)
unfolding expand_items
expand_items-IsFlat n idx used [] = tt
expand_items-IsFlat n idx used (item ∷ items) = (refl, expand_items-IsFlat n (suc idx) _ items)

abbrev AllFlat : List Node × Children → Type 0
AllFlat r = All IsFlat r.0

expand_node-IsFlat :
    (kids : Children) (n : Node) (fe : Option (List Text))
    (rest : Children → Result (List Node × Children))
    → n.for_each ≡ fe
    → ((k : Children) → OnOk AllFlat (rest k))
    → OnOk AllFlat (expand_node kids n fe rest)
unfolding expand_node
expand_node-IsFlat kids n none rest e h =
    OnOk->>= AllFlat AllFlat (rest kids) _ (h kids) (λ r flat. (e, flat))
expand_node-IsFlat kids n (some []) rest e h = tt
expand_node-IsFlat kids n (some (i ∷ is)) rest e h =
    OnOk->>= AllFlat AllFlat (rest _) _ (h _) (λ r flat.
      All-append IsFlat (expand_items n 0 [] (i ∷ is)) r.0 (expand_items-IsFlat n 0 [] (i ∷ is))
        flat)

expand_nodes-IsFlat : (kids : Children) (ns : List Node) → OnOk AllFlat (expand_nodes kids ns)
unfolding expand_nodes
expand_nodes-IsFlat kids [] = tt
expand_nodes-IsFlat kids (n ∷ ns) =
    expand_node-IsFlat kids n n.for_each (λ k. expand_nodes k ns) refl
      (λ k. expand_nodes-IsFlat k ns)

expand_nodes_flat :
    (kids : Children) (ns : List Node) → All IsFlat ns → expand_nodes kids ns ≡ ok (ns, kids)
unfolding expand_nodes expand_node
expand_nodes_flat kids [] h = refl
expand_nodes_flat kids (n ∷ ns) h =
    ap (λ fe. expand_node kids n fe (λ k. expand_nodes k ns)) h.0
    ∙ rw (expand_nodes_flat kids ns h.1)

expand_ref_list_none : (ids : List Text) → expand_ref_list ids [] ≡ ids
unfolding expand_ref_list lookup_children
expand_ref_list_none [] = refl
expand_ref_list_none (id ∷ ids) = ap (λ l. id ∷ l) (expand_ref_list_none ids)

rewrite_quorum_none : (q : Option QuorumConfig) → map_option (rewrite_quorum []) q ≡ q
unfolding rewrite_quorum
rewrite_quorum_none none = refl
rewrite_quorum_none (some q) = rw (expand_ref_list_none q.of)

rewrite_references_none : (n : Node) → rewrite_references [] n ≡ n
unfolding rewrite_references expand_output_refs
rewrite_references_none n = λ i. record n {
  depends_on = expand_ref_list_none n.depends_on i;
  after = expand_ref_list_none n.after i;
  quorum = rewrite_quorum_none n.quorum i;
}

check_gate_of_none : (n : Node) (g : Option Text) → check_gate_of [] n g ≡ ok tt
unfolding check_gate_of lookup_children
check_gate_of_none n none = refl
check_gate_of_none n (some g) = refl

rewrite_nodes_none : (ns : List Node) → rewrite_nodes [] ns ≡ ok ns
unfolding rewrite_nodes check_gate
rewrite_nodes_none [] = refl
rewrite_nodes_none (n ∷ ns) =
    rw (check_gate_of_none n n.gate, rewrite_nodes_none ns)
      (ap (λ m. ok (m ∷ ns)) (rewrite_references_none n))

rewrite_nodes-IsFlat :
    (kids : Children) (ns : List Node) → All IsFlat ns → OnOk (All IsFlat) (rewrite_nodes kids ns)
unfolding rewrite_nodes rewrite_references
rewrite_nodes-IsFlat kids [] h = tt
rewrite_nodes-IsFlat kids (n ∷ ns) h = OnOk->> (All IsFlat) (check_gate kids n) _ λ _.
    OnOk->>= (All IsFlat) (All IsFlat) (rewrite_nodes kids ns) _ (rewrite_nodes-IsFlat kids ns h.1)
      (λ r flat. (h.0, flat))

abbrev Holds : List Text → Text → Type 0
Holds after id = contains after id ≡ true

-- What was in `after` stays there.
push_missing_keeps :
    (ids after : List Text) (id : Text) → Holds after id → Holds (push_missing after ids) id
unfolding push_missing
push_missing_keeps [] after id h = h
push_missing_keeps (i ∷ ids) after id h =
    push_missing_keeps ids _ id (ground (arith, contains-append after (i ∷ []) id))

push_missing-Holds : (ids after : List Text) → All (Holds (push_missing after ids)) ids
unfolding push_missing
push_missing-Holds [] after = tt
push_missing-Holds (i ∷ ids) after = (push_missing_keeps ids _ i pushed, push_missing-Holds ids _)
  where
    pushed : Holds (if contains after i then after else after ++ i ∷ []) i
    pushed = elim (Bool-cases (contains after i)) [
      | inl e ↦ rw e e
      | inr e ↦ rw e (contains-snoc after i)
    ]

push_missing_idle : (ids after : List Text) → All (Holds after) ids → push_missing after ids ≡ after
unfolding push_missing
push_missing_idle [] after h = refl
push_missing_idle (i ∷ ids) after h = rw h.0 (push_missing_idle ids after h.1)

after_with_quorum-Waits :
    (after : List Text) (q : Option QuorumConfig) → Waits q (after_with_quorum after q)
unfolding after_with_quorum
after_with_quorum-Waits after none = tt
after_with_quorum-Waits after (some q) = push_missing-Holds q.of after

after_with_quorum_idle :
    (after : List Text) (q : Option QuorumConfig)
    → Waits q after
    → after_with_quorum after q ≡ after
unfolding after_with_quorum
after_with_quorum_idle after none h = refl
after_with_quorum_idle after (some q) h = push_missing_idle q.of after h

add_quorum_edges-IsExpanded :
    (ns : List Node) → All IsFlat ns → All IsExpanded (map add_quorum_edges ns)
unfolding add_quorum_edges
add_quorum_edges-IsExpanded [] h = tt
add_quorum_edges-IsExpanded (n ∷ ns) h = (
  record { flat = h.0; waits = after_with_quorum-Waits n.after n.quorum },
  add_quorum_edges-IsExpanded ns h.1,
)

add_quorum_edges_idle : (ns : List Node) → All IsExpanded ns → map add_quorum_edges ns ≡ ns
unfolding add_quorum_edges
add_quorum_edges_idle [] h = refl
add_quorum_edges_idle (n ∷ ns) h = λ i.
    record n { after = after_with_quorum_idle n.after n.quorum h.0.waits i }
    ∷ add_quorum_edges_idle ns h.1 i

OnOk-expand : (dag : Dag) → OnOk (λ d. All IsExpanded d.nodes) (expand dag)
unfolding expand
OnOk-expand dag =
    OnOk->>= AllFlat (λ d. All IsExpanded d.nodes) (expand_nodes [] dag.nodes) _
      (expand_nodes-IsFlat [] dag.nodes)
      λ made flat.
        OnOk->>= (All IsFlat) (λ d. All IsExpanded d.nodes) (rewrite_nodes made.1 made.0) _
          (rewrite_nodes-IsFlat made.1 made.0 flat)
          (λ ns flat'. add_quorum_edges-IsExpanded ns flat')

-- A graph that `expand` returns has no `for_each` left, and each of its quorum nodes has all the
-- nodes that it counts among its `after` edges.
pub expand-IsExpanded : (dag d : Dag) → expand dag ≡ ok d → All IsExpanded d.nodes
expand-IsExpanded dag d e = OnOk-ok (λ g. All IsExpanded g.nodes) (expand dag) (OnOk-expand dag) e

-- A graph of that form is returned unchanged.
expand_fixed : (d : Dag) → All IsExpanded d.nodes → expand d ≡ ok d
unfolding expand
expand_fixed d h = rw (
  expand_nodes_flat [] d.nodes (All-map IsExpanded IsFlat (λ n x. x.flat) d.nodes h),
  rewrite_nodes_none d.nodes,
  add_quorum_edges_idle d.nodes h,
)

-- `expand` may be called again on a graph that it returned: the second call returns the same graph.
pub expand_idem : (dag d : Dag) → expand dag ≡ ok d → expand d ≡ ok d
expand_idem dag d e = expand_fixed d (expand-IsExpanded dag d e)
