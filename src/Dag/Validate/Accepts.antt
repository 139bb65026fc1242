-- ===== src/Dag/Validate/Accepts.antt =====
-- Which graphs `validate` accepts.
use pidag.Base.{
  ◌≤◌, ◌<◌, ◌≡◌, ◌↔◌, refl, ap, true, false, not, Option, none, some, List, [], ◌∷◌, length, All,
  All-map, arith,
}
use pidag.Text.{Text, contains}
use pidag.Text.Placeholder.{contents}
use pidag.Error.{
  PidagError, Result, ok, validation, cycle, unknown_dependency, ◌>>◌, fail_if, fail_if-eq-ok,
  for_each_ok, for_each_ok-All, for_each_ok_of_All, >>-eq-ok,
}
use pidag.Dag.{QuorumConfig, Node, Dag, node_ids}
use pidag.Dag.Cycles.{has_cycle}
use pidag.Dag.References.{
  validate_output_references, validate_output_references_iff, IsWaitedReference,
}
use pidag.Dag.Validate.{
  has_separator, separator_message, unknown_of_message, check_quorum, check_edges, validate,
}

abbrev pub Known : List Text → Text → Type 0
Known ids id = contains ids id ≡ true

-- A quorum counts known nodes, can fail and can pass.
abbrev pub IsSoundQuorum : List Text → Option QuorumConfig → Type 0
IsSoundQuorum ids none = Unit
IsSoundQuorum ids (some q) = All (Known ids) q.of × (0 < q.min_pass) × (q.min_pass ≤ length q.of)

-- What one node must satisfy among the ids of all.
pub record IsSoundNode (ids : List Text) (n : Node) : Type 0 where
  pub unseparated : has_separator n.id ≡ false
  pub counts : IsSoundQuorum ids n.quorum
  pub depends : All (Known ids) n.depends_on
  pub follows : All (Known ids) n.after
  pub reads : All (IsWaitedReference n ids) (contents (length n.prompt) n.prompt)

fail_unless-Known :
    (ids : List Text) (id : Text) (e : PidagError)
    → fail_if (not (contains ids id)) e ≡ ok tt
    → Known ids id
fail_unless-Known ids id e h = ground arith

Known-fail_unless :
    (ids : List Text) (id : Text) (e : PidagError)
    → Known ids id
    → fail_if (not (contains ids id)) e ≡ ok tt
Known-fail_unless ids id e h = ground arith

check_edges_iff : (ids edges : List Text) → (check_edges ids edges ≡ ok tt) ↔ All (Known ids) edges
unfolding check_edges
check_edges_iff ids edges = (
  λ h.
      All-map _ (Known ids) (λ d k. fail_unless-Known ids d unknown_dependency k) edges
        (for_each_ok-All (λ d. fail_if (not (contains ids d)) unknown_dependency) edges h),
  λ h.
      for_each_ok_of_All (λ d. fail_if (not (contains ids d)) unknown_dependency) edges
        (All-map (Known ids) _ (λ d k. Known-fail_unless ids d unknown_dependency k) edges h),
)

check_quorum_iff :
    (ids : List Text) (id : Text) (q : Option QuorumConfig)
    → (check_quorum ids id q ≡ ok tt) ↔ IsSoundQuorum ids q
unfolding check_quorum
check_quorum_iff ids id none = (λ _. tt, λ _. refl)
check_quorum_iff ids id (some q) =
    let check =
      λ (d : Text). fail_if (not (contains ids d)) (validation (unknown_of_message id d)) in
    (
      λ h.
          let (members, bounds) = >>-eq-ok (for_each_ok check q.of) _ h in
          (
            All-map (λ d. check d ≡ ok tt) (Known ids) (λ d k. fail_unless-Known ids d _ k) q.of
                (for_each_ok-All check q.of members),
            ground arith,
            ground arith,
          ),
      λ (members, low, high).
          rw
            (for_each_ok_of_All check q.of (
              All-map (Known ids) (λ d. check d ≡ ok tt) (λ d k. Known-fail_unless ids d _ k) q.of
                members))
            (ground arith),
    )

module _ (ids : List Text) where
  abbrev Edges : Node → Type 0
  Edges n = (check_edges ids n.depends_on >> check_edges ids n.after) ≡ ok tt

  IsSoundNode-intro :
      (n : Node)
      → fail_if (has_separator n.id) (validation (separator_message n.id)) ≡ ok tt
      → check_quorum ids n.id n.quorum ≡ ok tt
      → Edges n
      → validate_output_references n ids ≡ ok tt
      → IsSoundNode ids n
  IsSoundNode-intro n a b c d =
      let (deps, after) = >>-eq-ok (check_edges ids n.depends_on) (check_edges ids n.after) c in
      record {
        unseparated = fail_if-eq-ok (has_separator n.id) (validation (separator_message n.id)) a;
        counts = (check_quorum_iff ids n.id n.quorum).0 b;
        depends = (check_edges_iff ids n.depends_on).0 deps;
        follows = (check_edges_iff ids n.after).0 after;
        reads = (validate_output_references_iff n ids).0 d;
      }

  -- The four loops together.
  All-IsSoundNode :
      (ns : List Node)
      → All (λ n. fail_if (has_separator n.id) (validation (separator_message n.id)) ≡ ok tt) ns
      → All (λ n. check_quorum ids n.id n.quorum ≡ ok tt) ns
      → All Edges ns
      → All (λ n. validate_output_references n ids ≡ ok tt) ns
      → All (IsSoundNode ids) ns
  All-IsSoundNode [] a b c d = tt
  All-IsSoundNode (n ∷ ns) a b c d =
      (IsSoundNode-intro n a.0 b.0 c.0 d.0, All-IsSoundNode ns a.1 b.1 c.1 d.1)

  Edges-IsSoundNode : (n : Node) → IsSoundNode ids n → Edges n
  Edges-IsSoundNode n s =
      rw ((check_edges_iff ids n.depends_on).1 s.depends)
        ((check_edges_iff ids n.after).1 s.follows)

-- `validate` accepts a graph exactly when no id holds a colon, every name in `depends_on`, `after`
-- and `quorum.of` is a node's id, every quorum that is configured can fail and can pass, every closed
-- placeholder of a prompt reads the output of a node that its node waits for, and `has_cycle` finds
-- none.
pub validate_iff :
    (dag : Dag)
    → (validate dag ≡ ok tt)
      ↔ (All (IsSoundNode (node_ids dag.nodes)) dag.nodes × (has_cycle dag ≡ false))
unfolding validate
validate_iff dag =
    let ids = node_ids dag.nodes in
    let ns = dag.nodes in
    let separators =
      λ (n : Node). fail_if (has_separator n.id) (validation (separator_message n.id)) in
    let quorums = λ (n : Node). check_quorum ids n.id n.quorum in
    let edges = λ (n : Node). check_edges ids n.depends_on >> check_edges ids n.after in
    let references = λ (n : Node). validate_output_references n ids in
    (
      λ h.
          let (a, h₁) = >>-eq-ok (for_each_ok separators ns) _ h in
          let (b, h₂) = >>-eq-ok (for_each_ok quorums ns) _ h₁ in
          let (c, h₃) = >>-eq-ok (for_each_ok edges ns) _ h₂ in
          let (d, h₄) = >>-eq-ok (fail_if (has_cycle dag) cycle) _ h₃ in
          (
            All-IsSoundNode ids ns (for_each_ok-All separators ns a) (for_each_ok-All quorums ns b)
                (for_each_ok-All edges ns c) (for_each_ok-All references ns h₄),
            fail_if-eq-ok (has_cycle dag) cycle d,
          ),
      λ (sound, acyclic).
          let loop = λ (f : Node → Result Unit) (k : (n : Node) → IsSoundNode ids n → f n ≡ ok tt).
            for_each_ok_of_All f ns (All-map (IsSoundNode ids) (λ n. f n ≡ ok tt) k ns sound) in
          rw
            (
              loop separators
                  (λ n s. ap (λ b. fail_if b (validation (separator_message n.id))) s.unseparated),
              loop quorums (λ n s. (check_quorum_iff ids n.id n.quorum).1 s.counts),
              loop edges (λ n s. Edges-IsSoundNode ids n s),
              acyclic,
              loop references (λ n s. (validate_output_references_iff n ids).1 s.reads),
            )
            refl,
    )
