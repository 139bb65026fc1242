-- ===== src/Dag/References.antt =====
-- `validate_output_references` of src/core/dag.rs: the `{{X.output}}` references of a prompt.
use pidag.Base.{
  ℕ, zero, suc, ◌≡◌, refl, Bool, true, false, ◌||◌, ◌&&◌, not, Option, none, some, List, ◌++◌,
  arith, length, Option-cases, inl, inr, All, any, ◌↔◌, ◌==◌,
}
use pidag.Text.{Text, codes, same, contains}
use pidag.Text.Search.{find_split}
use pidag.Text.Placeholder.{
  next_placeholder, absent, unclosed, found, output_reference, contents, scan, is_absent,
  is_unclosed, is_found,
}
use pidag.Error.{Result, ok, err, validation, ◌>>◌, fail_if, >>-eq-ok}
use pidag.Dag.{Node}

nested_braces_message : Text → Text → Text
nested_braces_message id content =
    codes "node "
    ++ (id
        ++ (codes ": invalid placeholder format {{"
            ++ (content ++ codes "}}, nested braces not allowed")))

only_output_message : Text → Text → Text
only_output_message id content =
    codes "node "
    ++ (id
        ++ (codes ": invalid placeholder {{" ++ (content ++ codes "}}, only .output is supported")))

unknown_node_message : Text → Text → Text → Text
unknown_node_message id node_ref content =
    codes "node "
    ++ (id
        ++ (codes ": references unknown node "
            ++ (node_ref ++ (codes " in {{" ++ (content ++ codes "}}")))))

not_a_dependency_message : Text → Text → Text → Text
not_a_dependency_message id node_ref content =
    codes "node "
    ++ (id
        ++ (codes ": references {{"
            ++ (content
                ++ (codes "}} but " ++ (node_ref ++ codes " is not in depends_on or after")))))

no_dot_message : Text → Text → Text
no_dot_message id content =
    codes "node "
    ++ (id
        ++ (codes ": invalid placeholder {{"
            ++ (content ++ codes "}}, must be of form <node_id>.output")))

-- `content.contains('{') || content.contains('}')`.
pub has_brace : Text → Bool
has_brace content = any (λ c. c == b'{' || c == b'}') content

-- I3 to I5 for what stands behind the first dot of the content.
check_dotted : Node → List Text → Text → Option (Text × Text) → Result (Unit {0})
unfolding only_output_message unknown_node_message not_a_dependency_message no_dot_message
check_dotted node all_node_ids content none = err (validation (no_dot_message node.id content))
check_dotted node all_node_ids content (some (node_ref, suffix)) = do
  fail_if (not (same suffix (codes "output"))) (validation (only_output_message node.id content))
  fail_if (not (contains all_node_ids node_ref))
      (validation (unknown_node_message node.id node_ref content))
  fail_if (not (contains node.depends_on node_ref) && not (contains node.after node_ref))
      (validation (not_a_dependency_message node.id node_ref content))

-- The body of the loop for one closed placeholder.
check_placeholder : Node → List Text → Text → Result (Unit {0})
unfolding check_dotted nested_braces_message has_brace
check_placeholder node all_node_ids content = do
  fail_if (has_brace content) (validation (nested_braces_message node.id content))
  check_dotted node all_node_ids content (find_split (codes ".") content)

check_from : Node → List Text → ℕ → Text → Result (Unit {0})
unfolding check_placeholder
check_from node all_node_ids zero prompt = ok tt
check_from node all_node_ids (suc fuel) prompt = elim (next_placeholder prompt) [
  | absent ↦ ok tt
  | unclosed ↦ ok tt
  | found before content behind ↦
      check_placeholder node all_node_ids content >> check_from node all_node_ids fuel behind
]

unfoldable pub validate_output_references : Node → List Text → Result (Unit {0})
unfolding check_from
validate_output_references node all_node_ids =
    check_from node all_node_ids (length node.prompt) node.prompt

-- A reference to the output of a known node that this node waits for.
pub record IsWaitedReference (node : Node) (all_node_ids : List Text) (content : Text)
    : Type 0 where
  pub plain : has_brace content ≡ false
  pub node_ref : Text
  pub read : output_reference content ≡ some node_ref
  pub known : contains all_node_ids node_ref ≡ true
  pub waited : (contains node.depends_on node_ref || contains node.after node_ref) ≡ true

check_placeholder-IsWaited :
    (node : Node) (ids : List Text) (content : Text)
    → check_placeholder node ids content ≡ ok tt
    → IsWaitedReference node ids content
unfolding check_placeholder output_reference
check_placeholder-IsWaited node ids content h =
    elim (Option-cases (find_split (codes ".") content)) [
      | inl e ↦ absurd (ground arith)
      | inr ((r, suffix), e) ↦ record {
        plain = ground arith;
        node_ref = r;
        read = ground arith;
        known = ground arith;
        waited = ground arith;
      }
    ]

IsWaited-check_placeholder :
    (node : Node) (ids : List Text) (content : Text)
    → IsWaitedReference node ids content
    → check_placeholder node ids content ≡ ok tt
unfolding check_placeholder output_reference
IsWaited-check_placeholder node ids content w =
    elim (Option-cases (find_split (codes ".") content)) [
      | inl e ↦ ground arith
      | inr ((r, suffix), e) ↦ ground arith
    ]

module _ (node : Node) (ids : List Text) where
  check_from-All :
      (fuel : ℕ) (prompt : Text)
      → check_from node ids fuel prompt ≡ ok tt
      → All (IsWaitedReference node ids) (contents fuel prompt)
  unfolding check_from contents
  check_from-All zero prompt h = tt
  check_from-All (suc fuel) prompt h = elim (scan prompt) [
    | is_absent e ↦ rw (e, contents) tt
    | is_unclosed e ↦ rw (e, contents) tt
    | is_found before content behind e l ↦
        let (first, rest) =
          >>-eq-ok (check_placeholder node ids content) (check_from node ids fuel behind)
            (rw (e, check_from) at h) in
        rw (e, contents)
          (check_placeholder-IsWaited node ids content first, check_from-All fuel behind rest)
  ]

  check_from_of_All :
      (fuel : ℕ) (prompt : Text)
      → All (IsWaitedReference node ids) (contents fuel prompt)
      → check_from node ids fuel prompt ≡ ok tt
  unfolding check_from contents
  check_from_of_All zero prompt h = refl
  check_from_of_All (suc fuel) prompt h = elim (scan prompt) [
    | is_absent e ↦ rw (e, check_from) refl
    | is_unclosed e ↦ rw (e, check_from) refl
    | is_found before content behind e l ↦
        let parts : IsWaitedReference node ids content
            × All (IsWaitedReference node ids) (contents fuel behind) =
          rw (e, contents) at h in
        rw (e, check_from)
          (rw (IsWaited-check_placeholder node ids content parts.0)
            (check_from_of_All fuel behind parts.1))
  ]

  -- A prompt is accepted exactly when each closed placeholder in it holds no brace and reads
  -- `X.output` for a known node `X` in `depends_on` or `after`.
  pub validate_output_references_iff :
      (validate_output_references node ids ≡ ok tt)
      ↔ All (IsWaitedReference node ids) (contents (length node.prompt) node.prompt)
  unfolding validate_output_references
  validate_output_references_iff = (
    check_from-All (length node.prompt) node.prompt,
    check_from_of_All (length node.prompt) node.prompt,
  )
