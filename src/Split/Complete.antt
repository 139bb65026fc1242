-- ===== src/Split/Complete.antt =====
-- When a split covers its parent.
use pidag.Base.{
  ℕ, zero, suc, ◌+◌, ◌≤◌, ◌<◌, ◌≡◌, ◌↔◌, refl, sym, subst, Bool, true, false, ◌||◌, List, [], ◌∷◌,
  ◌==◌, ltb, length, arith, Bool-cases, inl, inr,
}
use pidag.Text.{Text}
use pidag.Split.Coverage.{
  ChildCoverage, is_empty, is_complete, has_index, add_index, add_indices, covered_set,
  orphaned_from, insert_index, sort, build_coverage_report,
}

abbrev bit : Bool → ℕ
bit true = 1
bit false = 0

-- How often an index stands in a list, and how many indices are below `n`.
count : ℕ → List ℕ → ℕ
count i [] = 0
count i (j ∷ l) = bit (j == i) + count i l

below : ℕ → List ℕ → ℕ
below n [] = 0
below n (j ∷ l) = bit (ltb j n) + below n l

below-suc : (n : ℕ) (l : List ℕ) → below (suc n) l ≡ below n l + count n l
unfolding below count
below-suc n [] = omega arith
below-suc n (j ∷ l) = ground (arith, below-suc n l)

below-le-length : (n : ℕ) (l : List ℕ) → below n l ≤ length l
unfolding below
below-le-length n [] = omega arith
below-le-length n (j ∷ l) = ground (arith, below-le-length n l)

-- If all indices of the list are below `n`, and only then.
below-eq-length : (n : ℕ) (l : List ℕ) (i : ℕ) → below n l ≡ length l → has_index l i ≡ true → i < n
unfolding below has_index
below-eq-length n [] i e h = ground (arith, h)
below-eq-length n (j ∷ l) i e h = ground (arith, e, h, below-le-length n l, below-eq-length n l i)

length-eq-below :
    (n : ℕ) (l : List ℕ) → ((i : ℕ) → has_index l i ≡ true → i < n) → below n l ≡ length l
unfolding below has_index
length-eq-below n [] h = refl
length-eq-below n (j ∷ l) h =
    ground (arith, h j, length-eq-below n l (λ i k. h i (ground (arith, k))))

abbrev IsSetOfIndices : List ℕ → Type 0
IsSetOfIndices l = (i : ℕ) → count i l ≡ bit (has_index l i)

below_zero : (l : List ℕ) → below 0 l ≡ 0
unfolding below
below_zero [] = refl
below_zero (j ∷ l) = ground (arith, below_zero l)

below_full :
    (n : ℕ) (l : List ℕ)
    → IsSetOfIndices l
    → ((i : ℕ) → i < n → has_index l i ≡ true)
    → below n l ≡ n
below_full zero l s h = below_zero l
below_full (suc n) l s h =
    ground (arith, below-suc n l, s n, h n, below_full n l s (λ i k. h i (omega arith)))

add_index-IsSetOfIndices :
    (i : ℕ) (set : List ℕ) → IsSetOfIndices set → IsSetOfIndices (add_index i set)
unfolding add_index count has_index
add_index-IsSetOfIndices i set s k = ground (arith, s k)

add_indices-IsSetOfIndices :
    (l set : List ℕ) → IsSetOfIndices set → IsSetOfIndices (add_indices l set)
unfolding add_indices
add_indices-IsSetOfIndices [] set s = s
add_indices-IsSetOfIndices (i ∷ l) set s =
    add_indices-IsSetOfIndices l (add_index i set) (add_index-IsSetOfIndices i set s)

covered_set-IsSetOfIndices :
    (cs : List ChildCoverage) (set : List ℕ)
    → IsSetOfIndices set
    → IsSetOfIndices (covered_set cs set)
unfolding covered_set
covered_set-IsSetOfIndices [] set s = s
covered_set-IsSetOfIndices (c ∷ cs) set s =
    covered_set-IsSetOfIndices cs _ (add_indices-IsSetOfIndices c.exit_criteria_indices set s)

-- Some part lists the index.
pub covers : List ChildCoverage → ℕ → Bool
covers [] i = false
covers (c ∷ cs) i = has_index c.exit_criteria_indices i || covers cs i

has_index-add_indices :
    (l set : List ℕ) (i : ℕ) → has_index (add_indices l set) i ≡ (has_index l i || has_index set i)
unfolding add_indices add_index has_index
has_index-add_indices [] set i = refl
has_index-add_indices (j ∷ l) set i = ground (arith, has_index-add_indices l (add_index j set) i)

has_index-covered_set :
    (cs : List ChildCoverage) (set : List ℕ) (i : ℕ)
    → has_index (covered_set cs set) i ≡ (covers cs i || has_index set i)
unfolding covered_set covers has_index
has_index-covered_set [] set i = refl
has_index-covered_set (c ∷ cs) set i = ground (
  arith,
  has_index-covered_set cs (add_indices c.exit_criteria_indices set) i,
  has_index-add_indices c.exit_criteria_indices set i,
)

is_empty-insert_index : (i : ℕ) (l : List ℕ) → is_empty (insert_index i l) ≡ false
unfolding insert_index
is_empty-insert_index i [] = refl
is_empty-insert_index i (j ∷ l) = ground arith

is_empty-sort : (l : List ℕ) → is_empty (sort l) ≡ is_empty l
unfolding sort
is_empty-sort [] = refl
is_empty-sort (i ∷ l) = is_empty-insert_index i (sort l)

orphaned_from-empty :
    (set : List ℕ) (i left : ℕ)
    → is_empty (orphaned_from set i left) ≡ true
    → (k : ℕ) → i ≤ k
    → k < i + left
    → has_index set k ≡ true
unfolding orphaned_from
orphaned_from-empty set i zero e k low high = absurd (omega arith)
orphaned_from-empty set i (suc left) e k low high = elim (Bool-cases (k == i)) [
  | inl same_index ↦
      let own : k ≡ i = ground (arith, same_index) in
      subst (λ j. has_index set j ≡ true) (sym own) (ground (arith, e))
  | inr other ↦
      orphaned_from-empty set (suc i) left (ground (arith, e)) k (ground (arith, other))
        (omega arith)
]

empty-orphaned_from :
    (set : List ℕ) (i left : ℕ)
    → ((k : ℕ) → i ≤ k → k < i + left → has_index set k ≡ true)
    → is_empty (orphaned_from set i left) ≡ true
unfolding orphaned_from
empty-orphaned_from set i zero h = refl
empty-orphaned_from set i (suc left) h =
    let own = h i (omega arith) (omega arith) in
    let later =
      empty-orphaned_from set (suc i) left (λ k low high. h k (omega arith) (omega arith)) in
    ground (arith, own, later)

-- A report is complete exactly when the parts list the indices below the number of criteria, and no
-- other: a missing one is an orphan, and one that is too large is counted as well.
pub complete_iff :
    (now parent_spec_path : Text) (child_specs : List ChildCoverage) (total_criteria : ℕ)
    → (is_complete (build_coverage_report now parent_spec_path child_specs total_criteria) ≡ true)
      ↔ ((i : ℕ) → covers child_specs i ≡ ltb i total_criteria)
unfolding is_complete build_coverage_report has_index count
complete_iff now parent_spec_path cs total =
    let set = covered_set cs [] in
    let indices : IsSetOfIndices set = covered_set-IsSetOfIndices cs [] (λ i. refl) in
    let no_orphan = is_empty-sort (orphaned_from set 0 total) in
    (
      λ h i.
          let all_in : (k : ℕ) → k < total → has_index set k ≡ true = λ k lt.
            orphaned_from-empty set 0 total (ground (arith, h, no_orphan)) k (omega arith)
              (omega arith) in
          ground (
            arith,
            h,
            has_index-covered_set cs [] i,
            all_in i,
            below_full total set indices all_in,
            below-eq-length total set i,
          ),
      λ h.
          let all_in : (k : ℕ) → k < total → has_index set k ≡ true =
            λ k lt. ground (arith, h k, has_index-covered_set cs [] k) in
          let none_more : (k : ℕ) → has_index set k ≡ true → k < total =
            λ k e. ground (arith, h k, has_index-covered_set cs [] k) in
          ground (
            arith,
            no_orphan,
            empty-orphaned_from set 0 total (λ k low high. all_in k (omega arith)),
            below_full total set indices all_in,
            length-eq-below total set none_more,
          ),
    )
