-- ===== src/Split/Samples.antt =====
-- Small splits.
use pidag.Base.{ℕ, ◌≡◌, ◌↔◌, refl, true, List, [], ◌∷◌, ltb}
use pidag.Text.{codes, join}
use pidag.Text.Decimal.{show_nat}
use pidag.Error.{ok, err, parse}
use pidag.Split.Coverage.{
  ChildCoverage, is_complete, has_index, add_index, add_indices, covered_set, orphaned_from,
  insert_index, sort, build_coverage_report, validate_coverage, incomplete_message, show_indices,
}
use pidag.Split.Complete.{covers, complete_iff}

abbrev part : List ℕ → ChildCoverage
part indices = record { spec = codes "p"; exit_criteria_indices = indices; tdd_tests = [] }

abbrev parts : List ChildCoverage
parts = part (0 ∷ 1 ∷ []) ∷ part (1 ∷ 2 ∷ []) ∷ []

reports : Unit {0}
unfolding is_complete has_index add_index add_indices covered_set orphaned_from insert_index sort
    build_coverage_report validate_coverage incomplete_message show_indices
reports = tt

is_complete-parts : is_complete (build_coverage_report [] [] parts 3) ≡ true
unfolding reports
is_complete-parts = refl

-- An index that no criterion has: the report is refused, and its message names no orphan.
validate_coverage-large :
    validate_coverage (ok (build_coverage_report [] [] (part (0 ∷ 7 ∷ []) ∷ []) 1))
    ≡ err (parse (codes "Coverage validation failed: 0 orphaned criteria []"))
unfolding reports show_nat join
validate_coverage-large = refl

complete_iff_example :
    (is_complete (build_coverage_report [] [] parts 3) ≡ true)
    ↔ ((i : ℕ) → covers parts i ≡ ltb i 3)
complete_iff_example = complete_iff [] [] parts 3
