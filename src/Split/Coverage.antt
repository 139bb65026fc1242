-- ===== src/Split/Coverage.antt =====
-- src/split/coverage.rs: which exit criteria of the parent the parts of a split cover. The time is an
-- argument, and so is what reading and parsing a report's file gives.
use pidag.Base.{
  ℕ, zero, suc, Bool, true, false, not, ◌&&◌, ◌||◌, List, [], ◌∷◌, ◌++◌, ◌==◌, leb, length, map,
  if◌then◌else◌,
}
use pidag.Text.{Text, codes, join}
use pidag.Text.Decimal.{show_nat}
use pidag.Error.{Result, ok, parse, ◌>>=◌, ◌>>◌, fail_if}

pub record CoverageStats : Type 0 where
  pub total_parent_criteria : ℕ
  pub covered_criteria : ℕ
  pub orphaned_criteria : List ℕ

pub record ChildCoverage : Type 0 where
  pub spec : Text
  pub exit_criteria_indices : List ℕ
  pub tdd_tests : List Text

pub record SplitCoverage : Type 0 where
  pub parent_spec : Text
  pub split_date : Text
  pub children : List ChildCoverage
  pub coverage : CoverageStats

abbrev pub is_empty : List ℕ → Bool
is_empty [] = true
is_empty (i ∷ l) = false

unfoldable pub is_complete : SplitCoverage → Bool
is_complete c =
    is_empty c.coverage.orphaned_criteria
    && c.coverage.covered_criteria == c.coverage.total_parent_criteria

-- `contains` of the set of indices.
unfoldable pub has_index : List ℕ → ℕ → Bool
has_index [] i = false
has_index (j ∷ l) i = j == i || has_index l i

-- `insert` into the set.
unfoldable pub add_index : ℕ → List ℕ → List ℕ
add_index i set = if has_index set i then set else i ∷ set

unfoldable pub add_indices : List ℕ → List ℕ → List ℕ
add_indices [] set = set
add_indices (i ∷ l) set = add_indices l (add_index i set)

-- The set that the loop over the parts fills.
unfoldable pub covered_set : List ChildCoverage → List ℕ → List ℕ
covered_set [] set = set
covered_set (c ∷ cs) set = covered_set cs (add_indices c.exit_criteria_indices set)

-- `for i in i..(i + left)`.
unfoldable pub orphaned_from : List ℕ → (i left : ℕ) → List ℕ
orphaned_from set i zero = []
orphaned_from set i (suc left) =
    let rest = orphaned_from set (suc i) left in if has_index set i then rest else i ∷ rest

unfoldable pub insert_index : ℕ → List ℕ → List ℕ
insert_index i [] = i ∷ []
insert_index i (j ∷ l) = let rest = insert_index i l in if leb i j then i ∷ j ∷ l else j ∷ rest

unfoldable pub sort : List ℕ → List ℕ
sort [] = []
sort (i ∷ l) = insert_index i (sort l)

unfoldable pub build_coverage_report : Text → Text → List ChildCoverage → ℕ → SplitCoverage
build_coverage_report now parent_spec_path child_specs total_criteria =
    let set = covered_set child_specs [] in
    record {
      parent_spec = parent_spec_path;
      split_date = now;
      children = child_specs;
      coverage = record {
        total_parent_criteria = total_criteria;
        covered_criteria = length set;
        orphaned_criteria = sort (orphaned_from set 0 total_criteria);
      };
    }

-- `{:?}` of a list of numbers.
unfoldable pub show_indices : List ℕ → Text
show_indices l = codes "[" ++ (join (codes ", ") (map show_nat l) ++ codes "]")

unfoldable pub incomplete_message : List ℕ → Text
incomplete_message orphaned =
    codes "Coverage validation failed: "
    ++ (show_nat (length orphaned) ++ (codes " orphaned criteria " ++ show_indices orphaned))

-- Behind the file, which holds the report or is an error.
unfoldable pub validate_coverage : Result SplitCoverage → Result SplitCoverage
validate_coverage file = do
  coverage ← file
  fail_if (not (is_complete coverage))
      (parse (incomplete_message coverage.coverage.orphaned_criteria))
  ok coverage
