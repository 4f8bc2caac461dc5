-- ===== src/Scan/Check.antt =====
-- `check_compatibility` (src/services/strategy_validation/scanning.py): the scan's reading and the
-- engine's contract, with every complaint reported. `parse` is `ast.parse`, which gives the line of
-- a syntax error; `available` is what `known_indicators` gives.
use Prim.Native.String.{String}
use mqs_backtest_visualizer.Prelude.{
  ℕ, Bool, true, false, Option, none, some, List, [], ◌∷◌, ◌++◌, Result, ok, err, map,
}
use mqs_backtest_visualizer.Scan.Tree.{Node, line_of, walk}
use mqs_backtest_visualizer.Scan.Rules.{violation}
use mqs_backtest_visualizer.Scan.Classes.{class_name, strategy_class_nodes}
use mqs_backtest_visualizer.Scan.Issues.{
  Issue, issue_at, invalid_python, refused, no_class, many_classes, deduplicated,
}
use mqs_backtest_visualizer.Scan.Contract.{contract_issues, contract_warnings}
use mqs_backtest_visualizer.Scan.Indicators.{indicator_issues}

-- `CompatibilityReport`
pub record Report : Type 0 where
  pub compatible : Bool
  pub found_class : Option String
  pub issues : List Issue
  pub warnings : List Issue

-- the loop over the walk
abbrev pub violation_issues : List Node → List Issue
violation_issues [] = []
violation_issues (n ∷ ns) = elim (violation n) [
  | none ↦ violation_issues ns
  | some v ↦ issue_at (line_of n) (refused v) ∷ violation_issues ns
]

abbrev pub class_issues : List String → List Node → List Issue
class_issues available [] = issue_at 0 no_class ∷ []
class_issues available (c ∷ []) = contract_issues c ++ indicator_issues available c
class_issues available (c ∷ d ∷ cs) =
    issue_at (line_of d) (many_classes (map class_name (c ∷ d ∷ cs))) ∷ []

abbrev pub class_warnings : List Node → List Issue
class_warnings (c ∷ []) = contract_warnings c
class_warnings _ = []

abbrev pub sole_class : List Node → Option String
sole_class (c ∷ []) = some (class_name c)
sole_class _ = none

abbrev pub is_empty : List Issue → Bool
is_empty [] = true
is_empty (i ∷ is) = false

abbrev pub report_of : Option String → List Issue → List Issue → Report
report_of found issues warnings = record {
  compatible = is_empty issues;
  found_class = found;
  issues = issues;
  warnings = warnings;
}

abbrev pub all_issues : List String → Node → List Issue
all_issues available tree =
    violation_issues (walk tree) ++ class_issues available (strategy_class_nodes tree)

abbrev pub check_tree : List String → Node → Report
check_tree available tree =
    report_of (sole_class (strategy_class_nodes tree)) (deduplicated (all_issues available tree))
      (deduplicated (class_warnings (strategy_class_nodes tree)))

module _ (parse : String → Result ℕ Node) (available : List String) where
  unfoldable pub check_compatibility : String → Report
  check_compatibility source = elim (parse source) [
    | err line ↦ report_of none (issue_at line invalid_python ∷ []) []
    | ok tree ↦ check_tree available tree
  ]
