-- ===== src/Scan/Tests.antt =====
-- The scan on small syntax trees.
use Prim.Native.String.{String}
use mqs_backtest_visualizer.Prelude.{
  ℕ, ◌≡◌, refl, ◌↔◌, true, false, none, List, [], ◌∷◌, Result, ok, err,
}
use mqs_backtest_visualizer.Prelude.Names.{has_name}
use mqs_backtest_visualizer.Prelude.Sort.{sort, insert, IsSorted}
use mqs_backtest_visualizer.Scan.Tree.{
  Node, walk, walk_from, size, node, child, end, bases, body, func, value, name, attribute,
  class_def, function_def, call, other, Throughout,
}
use mqs_backtest_visualizer.Scan.Rules.{violation, bad_module}
use mqs_backtest_visualizer.Scan.Classes.{
  close_names, strategy_names, strategy_class_nodes, class_name, grown_names, scan_tree,
  scan_source, violates,
}
use mqs_backtest_visualizer.Scan.Issues.{
  Issue, issue_at, no_class, async_on_data, has_issue, line_before, distinct_from, deduplicated,
}
use mqs_backtest_visualizer.Scan.Contract.{contract_issues}
use mqs_backtest_visualizer.Scan.Indicators.{indicator_issues}
use mqs_backtest_visualizer.Scan.Check.{check_tree, check_compatibility}
use mqs_backtest_visualizer.Scan.Distinct.{Distinct, deduplicated_lem}
use mqs_backtest_visualizer.Scan.Closure.{IsStrategy, strategy_names_lem, strategy_names-closed}
use mqs_backtest_visualizer.Scan.Verdict.{scan_tree-Throughout, check_tree-scan_tree}
use mqs_backtest_visualizer.Scan.Told.{Told, scan_source-Told}

abbrev class_of : String → String → ℕ → Node
class_of own base line = node (class_def own) line (
    child bases (node (name base) line end)
      (child body (node (function_def false "OnData" 2 false) line end) end))

-- `class Last(Middle)` above `class Middle(BasePortfolio)`
abbrev chain : List Node
chain = class_of "Last" "Middle" 1 ∷ class_of "Middle" "BasePortfolio" 3 ∷ []

abbrev good_tree : Node
good_tree = node other 0 (child body (class_of "Momentum" "BasePortfolio" 1) end)

-- `os.system` in the class's file
abbrev bad_tree : Node
bad_tree = node other 0 (
    child body
      (node call 2 (
        child func (node (attribute "system" false) 2 (child value (node (name "os") 2 end) end))
          end))
      end)

abbrev parse_bad : String → Result ℕ Node
parse_bad source = ok bad_tree

chain_is_found : strategy_names chain ≡ "Middle" ∷ "Last" ∷ []
unfolding strategy_names close_names
chain_is_found = refl

good_is_named : scan_tree good_tree ≡ ok "Momentum"
unfolding walk walk_from size strategy_class_nodes strategy_names close_names
good_is_named = refl

bad_is_refused : scan_source parse_bad "os.system" ≡ err (violates 2 (bad_module "os" "system"))
unfolding scan_source walk walk_from size strategy_class_nodes strategy_names close_names
bad_is_refused = refl

strategy_names_lem_example :
    (has_name "Last" (strategy_names chain) ≡ true) ↔ IsStrategy chain "Last"
strategy_names_lem_example = strategy_names_lem chain "Last"

strategy_names-closed_example : grown_names chain (strategy_names chain) ≡ []
strategy_names-closed_example = strategy_names-closed chain

scan_tree-Throughout_example : (scan_tree good_tree ≡ ok "Momentum") ↔ (
    Throughout (λ m. violation m ≡ none) good_tree
    × ((c : Node) × (strategy_class_nodes good_tree ≡ c ∷ []) × (class_name c ≡ "Momentum")))
scan_tree-Throughout_example = scan_tree-Throughout good_tree "Momentum"

check_tree-scan_tree_example :
    ((check_tree ("SimpleMovingAverage" ∷ []) good_tree).compatible ≡ true) ↔ (
      (c : Node) × (strategy_class_nodes good_tree ≡ c ∷ [])
      × (scan_tree good_tree ≡ ok (class_name c))
      × (contract_issues c ≡ [])
      × (indicator_issues ("SimpleMovingAverage" ∷ []) c ≡ []))
check_tree-scan_tree_example = check_tree-scan_tree ("SimpleMovingAverage" ∷ []) good_tree

scan_source-Told_example :
    Told
      (violates 2 (bad_module "os" "system"))
      (check_compatibility parse_bad [] "os.system").issues
scan_source-Told_example =
    scan_source-Told parse_bad [] "os.system" (violates 2 (bad_module "os" "system")) bad_is_refused

abbrev repeated : List Issue
repeated = issue_at 4 async_on_data ∷ issue_at 0 no_class ∷ issue_at 4 async_on_data ∷ []

repeated_once : deduplicated repeated ≡ issue_at 0 no_class ∷ issue_at 4 async_on_data ∷ []
unfolding sort insert distinct_from
repeated_once = refl

deduplicated_lem_example :
    IsSorted line_before (deduplicated repeated)
    × Distinct (deduplicated repeated)
    × ((i : Issue) → has_issue i (deduplicated repeated) ≡ has_issue i repeated)
deduplicated_lem_example = deduplicated_lem repeated
