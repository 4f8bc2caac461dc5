-- ===== src/Scan/Verdict.antt =====
-- `scan_source` and `check_compatibility` (src/services/strategy_validation/scanning.py) compared:
-- what the upload scan accepts, and that the check passes and reports accordingly.
use Prim.Native.String.{String}
use mqs_backtest_visualizer.Prelude.{
  ℕ, ◌≡◌, refl, ◌∙◌, ◌↔◌, inl, inr, true, Option, none, some, Option-cases, List, [], ◌∷◌, ◌++◌, ok,
  All,
}
use mqs_backtest_visualizer.Prelude.Sort.{sort}
use mqs_backtest_visualizer.Scan.Tree.{Node, walk, Throughout, walk-Throughout}
use mqs_backtest_visualizer.Scan.Rules.{Violation, violation}
use mqs_backtest_visualizer.Scan.Classes.{
  class_name, strategy_class_nodes, sole_name, first_violation, refuse_or_name, scan_tree,
}
use mqs_backtest_visualizer.Scan.Issues.{Issue, has_issue, distinct_from, deduplicated}
use mqs_backtest_visualizer.Scan.Contract.{contract_issues}
use mqs_backtest_visualizer.Scan.Indicators.{indicator_issues}
use mqs_backtest_visualizer.Scan.Check.{
  is_empty, violation_issues, class_issues, all_issues, check_tree,
}
use mqs_backtest_visualizer.Scan.Distinct.{same_issue_refl, has_issue-deduplicated}

abbrev Allowed : Node → Type 0
Allowed n = violation n ≡ none

first_violation-All : (ns : List Node) → (first_violation ns ≡ none) ↔ All Allowed ns
first_violation-All [] = (λ h. tt, λ h. refl)
first_violation-All (n ∷ ns) = elim (Option-cases (violation n)) [
  | inl e ↦
      rw (e, first_violation)
        (λ h. (refl, (first_violation-All ns).0 h), λ h. (first_violation-All ns).1 h.1)
  | inr (v, e) ↦ rw (e, first_violation) (λ h. cc, λ h. cc)
]

sole_name-ok :
    (cs : List Node) (n : String)
    → (sole_name cs ≡ ok n) ↔ ((c : Node) × (cs ≡ c ∷ []) × (class_name c ≡ n))
sole_name-ok [] n = (λ h. cc, λ h. let (c, e, f) = h in cc)
sole_name-ok (c ∷ []) n = (λ h. (c, refl, cc), λ h. let (d, e, f) = h in cc)
sole_name-ok (c ∷ d ∷ cs) n = (λ h. cc, λ h. let (b, e, f) = h in cc)

refuse_or_name-ok :
    (found : Option (ℕ × Violation)) (cs : List Node) (n : String)
    → refuse_or_name found cs ≡ ok n
    → (found ≡ none) × (sole_name cs ≡ ok n)
refuse_or_name-ok none cs n h = (refl, h)
refuse_or_name-ok (some (l, v)) cs n h = cc

-- The scan accepts a file and names a class exactly if no node of the tree, at whatever depth, breaks a
-- rule, and the file has exactly one strategy class, which has that name.
pub scan_tree-Throughout :
    (tree : Node) (n : String)
    → (scan_tree tree ≡ ok n) ↔ (
        Throughout (λ m. violation m ≡ none) tree
        × ((c : Node) × (strategy_class_nodes tree ≡ c ∷ []) × (class_name c ≡ n)))
scan_tree-Throughout tree n = (
  λ h.
      let (free, sole) =
        refuse_or_name-ok (first_violation (walk tree)) (strategy_class_nodes tree) n h in
      (
        (walk-Throughout Allowed tree).0 ((first_violation-All (walk tree)).0 free),
        (sole_name-ok (strategy_class_nodes tree) n).0 sole,
      ),
  λ h.
      rw ((first_violation-All (walk tree)).1 ((walk-Throughout Allowed tree).1 h.0))
        ((sole_name-ok (strategy_class_nodes tree) n).1 h.1),
)

violation_issues-All : (ns : List Node) → (violation_issues ns ≡ []) ↔ All Allowed ns
violation_issues-All [] = (λ h. tt, λ h. refl)
violation_issues-All (n ∷ ns) = elim (Option-cases (violation n)) [
  | inl e ↦
      rw (e, violation_issues)
        (λ h. (refl, (violation_issues-All ns).0 h), λ h. (violation_issues-All ns).1 h.1)
  | inr (v, e) ↦ rw (e, violation_issues) (λ h. cc, λ h. cc)
]

append-nil : (xs ys : List Issue) → xs ++ ys ≡ [] → (xs ≡ []) × (ys ≡ [])
append-nil [] ys h = (refl, h)
append-nil (x ∷ xs) ys h = cc

is_empty-nil : (is : List Issue) → is_empty is ≡ true → is ≡ []
is_empty-nil [] h = refl
is_empty-nil (i ∷ is) h = cc

pub has_issue-head : (i : Issue) (is : List Issue) → has_issue i (i ∷ is) ≡ true
has_issue-head i is = rw (same_issue_refl i) refl

is_empty-deduplicated : (is : List Issue) → is_empty (deduplicated is) ≡ true → is ≡ []
is_empty-deduplicated [] h = refl
is_empty-deduplicated (i ∷ is) h =
    let none_left = is_empty-nil (deduplicated (i ∷ is)) h in
    let kept = has_issue-deduplicated i (i ∷ is) ∙ has_issue-head i is in
    absurd (lost i (deduplicated (i ∷ is)) none_left kept)
  where
    lost : (j : Issue) (js : List Issue) → js ≡ [] → has_issue j js ≡ true → ⊥
    lost j js e k = cc

class_issues-nil :
    (available : List String) (cs : List Node)
    → class_issues available cs ≡ []
    → (c : Node) × (cs ≡ c ∷ []) × (contract_issues c ≡ []) × (indicator_issues available c ≡ [])
class_issues-nil available [] h = cc
class_issues-nil available (c ∷ []) h =
    let (contract, indicators) = append-nil (contract_issues c) (indicator_issues available c) h in
    (c, refl, contract, indicators)
class_issues-nil available (c ∷ d ∷ cs) h = cc

-- A file that parses passes the check exactly if the scan accepts it with its one strategy class,
-- and that class keeps the engine's contract and names no indicator that is not there.
pub check_tree-scan_tree :
    (available : List String) (tree : Node)
    → ((check_tree available tree).compatible ≡ true) ↔ (
        (c : Node) × (strategy_class_nodes tree ≡ c ∷ [])
        × (scan_tree tree ≡ ok (class_name c))
        × (contract_issues c ≡ [])
        × (indicator_issues available c ≡ []))
unfolding sort distinct_from
check_tree-scan_tree available tree = (
  λ h.
      let (free, rest) =
        append-nil (violation_issues (walk tree))
          (class_issues available (strategy_class_nodes tree))
          (is_empty-deduplicated (all_issues available tree) h) in
      let (c, sole, contract, indicators) =
        class_issues-nil available (strategy_class_nodes tree) rest in
      let allowed = (walk-Throughout Allowed tree).0 ((violation_issues-All (walk tree)).0 free) in
      (
        c,
        sole,
        (scan_tree-Throughout tree (class_name c)).1 (allowed, (c, sole, refl)),
        contract,
        indicators,
      ),
  λ h.
      let (c, sole, accepted, contract, indicators) = h in
      let (allowed, others) = (scan_tree-Throughout tree (class_name c)).0 accepted in
      let free = (violation_issues-All (walk tree)).1 ((walk-Throughout Allowed tree).1 allowed) in
      rw (free, sole, contract, indicators, sort, distinct_from) refl,
)
