-- ===== src/Scan/Told.antt =====
-- What `scan_source` refuses, `check_compatibility` reports
-- (src/services/strategy_validation/scanning.py).
use Prim.Native.String.{String}
use mqs_backtest_visualizer.Prelude.{
  ℕ, ◌≡◌, refl, sym, ◌∙◌, ap, subst, inl, inr, true, Option, none, some, Option-cases, List, [],
  ◌∷◌, ◌++◌, ◌||◌, Result, ok, err, map, arith, Result-cases,
}
use mqs_backtest_visualizer.Scan.Tree.{Node, line_of, walk}
use mqs_backtest_visualizer.Scan.Rules.{Violation, violation}
use mqs_backtest_visualizer.Scan.Classes.{
  Refusal, not_python, violates, no_strategy, many_strategies, class_name, strategy_class_nodes,
  sole_name, first_violation, refuse_or_name, scan_tree, scan_source,
}
use mqs_backtest_visualizer.Scan.Issues.{
  Issue, issue_at, invalid_python, refused, no_class, many_classes, has_issue, deduplicated,
}
use mqs_backtest_visualizer.Scan.Check.{
  report_of, violation_issues, class_issues, all_issues, check_tree, check_compatibility,
}
use mqs_backtest_visualizer.Scan.Distinct.{has_issue-deduplicated}
use mqs_backtest_visualizer.Scan.Verdict.{has_issue-head}

-- The complaint that says why the scan refuses is among those given.
abbrev pub Told : Refusal → List Issue → Type 0
Told (not_python l) is = has_issue (issue_at l invalid_python) is ≡ true
Told (violates l v) is = has_issue (issue_at l (refused v)) is ≡ true
Told no_strategy is = has_issue (issue_at 0 no_class) is ≡ true
Told (many_strategies names) is = (l : ℕ) × (has_issue (issue_at l (many_classes names)) is ≡ true)

has_issue-append :
    (i : Issue) (xs ys : List Issue) → has_issue i (xs ++ ys) ≡ has_issue i xs || has_issue i ys
has_issue-append i [] ys = refl
has_issue-append i (x ∷ xs) ys = ground (arith, has_issue-append i xs ys)

abbrev issue_of : Option (ℕ × Violation) → Issue
issue_of none = issue_at 0 no_class
issue_of (some (l, v)) = issue_at l (refused v)

issue_of-first_violation :
    (n : Node) (ns : List Node) (w : Violation)
    → violation n ≡ some w
    → issue_of (first_violation (n ∷ ns)) ≡ issue_at (line_of n) (refused w)
issue_of-first_violation n ns w e = rw (e, first_violation) refl

first_violation-later :
    (n : Node) (ns : List Node) → violation n ≡ none → first_violation ns ≡ first_violation (n ∷ ns)
first_violation-later n ns e = rw (e, first_violation) refl

first_violation-Told :
    (ns : List Node) (l : ℕ) (v : Violation)
    → first_violation ns ≡ some (l, v)
    → has_issue (issue_at l (refused v)) (violation_issues ns) ≡ true
first_violation-Told [] l v h = cc
first_violation-Told (n ∷ ns) l v h = elim (Option-cases (violation n)) [
  | inl e ↦
      rw (e, violation_issues) (first_violation-Told ns l v (first_violation-later n ns e ∙ h))
  | inr (w, e) ↦
      let alike : issue_at (line_of n) (refused w) ≡ issue_at l (refused v) =
        sym (issue_of-first_violation n ns w e) ∙ ap issue_of h in
      rw (e, violation_issues)
        (subst (λ i. has_issue (issue_at l (refused v)) (i ∷ violation_issues ns) ≡ true)
          (sym alike) (has_issue-head (issue_at l (refused v)) (violation_issues ns)))
]

abbrev refused_by : Refusal → Result Refusal String
refused_by r = err r

same_refusal : (r s : Refusal) → refused_by r ≡ refused_by s → r ≡ s
same_refusal r s h = cc

sole_name-Told :
    (available : List String) (cs : List Node) (r : Refusal)
    → sole_name cs ≡ err r
    → Told r (class_issues available cs)
sole_name-Told available [] r h =
    subst (λ s. Told s (issue_at 0 no_class ∷ [])) (same_refusal no_strategy r h)
      (has_issue-head (issue_at 0 no_class) [])
sole_name-Told available (c ∷ []) r h = cc
sole_name-Told available (c ∷ d ∷ cs) r h =
    let names = map class_name (c ∷ d ∷ cs) in
    subst (λ s. Told s (issue_at (line_of d) (many_classes names) ∷ []))
      (same_refusal (many_strategies names) r h)
      (line_of d, has_issue-head (issue_at (line_of d) (many_classes names)) [])

Told-left : (r : Refusal) (xs ys : List Issue) → Told r xs → Told r (xs ++ ys)
Told-left (not_python l) xs ys h =
    ground (arith, has_issue-append (issue_at l invalid_python) xs ys)
Told-left (violates l v) xs ys h = ground (arith, has_issue-append (issue_at l (refused v)) xs ys)
Told-left no_strategy xs ys h = ground (arith, has_issue-append (issue_at 0 no_class) xs ys)
Told-left (many_strategies names) xs ys (l, h) =
    (l, ground (arith, has_issue-append (issue_at l (many_classes names)) xs ys))

Told-right : (r : Refusal) (xs ys : List Issue) → Told r ys → Told r (xs ++ ys)
Told-right (not_python l) xs ys h =
    ground (arith, has_issue-append (issue_at l invalid_python) xs ys)
Told-right (violates l v) xs ys h = ground (arith, has_issue-append (issue_at l (refused v)) xs ys)
Told-right no_strategy xs ys h = ground (arith, has_issue-append (issue_at 0 no_class) xs ys)
Told-right (many_strategies names) xs ys (l, h) =
    (l, ground (arith, has_issue-append (issue_at l (many_classes names)) xs ys))

Told-deduplicated : (r : Refusal) (is : List Issue) → Told r is → Told r (deduplicated is)
Told-deduplicated (not_python l) is h = has_issue-deduplicated (issue_at l invalid_python) is ∙ h
Told-deduplicated (violates l v) is h = has_issue-deduplicated (issue_at l (refused v)) is ∙ h
Told-deduplicated no_strategy is h = has_issue-deduplicated (issue_at 0 no_class) is ∙ h
Told-deduplicated (many_strategies names) is (l, h) =
    (l, has_issue-deduplicated (issue_at l (many_classes names)) is ∙ h)

refuse_or_name-Told :
    (available : List String) (ns cs : List Node) (r : Refusal) (found : Option (ℕ × Violation))
    → first_violation ns ≡ found
    → refuse_or_name found cs ≡ err r
    → Told r (violation_issues ns ++ class_issues available cs)
refuse_or_name-Told available ns cs r none e h =
    Told-right r (violation_issues ns) (class_issues available cs) (sole_name-Told available cs r h)
refuse_or_name-Told available ns cs r (some (l, v)) e h =
    Told-left r (violation_issues ns) (class_issues available cs) (
      subst (λ s. Told s (violation_issues ns)) (same_refusal (violates l v) r h)
        (first_violation-Told ns l v e))

module _ (parse : String → Result ℕ Node) (available : List String) where
  scan_source-parsed :
      (source : String) (tree : Node)
      → parse source ≡ ok tree
      → scan_source parse source ≡ scan_tree tree
  unfolding scan_source
  scan_source-parsed source tree e = rw (e, scan_source) refl

  scan_source-unparsed :
      (source : String) (l : ℕ)
      → parse source ≡ err l
      → scan_source parse source ≡ err (not_python l)
  unfolding scan_source
  scan_source-unparsed source l e = rw (e, scan_source) refl

  check_compatibility-parsed :
      (source : String) (tree : Node)
      → parse source ≡ ok tree
      → check_compatibility parse available source ≡ check_tree available tree
  unfolding check_compatibility
  check_compatibility-parsed source tree e = rw (e, check_compatibility) refl

  check_compatibility-unparsed :
      (source : String) (l : ℕ)
      → parse source ≡ err l
      → check_compatibility parse available source
        ≡ report_of none (issue_at l invalid_python ∷ []) []
  unfolding check_compatibility
  check_compatibility-unparsed source l e = rw (e, check_compatibility) refl

  scan_tree-Told :
      (tree : Node) (r : Refusal)
      → scan_tree tree ≡ err r
      → Told r (check_tree available tree).issues
  scan_tree-Told tree r h = Told-deduplicated r (all_issues available tree) (
      refuse_or_name-Told available (walk tree) (strategy_class_nodes tree) r
        (first_violation (walk tree)) refl h)

  -- Whatever the scan refuses a source for, the check reports: the same syntax error or violation
  -- at the same line, that there is no strategy class, or the same several classes.
  pub scan_source-Told :
      (source : String) (r : Refusal)
      → scan_source parse source ≡ err r
      → Told r (check_compatibility parse available source).issues
  unfolding scan_source check_compatibility
  scan_source-Told source r h = elim (Result-cases (parse source)) [
    | inl (tree, e) ↦
        subst (λ report. Told r report.issues) (sym (check_compatibility-parsed source tree e))
          (scan_tree-Told tree r (sym (scan_source-parsed source tree e) ∙ h))
    | inr (l, e) ↦
        subst (λ report. Told r report.issues) (sym (check_compatibility-unparsed source l e))
          (subst (λ s. Told s (issue_at l invalid_python ∷ []))
            (same_refusal (not_python l) r (sym (scan_source-unparsed source l e) ∙ h))
            (has_issue-head (issue_at l invalid_python) []))
  ]
