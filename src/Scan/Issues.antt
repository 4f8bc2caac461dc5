-- ===== src/Scan/Issues.antt =====
-- The complaints of the compatibility check (src/services/strategy_validation/scanning.py) and
-- `_deduplicated`. A message keeps what its sentence names, so that two messages are equal exactly if
-- their sentences are.
use Prim.Native.String.{String}
use text.Mathlib.Text.{◌==◌ as str_eq}
use mqs_backtest_visualizer.Prelude.{ℕ, ◌==◌, leb, Bool, true, false, List, [], ◌∷◌, ◌&&◌, ◌||◌}
use mqs_backtest_visualizer.Prelude.Sort.{sort}
use mqs_backtest_visualizer.Scan.Rules.{
  Violation, bad_import, relative_import, bad_name, bad_attribute, bad_module,
}

pub data Message : Type 0 where
  invalid_python : Message
  refused : Violation → Message
  no_class : Message
  many_classes : List String → Message
  -- the class, and the method that is there
  misspelled : String → String → Message
  no_on_data : String → Message
  async_on_data : Message
  -- how many arguments are needed, and how many there are
  few_arguments : ℕ → ℕ → Message
  unknown_indicator : String → Message
  no_super_init : String → Message

-- `CompatibilityIssue`
pub record Issue : Type 0 where
  pub line : ℕ
  pub message : Message

abbrev pub issue_at : ℕ → Message → Issue
issue_at line message = record { line = line; message = message }

abbrev pub same_names : List String → List String → Bool
same_names [] [] = true
same_names (x ∷ xs) (y ∷ ys) = str_eq x y && same_names xs ys
same_names _ _ = false

abbrev pub same_violation : Violation → Violation → Bool
same_violation (bad_import a) (bad_import b) = str_eq a b
same_violation relative_import relative_import = true
same_violation (bad_name a) (bad_name b) = str_eq a b
same_violation (bad_attribute a) (bad_attribute b) = str_eq a b
same_violation (bad_module a c) (bad_module b d) = str_eq a b && str_eq c d
same_violation _ _ = false

abbrev pub same_message : Message → Message → Bool
same_message invalid_python invalid_python = true
same_message (refused v) (refused w) = same_violation v w
same_message no_class no_class = true
same_message (many_classes a) (many_classes b) = same_names a b
same_message (misspelled a c) (misspelled b d) = str_eq a b && str_eq c d
same_message (no_on_data a) (no_on_data b) = str_eq a b
same_message async_on_data async_on_data = true
same_message (few_arguments a c) (few_arguments b d) = (a == b) && (c == d)
same_message (unknown_indicator a) (unknown_indicator b) = str_eq a b
same_message (no_super_init a) (no_super_init b) = str_eq a b
same_message _ _ = false

-- equality of the markers
abbrev pub same_issue : Issue → Issue → Bool
same_issue a b = (a.line == b.line) && same_message a.message b.message

-- `marker in seen`
abbrev pub has_issue : Issue → List Issue → Bool
has_issue i [] = false
has_issue i (j ∷ js) = same_issue i j || has_issue i js

-- the loop that collects `unique`
unfoldable pub distinct_from : List Issue → List Issue → List Issue
distinct_from seen [] = []
distinct_from seen (i ∷ is) = elim (has_issue i seen) [
  | true ↦ distinct_from seen is
  | false ↦ i ∷ distinct_from (i ∷ seen) is
]

abbrev pub line_before : Issue → Issue → Bool
line_before a b = leb a.line b.line

-- `_deduplicated`
abbrev pub deduplicated : List Issue → List Issue
deduplicated issues = sort line_before (distinct_from [] issues)
