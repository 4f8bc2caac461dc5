-- ===== src/Scan/Classes.antt =====
-- The strategy classes of a file and `scan_source` (src/services/strategy_validation/scanning.py).
use Prim.Native.String.{String}
use text.Mathlib.Text.{◌==◌ as str_eq}
use mqs_backtest_visualizer.Prelude.{
  ℕ, zero, suc, Bool, true, false, Option, none, some, List, [], ◌∷◌, ◌++◌, ◌&&◌, ◌||◌, not,
  if◌then◌else◌, Result, ok, err, length, map,
}
use mqs_backtest_visualizer.Prelude.Names.{has_name}
use mqs_backtest_visualizer.Scan.Tree.{
  Node, Kind, class_def, name, attribute, kind_of, line_of, field, bases, walk,
}
use mqs_backtest_visualizer.Scan.Rules.{Violation, violation, base_class_name}

abbrev pub is_class : Kind → Bool
is_class (class_def n) = true
is_class _ = false

abbrev pub name_of_kind : Kind → String
name_of_kind (class_def n) = n
name_of_kind _ = ""

-- `node.name` of a class
abbrev pub class_name : Node → String
class_name n = name_of_kind (kind_of n)

abbrev pub is_base : Kind → Bool
is_base (name s) = str_eq s base_class_name
is_base (attribute attr store) = str_eq attr base_class_name
is_base _ = false

abbrev pub any_base : List Node → Bool
any_base [] = false
any_base (n ∷ ns) = is_base (kind_of n) || any_base ns

-- `_extends_base_portfolio`
abbrev pub extends_base_portfolio : Node → Bool
extends_base_portfolio n = any_base (field bases n)

abbrev pub named_in : List String → Kind → Bool
named_in names (name s) = has_name s names
named_in names _ = false

abbrev pub any_named_in : List String → List Node → Bool
any_named_in names [] = false
any_named_in names (n ∷ ns) = named_in names (kind_of n) || any_named_in names ns

-- the test of `grown`
abbrev pub extends_one_of : List String → Node → Bool
extends_one_of names n = not (has_name (class_name n) names) && any_named_in names (field bases n)

-- `[node.name for node in classes if ...]`
abbrev pub names_where : (Node → Bool) → List Node → List String
names_where test [] = []
names_where test (n ∷ ns) =
    if test n then class_name n ∷ names_where test ns else names_where test ns

abbrev pub nodes_where : (Node → Bool) → List Node → List Node
nodes_where test [] = []
nodes_where test (n ∷ ns) = if test n then n ∷ nodes_where test ns else nodes_where test ns

-- `grown`
abbrev pub grown_names : List Node → List String → List String
grown_names classes names = names_where (extends_one_of names) classes

-- The `while True` loop, which ends when no name is new; each turn but the last adds a class.
unfoldable pub close_names : ℕ → List Node → List String → List String
close_names zero classes names = names
close_names (suc turns) classes names = elim (grown_names classes names) [
  | [] ↦ names
  | g ∷ grown ↦ close_names turns classes (names ++ (g ∷ grown))
]

abbrev pub is_class_node : Node → Bool
is_class_node n = is_class (kind_of n)

-- `classes`
abbrev pub class_nodes : Node → List Node
class_nodes tree = nodes_where is_class_node (walk tree)

unfoldable pub strategy_names : List Node → List String
unfolding close_names
strategy_names classes =
    close_names (suc (length classes)) classes (names_where extends_base_portfolio classes)

-- `_strategy_class_nodes`
unfoldable pub strategy_class_nodes : Node → List Node
unfolding strategy_names
strategy_class_nodes tree =
    nodes_where (λ n. has_name (class_name n) (strategy_names (class_nodes tree)))
      (class_nodes tree)

-- why an upload is refused: the line of a syntax error, a violation with its line, or the classes
pub data Refusal : Type 0 where
  not_python : ℕ → Refusal
  violates : ℕ → Violation → Refusal
  no_strategy : Refusal
  many_strategies : List String → Refusal

abbrev pub sole_name : List Node → Result Refusal String
sole_name [] = err no_strategy
sole_name (n ∷ []) = ok (class_name n)
sole_name (n ∷ m ∷ ns) = err (many_strategies (map class_name (n ∷ m ∷ ns)))

-- the first violation of the walk
abbrev pub first_violation : List Node → Option (ℕ × Violation)
first_violation [] = none
first_violation (n ∷ ns) = elim (violation n) [
  | none ↦ first_violation ns
  | some v ↦ some (line_of n, v)
]

abbrev pub refuse_or_name : Option (ℕ × Violation) → List Node → Result Refusal String
refuse_or_name none classes = sole_name classes
refuse_or_name (some (line, v)) classes = err (violates line v)

abbrev pub scan_tree : Node → Result Refusal String
scan_tree tree = refuse_or_name (first_violation (walk tree)) (strategy_class_nodes tree)

module _ (parse : String → Result ℕ Node) where
  -- `scan_source`; `parse` is `ast.parse`, which gives the line of a syntax error
  unfoldable pub scan_source : String → Result Refusal String
  scan_source source = elim (parse source) [
    | err line ↦ err (not_python line)
    | ok tree ↦ scan_tree tree
  ]
