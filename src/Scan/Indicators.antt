-- ===== src/Scan/Indicators.antt =====
-- The indicators that a strategy names (src/services/strategy_validation/scanning.py): the literals the
-- scan finds and `_indicator_issues`.
use Prim.Native.String.{String}
use text.Mathlib.Text.{◌==◌ as str_eq}
use mqs_backtest_visualizer.Prelude.{
  Bool, true, false, Option, none, some, List, [], ◌∷◌, ◌++◌, if◌then◌else◌,
}
use mqs_backtest_visualizer.Prelude.Names.{has_name}
use mqs_backtest_visualizer.Scan.Tree.{
  Node, Kind, attribute, text_constant, assign, ann_assign, dict, tuple, kind_of, line_of, field,
  body, targets, target, value, values, func, args, elts, first_of, walk,
}
use mqs_backtest_visualizer.Scan.Contract.{any_name, is_call}
use mqs_backtest_visualizer.Scan.Issues.{Issue, issue_at, unknown_indicator}

-- `_is_str`
abbrev pub is_str : Kind → Bool
is_str (text_constant s) = true
is_str _ = false

abbrev pub text_of_kind : Kind → String
text_of_kind (text_constant s) = s
text_of_kind _ = ""

-- `name_node.value`
abbrev pub text_of : Node → String
text_of n = text_of_kind (kind_of n)

abbrev pub str_node : Option Node → List Node
str_node none = []
str_node (some n) = if is_str (kind_of n) then n ∷ [] else []

abbrev pub tuple_head : Node → Kind → List Node
tuple_head n tuple = str_node (first_of (field elts n))
tuple_head n _ = []

-- the first elements of the tuples among the values of a dict
abbrev pub tuple_heads : List Node → List Node
tuple_heads [] = []
tuple_heads (n ∷ ns) = tuple_head n (kind_of n) ++ tuple_heads ns

abbrev pub dict_heads : Node → Kind → List Node
dict_heads n dict = tuple_heads (field values n)
dict_heads n _ = []

abbrev pub value_heads : Option Node → List Node
value_heads none = []
value_heads (some n) = dict_heads n (kind_of n)

abbrev pub bound_targets : Node → Kind → List Node
bound_targets n assign = field targets n
bound_targets n ann_assign = field target n
bound_targets n _ = []

abbrev pub declared_in : List Node → List Node
declared_in [] = []
declared_in (n ∷ ns) =
    (if any_name "INDICATORS" (bound_targets n (kind_of n))
      then value_heads (first_of (field value n))
      else [])
    ++ declared_in ns

-- `_declared_indicator_nodes`
abbrev pub declared_indicator_nodes : Node → List Node
declared_indicator_nodes strategy = declared_in (field body strategy)

-- `func.attr if isinstance(func, ast.Attribute) else None`
abbrev pub called_attribute : Option Node → Option String
called_attribute none = none
called_attribute (some f) = elim (kind_of f) [ attribute attr store ↦ some attr | _ ↦ none ]

abbrev pub set_heads : List Node → List Node
set_heads [] = []
set_heads (n ∷ ns) = dict_heads n (kind_of n) ++ set_heads ns

abbrev pub call_nodes : Node → Option String → List Node
call_nodes n none = []
call_nodes n (some called) =
    if str_eq called "AddIndicator"
    then str_node (first_of (field args n))
    else if str_eq called "RegisterIndicatorSet"
    then set_heads (field args n)
    else []

-- `_indicator_name_nodes`
abbrev pub indicator_name_nodes : Node → List Node
indicator_name_nodes n =
    if is_call (kind_of n) then call_nodes n (called_attribute (first_of (field func n))) else []

abbrev pub called_in : List Node → List Node
called_in [] = []
called_in (n ∷ ns) = indicator_name_nodes n ++ called_in ns

-- `name_nodes`
abbrev pub name_nodes : Node → List Node
name_nodes strategy = declared_indicator_nodes strategy ++ called_in (walk strategy)

abbrev pub unknown_issues : List String → List Node → List Issue
unknown_issues available [] = []
unknown_issues available (n ∷ ns) =
    if has_name (text_of n) available
    then unknown_issues available ns
    else issue_at (line_of n) (unknown_indicator (text_of n)) ∷ unknown_issues available ns

-- `_indicator_issues`; nothing is said where the engine's directory gives no indicator
abbrev pub indicator_issues : List String → Node → List Issue
indicator_issues [] strategy = []
indicator_issues (a ∷ available) strategy = unknown_issues (a ∷ available) (name_nodes strategy)
