-- ===== src/Scan/Contract.antt =====
-- The engine's contract with a strategy class (src/services/strategy_validation/scanning.py):
-- `_contract_issues`, `_contract_warnings` and what they read of the class.
use Prim.Native.String.{String}
use text.Mathlib.Text.{◌==◌ as str_eq}
use mqs_backtest_visualizer.Prelude.{
  ℕ, ltb, Bool, true, false, Option, none, some, List, [], ◌∷◌, ◌++◌, ◌&&◌, ◌||◌, not,
  if◌then◌else◌,
}
use mqs_backtest_visualizer.Scan.Tree.{
  Node, Kind, name, attribute, function_def, assign, ann_assign, call, kind_of, line_of, field,
  body, targets, target, value, func, decorator_list, first_of, walk,
}
use mqs_backtest_visualizer.Scan.Classes.{class_name}
use mqs_backtest_visualizer.Scan.Issues.{
  Issue, issue_at, misspelled, no_on_data, async_on_data, few_arguments, no_super_init,
}

abbrev pub on_data_method : String
on_data_method = "OnData"

-- `ONDATA_MISSPELLINGS`, in one of the orders that a loop over the set may take
abbrev pub on_data_misspellings : List String
on_data_misspellings = "on_data" ∷ "ondata" ∷ "onData" ∷ "On_Data" ∷ []

abbrev pub defines : String → Kind → Bool
defines wanted (function_def asynchronous own positional vararg) = str_eq own wanted
defines wanted _ = false

abbrev pub first_defining : String → List Node → Option Node
first_defining wanted [] = none
first_defining wanted (n ∷ ns) =
    if defines wanted (kind_of n) then some n else first_defining wanted ns

-- `_method_named`
abbrev pub method_named : Node → String → Option Node
method_named strategy wanted = first_defining wanted (field body strategy)

abbrev pub is_name : String → Kind → Bool
is_name wanted (name s) = str_eq s wanted
is_name wanted _ = false

abbrev pub any_name : String → List Node → Bool
any_name wanted [] = false
any_name wanted (n ∷ ns) = is_name wanted (kind_of n) || any_name wanted ns

-- `_has_decorator`
abbrev pub has_decorator : Node → String → Bool
has_decorator method wanted = any_name wanted (field decorator_list method)

abbrev pub assigns : String → Node → Kind → Bool
assigns wanted n assign = any_name wanted (field targets n)
assigns wanted n ann_assign = any_name wanted (field target n)
assigns wanted n _ = false

abbrev pub any_assigns : String → List Node → Bool
any_assigns wanted [] = false
any_assigns wanted (n ∷ ns) = assigns wanted n (kind_of n) || any_assigns wanted ns

-- `_assigns_attribute`
abbrev pub assigns_attribute : Node → String → Bool
assigns_attribute strategy wanted = any_assigns wanted (field body strategy)

-- the first of the misspelled names that is a method
abbrev pub first_misspelled : Node → List String → Option Node
first_misspelled strategy [] = none
first_misspelled strategy (m ∷ ms) = elim (method_named strategy m) [
  | some method ↦ some method
  | none ↦ first_misspelled strategy ms
]

abbrev pub function_name : Kind → String
function_name (function_def asynchronous own positional vararg) = own
function_name _ = ""

abbrev pub is_async : Kind → Bool
is_async (function_def asynchronous own positional vararg) = asynchronous
is_async _ = false

-- how many of the positional arguments there are, and whether `*args` takes the rest
abbrev pub positional_count : Kind → ℕ
positional_count (function_def asynchronous own positional vararg) = positional
positional_count _ = 0

abbrev pub has_vararg : Kind → Bool
has_vararg (function_def asynchronous own positional vararg) = vararg
has_vararg _ = false

abbrev pub required_count : Node → ℕ
required_count method = if has_decorator method "staticmethod" then 1 else 2

abbrev pub async_issues : Node → List Issue
async_issues method =
    if is_async (kind_of method) then issue_at (line_of method) (async_on_data) ∷ [] else []

abbrev pub too_few : Node → Bool
too_few method =
    ltb (positional_count (kind_of method)) (required_count method)
    && not (has_vararg (kind_of method))

abbrev pub argument_issues : Node → List Issue
argument_issues method =
    if too_few method
    then issue_at (line_of method)
        (few_arguments (required_count method) (positional_count (kind_of method)))
      ∷ []
    else []

abbrev pub missing_issue : Node → Option Node → Issue
missing_issue strategy (some method) =
    issue_at (line_of method) (misspelled (class_name strategy) (function_name (kind_of method)))
missing_issue strategy none = issue_at (line_of strategy) (no_on_data (class_name strategy))

-- `_contract_issues`
abbrev pub contract_issues : Node → List Issue
contract_issues strategy = elim (method_named strategy on_data_method) [
  | none ↦
      if assigns_attribute strategy on_data_method
      then []
      else missing_issue strategy (first_misspelled strategy on_data_misspellings) ∷ []
  | some method ↦ async_issues method ++ argument_issues method
]

abbrev pub is_call : Kind → Bool
is_call call = true
is_call _ = false

-- the node is a call of the name
abbrev pub calls_name : String → Option Node → Bool
calls_name wanted none = false
calls_name wanted (some n) = is_call (kind_of n) && any_name wanted (field func n)

abbrev pub is_attribute : String → Kind → Bool
is_attribute wanted (attribute attr store) = str_eq attr wanted
is_attribute wanted _ = false

abbrev pub super_init_func : Option Node → Bool
super_init_func none = false
super_init_func (some f) =
    is_attribute "__init__" (kind_of f) && calls_name "super" (first_of (field value f))

abbrev pub is_super_init : Node → Bool
is_super_init n = is_call (kind_of n) && super_init_func (first_of (field func n))

abbrev pub any_super_init : List Node → Bool
any_super_init [] = false
any_super_init (n ∷ ns) = is_super_init n || any_super_init ns

-- `_calls_super_init`
abbrev pub calls_super_init : Node → Bool
calls_super_init initializer = any_super_init (walk initializer)

-- `_contract_warnings`
abbrev pub contract_warnings : Node → List Issue
contract_warnings strategy = elim (method_named strategy "__init__") [
  | none ↦ []
  | some initializer ↦
      if calls_super_init initializer
      then []
      else issue_at (line_of initializer) (no_super_init (class_name strategy)) ∷ []
]
