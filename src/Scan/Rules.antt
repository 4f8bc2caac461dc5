-- ===== src/Scan/Rules.antt =====
-- What an upload may not name (src/services/strategy_validation/scanning.py, `_violation`). A refusal
-- keeps what its sentence names.
use Prim.Native.Char.{code}
use Prim.Native.String.{String}
use mqs_backtest_visualizer.Prelude.{Option, none, some, List, [], ◌∷◌, ◌==◌, ltb, if◌then◌else◌}
use mqs_backtest_visualizer.Prelude.Names.{has_name}
use mqs_backtest_visualizer.Scan.Tree.{
  Node, Kind, import_, import_from, name, attribute, kind_of, field, value, first_of,
}

abbrev pub allowed_import_roots : List String
allowed_import_roots =
    "engine" ∷ "pandas" ∷ "numpy" ∷ "math" ∷ "datetime" ∷ "typing" ∷ "collections" ∷ "statistics"
    ∷ "logging" ∷ []

abbrev pub banned_names : List String
banned_names = "exec" ∷ "eval" ∷ "compile" ∷ "__import__" ∷ "open" ∷ "input" ∷ "breakpoint" ∷ []

abbrev pub banned_module_roots : List String
banned_module_roots =
    "os" ∷ "sys" ∷ "subprocess" ∷ "shutil" ∷ "socket" ∷ "requests" ∷ "urllib" ∷ "importlib"
    ∷ "builtins" ∷ "ctypes" ∷ "pickle" ∷ "pathlib" ∷ []

abbrev pub banned_attributes : List String
banned_attributes =
    "__globals__" ∷ "__builtins__" ∷ "__subclasses__" ∷ "__code__" ∷ "__loader__" ∷ "__mro__"
    ∷ "__import__" ∷ []

abbrev pub base_class_name : String
base_class_name = "BasePortfolio"

pub data Violation : Type 0 where
  bad_import : String → Violation
  relative_import : Violation
  bad_name : String → Violation
  bad_attribute : String → Violation
  bad_module : String → String → Violation

-- `module.split(".")[0]`
unfoldable pub root_of : String → String
root_of String.[] = ""
root_of (String.◌∷◌ c s) = if code c == 46 then "" else String.◌∷◌ c (root_of s)

-- the loop over the aliases of an import
abbrev pub import_violation : List String → Option Violation
import_violation [] = none
import_violation (n ∷ names) =
    if has_name (root_of n) allowed_import_roots
    then import_violation names
    else some (bad_import n)

abbrev pub or_empty : Option String → String
or_empty none = ""
or_empty (some s) = s

-- the name that an attribute is taken of, if it is taken of a name
abbrev pub owner_name : Option Node → Option String
owner_name none = none
owner_name (some n) = elim (kind_of n) [ name s ↦ some s | _ ↦ none ]

abbrev pub module_violation : String → Option String → Option Violation
module_violation attr none = none
module_violation attr (some owner) =
    if has_name owner banned_module_roots then some (bad_module owner attr) else none

abbrev pub kind_violation : Node → Kind → Option Violation
kind_violation n (import_ names) = import_violation names
kind_violation n (import_from level origin) =
    if ltb 0 level
    then some relative_import
    else if has_name (root_of (or_empty origin)) allowed_import_roots
    then none
    else some (bad_import (or_empty origin))
kind_violation n (name s) = if has_name s banned_names then some (bad_name s) else none
kind_violation n (attribute attr store) =
    if has_name attr banned_attributes
    then some (bad_attribute attr)
    else module_violation attr (owner_name (first_of (field value n)))
kind_violation n _ = none

-- `_violation`
abbrev pub violation : Node → Option Violation
violation n = kind_violation n (kind_of n)
