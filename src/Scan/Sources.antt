-- ===== src/Scan/Sources.antt =====
-- The readers of the engine's sources (src/services/strategy_validation/scanning.py):
-- `known_indicators`, `indicator_sources`, `reserved_attributes`, `declared_indicators` and
-- `indicator_parameters`. The files of the engine's directory and `ast.literal_eval` are
-- parameters.
use Prim.Native.Char.{code}
use Prim.Native.String.{String}
use text.Mathlib.Text.{◌==◌ as str_eq}
use mqs_backtest_visualizer.Prelude.{
  ◌==◌, ltb, Bool, true, false, Option, none, some, List, [], ◌∷◌, ◌++◌, ◌&&◌, ◌||◌, not,
  if◌then◌else◌,
}
use mqs_backtest_visualizer.Prelude.Names.{has_name}
use mqs_backtest_visualizer.Prelude.Sort.{sort}
use mqs_backtest_visualizer.Scan.Tree.{
  Node, Kind, attribute, assign, ann_assign, function_def, name, kind_of, field, body, targets,
  target, value, func, args, first_of, walk,
}
use mqs_backtest_visualizer.Scan.Classes.{is_class, class_name}
use mqs_backtest_visualizer.Scan.Contract.{any_name, is_call, is_attribute}
use mqs_backtest_visualizer.Scan.Indicators.{is_str, text_of, value_heads}

-- a file of the engine's directory; `tree` is none where it cannot be read or parsed
pub record SourceFile : Type 0 where
  pub file_name : String
  pub text : String
  pub tree : Option Node

abbrev pub is_skipped : String → Bool
is_skipped file = str_eq file "__init__.py" || str_eq file "base.py"

abbrev pub top_classes : List Node → List String
top_classes [] = []
top_classes (n ∷ ns) =
    if is_class (kind_of n) && not (str_eq (class_name n) "Indicator")
    then class_name n ∷ top_classes ns
    else top_classes ns

abbrev pub tree_classes : Option Node → List String
tree_classes none = []
tree_classes (some tree) = top_classes (field body tree)

abbrev pub file_classes : SourceFile → List String
file_classes f = if is_skipped f.file_name then [] else tree_classes f.tree

-- `known_indicators`, of the files of the directory
abbrev pub known_indicators : List SourceFile → List String
known_indicators [] = []
known_indicators (f ∷ fs) = file_classes f ++ known_indicators fs

-- `sources[node.name] = text`, which replaces an entry of that name
abbrev pub put_source : String → String → List (String × String) → List (String × String)
put_source key text [] = (key, text) ∷ []
put_source key text ((k, t) ∷ sources) =
    if str_eq k key then (k, text) ∷ sources else (k, t) ∷ put_source key text sources

abbrev pub put_sources : String → List String → List (String × String) → List (String × String)
put_sources text [] sources = sources
put_sources text (n ∷ names) sources = put_sources text names (put_source n text sources)

abbrev pub sources_from : List SourceFile → List (String × String) → List (String × String)
sources_from [] sources = sources
sources_from (f ∷ fs) sources = sources_from fs (put_sources f.text (file_classes f) sources)

-- `indicator_sources`, of the files in the order of their paths
abbrev pub indicator_sources : List SourceFile → List (String × String)
indicator_sources files = sources_from files []

abbrev pub name_ids : List Node → List String
name_ids [] = []
name_ids (n ∷ ns) = elim (kind_of n) [ name s ↦ s ∷ name_ids ns | _ ↦ name_ids ns ]

abbrev pub member_names : Node → Kind → List String
member_names n (function_def asynchronous own positional vararg) = own ∷ []
member_names n assign = name_ids (field targets n)
member_names n ann_assign = name_ids (field target n)
member_names n _ = []

abbrev pub members_names : List Node → List String
members_names [] = []
members_names (n ∷ ns) = member_names n (kind_of n) ++ members_names ns

-- the names `self.<name>` that the class assigns
abbrev pub stored_name : Node → Kind → List String
stored_name n (attribute attr true) = if any_name "self" (field value n) then attr ∷ [] else []
stored_name n _ = []

abbrev pub stored_names : List Node → List String
stored_names [] = []
stored_names (n ∷ ns) = stored_name n (kind_of n) ++ stored_names ns

abbrev pub class_reserved : Node → List String
class_reserved c = members_names (field body c) ++ stored_names (walk c)

abbrev pub reserved_of : List Node → List String
reserved_of [] = []
reserved_of (n ∷ ns) =
    if is_class (kind_of n) && str_eq (class_name n) "BasePortfolio"
    then class_reserved n ++ reserved_of ns
    else reserved_of ns

-- `reserved_attributes`, of the tree of the base class's module, if there is one
abbrev pub reserved_attributes : Option Node → List String
reserved_attributes none = []
reserved_attributes (some tree) = reserved_of (field body tree)

-- a string is not after another, by code points
unfoldable pub text_leb : String → String → Bool
text_leb String.[] t = true
text_leb (String.◌∷◌ c s) String.[] = false
text_leb (String.◌∷◌ c s) (String.◌∷◌ d t) =
    ltb (code c) (code d) || ((code c == code d) && text_leb s t)

-- `set(names)`
abbrev pub as_set : List String → List String
as_set [] = []
as_set (n ∷ ns) = if has_name n ns then as_set ns else n ∷ as_set ns

abbrev pub texts_of : List Node → List String
texts_of [] = []
texts_of (n ∷ ns) = text_of n ∷ texts_of ns

abbrev pub declared_by : Node → Kind → List String
declared_by n assign =
    if any_name "INDICATORS" (field targets n)
    then texts_of (value_heads (first_of (field value n)))
    else []
declared_by n _ = []

abbrev pub all_declared : List Node → List String
all_declared [] = []
all_declared (n ∷ ns) = declared_by n (kind_of n) ++ all_declared ns

-- `declared_indicators`, of the parsed source, if it parses
abbrev pub declared_indicators : Option Node → List String
declared_indicators none = []
declared_indicators (some tree) = sort text_leb (as_set (all_declared (walk tree)))

abbrev pub takes_kwargs : Option Node → Bool
takes_kwargs none = false
takes_kwargs (some f) = is_attribute "get" (kind_of f) && any_name "kwargs" (field value f)

-- the key of a call `kwargs.get(key, ...)`, and the node of its default
abbrev pub key_of : List Node → Option (String × Option Node)
key_of [] = none
key_of (k ∷ rest) = if is_str (kind_of k) then some (text_of k, first_of rest) else none

abbrev pub parameter_key : Node → Option (String × Option Node)
parameter_key n =
    if is_call (kind_of n) && takes_kwargs (first_of (field func n))
    then key_of (field args n)
    else none

module _ {V : Type 0} (literal_eval : Node → Option V) where
  abbrev pub default_of : Option Node → Option V
  default_of none = none
  default_of (some n) = literal_eval n

  -- the loop over the walk, with the keys seen before
  unfoldable pub parameters_from : List String → List Node → List (String × Option V)
  parameters_from seen [] = []
  parameters_from seen (n ∷ ns) = elim (parameter_key n) [
    | none ↦ parameters_from seen ns
    | some (key, default) ↦ elim (has_name key seen) [
      | true ↦ parameters_from seen ns
      | false ↦ (key, default_of default) ∷ parameters_from (key ∷ seen) ns
    ]
  ]

  -- `indicator_parameters`; `literal_eval` is none where `ast.literal_eval` raises, whose value
  -- None the code does not tell from that
  abbrev pub indicator_parameters : Option Node → List (String × Option V)
  indicator_parameters none = []
  indicator_parameters (some tree) = parameters_from [] (walk tree)
