-- ===== src/Scan/Tree.antt =====
-- What src/services/strategy_validation/scanning.py reads of Python's syntax trees: a node has a
-- kind, a line, and children under the names of its fields, in the order of `_fields`. `ast.parse`
-- itself is a parameter of the scan; `ast.walk` is breadth first.
use Prim.Native.String.{String}
use mqs_backtest_visualizer.Prelude.{
  ℕ, zero, suc, ◌+◌, ◌≤◌, ◌≡◌, refl, ◌↔◌, Bool, true, false, Option, none, some, List, [], ◌∷◌,
  ◌++◌, arith, All, All-append, All-split, if◌then◌else◌,
}

-- The fields that the scan looks at; `other_field` is any other.
pub data Field : Type 0 where
  bases body targets target value func args values elts decorator_list other_field : Field

-- A node's class with its own strings and numbers; every class that no rule asks for is `other`.
pub data Kind : Type 0 where
  -- the names of the aliases
  import_ : List String → Kind
  -- the level, and the module
  import_from : ℕ → Option String → Kind
  name : String → Kind
  -- the attribute, and whether the context is a store
  attribute : String → Bool → Kind
  text_constant : String → Kind
  class_def : String → Kind
  -- whether it is async, the name, the positional arguments, and whether there is a vararg
  function_def : Bool → String → ℕ → Bool → Kind
  assign ann_assign call dict tuple other : Kind

mutual
  pub data Node : Type 0 where
    node : Kind → ℕ → Children → Node

  pub data Children : Type 0 where
    end : Children
    child : Field → Node → Children → Children

abbrev pub kind_of : Node → Kind
kind_of (node kind line children) = kind

-- `node.lineno`, 0 for a node without one
abbrev pub line_of : Node → ℕ
line_of (node kind line children) = line

abbrev pub children_of : Node → Children
children_of (node kind line children) = children

-- `ast.iter_child_nodes`
abbrev pub nodes_of : Children → List Node
nodes_of end = []
nodes_of (child f n children) = n ∷ nodes_of children

abbrev pub same_field : Field → Field → Bool
same_field bases bases = true
same_field body body = true
same_field targets targets = true
same_field target target = true
same_field value value = true
same_field func func = true
same_field args args = true
same_field values values = true
same_field elts elts = true
same_field decorator_list decorator_list = true
same_field other_field other_field = true
same_field _ _ = false

abbrev pub in_field : Field → Children → List Node
in_field f end = []
in_field f (child g n children) =
    if same_field g f then n ∷ in_field f children else in_field f children

-- the children of a node under one field
abbrev pub field : Field → Node → List Node
field f n = in_field f (children_of n)

abbrev pub first_of {ℓ} : {A : Type ℓ} → List A → Option A
first_of [] = none
first_of (x ∷ xs) = some x

-- How many nodes there are, the node itself included.
unfoldable mutual
  pub size : Node → ℕ
  size (node kind line children) = suc (sizes children)

  pub sizes : Children → ℕ
  sizes end = 0
  sizes (child f n children) = size n + sizes children

abbrev pub queued : List Node → ℕ
queued [] = 0
queued (n ∷ queue) = size n + queued queue

-- The loop of `ast.walk`: the front of the queue leaves and its children join at the back.
unfoldable pub walk_from : ℕ → List Node → List Node
walk_from zero queue = []
walk_from (suc turns) [] = []
walk_from (suc turns) (n ∷ queue) = n ∷ walk_from turns (queue ++ nodes_of (children_of n))

-- A turn takes one node off the queue for good, so that the nodes of the tree are turns enough.
unfoldable pub walk : Node → List Node
unfolding walk_from size
walk tree = walk_from (size tree) (tree ∷ [])

queued-append : (xs ys : List Node) → queued (xs ++ ys) ≡ queued xs + queued ys
queued-append [] ys = omega arith
queued-append (x ∷ xs) ys = omega (arith, queued-append xs ys)

queued-nodes : (children : Children) → queued (nodes_of children) ≡ sizes children
unfolding size
queued-nodes end = refl
queued-nodes (child f n children) = omega (arith, queued-nodes children)

module _ (P : Node → Type 0) where
  -- A predicate of every node of a tree, from the top down.
  mutual
    pub data Throughout : Node → Type 0 where
      at :
          {kind : Kind} {line : ℕ} {children : Children}
          → P (node kind line children)
          → Below children
          → Throughout (node kind line children)

    pub data Below : Children → Type 0 where
      nothing : Below end
      both :
          {f : Field} {n : Node} {children : Children}
          → Throughout n
          → Below children
          → Below (child f n children)

  Below-nodes : (children : Children) → All Throughout (nodes_of children) → Below children
  Below-nodes end h = nothing
  Below-nodes (child f n children) h = both h.0 (Below-nodes children h.1)

  nodes-Below : (children : Children) → Below children → All Throughout (nodes_of children)
  nodes-Below end h = tt
  nodes-Below (child f n children) (both t b) = (t, nodes-Below children b)

  walk_from_sound :
      (turns : ℕ) (queue : List Node)
      → queued queue ≤ turns
      → All P (walk_from turns queue)
      → All Throughout queue
  unfolding walk_from size
  walk_from_sound turns [] b h = tt
  walk_from_sound zero (node kind line children ∷ queue) b h = absurd (omega arith)
  walk_from_sound (suc turns) (node kind line children ∷ queue) b h =
      let next = queue ++ nodes_of children in
      let fewer : queued next ≤ turns =
        omega (arith, queued-append queue (nodes_of children), queued-nodes children) in
      let (rest, below) =
        All-split Throughout queue (nodes_of children) (walk_from_sound turns next fewer h.1) in
      (at h.0 (Below-nodes children below), rest)

  walk_from_complete :
      (turns : ℕ) (queue : List Node) → All Throughout queue → All P (walk_from turns queue)
  unfolding walk_from
  walk_from_complete zero queue h = tt
  walk_from_complete (suc turns) [] h = tt
  walk_from_complete (suc turns) (node kind line children ∷ queue) (at p below, rest) = (
    p,
    walk_from_complete turns (queue ++ nodes_of children)
        (All-append Throughout queue (nodes_of children) rest (nodes-Below children below)),
  )

  -- A predicate holds of all that `ast.walk` yields exactly if it holds throughout the tree.
  pub walk-Throughout : (tree : Node) → All P (walk tree) ↔ Throughout tree
  unfolding walk size
  walk-Throughout tree = (
    λ h. (walk_from_sound (size tree) (tree ∷ []) (omega arith) h).0,
    λ h. walk_from_complete (size tree) (tree ∷ []) (h, tt),
  )
